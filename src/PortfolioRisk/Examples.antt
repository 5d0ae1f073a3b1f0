-- ===== src/PortfolioRisk/Examples.antt =====
-- Concrete open risk.
use cautious_crypto_bro.Prelude.{◌≡◌, refl, false, none, some, [], ◌∷◌, All, arith}
use cautious_crypto_bro.Prelude.Result.{ok}
use cautious_crypto_bro.Text.{
  after_last, text, same_text, starts_with, prefix, upper, upper_char, lower,
}
use cautious_crypto_bro.Decimal.{Decimal, dec, decimal, add, sub, mul, abs}
use cautious_crypto_bro.Domain.Enums.{long}
use cautious_crypto_bro.Domain.Plan.Rules.{entry_orders}
use cautious_crypto_bro.Domain.Account.{
  AccountPosition, AccountOrder, AccountStateSummary, is_protective, kind,
}
use cautious_crypto_bro.Planner.Samples.{planned}
use cautious_crypto_bro.PortfolioRisk.Defs.{
  verified_position_stop_loss, position_risk, order_risk, entry_risk, open_stop_risk_usdt,
}
use cautious_crypto_bro.PortfolioRisk.Known.{HasStop, IsPlanned, open_stop_risk-IsKnown}
use cautious_crypto_bro.PortfolioRisk.Bounds.{IsNonneg, HasSize, open_stop_risk-IsNonneg}

abbrev position : AccountPosition
position = record {
  symbol = text "BTCUSDT";
  side = long;
  size = decimal 6 2;
  avg_price = dec 60000;
  mark_price = dec 60100;
  unrealised_pnl = dec 6;
  status = text "Normal";
  take_profit = none;
  stop_loss = some (dec 59000);
  break_even_price = none;
  trailing_stop = none;
}

abbrev scale_in : AccountOrder
scale_in = record {
  symbol = text "BTCUSDT";
  side = long;
  order_type = text "Limit";
  status = text "New";
  quantity = decimal 37 3;
  remaining_quantity = decimal 37 3;
  price = some (dec 59670);
  avg_price = none;
  order_id = text "1";
  order_link_id = text "ccb-v2-00112233445566778899-e2";
  reduce_only = false;
  updated_at = 1000;
  stop_order_type = [];
  create_type = [];
  trigger_price = none;
  close_on_trigger = false;
  parent_order_link_id = [];
  executed_quantity = dec 0;
}

abbrev state : AccountStateSummary
state = record { as_of = 1000; positions = position ∷ []; open_orders = scale_in ∷ [] }

-- 0.06 * 1000 + 0.037 * 670 = 84.79
measured : (total : Decimal) × (open_stop_risk_usdt state (planned.0 ∷ []) ≡ ok total)
unfolding open_stop_risk_usdt position_risk verified_position_stop_loss order_risk entry_risk
    after_last is_protective kind planned entry_orders starts_with same_text prefix upper upper_char
    lower add sub mul abs dec decimal
measured = (_, refl)

measured_value : measured.0 ≡ decimal 8479 2
unfolding measured decimal
measured_value = refl

open_stop_risk-IsKnown_example :
    All (HasStop state (planned.0 ∷ [])) (position ∷ [])
    × All (IsPlanned (planned.0 ∷ [])) (scale_in ∷ [])
open_stop_risk-IsKnown_example = open_stop_risk-IsKnown state (planned.0 ∷ []) measured.0 measured.1

position-HasSize : HasSize position
unfolding HasSize IsNonneg decimal
position-HasSize = omega arith

open_stop_risk-IsNonneg_example : IsNonneg measured.0
open_stop_risk-IsNonneg_example =
    open_stop_risk-IsNonneg state (planned.0 ∷ []) measured.0 (position-HasSize, tt) measured.1
