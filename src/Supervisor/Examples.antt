-- ===== src/Supervisor/Examples.antt =====
-- Runs of the supervisor on a sample position.
use cautious_crypto_bro.Prelude.{true, false, ◌≡◌, refl, none, some, [], ◌∷◌}
use cautious_crypto_bro.Prelude.Result.{ok}
use cautious_crypto_bro.Text.{text, same_text, prefix, lower, number_text}
use cautious_crypto_bro.Decimal.{
  dec, decimal, add, sub, mul, div, abs, half, sum, round_down, round_half_up, round_floor,
  opposite, one,
}
use cautious_crypto_bro.Program.Safe.{Safe}
use cautious_crypto_bro.Domain.Enums.{long, open_risk}
use cautious_crypto_bro.Domain.Strategy.{PositionStrategy}
use cautious_crypto_bro.Domain.Account.{AccountPosition, AccountOrder, AccountStateSummary}
use cautious_crypto_bro.Planner.Samples.{planned, context}
use cautious_crypto_bro.Supervisor.Ports.{Settings}
use cautious_crypto_bro.Supervisor.Orders.{or_value, divided, to_steps, owned_prefix, exit_link_id}
use cautious_crypto_bro.Supervisor.Fills.{Exits}
use cautious_crypto_bro.Supervisor.Targets.{
  exit_cap, resolve_target_rs, compute_exit_price, priced_exit, planned_exit, planned_legs,
  planned_exits,
}
use cautious_crypto_bro.Supervisor.Handoff.{handoff_partial_stops}
use cautious_crypto_bro.Supervisor.Pass.{reconcile_symbol}
use cautious_crypto_bro.Supervisor.Reconcile.{reconcile, fuel}
use cautious_crypto_bro.Supervisor.Fuel.{fuel_suffices}
use cautious_crypto_bro.Supervisor.Guard.{unseen, after, Any}
use cautious_crypto_bro.Supervisor.Guard.Claims.{
  OwnCall, ClosesFlat, PlacesRecorded, reconcile_symbol-IsOwn, closed_when_flat,
  placed_when_recorded,
}
use cautious_crypto_bro.Supervisor.FullStop.{HandoffRule, handoff-IsCovered}
use cautious_crypto_bro.Supervisor.Geometry.{AreFit, planned_exits-AreFit}

abbrev settings : Settings
settings = record { legacy_entry_ttl_minutes = 1440; render = λ reason. text "review" }

abbrev strategy : PositionStrategy
strategy = record {
  strategy_id = text "00112233445566778899aabbccddeeff";
  symbol = text "BTCUSDT";
  side = long;
  status = open_risk;
  entry_frozen = false;
  base_position_qty = none;
  last_position_qty = none;
  last_avg_price = none;
  tp1_done = false;
  tp2_done = false;
  tp3_done = false;
  trailing_active = false;
  protected_stop_loss = none;
  trailing_distance = none;
  exit_revision = 1;
  rebalance_needed = false;
  installing_exits = false;
  expected_exits = none;
  pause_reason = none;
  pause_notified = false;
  created_at = 5;
  updated_at = 5;
}

abbrev live : AccountPosition
live = record {
  symbol = text "BTCUSDT";
  side = long;
  size = decimal 6 2;
  avg_price = dec 60000;
  mark_price = dec 60100;
  unrealised_pnl = dec 6;
  status = text "Normal";
  take_profit = none;
  stop_loss = none;
  break_even_price = none;
  trailing_stop = none;
}

-- The stop that the exchange attached to the first entry.
abbrev partial_stop : AccountOrder
partial_stop = record {
  symbol = text "BTCUSDT";
  side = cautious_crypto_bro.Domain.Enums.short;
  order_type = text "Market";
  status = text "Untriggered";
  quantity = decimal 6 2;
  remaining_quantity = decimal 6 2;
  price = none;
  avg_price = none;
  order_id = text "7";
  order_link_id = [];
  reduce_only = true;
  updated_at = 1000;
  stop_order_type = text "PartialStopLoss";
  create_type = [];
  trigger_price = some planned.0.stop_loss;
  close_on_trigger = true;
  parent_order_link_id = text "ccb-v2-00112233445566778899-e1";
  executed_quantity = dec 0;
}

abbrev account : AccountStateSummary
account = record { as_of = 1000; positions = live ∷ []; open_orders = partial_stop ∷ [] }

reconcile_symbol-IsOwn_example :
    Safe
      (OwnCall strategy)
      after
      Any
      (λ g e. Unit)
      unseen
      (reconcile_symbol settings (text "BTCUSDT") ((strategy, planned.0) ∷ []) (some account))
reconcile_symbol-IsOwn_example =
    reconcile_symbol-IsOwn settings strategy planned.0 (text "BTCUSDT") (some account) refl

closed_when_flat_example :
    Safe ClosesFlat after Any
      (λ g e. Unit)
      unseen
      (reconcile_symbol settings (text "BTCUSDT") ((strategy, planned.0) ∷ []) (some account))
closed_when_flat_example =
    closed_when_flat settings strategy planned.0 (text "BTCUSDT") (some account) refl

placed_when_recorded_example :
    Safe PlacesRecorded after Any
      (λ g e. Unit)
      unseen
      (reconcile_symbol settings (text "BTCUSDT") ((strategy, planned.0) ∷ []) (some account))
placed_when_recorded_example =
    placed_when_recorded settings strategy planned.0 (text "BTCUSDT") (some account) refl

handoff-IsCovered_example :
    Safe
      (HandoffRule strategy (or_value strategy.protected_stop_loss planned.0.stop_loss))
      after
      Any
      (λ g e. Unit)
      unseen
      (handoff_partial_stops strategy planned.0 live account)
handoff-IsCovered_example = handoff-IsCovered strategy planned.0 live account

fuel_suffices_example :
    reconcile settings planned.0 5 strategy account
    ≡ reconcile settings planned.0 fuel strategy account
fuel_suffices_example = fuel_suffices settings planned.0 3 strategy account

exits : (exits : Exits) × (planned_exits strategy planned.0 live context ≡ ok exits)
unfolding planned_exits exit_cap resolve_target_rs planned_legs planned_exit priced_exit
    compute_exit_price divided to_steps exit_link_id owned_prefix planned add sub mul div abs half
    sum round_down round_half_up round_floor dec decimal opposite one same_text prefix number_text
    lower
exits = (_, refl)

planned_exits-AreFit_example : AreFit live context exits.0
planned_exits-AreFit_example = planned_exits-AreFit strategy planned.0 live context exits.1
