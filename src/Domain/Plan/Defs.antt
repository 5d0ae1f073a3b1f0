-- ===== src/Domain/Plan/Defs.antt =====
-- domain.py: planned orders, physical entry slices and execution plans.
use cautious_crypto_bro.Prelude.{
  ℕ, Bool, true, false, not, ◌&&◌, Option, none, some, is_some, if◌then◌else◌, List, ◌++◌, length,
  leb, ◌==◌,
}
use cautious_crypto_bro.Prelude.Int.{leb_ℤ}
use cautious_crypto_bro.Prelude.Result.{Result, ok, ◌>>◌, raise_if}
use cautious_crypto_bro.Text.{Text, text, number_text}
use cautious_crypto_bro.Decimal.{Decimal, is_positive, dec}
use cautious_crypto_bro.Domain.Invalid.{
  Invalid, out_of_bounds, market_order_with_price, limit_order_without_price, slice_fill_evidence,
}
use cautious_crypto_bro.Domain.Enums.{
  Side, ExecutionOrderType, is_market, StopLossSource, TakeProfitSource,
}
use cautious_crypto_bro.Domain.Signal.{none_or_positive}
use cautious_crypto_bro.Domain.Policy.{ExecutionPolicy}

pub record PlannedTakeProfit : Type 0 where
  pub name : Text
  pub price : Decimal
  pub close_pct : Decimal
  pub r_multiple : Decimal

-- The constraints of the fields of `PlannedTakeProfit`.
unfoldable pub validate_take_profit : PlannedTakeProfit → Result Invalid PlannedTakeProfit
validate_take_profit t = do
  raise_if
      (not (
        leb 1 (length t.name)
        && is_positive t.price
        && is_positive t.close_pct
        && leb_ℤ t.close_pct (dec 100)
        && is_positive t.r_multiple))
      out_of_bounds
  ok t

pub record PlannedOrder : Type 0 where
  pub name : Text
  pub risk_pct : Option Decimal
  pub order_type : ExecutionOrderType
  pub quantity : Decimal
  pub price : Option Decimal
  pub reference_price : Decimal
  pub take_profit : Option Decimal

abbrev pub risk_bound : Option Decimal → Bool
risk_bound none = true
risk_bound (some d) = is_positive d && leb_ℤ d (dec 100)

unfoldable pub order_bounds : PlannedOrder → Bool
order_bounds o =
    leb 1 (length o.name)
    && leb (length o.name) 20
    && risk_bound o.risk_pct
    && is_positive o.quantity
    && none_or_positive o.price
    && is_positive o.reference_price
    && none_or_positive o.take_profit

-- The constraints of the fields and `PlannedOrder.validate_shape`.
unfoldable pub validate_order : PlannedOrder → Result Invalid PlannedOrder
validate_order o = do
  raise_if (not (order_bounds o)) out_of_bounds
  if is_market o.order_type
      then raise_if (is_some o.price) market_order_with_price
      else raise_if (not (is_some o.price)) limit_order_without_price
  ok o

-- `Literal["E1", "E2", "E3"]`
pub data Leg : Type 0 where
  e1 e2 e3 : Leg

unfoldable pub leg_name : Leg → Text
leg_name e1 = text "E1"
leg_name e2 = text "E2"
leg_name e3 = text "E3"

pub record EntrySlice : Type 0 where
  pub leg : Leg
  pub index : ℕ
  pub quantity : Decimal
  pub filled_quantity : Option Decimal

abbrev is_primary : Leg → Bool
is_primary e1 = true
is_primary _ = false

unfoldable pub fill_bounded : EntrySlice → Option Decimal → Bool
fill_bounded s none = true
fill_bounded s (some filled) = is_primary s.leg && leb_ℤ filled s.quantity

abbrev pub none_or_natural : Option Decimal → Bool
none_or_natural none = true
none_or_natural (some d) = leb_ℤ (dec 0) d

-- The constraints of the fields and `EntrySlice.validate_fill`.
unfoldable pub validate_slice : EntrySlice → Result Invalid EntrySlice
validate_slice s = do
  raise_if (not (leb s.index 9999 && is_positive s.quantity && none_or_natural s.filled_quantity))
      out_of_bounds
  raise_if (not (fill_bounded s s.filled_quantity)) slice_fill_evidence
  ok s

-- `EntrySlice.name`
unfoldable pub slice_name : EntrySlice → Text
slice_name s =
    if s.index == 0 then leg_name s.leg else leg_name s.leg ++ text "c" ++ number_text s.index

pub record ExecutionPlan : Type 0 where
  pub strategy_version : ℕ
  pub intent_id : Text
  pub symbol : Text
  pub side : Side
  pub leverage : Decimal
  pub orders : List PlannedOrder
  pub entry_slices : List EntrySlice
  pub stop_loss : Decimal
  pub stop_loss_source : StopLossSource
  pub take_profit : Decimal
  pub take_profit_targets : List PlannedTakeProfit
  pub take_profit_source : TakeProfitSource
  pub trader_take_profit : Option Decimal
  pub runner_pct : Decimal
  pub policy : ExecutionPolicy
  pub planned_max_loss_usdt : Decimal
  pub created_at : ℕ
