-- ===== src/EntryLimits/Examples.antt =====
-- Concrete allocations.
use cautious_crypto_bro.Prelude.{
  suc, ◌+◌, ◌*◌, ◌/◌, ◌≤◌, ◌<◌, ◌≡◌, refl, none, some, List, [], ◌∷◌, arith, length, All,
}
use cautious_crypto_bro.Prelude.Result.{ok}
use cautious_crypto_bro.Text.{text, same_text}
use cautious_crypto_bro.Decimal.{dec, decimal, mul, div, round_down}
use cautious_crypto_bro.Domain.Enums.{ExecutionOrderType}
use cautious_crypto_bro.Domain.Plan.Defs.{PlannedOrder, EntrySlice, validate_slice, fill_bounded}
use cautious_crypto_bro.EntryLimits.Share.{share, slice_count, leg_ticks, total_of}
use cautious_crypto_bro.EntryLimits.Fair.{leg_ticks_fair}
use cautious_crypto_bro.EntryLimits.Defs.{
  Limits, allocate_leg, make_slices, leg_of, floor_quotient, whole_part,
}
use cautious_crypto_bro.EntryLimits.Capacity.{IsAdmitted, allocate_leg-IsAdmitted}

ten_by_four : leg_ticks 10 4 ≡ 4 ∷ 3 ∷ 3 ∷ []
unfolding leg_ticks slice_count share
ten_by_four = refl

leg_ticks_fair_example :
    (total_of (leg_ticks 10 4) ≡ 10)
    × All
        (λ t. (t ≤ 4) × (10 / slice_count 10 4 ≤ t) × (t ≤ suc (10 / slice_count 10 4)))
        (leg_ticks 10 4)
    × (length (leg_ticks 10 4) ≡ slice_count 10 4)
    × (4 * slice_count 10 4 < 10 + 4)
leg_ticks_fair_example = leg_ticks_fair 10 4 (omega arith) (omega arith)

abbrev limits : Limits
limits = record {
  step = decimal 1 3;
  minimum = decimal 1 3;
  notional = dec 5;
  market_max = decimal 4 3;
  limit_max = decimal 8 3;
}

abbrev leg : PlannedOrder
leg = record {
  name = text "E1";
  risk_pct = some (dec 60);
  order_type = ExecutionOrderType.market;
  quantity = decimal 1 2;
  price = none;
  reference_price = dec 60000;
  take_profit = none;
}

-- 0.01 in steps of 0.001 with at most 0.004 in a market order.
allocated : (slices : List EntrySlice) × (allocate_leg limits leg 0 ≡ ok slices)
unfolding allocate_leg leg_ticks slice_count share make_slices leg_of floor_quotient whole_part
    validate_slice fill_bounded same_text div mul round_down dec decimal
allocated = (_, refl)

allocate_leg-IsAdmitted_example :
    (0 + length allocated.0 ≤ 20)
    × (1 ≤ length allocated.0)
    × All (IsAdmitted limits leg) allocated.0
allocate_leg-IsAdmitted_example = allocate_leg-IsAdmitted limits leg 0 allocated.0 allocated.1
