-- ===== src/EntryLimits/Defs.antt =====
-- bybit/entry_limits.py: the physical entries of a plan.
use cautious_crypto_bro.Prelude.{
  ℕ, suc, ◌+◌, ◌/◌, ◌==◌, ltb, Bool, true, false, not, ◌&&◌, ◌||◌, Option, none, is_some, List, [],
  ◌∷◌, ◌++◌, length, select, if◌then◌else◌,
}
use cautious_crypto_bro.Prelude.Int.{pos, negsuc, ltb_ℤ, eqb_ℤ}
use cautious_crypto_bro.Prelude.Result.{Result, ok, err, ◌>>=◌, ◌>>◌, raise_if, or_raise, map_err}
use cautious_crypto_bro.Text.{Text, text, same_text}
use cautious_crypto_bro.Decimal.{Decimal, mul, div, dec, round_down, one, limit}
use cautious_crypto_bro.Domain.Enums.{is_market}
use cautious_crypto_bro.Domain.Invalid.{Invalid}
use cautious_crypto_bro.Domain.Plan.Defs.{
  PlannedOrder, Leg, e1, e2, e3, leg_name, EntrySlice, validate_slice, ExecutionPlan,
}
use cautious_crypto_bro.Domain.Plan.Dumped.{revalidate_dumped}
use cautious_crypto_bro.EntryLimits.Share.{leg_ticks}

-- The fields of `lotSizeFilter` that are read.
pub data LotField : Type 0 where
  qty_step min_order_qty min_notional_value max_mkt_order_qty max_order_qty : LotField

-- The messages of `EntryPreflightError`; `invalid` is a ValidationError and `arithmetic` an exception of
-- `decimal`.
pub data PreflightError : Type 0 where
  invalid_instrument : LotField → PreflightError
  step_or_ceiling stop_capacity exchange_minima arithmetic unknown_leg : PreflightError
  invalid : Invalid → PreflightError

-- An instrument, as what `Decimal(str(lot[name]))` gives; `none` where it raises or is not finite.
abbrev pub Instrument : Type 0
Instrument = LotField → Option Decimal

abbrev out_of_range : Bool → Decimal → Bool
out_of_range zero_allowed d = ltb_ℤ d (pos 0) || not zero_allowed && eqb_ℤ d (pos 0)

-- `_number`
unfoldable pub number : Instrument → LotField → Bool → Result PreflightError Decimal
number lot field zero_allowed = do
  d ← or_raise (lot field) (invalid_instrument field)
  raise_if (out_of_range zero_allowed d) (invalid_instrument field)
  ok d

-- `int(d)` of a value that is not negative.
unfoldable pub whole_part : Decimal → ℕ
whole_part (pos n) = n / one
whole_part (negsuc n) = 0

-- `int(a // b)` of positive values; a quotient beyond the precision raises.
unfoldable pub floor_quotient : Decimal → Decimal → Result PreflightError ℕ
floor_quotient (pos a) (pos (suc b)) = do
  raise_if (not (ltb (a / suc b) limit)) arithmetic
  ok (a / suc b)
floor_quotient _ _ = err arithmetic

unfoldable pub leg_of : Text → Result PreflightError Leg
leg_of name =
    if same_text name (text "E1")
    then ok e1
    else if same_text name (text "E2")
    then ok e2
    else if same_text name (text "E3")
    then ok e3
    else err unknown_leg

pub record Limits : Type 0 where
  pub step : Decimal
  pub minimum : Decimal
  pub notional : Decimal
  pub market_max : Decimal
  pub limit_max : Decimal

abbrev pub new_slice : Leg → ℕ → Decimal → EntrySlice
new_slice leg index quantity = record {
  leg = leg;
  index = index;
  quantity = quantity;
  filled_quantity = none;
}

-- The loop over `range(count)`; `alone` is `count == 1`.
unfoldable pub make_slices :
    Limits → PlannedOrder → Bool → ℕ → List ℕ → Result PreflightError (List EntrySlice)
make_slices l o alone index [] = ok []
make_slices l o alone index (t ∷ ticks) = do
  let quantity = mul l.step (dec t)
  raise_if (ltb_ℤ quantity l.minimum || ltb_ℤ (mul quantity o.reference_price) l.notional)
      exchange_minima
  leg ← leg_of o.name
  slice ← map_err invalid (validate_slice (new_slice leg (if alone then 0 else suc index) quantity))
  rest ← make_slices l o alone (suc index) ticks
  ok (slice ∷ rest)

abbrev is_confirmed : PlannedOrder → EntrySlice → Bool
is_confirmed o s = same_text (leg_name s.leg) o.name && is_some s.filled_quantity

-- The slices of a leg that has no confirmed ones, after `taken` slices of the legs before it.
unfoldable pub allocate_leg : Limits → PlannedOrder → ℕ → Result PreflightError (List EntrySlice)
allocate_leg l o taken = do
  ticks ← or_raise (div o.quantity l.step) arithmetic
  max_ticks ← floor_quotient (if is_market o.order_type then l.market_max else l.limit_max) l.step
  raise_if (not (eqb_ℤ ticks (round_down ticks)) || max_ticks == 0) step_or_ceiling
  let shares = leg_ticks (whole_part ticks) max_ticks
  raise_if (length shares == 0 || ltb 20 (taken + length shares)) stop_capacity
  make_slices l o (length shares == 1) 0 shares

abbrev allocate_or_keep :
    Limits → PlannedOrder → List EntrySlice → ℕ → Result PreflightError (List EntrySlice)
allocate_or_keep l o [] taken = allocate_leg l o taken
allocate_or_keep l o (s ∷ confirmed) taken = ok (s ∷ confirmed)

-- The loop over the legs.
unfoldable pub allocate_legs :
    Limits
    → List EntrySlice
    → List PlannedOrder
    → List EntrySlice
    → Result PreflightError (List EntrySlice)
allocate_legs l before [] children = ok children
allocate_legs l before (o ∷ orders) children = do
  mine ← allocate_or_keep l o (select (is_confirmed o) before) (length children)
  allocate_legs l before orders (children ++ mine)

-- `allocate_entry_slices`
unfoldable pub allocate_entry_slices :
    ExecutionPlan → Instrument → Result PreflightError ExecutionPlan
allocate_entry_slices p lot = do
  step ← number lot qty_step false
  minimum ← number lot min_order_qty false
  notional ← number lot min_notional_value true
  market_max ← number lot max_mkt_order_qty false
  limit_max ← number lot max_order_qty false
  let l : Limits = record {
    step = step;
    minimum = minimum;
    notional = notional;
    market_max = market_max;
    limit_max = limit_max;
  }
  slices ← allocate_legs l p.entry_slices p.orders []
  map_err invalid (revalidate_dumped (record p { entry_slices = slices }))
