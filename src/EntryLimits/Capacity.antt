-- ===== src/EntryLimits/Capacity.antt =====
-- bybit/entry_limits.py: the slices of a leg within the capacity and the minima of the exchange.
use mathlib.Core.Path.{subst}
use cautious_crypto_bro.Prelude.{
  ℕ, suc, ◌+◌, ◌≤◌, ◌≡◌, none, refl, ap, ◌==◌, ltb, leb, ◌&&◌, Bool, false, not, ◌||◌, List, [],
  ◌∷◌, length, All, arith, if◌then◌else◌,
}
use cautious_crypto_bro.Prelude.Int.{◌≤ℤ◌, ltb_ℤ, ltb_ℤ-false, eqb_ℤ}
use cautious_crypto_bro.Prelude.Result.{
  ok, through, past, or_raise, map_err, map_err_ok, ok_injective,
}
use cautious_crypto_bro.Decimal.{is_positive, mul, div, dec, round_down}
use cautious_crypto_bro.Domain.Enums.{is_market}
use cautious_crypto_bro.Domain.Plan.Defs.{
  PlannedOrder, EntrySlice, validate_slice, none_or_natural, fill_bounded,
}
use cautious_crypto_bro.EntryLimits.Share.{leg_ticks}
use cautious_crypto_bro.EntryLimits.Defs.{
  Limits, make_slices, allocate_leg, leg_of, floor_quotient, whole_part, invalid, arithmetic,
  new_slice,
}

-- A slice that the exchange accepts, and that has no fill yet.
unfoldable pub IsAdmitted : Limits → PlannedOrder → EntrySlice → Type 0
IsAdmitted l o s =
    (l.minimum ≤ℤ s.quantity)
    × (l.notional ≤ℤ mul s.quantity o.reference_price)
    × (s.filled_quantity ≡ none)

validate_slice-same : (s : EntrySlice) {t : EntrySlice} → validate_slice s ≡ ok t → s ≡ t
unfolding validate_slice
validate_slice-same s h =
    past (not (leb s.index 9999 && is_positive s.quantity && none_or_natural s.filled_quantity)) _ _
      h λ _ h'. past (not (fill_bounded s s.filled_quantity)) _ _ h' λ _ e. ok_injective e

make_slices-IsAdmitted :
    (l : Limits) (o : PlannedOrder) (alone : Bool) (index : ℕ) (ticks : List ℕ)
    (slices : List EntrySlice)
    → make_slices l o alone index ticks ≡ ok slices
    → (length slices ≡ length ticks) × All (IsAdmitted l o) slices
unfolding make_slices IsAdmitted
make_slices-IsAdmitted l o alone index [] slices h =
    subst (λ xs. (length xs ≡ 0) × All (IsAdmitted l o) xs) (ok_injective h) (refl, tt)
make_slices-IsAdmitted l o alone index (t ∷ ticks) slices h =
    past
      (ltb_ℤ (mul l.step (dec t)) l.minimum
        || ltb_ℤ (mul (mul l.step (dec t)) o.reference_price) l.notional)
      _ _ h
      λ c h1. through (leg_of o.name) _ h1 λ leg _ h2.
        through
          (map_err invalid
            (validate_slice (new_slice leg (if alone then 0 else suc index) (mul l.step (dec t)))))
          _ h2
          λ slice made h3. through (make_slices l o alone (suc index) ticks) _ h3 λ rest e h4.
            subst (λ xs. (length xs ≡ suc (length ticks)) × All (IsAdmitted l o) xs)
              (ok_injective h4)
              (
                ap suc (make_slices-IsAdmitted l o alone (suc index) ticks rest e).0,
                (
                  subst (IsAdmitted l o) (validate_slice-same _ (map_err_ok invalid _ made)) (
                    ltb_ℤ-false (mul l.step (dec t)) l.minimum (ground arith),
                    ltb_ℤ-false (mul (mul l.step (dec t)) o.reference_price) l.notional
                        (ground arith),
                    refl,
                  ),
                  (make_slices-IsAdmitted l o alone (suc index) ticks rest e).1,
                ),
              )

-- A leg is never split beyond what the exchange can protect. Where the slices of a leg are allocated
-- after those of the legs before it, the plan has at most twenty slices so far, the leg has at least
-- one, and each has the minimum quantity and the minimum notional value and no fill.
pub allocate_leg-IsAdmitted :
    (l : Limits) (o : PlannedOrder) (taken : ℕ) (slices : List EntrySlice)
    → allocate_leg l o taken ≡ ok slices
    → (taken + length slices ≤ 20) × (1 ≤ length slices) × All (IsAdmitted l o) slices
unfolding allocate_leg
allocate_leg-IsAdmitted l o taken slices h =
    through (or_raise (div o.quantity l.step) arithmetic) _ h λ ticks _ h1.
      through (floor_quotient (if is_market o.order_type then l.market_max else l.limit_max) l.step)
        _ h1
        λ max_ticks _ h2.
          past (not (eqb_ℤ ticks (round_down ticks)) || max_ticks == 0) _ _ h2 λ _ h3.
            past
              (length (leg_ticks (whole_part ticks) max_ticks) == 0
                || ltb 20 (taken + length (leg_ticks (whole_part ticks) max_ticks)))
              _ _ h3
              λ c h4.
                finish (leg_ticks (whole_part ticks) max_ticks) c (
                  make_slices-IsAdmitted l o _ 0 (leg_ticks (whole_part ticks) max_ticks) slices h4)
  where
    finish :
        (ts : List ℕ)
        → length ts == 0 || ltb 20 (taken + length ts) ≡ false
        → (length slices ≡ length ts) × All (IsAdmitted l o) slices
        → (taken + length slices ≤ 20) × (1 ≤ length slices) × All (IsAdmitted l o) slices
    finish ts c (e, admitted) = (ground arith, ground arith, admitted)
