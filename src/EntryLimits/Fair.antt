-- ===== src/EntryLimits/Fair.antt =====
-- bybit/entry_limits.py: the slices of a leg are whole, within the ceiling and balanced.
use native.Mathlib.Nat.{
  mod-lt, div-add-mod, mul-div-le, lt-mul-div-succ, lt_of_mul-lt-mul_left, le_of_mul-le-mul_left,
  mul_comm,
}
use cautious_crypto_bro.Prelude.{
  ℕ, zero, suc, ◌+◌, ◌-◌, ◌*◌, ◌/◌, ◌%◌, ◌≤◌, ◌<◌, ◌≡◌, arith, length, All,
}
use cautious_crypto_bro.EntryLimits.Share.{
  share, slice_count, leg_ticks, total_of, share-length, share-total,
}

-- The slices cover the leg with the fewest slices that the ceiling allows.
module _ (total max_ticks : ℕ) (some_ticks : 0 < total) (some_max : 0 < max_ticks) where
  slice_count-covers : total ≤ max_ticks * slice_count total max_ticks
  unfolding slice_count
  slice_count-covers = omega (arith, lt-mul-div-succ (total + max_ticks - 1) some_max)

  slice_count_fits : max_ticks * slice_count total max_ticks ≤ total + max_ticks - 1
  unfolding slice_count
  slice_count_fits = mul-div-le (total + max_ticks - 1) max_ticks

  slice_count_positive : 0 < slice_count total max_ticks
  slice_count_positive = lt_of_mul-lt-mul_left max_ticks (omega (arith, slice_count-covers))

  base_within : total / slice_count total max_ticks ≤ max_ticks
  base_within =
      le_of_mul-le-mul_left
        (omega (
          arith,
          mul-div-le total (slice_count total max_ticks),
          mul_comm max_ticks (slice_count total max_ticks),
          slice_count-covers,
        ))
        slice_count_positive

  base_below :
      0 < total % slice_count total max_ticks → total / slice_count total max_ticks < max_ticks
  base_below extra = lt_of_mul-lt-mul_left (slice_count total max_ticks) (
      omega (
        arith,
        div-add-mod total (slice_count total max_ticks),
        mul_comm max_ticks (slice_count total max_ticks),
        slice_count-covers,
      ))

-- Every slice has the base or one more.
share_within :
    (count base extra most : ℕ)
    → base ≤ most
    → (0 < extra → base < most)
    → All (λ t. (t ≤ most) × (base ≤ t) × (t ≤ suc base)) (share count base extra)
unfolding share
share_within zero base extra most h k = tt
share_within (suc count) base zero most h k =
    ((h, omega arith, omega arith), share_within count base zero most h (λ z. absurd (omega arith)))
share_within (suc count) base (suc extra) most h k = (
  (omega (arith, k (omega arith)), omega arith, omega arith),
  share_within count base extra most h (λ z. k (omega arith)),
)

-- The physical entries of a leg are the leg, in fair shares. For a leg of at least one step and a
-- ceiling of at least one step, the steps of the slices sum to those of the leg, no slice is above the
-- ceiling, any two differ by one step at most, and one slice fewer could not hold the leg.
pub leg_ticks_fair :
    (total max_ticks : ℕ)
    → 0 < total
    → 0 < max_ticks
    → (total_of (leg_ticks total max_ticks) ≡ total)
      × All
          (λ t.
            (t ≤ max_ticks)
            × (total / slice_count total max_ticks ≤ t)
            × (t ≤ suc (total / slice_count total max_ticks)))
          (leg_ticks total max_ticks)
      × (length (leg_ticks total max_ticks) ≡ slice_count total max_ticks)
      × (max_ticks * slice_count total max_ticks < total + max_ticks)
unfolding leg_ticks
leg_ticks_fair total max_ticks some_ticks some_max = (
  omega (
    arith,
    share-total count (total / count) (total % count) (omega (arith, rest)),
    div-add-mod total count,
  ),
  share_within count (total / count) (total % count) max_ticks
      (base_within total max_ticks some_ticks some_max)
      (base_below total max_ticks some_ticks some_max),
  share-length count (total / count) (total % count),
  omega (arith, slice_count_fits total max_ticks some_ticks some_max),
)
  where
    count : ℕ
    count = slice_count total max_ticks

    rest : total % slice_count total max_ticks < slice_count total max_ticks
    rest = mod-lt total (slice_count_positive total max_ticks some_ticks some_max)
