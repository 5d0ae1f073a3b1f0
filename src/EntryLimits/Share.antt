-- ===== src/EntryLimits/Share.antt =====
-- bybit/entry_limits.py: how many steps each physical entry of a leg has.
use cautious_crypto_bro.Prelude.{
  ℕ, zero, suc, ◌+◌, ◌-◌, ◌*◌, ◌/◌, ◌%◌, ◌≤◌, ◌≡◌, refl, List, [], ◌∷◌, arith, length,
}

-- `base + (index < extra)` for the indexes of `range(count)`.
unfoldable pub share : ℕ → ℕ → ℕ → List ℕ
share zero base extra = []
share (suc count) base zero = base ∷ share count base zero
share (suc count) base (suc extra) = suc base ∷ share count base extra

-- `(total + max_ticks - 1) // max_ticks`
unfoldable pub slice_count : ℕ → ℕ → ℕ
slice_count total max_ticks = (total + max_ticks - 1) / max_ticks

-- The steps of each slice: `divmod(total, count)` spread over the slices.
unfoldable pub leg_ticks : ℕ → ℕ → List ℕ
unfolding slice_count share
leg_ticks total max_ticks =
    let count = slice_count total max_ticks in share count (total / count) (total % count)

unfoldable pub total_of : List ℕ → ℕ
total_of [] = 0
total_of (t ∷ ts) = t + total_of ts

pub share-length : (count base extra : ℕ) → length (share count base extra) ≡ count
unfolding share
share-length zero base extra = refl
share-length (suc count) base zero = omega (arith, share-length count base zero)
share-length (suc count) base (suc extra) = omega (arith, share-length count base extra)

pub share-total :
    (count base extra : ℕ)
    → extra ≤ count
    → total_of (share count base extra) ≡ count * base + extra
unfolding share total_of
share-total zero base extra h = omega arith
share-total (suc count) base zero h = omega (arith, share-total count base zero (omega arith))
share-total (suc count) base (suc extra) h =
    omega (arith, share-total count base extra (omega arith))
