-- ===== src/Prelude/Int.antt =====
-- Signed integers over the native numbers, under the library's names (its ℤ stands on the unary ℕ).
use Prim.Native.Nat.{ℕ, suc, ◌+◌, ◌-◌, ◌≤◌, ◌<◌}
use mathlib.Core.Path.{◌≡◌}
use mathlib.Core.Bool.{Bool, true, false}
use native.Mathlib.Omega.{arith}
use cautious_crypto_bro.Prelude.Tests.{leb, ltb, ◌==◌, if◌then◌else◌}

-- `negsuc n` is -(n + 1).
pub data ℤ : Type 0 where
  pos : ℕ → ℤ
  negsuc : ℕ → ℤ

abbrev pub pos_part : ℤ → ℕ
pos_part (pos n) = n
pos_part (negsuc n) = 0

abbrev pub neg_part : ℤ → ℕ
neg_part (pos n) = 0
neg_part (negsuc n) = suc n

-- a - b, as an integer.
abbrev pub sub_ℕ : ℕ → ℕ → ℤ
sub_ℕ a b = if leb b a then pos (a - b) else negsuc (b - a - 1)

infixl 65 ◌+ℤ◌ ◌-ℤ◌
infix 50 ◌≤ℤ◌ ◌<ℤ◌
unfoldable pub ◌+ℤ◌ : ℤ → ℤ → ℤ
a +ℤ b = sub_ℕ (pos_part a + pos_part b) (neg_part a + neg_part b)

unfoldable pub ◌-ℤ◌ : ℤ → ℤ → ℤ
a -ℤ b = sub_ℕ (pos_part a + neg_part b) (neg_part a + pos_part b)

abbrev pub ◌≤ℤ◌ : ℤ → ℤ → Type 0
a ≤ℤ b = pos_part a + neg_part b ≤ pos_part b + neg_part a

abbrev pub ◌<ℤ◌ : ℤ → ℤ → Type 0
a <ℤ b = pos_part a + neg_part b < pos_part b + neg_part a

abbrev pub ltb_ℤ : ℤ → ℤ → Bool
ltb_ℤ a b = ltb (pos_part a + neg_part b) (pos_part b + neg_part a)

abbrev pub leb_ℤ : ℤ → ℤ → Bool
leb_ℤ a b = leb (pos_part a + neg_part b) (pos_part b + neg_part a)

abbrev pub eqb_ℤ : ℤ → ℤ → Bool
eqb_ℤ a b = pos_part a + neg_part b == pos_part b + neg_part a

-- What a test that came out one way or the other says.
module _ (a b : ℤ) where
  pub ltb_ℤ-true : ltb_ℤ a b ≡ true → a <ℤ b
  ltb_ℤ-true h = ground arith

  pub ltb_ℤ-false : ltb_ℤ a b ≡ false → b ≤ℤ a
  ltb_ℤ-false h = ground arith

  pub leb_ℤ-true : leb_ℤ a b ≡ true → a ≤ℤ b
  leb_ℤ-true h = ground arith

  pub leb_ℤ-false : leb_ℤ a b ≡ false → b <ℤ a
  leb_ℤ-false h = ground arith

  pub eqb_ℤ-true : eqb_ℤ a b ≡ true → a ≡ b
  eqb_ℤ-true h = ground arith

  pub +ℤ_parts :
      pos_part (a +ℤ b) + neg_part a + neg_part b ≡ neg_part (a +ℤ b) + pos_part a + pos_part b
  unfolding ◌+ℤ◌
  +ℤ_parts = ground arith

  pub -ℤ_parts :
      pos_part (a -ℤ b) + neg_part a + pos_part b ≡ neg_part (a -ℤ b) + pos_part a + neg_part b
  unfolding ◌-ℤ◌
  -ℤ_parts = ground arith

  pub eq_of_parts : pos_part a + neg_part b ≡ pos_part b + neg_part a → a ≡ b
  eq_of_parts h = ground arith

pub ruleset int_laws = (arith, +ℤ_parts, -ℤ_parts, eq_of_parts)

pub ruleset int_tests = (arith, ltb_ℤ-true, ltb_ℤ-false, leb_ℤ-true, leb_ℤ-false, eqb_ℤ-true)
