-- ===== src/Decimal.antt =====
-- Python's `decimal.Decimal` with its default context: 28 significant digits, ROUND_HALF_EVEN.
use cautious_crypto_bro.Prelude.{
  ℕ, zero, suc, ◌+◌, ◌*◌, ◌/◌, ◌%◌, ◌^◌, Bool, Option, none, some, List, [], ◌∷◌, ltb, ◌==◌,
  if◌then◌else◌,
}
use cautious_crypto_bro.Prelude.Int.{ℤ, pos, negsuc, ◌+ℤ◌, ◌-ℤ◌, ltb_ℤ}

-- A finite value, as its number of quanta.
abbrev pub Decimal : Type 0
Decimal = ℤ

-- The quanta in 1.
unfoldable pub one : ℕ
one = 10 ^ 100

-- The context's precision, as the first coefficient that has too many digits.
unfoldable pub limit : ℕ
limit = 10 ^ 28

-- The nearest number to num / den, and the even one of two.
unfoldable pub half_even : ℕ → ℕ → ℕ
half_even num den =
    let q = num / den in
    let twice = 2 * (num % den) in
    if ltb twice den then q else if ltb den twice then q + 1 else q + q % 2

-- 10 ^ (how many digits of `n` are beyond the precision)
unfoldable pub excess : ℕ → ℕ → ℕ
unfolding limit
excess zero n = 1
excess (suc fuel) n = let rest = excess fuel (n / 10) in if ltb n limit then 1 else 10 * rest

-- num / den, in quanta, rounded to the context's precision.
unfoldable pub significant : ℕ → ℕ → ℕ
unfolding half_even excess
significant num den = let e = excess 1000 (num / den) in half_even num (den * e) * e

unfoldable pub negate : ℕ → ℤ
negate zero = pos 0
negate (suc n) = negsuc n

-- A magnitude num / den with the sign of `a`.
unfoldable pub round : ℤ → ℤ
unfolding significant
round (pos n) = pos (significant n 1)
round (negsuc n) = negate (significant (suc n) 1)

unfoldable pub add : Decimal → Decimal → Decimal
unfolding round ◌+ℤ◌
add a b = round (a +ℤ b)

unfoldable pub sub : Decimal → Decimal → Decimal
unfolding round ◌-ℤ◌
sub a b = round (a -ℤ b)

unfoldable pub mul : Decimal → Decimal → Decimal
unfolding significant negate
mul (pos a) (pos b) = pos (significant (a * b) one)
mul (pos a) (negsuc b) = negate (significant (a * suc b) one)
mul (negsuc a) (pos b) = negate (significant (suc a * b) one)
mul (negsuc a) (negsuc b) = pos (significant (suc a * suc b) one)

-- `a / b`; `none` where Python raises DivisionByZero or InvalidOperation.
quotient : ℤ → ℕ → ℤ
unfolding significant negate
quotient (pos a) b = pos (significant (a * one) b)
quotient (negsuc a) b = negate (significant (suc a * one) b)

unfoldable pub opposite : Decimal → Decimal
unfolding negate
opposite (pos n) = negate n
opposite (negsuc n) = pos (suc n)

unfoldable pub div : Decimal → Decimal → Option Decimal
unfolding quotient opposite one
div a (pos zero) = none
div a (pos (suc b)) = some (quotient a (suc b))
div a (negsuc b) = some (opposite (quotient a (suc b)))

-- `abs(a)`, which rounds to the context as well.
unfoldable pub abs : Decimal → Decimal
unfolding round
abs (pos n) = round (pos n)
abs (negsuc n) = round (pos (suc n))

-- `min(a, b)` and `max(a, b)` of Python: the first of two equal arguments.
abbrev pub min : Decimal → Decimal → Decimal
min a b = if ltb_ℤ b a then b else a

abbrev pub max : Decimal → Decimal → Decimal
max a b = if ltb_ℤ a b then b else a

-- How many times 1 goes into a number of quanta, rounded down and up.
whole : ℕ → ℕ
unfolding one
whole n = n / one

whole_up : ℕ → ℕ
unfolding one
whole_up n = if n % one == 0 then n / one else n / one + 1

-- `to_integral_value`, one function for each rounding, as a multiple of `one`.
unfoldable pub round_down : Decimal → Decimal
unfolding whole negate
round_down (pos n) = pos (whole n * one)
round_down (negsuc n) = negate (whole (suc n) * one)

unfoldable pub round_floor : Decimal → Decimal
unfolding whole whole_up negate
round_floor (pos n) = pos (whole n * one)
round_floor (negsuc n) = negate (whole_up (suc n) * one)

unfoldable pub round_ceiling : Decimal → Decimal
unfolding whole whole_up negate
round_ceiling (pos n) = pos (whole_up n * one)
round_ceiling (negsuc n) = negate (whole (suc n) * one)

-- ROUND_HALF_UP: a tie goes away from zero.
nearest : ℕ → ℕ
unfolding one
nearest n = if ltb (2 * (n % one)) one then n / one else n / one + 1

unfoldable pub round_half_up : Decimal → Decimal
unfolding nearest negate
round_half_up (pos n) = pos (nearest n * one)
round_half_up (negsuc n) = negate (nearest (suc n) * one)

-- `Decimal("n")` and `Decimal` of n / 10 ^ places.
unfoldable pub dec : ℕ → Decimal
unfolding one
dec n = pos (n * one)

unfoldable pub decimal : ℕ → ℕ → Decimal
unfolding one
decimal n places = pos (n * one / 10 ^ places)

-- `a / Decimal("100")` and `a / Decimal("2")`
unfoldable pub percent : Decimal → Decimal
unfolding quotient one
percent a = quotient a (100 * one)

unfoldable pub half : Decimal → Decimal
unfolding quotient one
half a = quotient a (2 * one)

-- `sum(values, Decimal("0"))`
sum_from : Decimal → List Decimal → Decimal
unfolding add
sum_from acc [] = acc
sum_from acc (x ∷ xs) = sum_from (add acc x) xs

unfoldable pub sum : List Decimal → Decimal
unfolding sum_from
sum = sum_from (pos 0)

abbrev pub is_positive : Decimal → Bool
is_positive a = ltb_ℤ (pos 0) a
