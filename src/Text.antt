-- ===== src/Text.antt =====
-- Python's `str`, as its code points. Only ASCII case, space and letters are modelled.
use Prim.Native.Char.{code}
use cautious_crypto_bro.Prelude.{
  ℕ, zero, suc, ◌+◌, ◌*◌, ◌-◌, ◌/◌, ◌%◌, ◌≡◌, refl, Bool, true, false, not, ◌&&◌, ◌||◌, Option,
  none, some, List, [], ◌∷◌, ◌++◌, map, String, arith, leb, ltb, ◌==◌, if◌then◌else◌, all, select,
}
use mathlib.Core.List.{reverse}

abbrev pub Text : Type 0
Text = List ℕ

-- A literal.
abbrev pub text : String → Text
text String.[] = []
text (String.◌∷◌ c s) = code c ∷ text s

-- `s == t`
unfoldable pub same_text : Text → Text → Bool
same_text [] [] = true
same_text [] (d ∷ t) = false
same_text (c ∷ s) [] = false
same_text (c ∷ s) (d ∷ t) = c == d && same_text s t

pub same_text-true : (s t : Text) → same_text s t ≡ true → s ≡ t
unfolding same_text
same_text-true [] [] h = refl
same_text-true [] (d ∷ t) h = cc
same_text-true (c ∷ s) [] h = cc
same_text-true (c ∷ s) (d ∷ t) h = ground (arith, same_text-true s t)

pub same_text_refl : (s : Text) → same_text s s ≡ true
unfolding same_text
same_text_refl [] = refl
same_text_refl (c ∷ s) = ground (arith, same_text_refl s)

-- `s.startswith(p)`
unfoldable pub starts_with : Text → Text → Bool
starts_with s [] = true
starts_with [] (d ∷ p) = false
starts_with (c ∷ s) (d ∷ p) = c == d && starts_with s p

-- `s.endswith(p)`
unfoldable pub ends_with : Text → Text → Bool
unfolding starts_with
ends_with s p = starts_with (reverse s) (reverse p)

-- `p in s`
unfoldable pub contains : Text → Text → Bool
unfolding starts_with
contains [] p = starts_with [] p
contains (c ∷ s) p = starts_with (c ∷ s) p || contains s p

-- `s[:n]`
unfoldable pub prefix : ℕ → Text → Text
prefix zero s = []
prefix (suc n) [] = []
prefix (suc n) (c ∷ s) = c ∷ prefix n s

abbrev is_lower : ℕ → Bool
is_lower c = leb 97 c && leb c 122

abbrev is_upper : ℕ → Bool
is_upper c = leb 65 c && leb c 90

abbrev is_digit : ℕ → Bool
is_digit c = leb 48 c && leb c 57

unfoldable pub upper_char : ℕ → ℕ
upper_char c = if is_lower c then c - 32 else c

unfoldable pub lower_char : ℕ → ℕ
lower_char c = if is_upper c then c + 32 else c

-- `s.upper()` and `s.lower()`
unfoldable pub upper : Text → Text
unfolding upper_char
upper = map upper_char

unfoldable pub lower : Text → Text
unfolding lower_char
lower = map lower_char

-- `s.isalnum()`
unfoldable pub is_alnum : Text → Bool
is_alnum [] = false
is_alnum (c ∷ s) = all (λ d. is_lower d || is_upper d || is_digit d) (c ∷ s)

abbrev pub is_space : ℕ → Bool
is_space c = c == 32 || leb 9 c && leb c 13 || leb 28 c && leb c 31

unfoldable pub strip_left : Text → Text
strip_left [] = []
strip_left (c ∷ s) = let rest = strip_left s in if is_space c then rest else c ∷ s

-- `s.strip()`
unfoldable pub strip : Text → Text
unfolding strip_left
strip s = reverse (strip_left (reverse (strip_left s)))

-- `s.replace(c, "")` for one character.
unfoldable pub without : ℕ → Text → Text
without c = select (λ d. not (d == c))

digits : ℕ → ℕ → Text
digits zero n = []
digits (suc fuel) n =
    let rest = digits fuel (n / 10) in
    if ltb n 10 then (48 + n) ∷ [] else rest ++ (48 + n % 10) ∷ []

-- `str(n)`
unfoldable pub number_text : ℕ → Text
unfolding digits
number_text n = digits (suc n) n

until : ℕ → Text → Text
until c [] = []
until c (d ∷ s) = let rest = until c s in if d == c then [] else d ∷ rest

-- `s.rsplit(c, 1)[-1]`
unfoldable pub after_last : ℕ → Text → Text
unfolding until
after_last c s = reverse (until c (reverse s))

-- `int(s)` where `s.isdecimal()`.
digits_value : ℕ → Text → ℕ
digits_value acc [] = acc
digits_value acc (c ∷ s) = digits_value (acc * 10 + (c - 48)) s

unfoldable pub decimal_value : Text → Option ℕ
unfolding digits_value
decimal_value [] = none
decimal_value (c ∷ s) = if all is_digit (c ∷ s) then some (digits_value 0 (c ∷ s)) else none
