-- ===== src/Program/Core.antt =====
-- A program's calls and how it goes on. Nothing is said of the answers, which an argument gives.
use cautious_crypto_bro.Prelude.Result.{Result, ok, err}

-- A call of `C` is answered with an `R c`, or with an exception of `E`.
pub data Program (C : Type 0) (R : C → Type 0) (E : Type 0) (A : Type 0) : Type 0 where
  return : A → Program C R E A
  raise : E → Program C R E A
  call : (c : C) → (Result E (R c) → Program C R E A) → Program C R E A

infixr 5 ◌>>=◌ ◌>>◌
abbrev pub ◌>>=◌ :
    {C : Type 0} {R : C → Type 0} {E A B : Type 0}
    → Program C R E A
    → (A → Program C R E B)
    → Program C R E B
return a >>= f = f a
raise e >>= f = raise e
call c k >>= f = call c (λ r. k r >>= f)

abbrev pub ◌>>◌ :
    {C : Type 0} {R : C → Type 0} {E B : Type 0}
    → Program C R E (Unit {0})
    → Program C R E B
    → Program C R E B
m >> k = m >>= λ _. k

-- A result that is at hand.
abbrev pub check : {C : Type 0} {R : C → Type 0} {E A : Type 0} → Result E A → Program C R E A
check (ok a) = return a
check (err e) = raise e

-- `await` of one call.
abbrev pub ask : {C : Type 0} {R : C → Type 0} {E : Type 0} (c : C) → Program C R E (R c)
ask c = call c check

-- `try` and `except`.
abbrev pub attempt :
    {C : Type 0} {R : C → Type 0} {E A : Type 0}
    → Program C R E A
    → (E → Program C R E A)
    → Program C R E A
attempt (return a) handle = return a
attempt (raise e) handle = handle e
attempt (call c k) handle = call c (λ r. attempt (k r) handle)

-- `try` with `except` and `else`: what follows the value is outside of the `try`.
abbrev pub try_else :
    {C : Type 0} {R : C → Type 0} {E A B : Type 0}
    → Program C R E A
    → (E → Program C R E B)
    → (A → Program C R E B)
    → Program C R E B
try_else (return a) handle k = k a
try_else (raise e) handle k = handle e
try_else (call c f) handle k = call c (λ r. try_else (f r) handle k)
