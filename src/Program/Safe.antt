-- ===== src/Program/Safe.antt =====
-- What a program does whatever its calls are answered: a rule on the calls that may come after a
-- history, and what holds of the history when the program returns or raises.
use cautious_crypto_bro.Prelude.{◌≡◌, refl}
use cautious_crypto_bro.Prelude.Result.{Result, ok, err}
use cautious_crypto_bro.Program.Core.{
  Program, return, raise, call, ◌>>=◌, ask, attempt, try_else, check,
}

module _ {C : Type 0} {R : C → Type 0} {E G : Type 0} (Allowed : G → C → Type 0)
    (after : G → (c : C) → Result E (R c) → G) where
  -- `G` is what is remembered of the calls so far.
  abbrev pub Safe :
      {A : Type 0} → (G → A → Type 0) → (G → E → Type 0) → G → Program C R E A → Type 0
  Safe Post Raised g (return a) = Post g a
  Safe Post Raised g (raise e) = Raised g e
  Safe Post Raised g (call c k) =
      Allowed g c × ((r : Result E (R c)) → Safe Post Raised (after g c r) (k r))

  pub Safe-bind :
      {A B : Type 0} (Post : G → B → Type 0) (Raised : G → E → Type 0) (g : G) (m : Program C R E A)
      (f : A → Program C R E B)
      → Safe (λ h a. Safe Post Raised h (f a)) Raised g m
      → Safe Post Raised g (m >>= f)
  Safe-bind P X g (return a) f h = h
  Safe-bind P X g (raise e) f h = h
  Safe-bind P X g (call c k) f (h, hs) = (h, λ r. Safe-bind P X (after g c r) (k r) f (hs r))

  pub Safe-weaken :
      {A : Type 0} (Post Post' : G → A → Type 0) (Raised Raised' : G → E → Type 0) (g : G)
      (m : Program C R E A)
      → ((h : G) (a : A) → Post h a → Post' h a)
      → ((h : G) (e : E) → Raised h e → Raised' h e)
      → Safe Post Raised g m
      → Safe Post' Raised' g m
  Safe-weaken P P' X X' g (return a) p x h = p g a h
  Safe-weaken P P' X X' g (raise e) p x h = x g e h
  Safe-weaken P P' X X' g (call c k) p x (h, hs) =
      (h, λ r. Safe-weaken P P' X X' (after g c r) (k r) p x (hs r))

  pub Safe-attempt :
      {A : Type 0} (Post : G → A → Type 0) (Raised : G → E → Type 0) (g : G) (m : Program C R E A)
      (handle : E → Program C R E A)
      → Safe Post (λ h e. Safe Post Raised h (handle e)) g m
      → Safe Post Raised g (attempt m handle)
  Safe-attempt P X g (return a) handle h = h
  Safe-attempt P X g (raise e) handle h = h
  Safe-attempt P X g (call c k) handle (h, hs) =
      (h, λ r. Safe-attempt P X (after g c r) (k r) handle (hs r))

  pub Safe-try_else :
      {A B : Type 0} (Middle : G → A → Type 0) (Post : G → B → Type 0)
      (Failed Raised : G → E → Type 0) (g : G) (m : Program C R E A) (handle : E → Program C R E B)
      (k : A → Program C R E B)
      → Safe Middle Failed g m
      → ((h : G) (a : A) → Middle h a → Safe Post Raised h (k a))
      → ((h : G) (e : E) → Failed h e → Safe Post Raised h (handle e))
      → Safe Post Raised g (try_else m handle k)
  Safe-try_else Q P F X g (return a) handle k h u v = u g a h
  Safe-try_else Q P F X g (raise e) handle k h u v = v g e h
  Safe-try_else Q P F X g (call c f) handle k (h, hs) u v =
      (h, λ r. Safe-try_else Q P F X (after g c r) (f r) handle k (hs r) u v)

  -- One call, and what follows each answer.
  pub Safe-ask :
      {B : Type 0} (Post : G → B → Type 0) (Raised : G → E → Type 0) (g : G) (c : C)
      (f : R c → Program C R E B)
      → Allowed g c
      → ((a : R c) → Safe Post Raised (after g c (ok a)) (f a))
      → ((e : E) → Raised (after g c (err e)) e)
      → Safe Post Raised g (ask c >>= f)
  Safe-ask P X g c f h k x = (h, answered)
    where
      answered : (r : Result E (R c)) → Safe P X (after g c r) (check r >>= f)
      answered (ok a) = k a
      answered (err e) = x e

  pub Safe-check :
      {A B : Type 0} (Post : G → B → Type 0) (Raised : G → E → Type 0) (g : G) (r : Result E A)
      (f : A → Program C R E B)
      → ((a : A) → r ≡ ok a → Safe Post Raised g (f a))
      → ((e : E) → Raised g e)
      → Safe Post Raised g (check r >>= f)
  Safe-check P X g (ok a) f k x = k a refl
  Safe-check P X g (err e) f k x = x e

  -- `m` reaches `Middle`, from where the rest goes on.
  pub Safe-then :
      {A B : Type 0} (Middle : G → A → Type 0) (Post : G → B → Type 0) (Raised : G → E → Type 0)
      (g : G) (m : Program C R E A) (f : A → Program C R E B)
      → Safe Middle Raised g m
      → ((h : G) (a : A) → Middle h a → Safe Post Raised h (f a))
      → Safe Post Raised g (m >>= f)
  Safe-then Q P X g m f h k =
      Safe-bind P X g m f (Safe-weaken Q (λ h' a. Safe P X h' (f a)) X X g m k (λ h' e x. x) h)

-- A rule gives every weaker one.
module _ {C : Type 0} {R : C → Type 0} {E G : Type 0} (Allowed Allowed' : G → C → Type 0)
    (after : G → (c : C) → Result E (R c) → G)
    (weaker : (g : G) (c : C) → Allowed g c → Allowed' g c) where
  pub Safe-allow :
      {A : Type 0} (Post : G → A → Type 0) (Raised : G → E → Type 0) (g : G) (m : Program C R E A)
      → Safe Allowed after Post Raised g m
      → Safe Allowed' after Post Raised g m
  Safe-allow P X g (return a) h = h
  Safe-allow P X g (raise e) h = h
  Safe-allow P X g (call c k) (h, hs) =
      (weaker g c h, λ r. Safe-allow P X (after g c r) (k r) (hs r))
