-- ===== src/Store/Table.antt =====
-- A SQLite table as the list of its rows: UPDATE with its row count, SELECT and key lookups.
use cautious_crypto_bro.Prelude.{
  ℕ, suc, ◌≡◌, refl, Bool, true, false, List, [], ◌∷◌, arith, ◌≤◌, select, if◌then◌else◌, All,
}

module _ {ℓ} {A : Type ℓ} where
  -- UPDATE table SET change WHERE matches
  abbrev pub update : (A → Bool) → (A → A) → List A → List A
  update matches change [] = []
  update matches change (r ∷ rows) =
      (if matches r then change r else r) ∷ update matches change rows

  -- The row count of such an UPDATE.
  abbrev pub affected : (A → Bool) → List A → ℕ
  affected matches [] = 0
  affected matches (r ∷ rows) =
      if matches r then suc (affected matches rows) else affected matches rows

  -- Where the changed rows no longer match, a second UPDATE finds none.
  pub affected-update :
      (matches : A → Bool) (change : A → A) (later : A → Bool)
      → ((r : A) → matches r ≡ true → later (change r) ≡ false)
      → ((r : A) → matches r ≡ false → later r ≡ false)
      → (rows : List A) → affected later (update matches change rows) ≡ 0
  affected-update matches change later hit miss [] = refl
  affected-update matches change later hit miss (r ∷ rows) =
      ground (arith, hit r, miss r, affected-update matches change later hit miss rows)

  -- What holds of each row of a table after an UPDATE.
  pub All-update {κ} :
      (P : A → Type κ) (matches : A → Bool) (change : A → A)
      → ((r : A) → matches r ≡ true → P r → P (change r))
      → (rows : List A) → All P rows
      → All P (update matches change rows)
  All-update P matches change keep [] h = tt
  All-update P matches change keep (r ∷ rows) h =
      (step (matches r) refl, All-update P matches change keep rows h.1)
    where
      step : (b : Bool) → matches r ≡ b → P (if b then change r else r)
      step true e = keep r e h.0
      step false e = h.0

  -- An UPDATE that finds no row leaves the table as it is.
  pub update_none :
      (matches : A → Bool) (change : A → A) (rows : List A)
      → affected matches rows ≡ 0
      → update matches change rows ≡ rows
  update_none matches change [] h = refl
  update_none matches change (r ∷ rows) h = ground (arith, update_none matches change rows)

  -- An UPDATE whose changed rows pass a test leaves at least as many rows that pass it.
  pub affected-made :
      (matches : A → Bool) (change : A → A) (later : A → Bool)
      → ((r : A) → matches r ≡ true → later (change r) ≡ true)
      → (rows : List A) → affected matches rows ≤ affected later (update matches change rows)
  affected-made matches change later hit [] = omega arith
  affected-made matches change later hit (r ∷ rows) =
      ground (arith, hit r, affected-made matches change later hit rows)

  -- The rows of a stronger test are among those of a weaker one.
  pub affected-le :
      (p q : A → Bool)
      → ((r : A) → p r ≡ true → q r ≡ true)
      → (rows : List A) → affected p rows ≤ affected q rows
  affected-le p q weaker [] = omega arith
  affected-le p q weaker (r ∷ rows) = ground (arith, weaker r, affected-le p q weaker rows)

  -- A test that finds no row, and that no change makes true, finds none after an UPDATE.
  pub affected_still :
      (later matches : A → Bool) (change : A → A)
      → ((r : A) → later (change r) ≡ true → later r ≡ true)
      → (rows : List A) → affected later rows ≡ 0
      → affected later (update matches change rows) ≡ 0
  affected_still later matches change keep [] h = refl
  affected_still later matches change keep (r ∷ rows) h =
      ground (arith, keep r, affected_still later matches change keep rows)

  -- The rows of a test that an UPDATE neither finds nor makes true are the same after it.
  pub select-update :
      (p matches : A → Bool) (change : A → A)
      → ((r : A) → matches r ≡ true → p r ≡ false)
      → ((r : A) → matches r ≡ true → p (change r) ≡ false)
      → (rows : List A) → select p (update matches change rows) ≡ select p rows
  select-update p matches change miss unmade [] = refl
  select-update p matches change miss unmade (r ∷ rows) =
      ground (arith, miss r, unmade r, select-update p matches change miss unmade rows)
