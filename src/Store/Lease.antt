-- ===== src/Store/Lease.antt =====
-- storage/manual_delivery.py: one sender at a time for a delivery.
use cautious_crypto_bro.Prelude.{
  ℕ, sym, ◌∙◌, ◌+◌, ◌/◌, ◌<◌, ◌≤◌, ◌≡◌, refl, Bool, true, false, not, ◌&&◌, Option, none, some,
  List, [], ◌∷◌, arith, Bool-cases, inl, inr,
}
use cautious_crypto_bro.Text.{Text, same_text, same_text_refl, same_text-true}
use cautious_crypto_bro.Store.Table.{update, affected, affected-le, update_none}
use cautious_crypto_bro.Store.Tables.{Delivery, Store}
use cautious_crypto_bro.Store.Recovery.{delivery_of}
use cautious_crypto_bro.Store.Deliveries.{
  claim_manual_delivery, finish_manual_delivery, claimable, seconds, lease, lease_row, held, holds,
  finish_row,
}

module _ {ℓ} {A : Type ℓ} (key matches later : A → Bool) (change : A → A) where
  none_changed :
      ((r : A) → matches r ≡ true → key r ≡ true)
      → ((r : A) → later r ≡ true → key r ≡ true)
      → (rows : List A) → affected key rows ≡ 0
      → affected later (update matches change rows) ≡ 0
  none_changed hit keyed rows h =
      rw (update_none matches change rows (omega (arith, affected-le matches key hit rows)))
        (omega (arith, affected-le later key keyed rows))

  -- Where the key is unique, an UPDATE that finds its row and makes it fail a test of rows with that
  -- key leaves no row that passes it.
  pub key_changed :
      ((r : A) → matches r ≡ true → key r ≡ true)
      → ((r : A) → matches r ≡ true → later (change r) ≡ false)
      → ((r : A) → later r ≡ true → key r ≡ true)
      → (rows : List A) → affected key rows ≤ 1
      → affected matches rows ≡ 1
      → affected later (update matches change rows) ≡ 0
  key_changed hit changed keyed [] unique found = refl
  key_changed hit changed keyed (r ∷ rows) unique found = ground (
    arith,
    hit r,
    changed r,
    keyed r,
    none_changed hit keyed rows,
    affected-le matches key hit rows,
    key_changed hit changed keyed rows,
  )

  -- An UPDATE whose changed rows fail a test that no other row passes leaves none that passes.
  rest_changed :
      ((r : A) → matches r ≡ true → later (change r) ≡ false)
      → (rows : List A) → affected (λ r. later r && not (matches r)) rows ≡ 0
      → affected later (update matches change rows) ≡ 0
  rest_changed changed [] h = refl
  rest_changed changed (r ∷ rows) h = ground (arith, changed r, rest_changed changed rows)

-- One claim of a delivery that a test finds: exactly one row is due.
claimed_one :
    (now : ℕ) (id token : Text) (s : Store)
    → (claim_manual_delivery now id token s).0 ≡ some token
    → affected (claimable now id) s.deliveries ≡ 1
unfolding claim_manual_delivery
claimed_one now id token s h = ground arith

pub refused :
    (now : ℕ) (id token : Text) (s : Store)
    → affected (claimable now id) s.deliveries ≡ 0
    → (claim_manual_delivery now id token s).0 ≡ none
unfolding claim_manual_delivery
refused now id token s h = ground arith

abbrev not_held : Text → Text → Delivery → Bool
not_held id token d = delivery_of id d && not (holds token d.claim_token)

-- After a claim, the delivery is in the hands of the token.
in_hand :
    (now : ℕ) (id token : Text) (ds : List Delivery)
    → affected (delivery_of id) ds ≤ 1
    → affected (claimable now id) ds ≡ 1
    → affected (not_held id token) (update (claimable now id) (lease_row now token) ds) ≡ 0
in_hand now id token =
    key_changed (delivery_of id) (claimable now id) (not_held id token) (lease_row now token)
      (λ d e. ground arith) (λ d e. ground (arith, same_text_refl token)) (λ d e. ground arith)

not_due :
    (now later : ℕ) (id token : Text) (ds : List Delivery)
    → seconds later < seconds now + lease
    → affected (delivery_of id) ds ≤ 1
    → affected (claimable now id) ds ≡ 1
    → affected (claimable later id) (update (claimable now id) (lease_row now token) ds) ≡ 0
not_due now later id token ds early =
    key_changed (delivery_of id) (claimable now id) (claimable later id) (lease_row now token)
      (λ d e. ground arith) (λ d e. ground arith) (λ d e. ground arith) ds

clash : false ≡ true → ⊥
clash h = cc

stranger_differs :
    (token stranger : Text) (held_by : Option Text)
    → same_text token stranger ≡ false
    → holds stranger held_by ≡ true
    → holds token held_by ≡ false
stranger_differs token stranger none differs h = refl
stranger_differs token stranger (some t) differs h = elim (Bool-cases (same_text t token)) [
  | inl e ↦ absurd (clash (sym differs ∙ rw (same_text-true t token e) at h))
  | inr e ↦ e
]

-- A delivery is leased to one sender. When a claim has returned its token, every claim of the same
-- delivery less than five minutes later, in the whole seconds that the table holds, returns nothing, also after any other sender has reported,
-- with a token of its own, how its delivery went.
pub delivery_leased :
    (now later reported : ℕ) (id token other stranger : Text) (delivered : Bool) (s : Store)
    → affected (delivery_of id) s.deliveries ≤ 1
    → (claim_manual_delivery now id token s).0 ≡ some token
    → later / 1_000_000 < now / 1_000_000 + 300
    → same_text token stranger ≡ false
    → ((claim_manual_delivery later id other (claim_manual_delivery now id token s).1).0 ≡ none)
      × ((claim_manual_delivery later id other (
            finish_manual_delivery reported id stranger delivered
              (claim_manual_delivery now id token s).1)).0
          ≡ none)
unfolding claim_manual_delivery finish_manual_delivery
delivery_leased now later reported id token other stranger delivered s key claimed early differs = (
  refused later id other (claim_manual_delivery now id token s).1
      (not_due now later id token s.deliveries early key one),
  refused later id other
      (finish_manual_delivery reported id stranger delivered
        (claim_manual_delivery now id token s).1)
      (rw (update_none (held id stranger) (finish_row reported delivered) _ not_strangers)
        (not_due now later id token s.deliveries early key one)),
)
  where
    one : affected (claimable now id) s.deliveries ≡ 1
    one = claimed_one now id token s claimed

    not_strangers :
        affected (held id stranger) (update (claimable now id) (lease_row now token) s.deliveries)
        ≡ 0
    not_strangers = omega (
      arith,
      in_hand now id token s.deliveries key one,
      affected-le (held id stranger) (not_held id token)
          (λ d e. ground (arith, stranger_differs token stranger d.claim_token differs))
          (update (claimable now id) (lease_row now token) s.deliveries),
    )
