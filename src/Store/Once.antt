-- ===== src/Store/Once.antt =====
-- storage/: a record that has left PENDING is never claimed, approved or skipped again.
use cautious_crypto_bro.Prelude.{
  ℕ, ◌≡◌, refl, Bool, true, false, ◌&&◌, Option, List, [], ◌∷◌, ◌≤◌, arith,
}
use cautious_crypto_bro.Prelude.Int.{ℤ}
use cautious_crypto_bro.Text.{Text}
use cautious_crypto_bro.Domain.Enums.{IntentStatus, status_is, ApprovalMode}
use cautious_crypto_bro.Store.Table.{update, affected, affected-le, affected_still}
use cautious_crypto_bro.Store.Tables.{Row}
use cautious_crypto_bro.Store.Shared.{transition_pending, has_id, pending_with, decide}

module _ {P : Type 0} where
  abbrev pub is_pending : Text → Row P → Bool
  is_pending id r = has_id id r && status_is r.status IntentStatus.pending

  -- No row of that identifier is pending.
  unfoldable pub IsDecided : Text → List (Row P) → Type 0
  IsDecided id rows = affected (is_pending id) rows ≡ 0

  -- An UPDATE that makes no row pending keeps a record decided.
  pub IsDecided-update :
      (id : Text) (matches : Row P → Bool) (change : Row P → Row P)
      → ((r : Row P) → is_pending id (change r) ≡ true → is_pending id r ≡ true)
      → (rows : List (Row P)) → IsDecided id rows
      → IsDecided id (update matches change rows)
  unfolding IsDecided
  IsDecided-update id matches change keep = affected_still (is_pending id) matches change keep

  -- A row that leaves PENDING when it is updated is not pending after the UPDATE.
  pub IsDecided-transition :
      (now : ℕ) (id : Text) (status : IntentStatus) (user : Option ℤ) (mode : Option ApprovalMode)
      → status_is status IntentStatus.pending ≡ false
      → (rows : List (Row P)) → affected (has_id id) rows ≤ 1
      → (transition_pending now id status user mode rows).0 ≡ true
      → IsDecided id (transition_pending now id status user mode rows).1
  unfolding IsDecided transition_pending
  IsDecided-transition now id status user mode moved [] key h = refl
  IsDecided-transition now id status user mode moved (r ∷ rows) key h = ground (
    arith,
    IsDecided-transition now id status user mode moved rows,
    IsDecided-update id (pending_with id mode) (decide now status user) (λ r e. ground arith) rows,
    affected-le (is_pending id) (has_id id) (λ r e. ground arith) rows,
    affected-le (pending_with id mode) (has_id id) (λ r e. ground arith) rows,
  )

  -- What is decided is refused.
  pub refused :
      (now : ℕ) (id : Text) (status : IntentStatus) (user : Option ℤ) (mode : Option ApprovalMode)
      (rows : List (Row P))
      → IsDecided id rows
      → (transition_pending now id status user mode rows).0 ≡ false
  unfolding IsDecided transition_pending
  refused now id status user mode rows h =
      ground (arith, affected-le (pending_with id mode) (is_pending id) (λ r e. ground arith) rows)
