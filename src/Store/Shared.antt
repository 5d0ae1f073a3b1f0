-- ===== src/Store/Shared.antt =====
-- storage/_shared.py: the status transitions that intents and lifecycle actions share.
use cautious_crypto_bro.Prelude.{ℕ, ◌==◌, Bool, true, ◌&&◌, Option, none, some, List}
use cautious_crypto_bro.Prelude.Int.{ℤ}
use cautious_crypto_bro.Text.{Text, same_text, prefix}
use cautious_crypto_bro.Domain.Enums.{IntentStatus, status_is, ApprovalMode, mode_is}
use cautious_crypto_bro.Store.Table.{update, affected}
use cautious_crypto_bro.Store.Tables.{Row}

module _ {P : Type 0} where
  -- The optional `AND approval_mode = ?`.
  abbrev pub mode_matches : Option ApprovalMode → Row P → Bool
  mode_matches none r = true
  mode_matches (some mode) r = mode_is r.approval_mode mode

  abbrev pub pending_with : Text → Option ApprovalMode → Row P → Bool
  pending_with id mode r =
      same_text r.id id && status_is r.status IntentStatus.pending && mode_matches mode r

  abbrev pub decide : ℕ → IntentStatus → Option ℤ → Row P → Row P
  decide now status user r = record r { status = status; decision_user_id = user; updated_at = now }

  -- `_transition_pending`
  unfoldable pub transition_pending :
      ℕ → Text → IntentStatus → Option ℤ → Option ApprovalMode → List (Row P) → Bool × List (Row P)
  transition_pending now id status user mode rows = (
    affected (pending_with id mode) rows == 1,
    update (pending_with id mode) (decide now status user) rows,
  )

  abbrev pub has_id : Text → Row P → Bool
  has_id id r = same_text r.id id

  abbrev pub fail_row : ℕ → Text → Row P → Row P
  fail_row now error r = record r {
    status = IntentStatus.failed;
    error = some (prefix 2000 error);
    updated_at = now;
  }

  -- `_mark_failed`
  unfoldable pub mark_rows_failed : ℕ → Text → Text → List (Row P) → List (Row P)
  mark_rows_failed now id error = update (has_id id) (fail_row now error)

  abbrev pub is_executing : Row P → Bool
  is_executing r = status_is r.status IntentStatus.executing

  abbrev pub interrupt_row : ℕ → Text → Row P → Row P
  interrupt_row now error r = record r {
    status = IntentStatus.uncertain;
    error = some error;
    updated_at = now;
  }
