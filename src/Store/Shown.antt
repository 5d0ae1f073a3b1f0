-- ===== src/Store/Shown.antt =====
-- storage/position_action.py: what `prepare_manual_action_delivery` lets the bot show.
use cautious_crypto_bro.Prelude.{
  ℕ, ◌≡◌, ◌⊎◌, Bool, true, false, not, ◌&&◌, ◌||◌, Option, none, some,
}
use cautious_crypto_bro.Text.{Text, text, same_text, starts_with}
use cautious_crypto_bro.Domain.Enums.{IntentStatus, status_is, ApprovalMode, mode_is}
use cautious_crypto_bro.Domain.Signal.{PositionActionIntent}
use cautious_crypto_bro.Store.Table.{update}
use cautious_crypto_bro.Store.Tables.{Row, Store}
use cautious_crypto_bro.Store.Actions.{is_fresh, pending_manual, expire_row}

-- The row that a shown action comes from.
abbrev pub waits : ℕ → ℕ → Row PositionActionIntent → Bool
waits now max_age r =
    mode_is r.approval_mode ApprovalMode.manual
    && status_is r.status IntentStatus.pending
    && is_fresh now max_age r.payload

abbrev pub waiting : ℕ → ℕ → Option (Row PositionActionIntent) → Bool
waiting now max_age none = false
waiting now max_age (some r) = waits now max_age r

abbrev tells : Option Text → Bool
tells none = false
tells (some error) =
    same_text error (text "Lifecycle instruction expired before approval; no exchange action sent")
    || starts_with error (text "Unverified lifecycle contract: ")

-- A manual action that was skipped because it had expired or because its contract needs a review.
abbrev pub is_notified : Row PositionActionIntent → Bool
is_notified r =
    mode_is r.approval_mode ApprovalMode.manual
    && status_is r.status IntentStatus.skipped
    && tells r.error

abbrev pub notified : Option (Row PositionActionIntent) → Bool
notified none = false
notified (some r) = is_notified r

-- A manual action that is pending and too old.
abbrev pub overdue : ℕ → ℕ → Option (Row PositionActionIntent) → Bool
overdue now max_age none = false
overdue now max_age (some r) =
    mode_is r.approval_mode ApprovalMode.manual
    && status_is r.status IntentStatus.pending
    && not (is_fresh now max_age r.payload)

-- What the bot shows, and what that does to the tables.
abbrev pub IsPresented :
    ℕ → ℕ → Text → Option (Row PositionActionIntent) → Store → PositionActionIntent → Store → Type 0
IsPresented now max_age id found s a t =
    ((a.status ≡ IntentStatus.skipped) × (notified found ≡ true) × (t ≡ s))
    ⊎ (((a.status ≡ IntentStatus.skipped)
          × (overdue now max_age found ≡ true)
          × (t ≡ record s { actions = update (pending_manual id) (expire_row now) s.actions }))
        ⊎ ((waiting now max_age found ≡ true) × (t ≡ s)))
