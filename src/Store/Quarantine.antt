-- ===== src/Store/Quarantine.antt =====
-- storage/recovery.py: what the quarantine of interrupted executions guarantees.
use cautious_crypto_bro.Prelude.{ℕ, ◌≡◌, ◌==◌, true, not, ◌||◌, [], any, all, select}
use cautious_crypto_bro.Store.Table.{affected}
use cautious_crypto_bro.Store.Tables.{open_kind, action_kind, Store}
use cautious_crypto_bro.Store.Shared.{is_executing}
use cautious_crypto_bro.Store.Actions.{managed_for}
use cautious_crypto_bro.Store.Recovery.{
  quarantine_interrupted_executions, quarantine_records, action_symbols, notice_of, delivery_of,
  ids_of, auto_executing, interrupts_position, interrupted,
}
use cautious_crypto_bro.Store.Reported.{
  none_executing, each_noticed, each_reserved, all_selected, all_released, still_noticed,
  still_reserved, select_none,
}

-- After a restart no intent and no action is left executing, and a second quarantine, at any time,
-- reports no identifier.
pub quarantine_complete :
    (now later : ℕ) (s : Store)
    → (affected is_executing (quarantine_interrupted_executions now s).1.intents ≡ 0)
      × (affected is_executing (quarantine_interrupted_executions now s).1.actions ≡ 0)
      × ((quarantine_interrupted_executions later (quarantine_interrupted_executions now s).1).0
          ≡ ([], []))
unfolding quarantine_interrupted_executions quarantine_records
quarantine_complete now later s = (
  none_executing now interrupted s.intents,
  none_executing now interrupted s.actions,
  rw (
    select_none is_executing _ (none_executing now interrupted s.intents),
    select_none is_executing _ (none_executing now interrupted s.actions),
  ),
)

-- Nothing that was interrupted is lost: each intent and each action that was executing has a notice to
-- be shown, and each of those that were approved automatically has a delivery reserved.
pub quarantine_reported :
    (now : ℕ) (s : Store)
    → (all
          (λ r.
            not (is_executing r)
            || any (notice_of open_kind r.id) (quarantine_interrupted_executions now s).1.notices)
          s.intents
        ≡ true)
      × (all
            (λ r.
              not (is_executing r)
              || any
                  (notice_of action_kind r.id)
                  (quarantine_interrupted_executions now s).1.notices)
            s.actions
          ≡ true)
      × (all
            (λ r.
              not (auto_executing r)
              || any (delivery_of r.id) (quarantine_interrupted_executions now s).1.deliveries)
            s.intents
          ≡ true)
      × (all
            (λ r.
              not (auto_executing r)
              || any (delivery_of r.id) (quarantine_interrupted_executions now s).1.deliveries)
            s.actions
          ≡ true)
unfolding quarantine_interrupted_executions quarantine_records
quarantine_reported now s = (
  all_selected is_executing (λ r. r.id) _ s.intents
      (still_noticed open_kind action_kind (ids_of (select is_executing s.intents)) _ s.notices),
  all_selected is_executing (λ r. r.id) _ s.actions (each_noticed action_kind _ _),
  all_selected auto_executing (λ r. r.id) _ s.intents
      (still_reserved open_kind action_kind (ids_of (select auto_executing s.intents)) _
        s.deliveries),
  all_selected auto_executing (λ r. r.id) _ s.actions (each_reserved action_kind _ _),
)

-- A position that an interrupted action may have changed is taken from automation: after the quarantine
-- no strategy of the symbol of an executing action, unless it only cancels entries, is in one of the
-- four managed statuses.
pub quarantine_released :
    (now : ℕ) (s : Store)
    → all
        (λ r.
          not (interrupts_position r)
          || affected
              (managed_for r.payload.symbol)
              (quarantine_interrupted_executions now s).1.strategies
            == 0)
        s.actions
      ≡ true
unfolding quarantine_interrupted_executions quarantine_records action_symbols
quarantine_released now s =
    all_selected interrupts_position (λ r. r.payload.symbol) _ s.actions
      (all_released now _ s.strategies)
