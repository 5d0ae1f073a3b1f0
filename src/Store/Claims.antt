-- ===== src/Store/Claims.antt =====
-- storage/: the first successful claim of a record is its last, whatever calls follow.
use cautious_crypto_bro.Prelude.{
  ℕ, ◌==◌, ltb, ◌≡◌, refl, true, false, not, ◌||◌, if_both, Option, none, some, any, length, ◌≤◌,
  arith, first,
}
use mathlib.Core.Path.{subst}
use cautious_crypto_bro.Prelude.Int.{ℤ}
use cautious_crypto_bro.Prelude.Result.{past, ok_injective}
use cautious_crypto_bro.Text.{Text}
use cautious_crypto_bro.Domain.Enums.{IntentStatus, ApprovalMode}
use cautious_crypto_bro.Store.Table.{affected}
use cautious_crypto_bro.Store.Tables.{Store}
use cautious_crypto_bro.Store.Shared.{
  transition_pending, has_id, pending_with, decide, mark_rows_failed, fail_row, is_executing,
  interrupt_row,
}
use cautious_crypto_bro.Store.Intents.{
  update_execution_plan, claim_for_execution, mark_skipped, mark_executed, mark_failed, plan_of,
  strategy_of,
}
use cautious_crypto_bro.Store.Actions.{
  prepare_manual_action_delivery, claim_position_action, mark_position_action_skipped,
  complete_position_action, mark_position_action_failed, mark_position_action_uncertain,
}
use cautious_crypto_bro.Store.Strategies.{
  ensure_position_strategy, save_position_strategy, pause_conflicting_strategies, strategy_among,
  all_different, mark_strategy_alert_delivered, set_position_strategy_status,
}
use cautious_crypto_bro.Store.Recovery.{
  quarantine_interrupted_executions, acknowledge_recovery_notices, quarantine_records, interrupted,
}
use cautious_crypto_bro.Store.Deliveries.{
  claim_manual_delivery, finish_manual_delivery, reconcile_manual_deliveries,
  ensure_auto_outcome_delivery, orphaned, has_auto_open,
}
use cautious_crypto_bro.Store.Step.{
  Step, claim_intent, skip_intent, execute_intent, fail_intent, fail_entry, update_plan,
  show_action, claim_action, skip_action, complete_action, fail_action, doubt_action,
  cancel_entries, ensure_strategy, save_strategy, pause_strategies, alert_strategy, set_status,
  quarantine, acknowledge, claim_delivery, finish_delivery, reconcile, reserve_outcome, Steps, done,
  next,
}
use cautious_crypto_bro.Store.Once.{IsDecided, IsDecided-update}
use cautious_crypto_bro.Store.Once.{IsDecided-transition, refused}
use cautious_crypto_bro.Store.Settled.{
  Keeps, Keeps-all, Keeps-trans, entry_failure-Keeps, deliver-Keeps, reconcile-Keeps,
  cancellation-Keeps,
}

Step-Keeps : (id : Text) {s t : Store} → Step s t → Keeps id s t
unfolding Keeps claim_for_execution mark_skipped transition_pending mark_executed mark_failed
    mark_rows_failed update_execution_plan prepare_manual_action_delivery claim_position_action
    mark_position_action_skipped complete_position_action mark_position_action_failed
    mark_position_action_uncertain ensure_position_strategy save_position_strategy
    pause_conflicting_strategies mark_strategy_alert_delivered set_position_strategy_status
    quarantine_interrupted_executions quarantine_records acknowledge_recovery_notices
    claim_manual_delivery finish_manual_delivery reconcile_manual_deliveries
    ensure_auto_outcome_delivery
Step-Keeps id {s} (claim_intent now rid user mode) = (
  IsDecided-update id (pending_with rid mode) (decide now IntentStatus.executing user)
      (λ r e. ground arith) s.intents,
  λ h. h,
)
Step-Keeps id {s} (skip_intent now rid user) = (
  IsDecided-update id (pending_with rid none) (decide now IntentStatus.skipped (some user))
      (λ r e. ground arith) s.intents,
  λ h. h,
)
Step-Keeps id {s} (execute_intent now rid orders) =
    (IsDecided-update id (has_id rid) _ (λ r e. ground arith) s.intents, λ h. h)
Step-Keeps id {s} (fail_intent now rid error) =
    (IsDecided-update id (has_id rid) (fail_row now error) (λ r e. ground arith) s.intents, λ h. h)
Step-Keeps id {s} (fail_entry now rid error status t h) =
    entry_failure-Keeps now rid error status id s h
Step-Keeps id {s} (update_plan p t h) =
    past (not (affected (plan_of p.intent_id) s.plans == 1)) _ _ h
      λ _ e. subst (Keeps id s) (ok_injective e) (Keeps-all id s)
Step-Keeps id {s} (show_action now max_age rid shown t h) =
    past (max_age == 0) _ _ h
      λ _ e. deliver-Keeps now max_age rid (first (has_id rid) s.actions) id s e
Step-Keeps id {s} (claim_action now rid user mode) = (
  λ h. h,
  IsDecided-update id (pending_with rid mode) (decide now IntentStatus.executing user)
      (λ r e. ground arith) s.actions,
)
Step-Keeps id {s} (skip_action now rid user) = (
  λ h. h,
  IsDecided-update id (pending_with rid none) (decide now IntentStatus.skipped user)
      (λ r e. ground arith) s.actions,
)
Step-Keeps id {s} (complete_action now a order) =
    (λ h. h, IsDecided-update id (has_id a.action_id) _ (λ r e. ground arith) s.actions)
Step-Keeps id {s} (fail_action now rid error) =
    (λ h. h, IsDecided-update id (has_id rid) (fail_row now error) (λ r e. ground arith) s.actions)
Step-Keeps id {s} (doubt_action now rid symbol order error) =
    (λ h. h, IsDecided-update id (has_id rid) _ (λ r e. ground arith) s.actions)
Step-Keeps id {s} (cancel_entries now a targets complete flat error) =
    cancellation-Keeps now a targets complete flat error id s
Step-Keeps id {s} (ensure_strategy now p) =
    if_both (Keeps id s) (ltb p.strategy_version 2 || any (strategy_of p.intent_id) s.strategies)
      (λ _. Keeps-all id s) (λ _. Keeps-all id s)
Step-Keeps id {s} (save_strategy state t h) =
    past (not (affected (strategy_of state.strategy_id) s.strategies == 1)) _ _ h
      λ _ e. subst (Keeps id s) (ok_injective e) (Keeps-all id s)
Step-Keeps id {s} (pause_strategies now ids reason t h) =
    past (length ids == 0 || not (all_different ids)) _ _ h λ _ h'.
      past (not (affected (strategy_among ids) s.strategies == length ids)) _ _ h'
        λ _ e. subst (Keeps id s) (ok_injective e) (Keeps-all id s)
Step-Keeps id (alert_strategy rid reason) = (λ h. h, λ h. h)
Step-Keeps id (set_status now rid status) = (λ h. h, λ h. h)
Step-Keeps id {s} (quarantine now) = (
  IsDecided-update id is_executing (interrupt_row now interrupted) (λ r e. ground arith) s.intents,
  IsDecided-update id is_executing (interrupt_row now interrupted) (λ r e. ground arith) s.actions,
)
Step-Keeps id (acknowledge intents actions) = (λ h. h, λ h. h)
Step-Keeps id (claim_delivery now rid token) = (λ h. h, λ h. h)
Step-Keeps id (finish_delivery now rid token delivered) = (λ h. h, λ h. h)
Step-Keeps id {s} (reconcile now stale counts t h) =
    past (stale == 0) _ _ h λ _ h'. reconcile-Keeps now stale (orphaned s) 0 0 id s counts t h'
Step-Keeps id {s} (reserve_outcome rid kind) =
    if_both (Keeps id s) (has_auto_open rid kind s) (λ _. Keeps-all id s) (λ _. Keeps-all id s)

Steps-Keeps : (id : Text) {s t : Store} → Steps s t → Keeps id s t
Steps-Keeps id {s} done = Keeps-all id s
Steps-Keeps id {s} {t} (next {t = m} before last) =
    Keeps-trans id s m t (Steps-Keeps id before) (Step-Keeps id last)

-- An intent is executed at most once. When a claim of it has returned true, then after any sequence
-- of calls of the repository's methods, restarts' quarantine included, every further claim and every
-- skip of that intent returns false, whoever asks and whatever approval mode is expected; the intent
-- table has the identifier at most once, as its primary key says.
pub intent_claimed_once :
    (now : ℕ) (id : Text) (user : Option ℤ) (mode : Option ApprovalMode) (s t : Store)
    → affected (has_id id) s.intents ≤ 1
    → (claim_for_execution now id user mode s).0 ≡ true
    → Steps (claim_for_execution now id user mode s).1 t
    → (later : ℕ) (other : Option ℤ) (expected : Option ApprovalMode) (skipper : ℤ)
    → ((claim_for_execution later id other expected t).0 ≡ false)
      × ((mark_skipped later id skipper t).0 ≡ false)
unfolding claim_for_execution mark_skipped Keeps
intent_claimed_once now id user mode s t key claimed steps later other expected skipper = (
  refused later id IntentStatus.executing other expected t.intents decided,
  refused later id IntentStatus.skipped (some skipper) none t.intents decided,
)
  where
    decided : IsDecided id t.intents
    decided =
        (Steps-Keeps id steps).0 (
          IsDecided-transition now id IntentStatus.executing user mode (refl) s.intents key claimed)

-- A lifecycle action is executed at most once: the same for the claims and skips of an action.
pub action_claimed_once :
    (now : ℕ) (id : Text) (user : Option ℤ) (mode : Option ApprovalMode) (s t : Store)
    → affected (has_id id) s.actions ≤ 1
    → (claim_position_action now id user mode s).0 ≡ true
    → Steps (claim_position_action now id user mode s).1 t
    → (later : ℕ) (other : Option ℤ) (expected : Option ApprovalMode) (skipper : Option ℤ)
    → ((claim_position_action later id other expected t).0 ≡ false)
      × ((mark_position_action_skipped later id skipper t).0 ≡ false)
unfolding claim_position_action mark_position_action_skipped Keeps
action_claimed_once now id user mode s t key claimed steps later other expected skipper = (
  refused later id IntentStatus.executing other expected t.actions decided,
  refused later id IntentStatus.skipped skipper none t.actions decided,
)
  where
    decided : IsDecided id t.actions
    decided =
        (Steps-Keeps id steps).1 (
          IsDecided-transition now id IntentStatus.executing user mode (refl) s.actions key claimed)
