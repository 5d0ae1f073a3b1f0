-- ===== src/Store/Step.antt =====
-- storage/: one call of a repository method as a step of the store, and sequences of calls.
use cautious_crypto_bro.Prelude.{ℕ, Bool, Option, List, ◌≡◌}
use cautious_crypto_bro.Prelude.Int.{ℤ}
use cautious_crypto_bro.Prelude.Result.{ok}
use cautious_crypto_bro.Text.{Text}
use cautious_crypto_bro.Domain.Enums.{ApprovalMode, StrategyStatus}
use cautious_crypto_bro.Domain.Signal.{PositionActionIntent}
use cautious_crypto_bro.Domain.Plan.Defs.{ExecutionPlan}
use cautious_crypto_bro.Domain.Strategy.{PositionStrategy}
use cautious_crypto_bro.Store.Tables.{Kind, Store}
use cautious_crypto_bro.Store.Intents.{
  update_execution_plan, claim_for_execution, mark_skipped, mark_executed, mark_failed,
  record_entry_failure,
}
use cautious_crypto_bro.Store.Actions.{
  prepare_manual_action_delivery, claim_position_action, mark_position_action_skipped,
  complete_position_action, mark_position_action_failed, mark_position_action_uncertain,
  record_entry_cancellation,
}
use cautious_crypto_bro.Store.Strategies.{
  ensure_position_strategy, save_position_strategy, pause_conflicting_strategies,
  mark_strategy_alert_delivered, set_position_strategy_status,
}
use cautious_crypto_bro.Store.Recovery.{
  quarantine_interrupted_executions, acknowledge_recovery_notices,
}
use cautious_crypto_bro.Store.Deliveries.{
  claim_manual_delivery, finish_manual_delivery, reconcile_manual_deliveries,
  ensure_auto_outcome_delivery,
}

-- A call that raises is rolled back and is no step.
pub data Step (s : Store) : Store → Type 0 where
  claim_intent :
      (now : ℕ) (id : Text) (user : Option ℤ) (mode : Option ApprovalMode)
      → Step s (claim_for_execution now id user mode s).1
  skip_intent : (now : ℕ) (id : Text) (user : ℤ) → Step s (mark_skipped now id user s).1
  execute_intent :
      (now : ℕ) (id : Text) (orders : List Text) → Step s (mark_executed now id orders s)
  fail_intent : (now : ℕ) (id error : Text) → Step s (mark_failed now id error s)
  fail_entry :
      (now : ℕ) (id error : Text) (status : Option StrategyStatus) (s' : Store)
      → record_entry_failure now id error status s ≡ ok s'
      → Step s s'
  update_plan : (p : ExecutionPlan) (s' : Store) → update_execution_plan p s ≡ ok s' → Step s s'
  show_action :
      (now max_age : ℕ) (id : Text) (shown : Option PositionActionIntent) (s' : Store)
      → prepare_manual_action_delivery now max_age id s ≡ ok (shown, s')
      → Step s s'
  claim_action :
      (now : ℕ) (id : Text) (user : Option ℤ) (mode : Option ApprovalMode)
      → Step s (claim_position_action now id user mode s).1
  skip_action :
      (now : ℕ) (id : Text) (user : Option ℤ)
      → Step s (mark_position_action_skipped now id user s).1
  complete_action :
      (now : ℕ) (a : PositionActionIntent) (order : Text)
      → Step s (complete_position_action now a order s)
  fail_action : (now : ℕ) (id error : Text) → Step s (mark_position_action_failed now id error s)
  doubt_action :
      (now : ℕ) (id symbol : Text) (order : Option Text) (error : Text)
      → Step s (mark_position_action_uncertain now id symbol order error s)
  cancel_entries :
      (now : ℕ) (a : PositionActionIntent) (targets : List Text) (complete flat : Bool)
      (error : Option Text)
      → Step s (record_entry_cancellation now a targets complete flat error s)
  ensure_strategy : (now : ℕ) (p : ExecutionPlan) → Step s (ensure_position_strategy now p s)
  save_strategy :
      (state : PositionStrategy) (s' : Store) → save_position_strategy state s ≡ ok s' → Step s s'
  pause_strategies :
      (now : ℕ) (ids : List Text) (reason : Text) (s' : Store)
      → pause_conflicting_strategies now ids reason s ≡ ok s'
      → Step s s'
  alert_strategy : (id reason : Text) → Step s (mark_strategy_alert_delivered id reason s)
  set_status :
      (now : ℕ) (id : Text) (status : StrategyStatus)
      → Step s (set_position_strategy_status now id status s)
  quarantine : (now : ℕ) → Step s (quarantine_interrupted_executions now s).1
  acknowledge :
      (intents actions : List Text) → Step s (acknowledge_recovery_notices intents actions s)
  claim_delivery : (now : ℕ) (id token : Text) → Step s (claim_manual_delivery now id token s).1
  finish_delivery :
      (now : ℕ) (id token : Text) (delivered : Bool)
      → Step s (finish_manual_delivery now id token delivered s)
  reconcile :
      (now stale : ℕ) (counts : ℕ × ℕ) (s' : Store)
      → reconcile_manual_deliveries now stale s ≡ ok (counts, s')
      → Step s s'
  reserve_outcome : (id : Text) (kind : Kind) → Step s (ensure_auto_outcome_delivery id kind s)

-- A sequence of calls, of any processes in any order.
pub data Steps (s : Store) : Store → Type 0 where
  done : Steps s s
  next : {t u : Store} → Steps s t → Step t u → Steps s u
