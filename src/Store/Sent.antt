-- ===== src/Store/Sent.antt =====
-- storage/manual_delivery.py: a delivery is reported as done once.
use cautious_crypto_bro.Prelude.{
  ℕ, suc, ◌+◌, ◌==◌, ltb, ◌≡◌, refl, ap, Bool, true, not, ◌||◌, ◌&&◌, if_both, ◌≤◌, Option, none,
  some, is_some, List, [], ◌∷◌, any, length, first, select, arith,
}
use mathlib.Core.Path.{subst}
use cautious_crypto_bro.Prelude.Result.{ok, through, past, ok_injective}
use cautious_crypto_bro.Text.{Text}
use cautious_crypto_bro.Domain.Enums.{StrategyStatus}
use cautious_crypto_bro.Domain.Signal.{PositionActionIntent}
use cautious_crypto_bro.Store.Table.{affected, affected-le, affected-made}
use cautious_crypto_bro.Store.Tables.{Row, Kind, open_kind, action_kind, Store}
use cautious_crypto_bro.Store.Shared.{has_id, transition_pending, mark_rows_failed}
use cautious_crypto_bro.Store.Recovery.{delivery_of, ids_of, auto_executing}
use cautious_crypto_bro.Store.Actions.{
  deliver_action, expire_action, withdraw_entries, withdraw_entry, record_entry_cancellation,
}
use cautious_crypto_bro.Store.Intents.{record_entry_failure, record_strategy_status, executing_with}
use cautious_crypto_bro.Store.Deliveries.{
  claimable, lease_row, held, finish_row, reconcile_each, requeue, lose,
}
use cautious_crypto_bro.Store.Lease.{key_changed, refused}
use cautious_crypto_bro.Store.Delivered.{
  IsDelivered, is_open, IsDelivered-update, IsDelivered-insert, IsDelivered-reserve,
  IsDelivered-reserve_all,
}
use cautious_crypto_bro.Store.Intents.{
  update_execution_plan, claim_for_execution, mark_skipped, mark_executed, mark_failed, plan_of,
  strategy_of,
}
use cautious_crypto_bro.Store.Actions.{
  prepare_manual_action_delivery, claim_position_action, mark_position_action_skipped,
  complete_position_action, mark_position_action_failed, mark_position_action_uncertain,
}
use cautious_crypto_bro.Store.Strategies.{
  ensure_position_strategy, save_position_strategy, pause_conflicting_strategies, strategy_among,
  all_different, mark_strategy_alert_delivered, set_position_strategy_status,
}
use cautious_crypto_bro.Store.Recovery.{
  quarantine_interrupted_executions, acknowledge_recovery_notices, quarantine_records,
}
use cautious_crypto_bro.Store.Deliveries.{
  claim_manual_delivery, finish_manual_delivery, reconcile_manual_deliveries,
  ensure_auto_outcome_delivery, orphaned, has_auto_open,
}
use cautious_crypto_bro.Store.Step.{
  Step, claim_intent, skip_intent, execute_intent, fail_intent, fail_entry, update_plan,
  show_action, claim_action, skip_action, complete_action, fail_action, doubt_action,
  cancel_entries, ensure_strategy, save_strategy, pause_strategies, alert_strategy, set_status,
  quarantine, acknowledge, claim_delivery, finish_delivery, reconcile, reserve_outcome, Steps, done,
  next,
}

failure_deliveries :
    (now : ℕ) (id error : Text) (status : Option StrategyStatus) (s t : Store)
    → record_entry_failure now id error status s ≡ ok t
    → s.deliveries ≡ t.deliveries
unfolding record_entry_failure record_strategy_status
failure_deliveries now id error none s t h =
    past (not (affected (executing_with id) s.intents == 1)) _ _ h
      λ _ e. ap (λ (u : Store). u.deliveries) (ok_injective e)
failure_deliveries now id error (some status) s t h =
    past (not (affected (executing_with id) s.intents == 1)) _ _ h λ _ h'.
      past (not (affected (strategy_of id) s.strategies == 1)) _ _ h'
        λ _ e. ap (λ (u : Store). u.deliveries) (ok_injective e)

shown_deliveries :
    (now max_age : ℕ) (id : Text) (found : Option (Row PositionActionIntent)) (s : Store)
    (shown : Option PositionActionIntent) (t : Store)
    → deliver_action now max_age id found s ≡ ok (shown, t)
    → s.deliveries ≡ t.deliveries
unfolding deliver_action expire_action
shown_deliveries now max_age id none s shown t h = ground arith
shown_deliveries now max_age id (some r) s shown t h = ground arith

withdrawn_deliveries :
    (now : ℕ) (close : Bool) (ids : List Text) (s : Store)
    → s.deliveries ≡ (withdraw_entries now close ids s).deliveries
unfolding withdraw_entries withdraw_entry
withdrawn_deliveries now close [] s = refl
withdrawn_deliveries now close (t ∷ ids) s =
    withdrawn_deliveries now close ids (withdraw_entry now close t s)

cancelled_deliveries :
    (now : ℕ) (a : PositionActionIntent) (targets : List Text) (complete flat : Bool)
    (error : Option Text) (s : Store)
    → s.deliveries ≡ (record_entry_cancellation now a targets complete flat error s).deliveries
unfolding record_entry_cancellation
cancelled_deliveries now a targets complete flat error s =
    if_both (λ (t : Store). s.deliveries ≡ t.deliveries) (complete || is_some error)
      (λ _. withdrawn_deliveries now (complete && flat) targets s)
      (λ _. withdrawn_deliveries now (complete && flat) targets s)

lost_deliveries :
    (now : ℕ) (id : Text) (kind : Kind) (s : Store) → s.deliveries ≡ (lose now id kind s).deliveries
lost_deliveries now id open_kind s = refl
lost_deliveries now id action_kind s = refl

reconcile-IsDelivered :
    (now stale : ℕ) (rows : List (Text × Kind × ℕ)) (requeued failed : ℕ) (id : Text) (s : Store)
    (counts : ℕ × ℕ) (t : Store)
    → reconcile_each now stale rows requeued failed s ≡ ok (counts, t)
    → IsDelivered id s.deliveries
    → IsDelivered id t.deliveries
unfolding reconcile_each
reconcile-IsDelivered now stale [] requeued failed id s counts t h d =
    subst (λ u. IsDelivered id u.1.deliveries) (ok_injective h) d
reconcile-IsDelivered now stale ((rid, kind, created) ∷ rows) requeued failed id s counts t h d =
    if_both (λ r. r ≡ ok (counts, t) → IsDelivered id t.deliveries) (ltb (created + stale) now)
      (λ _ h'.
        reconcile-IsDelivered now stale rows requeued (suc failed) id (lose now rid kind s) counts t
          h' (subst (IsDelivered id) (lost_deliveries now rid kind s) d))
      (λ _ h'. through (requeue rid kind s) _ h' λ s' hr hn.
        past (any (delivery_of rid) s.deliveries) _ _ hr λ absent e.
          reconcile-IsDelivered now stale rows (suc requeued) failed id s' counts t hn (
            subst (λ (u : Store). IsDelivered id u.deliveries) (ok_injective e)
              (IsDelivered-insert id rid kind s.deliveries absent d)))
      h

-- A call keeps a delivered record delivered.
Step-IsDelivered :
    (id : Text) {s t : Store} → Step s t → IsDelivered id s.deliveries → IsDelivered id t.deliveries
unfolding claim_for_execution mark_skipped transition_pending mark_executed mark_failed
    mark_rows_failed update_execution_plan prepare_manual_action_delivery claim_position_action
    mark_position_action_skipped complete_position_action mark_position_action_failed
    mark_position_action_uncertain ensure_position_strategy save_position_strategy
    pause_conflicting_strategies mark_strategy_alert_delivered set_position_strategy_status
    quarantine_interrupted_executions quarantine_records acknowledge_recovery_notices
    claim_manual_delivery finish_manual_delivery reconcile_manual_deliveries
    ensure_auto_outcome_delivery
Step-IsDelivered id (claim_intent now rid user mode) d = d
Step-IsDelivered id (skip_intent now rid user) d = d
Step-IsDelivered id (execute_intent now rid orders) d = d
Step-IsDelivered id (fail_intent now rid error) d = d
Step-IsDelivered id {s} (fail_entry now rid error status t h) d =
    subst (IsDelivered id) (failure_deliveries now rid error status s t h) d
Step-IsDelivered id {s} (update_plan p t h) d =
    past (not (affected (plan_of p.intent_id) s.plans == 1)) _ _ h
      λ _ e. subst (λ (u : Store). IsDelivered id u.deliveries) (ok_injective e) d
Step-IsDelivered id {s} (show_action now max_age rid shown t h) d = past (max_age == 0) _ _ h λ _ e.
    subst (IsDelivered id)
      (shown_deliveries now max_age rid (first (has_id rid) s.actions) s shown t e) d
Step-IsDelivered id (claim_action now rid user mode) d = d
Step-IsDelivered id (skip_action now rid user) d = d
Step-IsDelivered id (complete_action now a order) d = d
Step-IsDelivered id (fail_action now rid error) d = d
Step-IsDelivered id (doubt_action now rid symbol order error) d = d
Step-IsDelivered id {s} (cancel_entries now a targets complete flat error) d =
    subst (IsDelivered id) (cancelled_deliveries now a targets complete flat error s) d
Step-IsDelivered id {s} (ensure_strategy now p) d =
    if_both (λ (t : Store). IsDelivered id t.deliveries)
      (ltb p.strategy_version 2 || any (strategy_of p.intent_id) s.strategies) (λ _. d) (λ _. d)
Step-IsDelivered id {s} (save_strategy state t h) d =
    past (not (affected (strategy_of state.strategy_id) s.strategies == 1)) _ _ h
      λ _ e. subst (λ (u : Store). IsDelivered id u.deliveries) (ok_injective e) d
Step-IsDelivered id {s} (pause_strategies now ids reason t h) d =
    past (length ids == 0 || not (all_different ids)) _ _ h λ _ h'.
      past (not (affected (strategy_among ids) s.strategies == length ids)) _ _ h'
        λ _ e. subst (λ (u : Store). IsDelivered id u.deliveries) (ok_injective e) d
Step-IsDelivered id (alert_strategy rid reason) d = d
Step-IsDelivered id (set_status now rid status) d = d
Step-IsDelivered id {s} (quarantine now) d =
    IsDelivered-reserve_all id action_kind (ids_of (select auto_executing s.actions)) _
      (IsDelivered-reserve_all id open_kind (ids_of (select auto_executing s.intents)) _ d)
Step-IsDelivered id (acknowledge intents actions) d = d
Step-IsDelivered id {s} (claim_delivery now rid token) d =
    IsDelivered-update id (claimable now rid) (lease_row now token) (λ x. refl)
      (λ x o k. ground arith) s.deliveries d
Step-IsDelivered id {s} (finish_delivery now rid token delivered) d =
    IsDelivered-update id (held rid token) (finish_row now delivered) (λ x. refl)
      (λ x o k. ground arith) s.deliveries d
Step-IsDelivered id {s} (reconcile now stale counts t h) d =
    past (stale == 0) _ _ h
      λ _ h'. reconcile-IsDelivered now stale (orphaned s) 0 0 id s counts t h' d
Step-IsDelivered id {s} (reserve_outcome rid kind) d =
    if_both (λ (t : Store). IsDelivered id t.deliveries) (has_auto_open rid kind s)
      (λ _. IsDelivered-reserve id rid kind s.deliveries d) (λ _. d)

Steps-IsDelivered :
    (id : Text) {s t : Store}
    → Steps s t
    → IsDelivered id s.deliveries
    → IsDelivered id t.deliveries
Steps-IsDelivered id done d = d
Steps-IsDelivered id (next before last) d = Step-IsDelivered id last (Steps-IsDelivered id before d)

reported-IsDelivered :
    (reported : ℕ) (id token : Text) (s : Store)
    → affected (delivery_of id) s.deliveries ≤ 1
    → affected (held id token) s.deliveries ≡ 1
    → IsDelivered id (finish_manual_delivery reported id token true s).deliveries
unfolding IsDelivered finish_manual_delivery
reported-IsDelivered reported id token s key one = (
  omega (
    arith,
    one,
    affected-made (held id token) (finish_row reported true) (delivery_of id) (λ d e. ground arith)
        s.deliveries,
  ),
  key_changed (delivery_of id) (held id token) (is_open id) (finish_row reported true)
      (λ d e. ground arith) (λ d e. ground arith) (λ d e. ground arith) s.deliveries key one,
)

-- What was delivered is not delivered again. When the sender that holds the token of a delivery has
-- reported it as done, then after any sequence of calls of the repository's methods, reports of other
-- senders and restarts' quarantine included, every claim of it returns nothing; the deliveries have
-- the identifier at most once, as their primary key says.
pub delivered_once :
    (reported : ℕ) (id token : Text) (s t : Store)
    → affected (delivery_of id) s.deliveries ≤ 1
    → affected (held id token) s.deliveries ≡ 1
    → Steps (finish_manual_delivery reported id token true s) t
    → (later : ℕ) (other : Text) → (claim_manual_delivery later id other t).0 ≡ none
unfolding IsDelivered
delivered_once reported id token s t key one steps later other =
    let d : IsDelivered id t.deliveries =
      Steps-IsDelivered id steps (reported-IsDelivered reported id token s key one) in
    refused later id other t (
      omega (
        arith,
        d.1,
        affected-le (claimable later id) (is_open id) (λ d e. ground arith) t.deliveries,
      ))
