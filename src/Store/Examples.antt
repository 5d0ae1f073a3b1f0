-- ===== src/Store/Examples.antt =====
-- Concrete runs of the repositories.
use cautious_crypto_bro.Prelude.{
  ◌≡◌, refl, ◌==◌, Bool, true, false, not, ◌||◌, none, some, [], ◌∷◌, all, any, map, select, arith,
}
use cautious_crypto_bro.Prelude.Int.{pos}
use cautious_crypto_bro.Prelude.Result.{ok}
use cautious_crypto_bro.Text.{text, same_text}
use cautious_crypto_bro.Domain.Enums.{ApprovalMode}
use cautious_crypto_bro.Domain.Strategy.{PositionStrategy}
use cautious_crypto_bro.Store.Samples.{store, id_a, id_b, id_c, id_d, reduce_action}
use cautious_crypto_bro.Store.Table.{affected}
use cautious_crypto_bro.Store.Tables.{open_kind, action_kind, Store}
use cautious_crypto_bro.Store.Shared.{is_executing, transition_pending}
use cautious_crypto_bro.Store.Intents.{claim_for_execution, mark_skipped, mark_executed}
use cautious_crypto_bro.Store.Actions.{
  claim_position_action, mark_position_action_skipped, complete_position_action,
  mark_position_action_uncertain, record_entry_cancellation, unsettled, not_closed, managed_for,
}
use cautious_crypto_bro.Store.Strategies.{
  pause_conflicting_strategies, strategy_among, all_different,
}
use cautious_crypto_bro.Store.Recovery.{
  quarantine_interrupted_executions, notice_of, delivery_of, auto_executing, interrupts_position,
}
use cautious_crypto_bro.Store.Deliveries.{claim_manual_delivery, finish_manual_delivery}
use cautious_crypto_bro.Store.Step.{done, next, execute_intent, complete_action, quarantine}
use cautious_crypto_bro.Store.Claims.{intent_claimed_once, action_claimed_once}
use cautious_crypto_bro.Store.Quarantine.{
  quarantine_complete, quarantine_reported, quarantine_released,
}
use cautious_crypto_bro.Store.Withdrawal.{is_executed, unfrozen}
use cautious_crypto_bro.Store.Cancellation.{cancellation_settles, cancellation_closes}
use cautious_crypto_bro.Store.HandsOff.{hands_off_kept, is_hands_off, is_spared}
use cautious_crypto_bro.Store.Lease.{delivery_leased}
use cautious_crypto_bro.Store.Step.{Steps, done, next, claim_delivery, finish_delivery, quarantine}
use cautious_crypto_bro.Store.Sent.{delivered_once}
use cautious_crypto_bro.Store.Paused.{pause_conflicting_strategies-IsComplete, still_active}

-- The owner approves the intent, it is executed, and the process restarts.
intent_claimed_once_example :
    ((claim_for_execution 9 id_b none
        (some ApprovalMode.auto)
        (quarantine_interrupted_executions 7 (
          mark_executed 6 id_b
            (id_d ∷ [])
            (claim_for_execution 5 id_b (some (pos 42)) (some ApprovalMode.manual) store).1)).1).0
      ≡ false)
    × ((mark_skipped 9 id_b
          (pos 42)
          (quarantine_interrupted_executions 7 (
            mark_executed 6 id_b
              (id_d ∷ [])
              (claim_for_execution 5 id_b (some (pos 42)) (some ApprovalMode.manual) store).1)).1).0
        ≡ false)
unfolding claim_for_execution transition_pending same_text
intent_claimed_once_example =
    intent_claimed_once 5 id_b (some (pos 42)) (some ApprovalMode.manual) store _ (omega arith) refl
      (next (next done (execute_intent 6 id_b (id_d ∷ []))) (quarantine 7)) 9 none
      (some ApprovalMode.auto) (pos 42)

action_claimed_once_example :
    ((claim_position_action 9 id_d none (some ApprovalMode.auto) (
        complete_position_action 6
          (reduce_action id_d)
          id_a
          (claim_position_action 5 id_d (some (pos 42)) none store).1)).0
      ≡ false)
    × ((mark_position_action_skipped 9 id_d none (
          complete_position_action 6
            (reduce_action id_d)
            id_a
            (claim_position_action 5 id_d (some (pos 42)) none store).1)).0
        ≡ false)
unfolding claim_position_action transition_pending same_text
action_claimed_once_example =
    action_claimed_once 5 id_d (some (pos 42)) none store _ (omega arith) refl
      (next done (complete_action 6 (reduce_action id_d) id_a)) 9 none (some ApprovalMode.auto) none

quarantine_complete_example :
    (affected is_executing (quarantine_interrupted_executions 7 store).1.intents ≡ 0)
    × (affected is_executing (quarantine_interrupted_executions 7 store).1.actions ≡ 0)
    × ((quarantine_interrupted_executions 8 (quarantine_interrupted_executions 7 store).1).0
        ≡ ([], []))
quarantine_complete_example = quarantine_complete 7 8 store

quarantine_reported_example :
    (all
        (λ r.
          not (is_executing r)
          || any (notice_of open_kind r.id) (quarantine_interrupted_executions 7 store).1.notices)
        store.intents
      ≡ true)
    × (all
          (λ r.
            not (is_executing r)
            || any
                (notice_of action_kind r.id)
                (quarantine_interrupted_executions 7 store).1.notices)
          store.actions
        ≡ true)
    × (all
          (λ r.
            not (auto_executing r)
            || any (delivery_of r.id) (quarantine_interrupted_executions 7 store).1.deliveries)
          store.intents
        ≡ true)
    × (all
          (λ r.
            not (auto_executing r)
            || any (delivery_of r.id) (quarantine_interrupted_executions 7 store).1.deliveries)
          store.actions
        ≡ true)
quarantine_reported_example = quarantine_reported 7 store

quarantine_released_example :
    all
      (λ r.
        not (interrupts_position r)
        || affected
            (managed_for r.payload.symbol)
            (quarantine_interrupted_executions 7 store).1.strategies
          == 0)
      store.actions
    ≡ true
quarantine_released_example = quarantine_released 7 store

abbrev cancelled : Bool → Bool → Store
cancelled complete flat =
    record_entry_cancellation 7 (reduce_action id_d) (id_a ∷ id_b ∷ []) complete flat none store

cancellation_settles_example :
    (all (λ t. affected (unsettled t) (cancelled true false).intents == 0) (id_a ∷ id_b ∷ [])
      ≡ true)
    × (all (λ t. affected (unfrozen t) (cancelled true false).strategies == 0) (id_a ∷ id_b ∷ [])
        ≡ true)
    × (select is_executed (cancelled true false).intents ≡ select is_executed store.intents)
cancellation_settles_example =
    cancellation_settles 7 (reduce_action id_d) (id_a ∷ id_b ∷ []) true false none store

cancellation_closes_example :
    (all (λ t. affected (not_closed t) (cancelled true true).strategies == 0) (id_a ∷ id_b ∷ [])
      ≡ true)
    × (map (λ (x : PositionStrategy). x.status) (cancelled true false).strategies
        ≡ map (λ (x : PositionStrategy). x.status) store.strategies)
    × (map (λ (x : PositionStrategy). x.status) (cancelled false true).strategies
        ≡ map (λ (x : PositionStrategy). x.status) store.strategies)
cancellation_closes_example =
    cancellation_closes 7 (reduce_action id_d) (id_a ∷ id_b ∷ []) none true store

hands_off_kept_example :
    (select is_hands_off (complete_position_action 7 (reduce_action id_d) id_a store).strategies
      ≡ select is_hands_off store.strategies)
    × (select is_hands_off
          (mark_position_action_uncertain 7 id_d (text "BTCUSDT") none id_b store).strategies
        ≡ select is_hands_off store.strategies)
    × (select is_hands_off (quarantine_interrupted_executions 7 store).1.strategies
        ≡ select is_hands_off store.strategies)
    × (select
          (is_spared (id_b ∷ []))
          (record_entry_cancellation 7
            (reduce_action id_d)
            (id_b ∷ [])
            true
            true
            none
            store).strategies
        ≡ select (is_spared (id_b ∷ [])) store.strategies)
hands_off_kept_example =
    hands_off_kept 7 (reduce_action id_d) id_a id_d (text "BTCUSDT") id_b none (id_b ∷ []) true true
      store

delivery_leased_example :
    ((claim_manual_delivery 299_999_999 id_b id_d (claim_manual_delivery 7 id_b id_a store).1).0
      ≡ none)
    × ((claim_manual_delivery 299_999_999 id_b id_d
          (finish_manual_delivery 8 id_b id_c true (claim_manual_delivery 7 id_b id_a store).1)).0
        ≡ none)
unfolding claim_manual_delivery same_text
delivery_leased_example =
    delivery_leased 7 299_999_999 8 id_b id_a id_d id_c true store (omega arith) refl (omega arith)
      refl

-- The delivery was claimed and reported as done; another claim, the late report of a sender with an
-- old token and a restart follow.
abbrev sent : Store
sent = finish_manual_delivery 8 id_b id_a true (claim_manual_delivery 7 id_b id_a store).1

abbrev after_late_report : Store
after_late_report =
    (quarantine_interrupted_executions 11
      (finish_manual_delivery 10 id_b id_c false (claim_manual_delivery 9 id_b id_c sent).1)).1

late_report : Steps sent after_late_report
late_report =
    next (next (next done (claim_delivery 9 id_b id_c)) (finish_delivery 10 id_b id_c false))
      (quarantine 11)

delivered_once_example : (claim_manual_delivery 900_000_000 id_b id_d after_late_report).0 ≡ none
unfolding claim_manual_delivery same_text
delivered_once_example =
    delivered_once 8 id_b id_a (claim_manual_delivery 7 id_b id_a store).1 after_late_report
      (omega arith) refl late_report 900_000_000 id_d

paused : (t : Store) × (pause_conflicting_strategies 7 (id_a ∷ []) id_d store ≡ ok t)
unfolding pause_conflicting_strategies all_different same_text
paused = (_, refl)

pause_conflicting_strategies-IsComplete_example :
    (all_different (id_a ∷ []) ≡ true)
    × (affected (strategy_among (id_a ∷ [])) store.strategies ≡ 1)
    × (affected (still_active (id_a ∷ []) id_d) paused.0.strategies ≡ 0)
    × (select (λ p. not (strategy_among (id_a ∷ []) p)) paused.0.strategies
        ≡ select (λ p. not (strategy_among (id_a ∷ []) p)) store.strategies)
pause_conflicting_strategies-IsComplete_example =
    pause_conflicting_strategies-IsComplete 7 (id_a ∷ []) id_d store paused.0 paused.1
