-- ===== src/Coordinator/Actions.antt =====
-- execution_coordinator.py: position actions.
use cautious_crypto_bro.Prelude.{
  ℕ, zero, suc, ◌-◌, ◌*◌, ◌/◌, ltb, length, Bool, true, false, not, ◌&&◌, Option, none, some, List,
  [], ◌∷◌, ◌++◌, map, select, any, if◌then◌else◌,
}
use cautious_crypto_bro.Prelude.Int.{ℤ, leb_ℤ}
use cautious_crypto_bro.Prelude.Result.{Result, ok, err, raise_if}
use cautious_crypto_bro.Text.{Text, text, same_text, starts_with, prefix}
use cautious_crypto_bro.Decimal.{Decimal, is_positive, sub}
use cautious_crypto_bro.Program.{return, raise, ◌>>=◌, ◌>>◌, ask, try_else, check}
use cautious_crypto_bro.Domain.Enums.{
  side_is, PositionActionType, reduce, close, cancel_entries, ApprovalMode, IntentStatus, status_is,
}
use cautious_crypto_bro.Domain.Signal.{PositionActionIntent}
use cautious_crypto_bro.Domain.Account.{
  AccountPosition, AccountOrder, AccountStateSummary, is_protective,
}
use cautious_crypto_bro.Coordinator.Ports.{
  PositionActionExecutionResult, Failure, action_preflight, order_mismatch, order_ended,
  reduce_without_quantity, reduce_geometry, reduced_to_nothing, several_live_positions,
  opposite_side, fill_unconfirmed, still_open, above_target, cancellation_unconfirmed, Message,
  executed, action_gone, already_handled, not_claimed, stale, failed, uncertain_cancellation,
  no_entries, cancelled_entries, now, sleep, account_state, get_position_action,
  claim_position_action, mark_position_action_failed, strategy_order, cancel_order,
  execute_position_action, complete_position_action, mark_position_action_uncertain,
  entry_cancellation_targets, record_entry_cancellation, Job, Deployment,
  PositionActionExecutionOutcome,
}

-- `_expected_remaining`
abbrev pub remaining_after :
    PositionActionExecutionResult → Option Decimal → Result Failure (Option Decimal)
remaining_after r none = err reduce_without_quantity
remaining_after r (some submitted) =
    if is_positive (sub r.position_size_before submitted)
    then ok (some (sub r.position_size_before submitted))
    else err reduce_geometry

abbrev pub reduces : PositionActionType → Bool
reduces reduce = true
reduces _ = false

abbrev pub closes : PositionActionType → Bool
closes close = true
closes _ = false

abbrev pub cancels : PositionActionType → Bool
cancels cancel_entries = true
cancels _ = false

unfoldable pub expected_remaining :
    PositionActionIntent → PositionActionExecutionResult → Result Failure (Option Decimal)
expected_remaining a r =
    if reduces a.action then remaining_after r r.submitted_quantity else ok none

-- `order.status in {...}`
abbrev pub has_status : AccountOrder → List Text → Bool
has_status o names = any (same_text o.status) names

abbrev pub filled_by : PositionActionExecutionResult → Option AccountOrder → Result Failure Bool
filled_by r none = ok false
filled_by r (some o) =
    if not (same_text o.order_id r.order_id)
    then err order_mismatch
    else if has_status o (
          text "Cancelled"
          ∷ text "Rejected"
          ∷ text "Deactivated"
          ∷ text "PartiallyFilledCanceled"
          ∷ [])
        && not (is_positive o.executed_quantity)
    then err order_ended
    else ok (
        has_status o (text "Filled" ∷ text "Cancelled" ∷ text "PartiallyFilledCanceled" ∷ [])
        && is_positive o.executed_quantity)

-- f"ccb-action-{action.action_id.hex[:24]}"
unfoldable pub action_link : PositionActionIntent → Text
action_link a = text "ccb-action-" ++ prefix 24 a.action_id

-- `_action_order_filled`
unfoldable pub action_order_filled : PositionActionIntent → PositionActionExecutionResult → Job Bool
action_order_filled a r = do
  found ← ask (strategy_order a.symbol (action_link a))
  check (filled_by r found)

abbrev pub reached : Option Decimal → Decimal → Bool
reached none size = false
reached (some expected) size = leb_ℤ size expected

abbrev pub confirmed_by :
    PositionActionIntent
    → PositionActionExecutionResult
    → Option Decimal
    → List AccountPosition
    → Result Failure Bool
confirmed_by a r expected [] = if closes a.action then ok true else err reduced_to_nothing
confirmed_by a r expected (p ∷ []) =
    if not (side_is p.side r.position_side)
    then err opposite_side
    else ok (not (closes a.action) && reached expected p.size)
confirmed_by a r expected _ = err several_live_positions

-- `_confirms_position_action`
unfoldable pub confirms_position_action :
    PositionActionIntent
    → PositionActionExecutionResult
    → AccountStateSummary
    → Option Decimal
    → Result Failure Bool
confirms_position_action a r state expected =
    confirmed_by a r expected
      (select (λ (p : AccountPosition). same_text p.symbol a.symbol) state.positions)

-- The message of the exception after the last attempt.
abbrev pub unconfirmed : PositionActionIntent → Bool → Failure
unconfirmed a filled =
    if not filled then fill_unconfirmed else if closes a.action then still_open else above_target

abbrev pub confirmed_now :
    PositionActionIntent → PositionActionExecutionResult → Option Decimal → Bool → Job Bool
confirmed_now a r expected false = return false
confirmed_now a r expected true = do
  state ← ask account_state
  check (confirms_position_action a r state expected)

-- The loop of `_confirm_position_action`, with the attempts that follow this one.
unfoldable pub confirm_attempts :
    PositionActionIntent
    → PositionActionExecutionResult
    → Option Decimal
    → ℕ
    → Bool
    → Job (Unit {0})
confirm_attempts a r expected zero filled = do
  filled' ← if filled then return true else action_order_filled a r
  done ← confirmed_now a r expected filled'
  if done then return tt else raise (unconfirmed a filled')
confirm_attempts a r expected (suc more) filled = do
  filled' ← if filled then return true else action_order_filled a r
  done ← confirmed_now a r expected filled'
  if done then return tt else (ask sleep >> confirm_attempts a r expected more filled')

-- `_confirm_position_action`
unfoldable pub confirm_position_action :
    PositionActionIntent → PositionActionExecutionResult → Job (Unit {0})
confirm_position_action a r = do
  expected ← check (expected_remaining a r)
  confirm_attempts a r expected 19 false

abbrev pub outcome :
    IntentStatus
    → Message
    → PositionActionIntent
    → Option PositionActionExecutionResult
    → PositionActionExecutionOutcome
outcome status message a result = record {
  status = status;
  message = message;
  action = some a;
  result = result;
}

-- `action.age_seconds(now)`, in microseconds.
abbrev pub age : PositionActionIntent → ℕ → ℕ
age a time =
    time - (if ltb a.source.published_at a.created_at then a.source.published_at else a.created_at)

abbrev pub of_current :
    PositionActionIntent → Option PositionActionIntent → PositionActionExecutionOutcome
of_current a none = outcome IntentStatus.failed not_claimed a none
of_current a (some current) = outcome current.status not_claimed current none

abbrev pub mark_stale : PositionActionIntent → Message → Bool → Job (Unit {0})
mark_stale a message false = return tt
mark_stale a message true = ask (mark_position_action_failed a.action_id message)

-- `_claim_position_action`: an outcome where the action is not to be executed.
unfoldable pub claim_action :
    Deployment
    → PositionActionIntent
    → ApprovalMode
    → Option ℤ
    → Job (Option PositionActionExecutionOutcome)
claim_action d a mode user = do
  time ← ask now
  let is_stale = ltb (d.max_age_seconds * 1000000) (age a time)
  claimed ← ask (claim_position_action a.action_id user mode)
  if is_stale
      then (mark_stale a (stale (age a time / 1000000)) claimed
          >> return (some (outcome IntentStatus.failed (stale (age a time / 1000000)) a none)))
      else if claimed
      then return none
      else (do
        current ← ask (get_position_action a.action_id)
        return (some (of_current a current)))

-- `isinstance(exc, PositionActionPreflightError)`
abbrev pub is_action_preflight : Failure → Bool
is_action_preflight action_preflight = true
is_action_preflight _ = false

-- `_preflight_failure_outcome`
unfoldable pub preflight_failure_outcome :
    PositionActionIntent → Failure → Job PositionActionExecutionOutcome
preflight_failure_outcome a e = do
  ask (mark_position_action_failed a.action_id (failed e))
  return (outcome IntentStatus.failed (failed e) a none)

abbrev pub order_of : Option PositionActionExecutionResult → Option Text
order_of none = none
order_of (some r) = some r.order_id

-- `_uncertain_outcome`
unfoldable pub uncertain_outcome :
    PositionActionIntent
    → Option PositionActionExecutionResult
    → Failure
    → Job PositionActionExecutionOutcome
uncertain_outcome a result e = do
  ask (mark_position_action_uncertain a.action_id a.symbol (order_of result) (failed e))
  return (outcome IntentStatus.uncertain (failed e) a result)

-- The `except` clauses of `_execute_locked_position_action`.
unfoldable pub failure_outcome :
    PositionActionIntent
    → Option PositionActionExecutionResult
    → Failure
    → Job PositionActionExecutionOutcome
failure_outcome a result e =
    if is_action_preflight e then preflight_failure_outcome a e else uncertain_outcome a result e

-- `owned` of `_cancel_entries`
abbrev pub owned_entry : PositionActionIntent → List Text → AccountOrder → Bool
owned_entry a targets o =
    same_text o.symbol a.symbol
    && any (λ id. starts_with o.order_link_id (text "ccb-v2-" ++ prefix 20 id ++ text "-e")) targets
    && not o.reduce_only
    && not (is_protective o)

abbrev pub owned_ids : PositionActionIntent → List Text → AccountStateSummary → List Text
owned_ids a targets state =
    map (λ (o : AccountOrder). o.order_id) (select (owned_entry a targets) state.open_orders)

unfoldable pub cancel_orders : PositionActionIntent → List Text → Job (Unit {0})
cancel_orders a [] = return tt
cancel_orders a (id ∷ ids) = ask (cancel_order a.symbol id) >> cancel_orders a ids

-- The loop that waits for the cancellations, with the attempts that follow this one.
unfoldable pub await_cancelled : PositionActionIntent → List Text → ℕ → Job (Unit {0})
await_cancelled a targets zero = do
  state ← ask account_state
  if any (owned_entry a targets) state.open_orders
      then raise cancellation_unconfirmed
      else return tt
await_cancelled a targets (suc more) = do
  state ← ask account_state
  if any (owned_entry a targets) state.open_orders
      then (ask sleep >> await_cancelled a targets more)
      else return tt

abbrev pub has_no_position : PositionActionIntent → AccountStateSummary → Bool
has_no_position a state =
    not (any (λ (p : AccountPosition). same_text p.symbol a.symbol) state.positions)

abbrev pub cancel_owned : PositionActionIntent → List Text → Job ℕ
cancel_owned a targets = do
  ask (record_entry_cancellation a targets false false none)
  state ← ask account_state
  cancel_orders a (owned_ids a targets state)
  await_cancelled a targets 19
  last ← ask account_state
  check (raise_if (any (owned_entry a targets) last.open_orders) cancellation_unconfirmed)
  ask (record_entry_cancellation a targets true (has_no_position a last) none)
  return (length (owned_ids a targets state))

abbrev pub cancel_targets : PositionActionIntent → List Text → Job PositionActionExecutionOutcome
cancel_targets a [] =
    ask (mark_position_action_failed a.action_id no_entries)
    >> return (outcome IntentStatus.failed no_entries a none)
cancel_targets a (id ∷ ids) =
    try_else (cancel_owned a (id ∷ ids))
      (λ e.
        ask (record_entry_cancellation a (id ∷ ids) false false (some (uncertain_cancellation e)))
        >> return (outcome IntentStatus.uncertain (uncertain_cancellation e) a none))
      (λ cancelled. return (outcome IntentStatus.executed (cancelled_entries cancelled) a none))

-- `_cancel_entries`
unfoldable pub cancel_source_entries : PositionActionIntent → Job PositionActionExecutionOutcome
cancel_source_entries a = do targets ← ask (entry_cancellation_targets a); cancel_targets a targets

abbrev pub execute_claimed : PositionActionIntent → Job PositionActionExecutionOutcome
execute_claimed a = try_else (ask (execute_position_action a)) (failure_outcome a none) (λ result.
    try_else (confirm_position_action a result >> ask (complete_position_action a result.order_id))
      (failure_outcome a (some result))
      (λ x. return (outcome IntentStatus.executed executed a (some result))))

-- `_execute_locked_position_action`
unfoldable pub execute_locked_action :
    Deployment → PositionActionIntent → ApprovalMode → Option ℤ → Job PositionActionExecutionOutcome
execute_locked_action d a mode user = do
  terminal ← claim_action d a mode user
  elim terminal [
    | some done ↦ return done
    | none ↦ if cancels a.action then cancel_source_entries a else execute_claimed a
  ]

abbrev pub execute_found :
    Deployment
    → ApprovalMode
    → Option ℤ
    → Option PositionActionIntent
    → Job PositionActionExecutionOutcome
execute_found d mode user none =
    return
      (record { status = IntentStatus.failed; message = action_gone; action = none; result = none })
execute_found d mode user (some a) =
    if status_is a.status IntentStatus.pending
    then execute_locked_action d a mode user
    else return (outcome a.status already_handled a none)

-- `execute_position_action`
unfoldable pub run_position_action :
    Deployment → Text → ApprovalMode → Option ℤ → Job PositionActionExecutionOutcome
run_position_action d id mode user = do
  found ← ask (get_position_action id)
  execute_found d mode user found
