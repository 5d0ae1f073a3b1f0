-- ===== src/Coordinator/Opens.antt =====
-- execution_coordinator.py: the execution of an approved intent.
use cautious_crypto_bro.Prelude.{
  ◌==◌, Bool, true, false, not, ◌&&◌, ◌||◌, ◌⊎◌, inl, inr, Option, none, some, List, [], ◌∷◌, ◌++◌,
  map, select, if◌then◌else◌,
}
use cautious_crypto_bro.Prelude.Int.{ℤ, ltb_ℤ}
use cautious_crypto_bro.Prelude.Result.{Result, raise_if, map_err}
use cautious_crypto_bro.Text.{Text}
use cautious_crypto_bro.Program.{return, raise, ◌>>=◌, ◌>>◌, ask, attempt, try_else, check}
use cautious_crypto_bro.Domain.Enums.{
  ApprovalMode, IntentStatus, status_is, StrategyStatus, is_market,
}
use cautious_crypto_bro.Domain.Signal.{TradingIntent}
use cautious_crypto_bro.Domain.Plan.Defs.{PlannedOrder, EntrySlice, Leg, ExecutionPlan}
use cautious_crypto_bro.Domain.Plan.Dumped.{revalidate_dumped}
use cautious_crypto_bro.Domain.Strategy.{PositionStrategy}
use cautious_crypto_bro.Planner.Rebase.{rebase_market_plan}
use cautious_crypto_bro.Coordinator.Ports.{
  MarketPrimaryExecutionResult, Failure, entry_preflight, preflight_port, symbol_owned,
  risk_unverified, cap_exceeded, geometry_changed, preflight_conflict, index_error, planning,
  invalid, primary_evidence_missing, Message, executed, intent_gone, plan_gone, already_handled,
  not_claimed, withdrawn, historical, failed, account_state, get_active_position_strategies,
  get_intent, get_execution_plan, claim_for_execution, mark_failed, mark_executed,
  record_entry_failure, update_execution_plan, ensure_position_strategy, register_zone,
  prepare_entry_plan, prepare_market_primary, prepare_remaining_entries, execute,
  execute_remaining_entries, execute_market_primary, execute_prepared_market_primary,
  market_context, Job, Deployment, IntentExecutionOutcome,
}
use cautious_crypto_bro.Coordinator.Preflight.{is_nonempty, owns_symbol, preflight_checks}
use cautious_crypto_bro.Coordinator.Zones.{enroll_executed_zone, recover_bindings}

-- `_assert_open_preflight`
unfoldable pub assert_open_preflight :
    Deployment → TradingIntent → ExecutionPlan → ApprovalMode → Job (Unit {0})
assert_open_preflight d i plan mode = do
  active ← ask get_active_position_strategies
  check (raise_if (owns_symbol plan.symbol active) symbol_owned)
  state ← ask account_state
  check (
      preflight_checks d i plan mode (map (λ (r : PositionStrategy × ExecutionPlan). r.1) active)
        state)

abbrev pub outcome_of :
    IntentStatus
    → Message
    → Option TradingIntent
    → Option ExecutionPlan
    → List Text
    → IntentExecutionOutcome
outcome_of status message intent plan ids = record {
  status = status;
  message = message;
  intent = intent;
  plan = plan;
  order_ids = ids;
}

abbrev pub Prepared : Type 0
Prepared = IntentExecutionOutcome ⊎ (TradingIntent × ExecutionPlan)

abbrev pub current_outcome :
    TradingIntent → ExecutionPlan → Option TradingIntent → IntentExecutionOutcome
current_outcome i plan none = outcome_of IntentStatus.failed not_claimed (some i) (some plan) []
current_outcome i plan (some current) =
    outcome_of current.status not_claimed (some current) (some plan) []

abbrev pub claim_prepared :
    Text → ApprovalMode → Option ℤ → TradingIntent → ExecutionPlan → Job Prepared
claim_prepared id mode user i plan = do
  claimed ← ask (claim_for_execution id user mode)
  if not claimed
      then (do current ← ask (get_intent id); return (inl (current_outcome i plan current)))
      else if plan.strategy_version == 2
      then return (inr (i, plan))
      else (ask (mark_failed id (historical plan.strategy_version))
          >> return (
              inl (
                outcome_of IntentStatus.failed (historical plan.strategy_version) (some i)
                  (some plan) [])))

abbrev pub prepare_plan :
    Text → ApprovalMode → Option ℤ → TradingIntent → Option ExecutionPlan → Job Prepared
prepare_plan id mode user i none =
    return (inl (outcome_of IntentStatus.failed plan_gone (some i) none []))
prepare_plan id mode user i (some plan) =
    if status_is i.status IntentStatus.pending
    then claim_prepared id mode user i plan
    else return (inl (outcome_of i.status already_handled (some i) (some plan) []))

abbrev pub prepare_intent : Text → ApprovalMode → Option ℤ → Option TradingIntent → Job Prepared
prepare_intent id mode user none =
    return (inl (outcome_of IntentStatus.failed intent_gone none none []))
prepare_intent id mode user (some i) = do
  plan ← ask (get_execution_plan id)
  prepare_plan id mode user i plan

-- `_prepare_execution`
unfoldable pub prepare_execution : Text → ApprovalMode → Option ℤ → Job Prepared
prepare_execution id mode user = do found ← ask (get_intent id); prepare_intent id mode user found

-- The subclasses of EntryPreflightError.
unfoldable pub is_entry_preflight : Failure → Bool
is_entry_preflight entry_preflight = true
is_entry_preflight (preflight_port e) = true
is_entry_preflight symbol_owned = true
is_entry_preflight risk_unverified = true
is_entry_preflight cap_exceeded = true
is_entry_preflight geometry_changed = true
is_entry_preflight (preflight_conflict reason) = true
is_entry_preflight _ = false

-- The variables that the `except` clause of `_execute_locked_intent` reads.
pub record Attempted : Type 0 where
  pub plan : ExecutionPlan
  pub effective_plan : ExecutionPlan
  pub strategy_created : Bool
  pub primary_filled : Bool

unfoldable pub failed_status : Attempted → Failure → Option StrategyStatus
failed_status t e =
    if t.strategy_created
    then some (
        if is_entry_preflight e && not t.primary_filled
        then StrategyStatus.closed
        else StrategyStatus.uncertain)
    else none

-- The `except` clause and `_execution_failure_outcome`.
unfoldable pub fail_entry :
    Deployment → Text → TradingIntent → Attempted → Failure → Job IntentExecutionOutcome
fail_entry d id i t e = do
  if is_nonempty t.plan.entry_slices && t.strategy_created
      then recover_bindings d t.effective_plan
      else return tt
  ask (record_entry_failure id (failed e) (failed_status t e))
  return (outcome_of IntentStatus.failed (failed e) (some i) (some t.effective_plan) [])

-- The prepared plan may only have a lower leverage and other slices.
abbrev pub changes_geometry : Deployment → ExecutionPlan → ExecutionPlan → Bool
changes_geometry d plan prepared =
    ltb_ℤ plan.leverage prepared.leverage
    || not (
        d.same_plan (record prepared { leverage = plan.leverage; entry_slices = plan.entry_slices })
          plan)

abbrev pub prepare_entry : Deployment → ExecutionPlan → Job ExecutionPlan
prepare_entry d plan = do
  prepared ← ask (prepare_entry_plan plan)
  check (raise_if (changes_geometry d plan prepared) geometry_changed)
  if d.same_plan prepared plan then return tt else ask (update_execution_plan prepared)
  return prepared

abbrev pub register : Deployment → ExecutionPlan → Job (Unit {0})
register d plan = ask (register_zone (d.zone_group_id plan.symbol plan.side) plan.intent_id)

-- `_prepare_physical_primary`
unfoldable pub prepare_physical_primary : Deployment → ExecutionPlan → Job ExecutionPlan
prepare_physical_primary d plan = if not (is_nonempty plan.entry_slices) then return plan else do
  prepared ← attempt (ask (prepare_market_primary plan)) (λ e. raise (preflight_port e))
  ask (update_execution_plan prepared)
  if is_nonempty prepared.entry_slices then register d prepared else return tt
  return prepared

abbrev pub is_scale_in : EntrySlice → Bool
is_scale_in x = elim x.leg [ Leg.e1 ↦ false | _ ↦ true ]

-- The primary's slices with those of the other legs.
abbrev pub merged_slices : MarketPrimaryExecutionResult → List EntrySlice → List EntrySlice
merged_slices primary slices = primary.entry_slices ++ select is_scale_in slices

abbrev pub merged_plan : MarketPrimaryExecutionResult → ExecutionPlan → Result Failure ExecutionPlan
merged_plan primary allocated = map_err invalid (
    revalidate_dumped
      (record allocated { entry_slices = merged_slices primary allocated.entry_slices }))

-- Slices that the remaining entries brought in, with the evidence of the primary.
abbrev pub merge_primary :
    Deployment → MarketPrimaryExecutionResult → ExecutionPlan → Job ExecutionPlan
merge_primary d primary allocated = do
  check (raise_if (not (is_nonempty primary.entry_slices)) primary_evidence_missing)
  merged ← check (merged_plan primary allocated)
  ask (update_execution_plan merged)
  register d merged
  return merged

abbrev pub allocate :
    Deployment → ExecutionPlan → MarketPrimaryExecutionResult → ExecutionPlan → Job ExecutionPlan
allocate d submitted primary allocated =
    if is_nonempty allocated.entry_slices && not (is_nonempty submitted.entry_slices)
    then merge_primary d primary allocated
    else return allocated

-- The rebased plan with the slices that were submitted.
abbrev pub for_allocation :
    ExecutionPlan → ExecutionPlan → MarketPrimaryExecutionResult → ExecutionPlan
for_allocation submitted rebased primary =
    if is_nonempty submitted.entry_slices
    then record rebased { entry_slices = merged_slices primary submitted.entry_slices }
    else rebased

-- `_prepare_physical_remaining`
unfoldable pub prepare_physical_remaining :
    Deployment → ExecutionPlan → ExecutionPlan → MarketPrimaryExecutionResult → Job ExecutionPlan
prepare_physical_remaining d submitted rebased primary = do
  allocated ← ask (prepare_remaining_entries (for_allocation submitted rebased primary))
  allocate d submitted primary allocated

abbrev pub execute_primary : ExecutionPlan → Job MarketPrimaryExecutionResult
execute_primary plan =
    if is_nonempty plan.entry_slices
    then ask (execute_prepared_market_primary plan)
    else ask (execute_market_primary plan)

abbrev pub rebase_on_fill : ExecutionPlan → MarketPrimaryExecutionResult → Job ExecutionPlan
rebase_on_fill plan primary = do
  c ← ask (market_context plan.symbol)
  check (
      map_err planning (
        rebase_market_plan (record plan { entry_slices = [] }) primary.average_fill_price
          primary.filled_quantity c))

abbrev pub primary_ids : MarketPrimaryExecutionResult → List Text → List Text
primary_ids primary [] = primary.order_id ∷ []
primary_ids primary ids = ids

-- The marks of an executed entry.
abbrev pub finish : Deployment → Text → ExecutionPlan → ExecutionPlan → List Text → Job (List Text)
finish d id plan effective ids = do
  ask (mark_executed id ids)
  enroll_executed_zone d effective ids (is_nonempty plan.entry_slices)
  return ids

abbrev pub execute_remaining :
    Deployment
    → Text
    → ExecutionPlan
    → ExecutionPlan
    → MarketPrimaryExecutionResult
    → Job (List Text)
execute_remaining d id plan effective primary = do
  ask (update_execution_plan effective)
  remaining ← ask (execute_remaining_entries effective)
  finish d id plan effective (primary_ids primary primary.order_ids ++ remaining)

abbrev pub execute_resting : Deployment → Text → ExecutionPlan → Job (List Text)
execute_resting d id plan = do
  if is_nonempty plan.entry_slices then register d plan else return tt
  ids ← ask (execute plan)
  finish d id plan plan ids

abbrev pub attempted : ExecutionPlan → ExecutionPlan → Bool → Bool → Attempted
attempted plan effective created filled = record {
  plan = plan;
  effective_plan = effective;
  strategy_created = created;
  primary_filled = filled;
}

abbrev pub done : TradingIntent → ExecutionPlan → List Text → Job IntentExecutionOutcome
done i effective ids =
    return (outcome_of IntentStatus.executed executed (some i) (some effective) ids)

-- The branch of a market entry, from the created strategy on.
unfoldable pub execute_staged :
    Deployment → Text → TradingIntent → ExecutionPlan → Job IntentExecutionOutcome
execute_staged d id i prepared =
    try_else (prepare_physical_primary d prepared)
      (fail_entry d id i (attempted prepared prepared true false))
      (λ plan.
        try_else (execute_primary plan) (fail_entry d id i (attempted plan plan true false))
          (λ primary.
            try_else (rebase_on_fill plan primary)
              (fail_entry d id i (attempted plan plan true true))
              (λ rebased.
                try_else (prepare_physical_remaining d plan rebased primary)
                  (fail_entry d id i (attempted plan rebased true true))
                  (λ effective.
                    try_else (execute_remaining d id plan effective primary)
                      (fail_entry d id i (attempted plan effective true true))
                      (done i effective)))))

-- `plan.orders[0].order_type is MARKET`
abbrev pub execute_ordered :
    Deployment
    → Text
    → TradingIntent
    → ExecutionPlan
    → List PlannedOrder
    → Job IntentExecutionOutcome
execute_ordered d id i plan [] = fail_entry d id i (attempted plan plan true false) index_error
execute_ordered d id i plan (o ∷ os) =
    if is_market o.order_type
    then execute_staged d id i plan
    else try_else (execute_resting d id plan) (fail_entry d id i (attempted plan plan true false))
        (done i plan)

-- The `try` of `_execute_locked_intent`: each step with the variables that it leaves.
unfoldable pub execute_claimed_intent :
    Deployment → Text → ApprovalMode → TradingIntent → ExecutionPlan → Job IntentExecutionOutcome
execute_claimed_intent d id mode i plan =
    try_else (assert_open_preflight d i plan mode >> prepare_entry d plan)
      (fail_entry d id i (attempted plan plan false false))
      (λ prepared.
        try_else (ask (ensure_position_strategy prepared))
          (fail_entry d id i (attempted prepared prepared false false))
          (λ x. execute_ordered d id i prepared prepared.orders))

abbrev pub is_withdrawn : Option TradingIntent → Bool
is_withdrawn none = false
is_withdrawn (some current) = status_is current.status IntentStatus.skipped

abbrev pub unless_withdrawn :
    Deployment
    → Text
    → ApprovalMode
    → TradingIntent
    → ExecutionPlan
    → Option TradingIntent
    → Job IntentExecutionOutcome
unless_withdrawn d id mode i plan current =
    if is_withdrawn current
    then return (outcome_of IntentStatus.skipped withdrawn current (some plan) [])
    else execute_claimed_intent d id mode i plan

abbrev pub execute_prepared :
    Deployment → Text → ApprovalMode → Prepared → Job IntentExecutionOutcome
execute_prepared d id mode (inl refused) = return refused
execute_prepared d id mode (inr (i, plan)) = do
  current ← ask (get_intent id)
  unless_withdrawn d id mode i plan current

-- `_execute_locked_intent`
unfoldable pub execute_locked_intent :
    Deployment → Text → ApprovalMode → Option ℤ → Job IntentExecutionOutcome
execute_locked_intent d id mode user = do
  prepared ← prepare_execution id mode user
  execute_prepared d id mode prepared
