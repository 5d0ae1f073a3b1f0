-- ===== src/Store/Intents.antt =====
-- storage/intent.py: the repository of trading intents and their execution plans.
use cautious_crypto_bro.Prelude.{ℕ, ◌==◌, Bool, not, ◌&&◌, Option, none, some, List, first}
use cautious_crypto_bro.Prelude.Int.{ℤ}
use cautious_crypto_bro.Prelude.Result.{Result, ok, ◌>>◌, raise_if}
use cautious_crypto_bro.Text.{Text, same_text}
use cautious_crypto_bro.Domain.Enums.{IntentStatus, ApprovalMode, StrategyStatus}
use cautious_crypto_bro.Domain.Signal.{TradingIntent}
use cautious_crypto_bro.Domain.Plan.Defs.{ExecutionPlan}
use cautious_crypto_bro.Domain.Strategy.{PositionStrategy}
use cautious_crypto_bro.Store.Table.{update, affected}
use cautious_crypto_bro.Store.Tables.{
  Row, PlanRow, Store, StoreError, plan_gone, claim_gone, entry_strategy_gone,
}
use cautious_crypto_bro.Store.Shared.{
  transition_pending, has_id, mark_rows_failed, is_executing, fail_row,
}

abbrev hydrated : Option (Row TradingIntent) → Option TradingIntent
hydrated none = none
hydrated (some r) = some (record (r.payload) { status = r.status; approval_mode = r.approval_mode })

-- `get_intent`
unfoldable pub get_intent : Text → Store → Option TradingIntent
get_intent id s = hydrated (first (has_id id) s.intents)

abbrev pub plan_of : Text → PlanRow → Bool
plan_of id r = same_text r.intent_id id

-- `update_execution_plan`
unfoldable pub update_execution_plan : ExecutionPlan → Store → Result StoreError Store
update_execution_plan p s = do
  raise_if (not (affected (plan_of p.intent_id) s.plans == 1)) plan_gone
  ok (record s { plans = update (plan_of p.intent_id) (λ r. record r { plan = p }) s.plans })

-- `claim_for_execution`
unfoldable pub claim_for_execution :
    ℕ → Text → Option ℤ → Option ApprovalMode → Store → Bool × Store
claim_for_execution now id user mode s =
    let (claimed, rows) = transition_pending now id IntentStatus.executing user mode s.intents in
    (claimed, record s { intents = rows })

-- `mark_skipped`
unfoldable pub mark_skipped : ℕ → Text → ℤ → Store → Bool × Store
mark_skipped now id user s =
    let (skipped, rows) =
      transition_pending now id IntentStatus.skipped (some user) none s.intents in
    (skipped, record s { intents = rows })

-- `mark_executed`
unfoldable pub mark_executed : ℕ → Text → List Text → Store → Store
mark_executed now id order_ids s = record s {
  intents =
      update (has_id id)
        (λ r. record r { status = IntentStatus.executed; error = none; updated_at = now })
        s.intents;
  plans = update (plan_of id) (λ r. record r { bybit_order_ids = some order_ids }) s.plans;
}

-- `mark_failed`
unfoldable pub mark_failed : ℕ → Text → Text → Store → Store
mark_failed now id error s = record s { intents = mark_rows_failed now id error s.intents }

abbrev pub strategy_of : Text → PositionStrategy → Bool
strategy_of id p = same_text p.strategy_id id

abbrev pub set_strategy : ℕ → StrategyStatus → PositionStrategy → PositionStrategy
set_strategy now status p = record p { status = status; updated_at = now }

abbrev pub executing_with : Text → Row TradingIntent → Bool
executing_with id r = has_id id r && is_executing r

-- The second statement of `record_entry_failure`.
unfoldable pub record_strategy_status :
    ℕ → Text → Option StrategyStatus → Store → Result StoreError Store
record_strategy_status now id none s = ok s
record_strategy_status now id (some status) s = do
  raise_if (not (affected (strategy_of id) s.strategies == 1)) entry_strategy_gone
  ok (record s { strategies = update (strategy_of id) (set_strategy now status) s.strategies })

-- `record_entry_failure`
unfoldable pub record_entry_failure :
    ℕ → Text → Text → Option StrategyStatus → Store → Result StoreError Store
record_entry_failure now id error status s = do
  raise_if (not (affected (executing_with id) s.intents == 1)) claim_gone
  record_strategy_status now id status
      (record s { intents = update (executing_with id) (fail_row now error) s.intents })
