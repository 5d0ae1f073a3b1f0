-- ===== src/Supervisor/Pass.antt =====
-- position_supervisor.py: one pass over the active strategies, symbol by symbol.
use cautious_crypto_bro.Prelude.{
  Bool, true, false, Option, none, some, List, [], ◌∷◌, ◌++◌, map, if◌then◌else◌,
}
use cautious_crypto_bro.Text.{Text, same_text}
use cautious_crypto_bro.Program.{return, raise, ◌>>=◌, ◌>>◌, ask, attempt}
use cautious_crypto_bro.Domain.Enums.{uncertain, strategy_is}
use cautious_crypto_bro.Domain.Plan.Defs.{ExecutionPlan}
use cautious_crypto_bro.Domain.Strategy.{PositionStrategy}
use cautious_crypto_bro.Domain.Account.{AccountStateSummary}
use cautious_crypto_bro.Supervisor.Ports.{
  Fault, Task, account_state, get_active_position_strategies, record_zone_executions,
  pause_conflicting_strategies, trade_execution, position_changed, entry_cancellation_unconfirmed,
  exit_cancellation_unconfirmed, account_unavailable, store_error, sqlite_error, exits_changing,
  several_strategies, Settings,
}
use cautious_crypto_bro.Supervisor.Steps.{override}
use cautious_crypto_bro.Supervisor.Reconcile.{fuel, reconcile}

-- The subclasses of TradeExecutionError.
unfoldable pub is_trade_execution : Fault → Bool
is_trade_execution trade_execution = true
is_trade_execution position_changed = true
is_trade_execution account_unavailable = true
is_trade_execution entry_cancellation_unconfirmed = true
is_trade_execution exit_cancellation_unconfirmed = true
is_trade_execution _ = false

abbrev pub unavailable : Fault → Task AccountStateSummary
unavailable e = if is_trade_execution e then raise account_unavailable else raise e

-- The snapshot that the symbols share, or a new one.
unfoldable pub shared_account : Option AccountStateSummary → Task AccountStateSummary
shared_account none = attempt (ask account_state) unavailable
shared_account (some account) = return account

-- The account for the next symbol, and an error to raise at the end.
abbrev pub Outcome : Type 0
Outcome = Option AccountStateSummary × Option Fault

-- The `except` clauses of `_reconcile_symbol_locked`.
unfoldable pub recover : Settings → PositionStrategy → AccountStateSummary → Fault → Task Outcome
recover settings s account position_changed =
    override settings s account exits_changing >>= λ a. return (none, none)
recover settings s account store_error = raise store_error
recover settings s account sqlite_error = raise store_error
recover settings s account e = return (none, some e)

abbrev pub strategy_ids : List (PositionStrategy × ExecutionPlan) → List Text
strategy_ids = map (λ (r : PositionStrategy × ExecutionPlan). r.0.strategy_id)

-- `_reconcile_symbol_locked`
unfoldable pub reconcile_symbol :
    Settings
    → Text
    → List (PositionStrategy × ExecutionPlan)
    → Option AccountStateSummary
    → Task Outcome
reconcile_symbol settings symbol ((s, plan) ∷ []) shared =
    if strategy_is s.status uncertain then return (shared, none) else do
      account ← shared_account shared
      attempt (reconcile settings plan fuel s account >>= λ a. return (some a, none))
          (recover settings s account)
reconcile_symbol settings symbol strategies shared =
    ask (
      pause_conflicting_strategies (strategy_ids strategies)
        (settings.render (several_strategies symbol)))
    >> return (shared, none)

-- `by_symbol.setdefault(state.symbol, []).append(...)`
abbrev grouped :
    PositionStrategy × ExecutionPlan
    → List (Text × List (PositionStrategy × ExecutionPlan))
    → List (Text × List (PositionStrategy × ExecutionPlan))
grouped r [] = (r.0.symbol, r ∷ []) ∷ []
grouped r ((symbol, rs) ∷ groups) =
    let rest = grouped r groups in
    if same_text symbol r.0.symbol then (symbol, rs ++ (r ∷ [])) ∷ groups else (symbol, rs) ∷ rest

abbrev grouped_from :
    List (Text × List (PositionStrategy × ExecutionPlan))
    → List (PositionStrategy × ExecutionPlan)
    → List (Text × List (PositionStrategy × ExecutionPlan))
grouped_from groups [] = groups
grouped_from groups (r ∷ rs) = grouped_from (grouped r groups) rs

-- `_strategies_by_symbol`
unfoldable pub strategies_by_symbol :
    List (PositionStrategy × ExecutionPlan) → List (Text × List (PositionStrategy × ExecutionPlan))
strategies_by_symbol = grouped_from []

abbrev first_of : Option Fault → Option Fault → Option Fault
first_of none later = later
first_of (some e) later = some e

-- The loop of `reconcile_once`, with the shared account and the first error.
unfoldable pub reconcile_symbols :
    Settings
    → Option AccountStateSummary
    → Option Fault
    → List (Text × List (PositionStrategy × ExecutionPlan))
    → Task (Option Fault)
reconcile_symbols settings shared failed [] = return failed
reconcile_symbols settings shared failed ((symbol, strategies) ∷ groups) = do
  (shared', e) ← reconcile_symbol settings symbol strategies shared
  reconcile_symbols settings shared' (first_of failed e) groups

abbrev raise_first : Option Fault → Task (Unit {0})
raise_first none = return tt
raise_first (some e) = raise e

-- `_record_zone_executions`, called where its interval has passed.
abbrev recorded : Bool → Task (Unit {0})
recorded due = if due then ask record_zone_executions else return tt

-- `reconcile_once`
unfoldable pub reconcile_once : Settings → Bool → Task (Unit {0})
reconcile_once settings zone_executions_due = do
  records ← ask get_active_position_strategies
  recorded zone_executions_due
  first ← reconcile_symbols settings none none (strategies_by_symbol records)
  raise_first first
