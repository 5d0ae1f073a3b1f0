-- ===== src/Lib.antt =====
-- Cautious Crypto Bro: Telegram posts become trading intents, a deterministic planner turns an
-- intent into a sized execution plan, and the plan is executed on Bybit Demo and supervised.
--
-- Parts, by file of the repository (src/cautious_crypto_bro):
--
-- - domain.py: Domain. Enumerations are in Domain.Enums, intents in Domain.Signal, policies in
--   Domain.Policy, execution plans in Domain.Plan.Defs and their validators in Domain.Plan.Rules and
--   Domain.Plan.Dumped. A pydantic model is a record and a function that validates it; each
--   ValueError is a constructor of Domain.Invalid, and a Field constraint is out_of_bounds.
-- - execution.py: Planner. Planner.Entries has the rounding, the stop and the entry levels,
--   Planner.Sizing the sized legs, Planner.Targets the exits, Planner.Build `plan`, Planner.Rebase
--   `rebase_market_plan` and `refresh_market_plan`. Each `raise` is a constructor of PlanError.
-- - portfolio_risk.py: PortfolioRisk, over the account snapshot of domain.py in Domain.Account.
--   PortfolioRisk.Defs has the verified stop of a position, `open_stop_risk_usdt` and
--   `policy_with_remaining_portfolio_risk`.
-- - bybit/entry_limits.py: EntryLimits. EntryLimits.Share has the number of steps of each slice,
--   EntryLimits.Defs `allocate_entry_slices`.
-- - storage/: Store. A table is the list of its rows (Store.Tables, storage/schema.py), UPDATE and its
--   row count are in Store.Table, and a method of a repository is a function from the tables to the
--   tables: storage/intent.py in Store.Intents, storage/position_action.py in Store.Actions,
--   storage/position_strategy.py in Store.Strategies, storage/recovery.py in Store.Recovery,
--   storage/manual_delivery.py and storage/auto_outcome.py in Store.Deliveries, and what intents and
--   actions share (storage/_shared.py) in Store.Shared. A payload's JSON is the value that it encodes. A
--   transaction is one call; where it raises, it is rolled back and the result is a StoreError.
--   Store.Step is one call as a step, and a sequence of calls of any processes. The time of a call is an
--   argument, in microseconds; the retry and delivery times of manual_deliveries are the whole seconds
--   that SQLite's datetime('now') gives of it. The token of a delivery is the uuid4 that the call draws.
--   Store.Delivered and Store.Sent follow a delivered record through any sequence of calls.
--
-- - execution_coordinator.py: Coordinator. Coordinator.Ports has the calls, Coordinator.Preflight the
--   checks before an entry, Coordinator.Opens the execution of an intent, Coordinator.Actions that of a
--   position action, Coordinator.Zones the evidence of zones with entry_ownership.py. A `try` is split
--   where a variable changes that its `except` reads. Coordinator.Ledger is the rule on the calls. The
--   loops that confirm an action or a cancellation have the 20 attempts of the source.
-- - contract_symbols.py: Contracts, with the exchange's answer about a symbol as a call.
-- - position_supervisor.py and position_management/: Supervisor. Code that awaits the exchange and the
--   store is a program (Program.Core): a tree of calls, with a continuation for every answer and every
--   exception, so that nothing is assumed of the answers. Supervisor.Ports has the calls and the
--   exceptions, Supervisor.Orders what is read off a snapshot (_helpers.py), Supervisor.Trailing
--   trailing_stop_manager.py, Supervisor.Fills fill_detector.py, Supervisor.Targets,
--   Supervisor.Handoff, Supervisor.Replacement and Supervisor.Install exit_installer.py,
--   Supervisor.Drift the checks of a live position, Supervisor.Steps, Supervisor.Expiry and
--   Supervisor.Live the handlers, Supervisor.Reconcile `_reconcile`, and Supervisor.Pass
--   `reconcile_once`. `_reconcile` has fuel 2, for it calls itself once: the call freezes entries, and
--   a frozen strategy does not come to the call. Program.Safe is a rule on the calls of a program by
--   the history of answers, and Supervisor.Guard the rule of the supervisor.
--
-- The planner's result reaches the store as the plan of an intent; the coordinator claims the intent or
-- action in the store before it asks the exchange, and records the outcome there.
--
-- Numbers. A Decimal is a whole number of quanta of 10^-100, and add, sub, mul, div and abs round to 28
-- significant digits, half to even, as the default context of Python's decimal module does; a value
-- below 10^-72 would lose digits that Python keeps. NaN, infinities and the context's exponent limits
-- are not modelled: the validators exclude the first two. A float field is the decimal that
-- Decimal(str(x)) makes of it. Times are numbers of microseconds, identifiers and texts are lists of
-- code points, and upper, strip and isalnum are those of ASCII.
--
-- Not modelled: the lock of the coordinator and its shield against cancellation, the endless loop of
-- the position supervisor and the recording of zone executions that it calls (execution_history.py),
-- the routing of signals, the queue of source messages and the exchange executor; logging, Telegram,
-- the LLM client, HTTP, and the reports under scripts.
mod Prelude
pub mod Text
pub mod Decimal
pub mod Domain
pub mod Program
pub mod Planner
pub mod PortfolioRisk
pub mod EntryLimits
pub mod Store
pub mod Supervisor
pub mod Coordinator
pub mod Contracts
