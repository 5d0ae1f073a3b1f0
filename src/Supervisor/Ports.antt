-- ===== src/Supervisor/Ports.antt =====
-- ports.py: what the supervisor asks of the exchange and of the store, and the exceptions.
use cautious_crypto_bro.Prelude.{ℕ, Option, List}
use cautious_crypto_bro.Text.{Text}
use cautious_crypto_bro.Decimal.{Decimal}
use cautious_crypto_bro.Program.{Program}
use cautious_crypto_bro.Domain.Enums.{Side}
use cautious_crypto_bro.Domain.Policy.{InstrumentContext}
use cautious_crypto_bro.Domain.Plan.Defs.{ExecutionPlan}
use cautious_crypto_bro.Domain.Strategy.{PositionStrategy}
use cautious_crypto_bro.Domain.Account.{AccountOrder, AccountStateSummary}

-- The methods of `AccountGateway` and `PositionSupervisorStore` that are called, `datetime.now` and
-- `record_zone_executions`.
pub data Call : Type 0 where
  clock account_state get_active_position_strategies record_zone_executions : Call
  strategy_order : (symbol link : Text) → Call
  cancel_order : (symbol order_id : Text) → Call
  cancel_pending_entries market_context : (symbol : Text) → Call
  set_position_protection :
      (symbol : Text) (stop_loss : Decimal) (trailing_distance : Option Decimal) → Call
  place_reduce_only_exit :
      (symbol : Text) (position_side : Side) (quantity price : Decimal) (link : Text) → Call
  save_position_strategy : PositionStrategy → Call
  pause_conflicting_strategies : (ids : List Text) (reason : Text) → Call

abbrev pub Answer : Call → Type 0
Answer clock = ℕ
Answer account_state = AccountStateSummary
Answer get_active_position_strategies = List (PositionStrategy × ExecutionPlan)
Answer (strategy_order _ _) = Option AccountOrder
Answer (market_context _) = InstrumentContext
Answer _ = Unit

-- The exceptions, by class and message; those of a port are any of them.
pub data Fault : Type 0 where
  trade_execution store_error sqlite_error runtime_error : Fault
  arithmetic assertion out_of_fuel : Fault
  several_positions position_gone position_changed account_unavailable : Fault
  stop_unconfirmed trailing_unconfirmed stop_not_below stop_not_above trailing_zero : Fault
  entry_cancellation_unconfirmed exit_cancellation_unconfirmed : Fault
  exit_conflict exit_unconfirmed stop_differs : Fault
  cap_passed unprofitable_ticks shared_ticks slice_without_order index_out_of_range : Fault

abbrev pub Task : Type 0 → Type 0
Task A = Program Call Answer Fault A

-- Why a strategy is handed over to a person.
pub data Reason : Type 0 where
  side_mismatch take_profit_outside trailing_outside invalid_stop : Reason
  exits_changing legacy_exits unexpected_exit partial_stop_unattributed : Reason
  several_strategies : (symbol : Text) → Reason
  partial_stop_changed : (order_id : Text) → Reason
  exit_missing : (link : Text) → Reason
  exit_altered :
      (link status : Text) (quantity price : Decimal) (live_quantity : Decimal)
      (live_price : Option Decimal)
      → Reason
  entry_unexpected entry_side_changed entry_quantity_changed : (link : Text) → Reason
  entry_price_changed : (link : Text) (expected : Decimal) (live : Option Decimal) → Reason
  size_increased average_changed trailing_inconsistent : Reason
  stop_changed : (expected : Decimal) (live : Option Decimal) → Reason
  trailing_changed : (expected : Decimal) (live : Option Decimal) → Reason

-- The arguments of `PositionSupervisor`, and `str` of a Decimal inside the f-strings of the reasons.
pub record Settings : Type 0 where
  pub legacy_entry_ttl_minutes : ℕ
  pub render : Reason → Text
