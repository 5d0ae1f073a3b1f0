-- ===== src/Coordinator/Ports.antt =====
-- ports.py: what the execution coordinator asks of the exchange and of the store, and the exceptions.
use cautious_crypto_bro.Prelude.{ℕ, Bool, Option, List}
use cautious_crypto_bro.Prelude.Int.{ℤ}
use cautious_crypto_bro.Text.{Text}
use cautious_crypto_bro.Decimal.{Decimal}
use cautious_crypto_bro.Program.{Program}
use cautious_crypto_bro.Domain.Enums.{Side, ApprovalMode, IntentStatus, StrategyStatus}
use cautious_crypto_bro.Domain.Invalid.{Invalid}
use cautious_crypto_bro.Domain.Signal.{TradingIntent, PositionActionIntent}
use cautious_crypto_bro.Domain.Policy.{InstrumentContext}
use cautious_crypto_bro.Domain.Plan.Defs.{EntrySlice, ExecutionPlan}
use cautious_crypto_bro.Domain.Strategy.{PositionStrategy}
use cautious_crypto_bro.Domain.Account.{AccountOrder, AccountStateSummary}
use cautious_crypto_bro.Planner.Error.{PlanError}

-- `MarketPrimaryExecutionResult`
pub record MarketPrimaryExecutionResult : Type 0 where
  pub order_id : Text
  pub average_fill_price : Decimal
  pub filled_quantity : Decimal
  pub order_ids : List Text
  pub entry_slices : List EntrySlice

-- `PositionActionExecutionResult`
pub record PositionActionExecutionResult : Type 0 where
  pub order_id : Text
  pub position_side : Side
  pub position_size_before : Decimal
  pub submitted_quantity : Option Decimal
  pub cancelled_entry_orders : ℕ
  pub cancelled_exit_orders : ℕ

-- `ZoneOrder` of an entry.
pub record ZoneOrder : Type 0 where
  pub zone_id : Text
  pub order_id : Text
  pub order_link_id : Text
  pub quantity : Decimal

-- Why a new position is not opened.
pub data SafetyReason : Type 0 where
  relation_not_eligible several_positions new_conflict opposite_exposure : SafetyReason

-- The exceptions, by class and message; those of a port are any of them.
pub data Failure : Type 0 where
  trade_execution store_error other_error arithmetic index_error : Failure
  entry_preflight : Failure
  preflight_port : Failure → Failure
  symbol_owned risk_unverified cap_exceeded geometry_changed : Failure
  preflight_conflict auto_unsafe : SafetyReason → Failure
  action_preflight : Failure
  planning : PlanError → Failure
  invalid : Invalid → Failure
  primary_evidence_missing invalid_zone_order id_count_differs binding_mismatch : Failure
  order_mismatch order_ended reduce_without_quantity reduce_geometry reduced_to_nothing : Failure
  several_live_positions opposite_side : Failure
  fill_unconfirmed still_open above_target cancellation_unconfirmed : Failure

-- The texts of the outcomes and of what is recorded.
pub data Message : Type 0 where
  executed intent_gone plan_gone action_gone already_handled not_claimed withdrawn : Message
  historical : ℕ → Message
  stale : ℕ → Message
  failed uncertain_cancellation : Failure → Message
  no_entries : Message
  cancelled_entries : ℕ → Message

-- The methods that the coordinator calls, `datetime.now` and `asyncio.sleep`.
pub data Request : Type 0 where
  now sleep account_state get_active_position_strategies : Request
  get_intent get_execution_plan get_position_action : Text → Request
  claim_for_execution claim_position_action :
      (id : Text) (user : Option ℤ) (mode : ApprovalMode) → Request
  mark_failed mark_position_action_failed : (id : Text) (message : Message) → Request
  mark_executed : (id : Text) (orders : List Text) → Request
  record_entry_failure :
      (id : Text) (message : Message) (strategy : Option StrategyStatus) → Request
  update_execution_plan ensure_position_strategy : ExecutionPlan → Request
  register_zone : (group intent_id : Text) → Request
  bind_zone_order : ZoneOrder → Request
  zone_bound_orders : (group : Text) → Request
  prepare_entry_plan prepare_market_primary prepare_remaining_entries : ExecutionPlan → Request
  execute execute_remaining_entries : ExecutionPlan → Request
  execute_market_primary execute_prepared_market_primary : ExecutionPlan → Request
  market_context : (symbol : Text) → Request
  strategy_order : (symbol link : Text) → Request
  cancel_order : (symbol order_id : Text) → Request
  execute_position_action : PositionActionIntent → Request
  complete_position_action : (action : PositionActionIntent) (order_id : Text) → Request
  mark_position_action_uncertain :
      (id symbol : Text) (order_id : Option Text) (message : Message) → Request
  entry_cancellation_targets : PositionActionIntent → Request
  record_entry_cancellation :
      (action : PositionActionIntent) (targets : List Text) (complete flat : Bool)
      (error : Option Message)
      → Request

abbrev pub Reply : Request → Type 0
Reply now = ℕ
Reply account_state = AccountStateSummary
Reply get_active_position_strategies = List (PositionStrategy × ExecutionPlan)
Reply (get_intent _) = Option TradingIntent
Reply (get_execution_plan _) = Option ExecutionPlan
Reply (get_position_action _) = Option PositionActionIntent
Reply (claim_for_execution _ _ _) = Bool
Reply (claim_position_action _ _ _) = Bool
Reply (zone_bound_orders _) = List Text
Reply (prepare_entry_plan _) = ExecutionPlan
Reply (prepare_market_primary _) = ExecutionPlan
Reply (prepare_remaining_entries _) = ExecutionPlan
Reply (execute _) = List Text
Reply (execute_remaining_entries _) = List Text
Reply (execute_market_primary _) = MarketPrimaryExecutionResult
Reply (execute_prepared_market_primary _) = MarketPrimaryExecutionResult
Reply (market_context _) = InstrumentContext
Reply (strategy_order _ _) = Option AccountOrder
Reply (execute_position_action _) = PositionActionExecutionResult
Reply (entry_cancellation_targets _) = List Text
Reply _ = Unit

abbrev pub Job : Type 0 → Type 0
Job A = Program Request Reply Failure A

-- The arguments of `ExecutionCoordinator`, the uuid5 of a zone, and pydantic's equality of two plans.
pub record Deployment : Type 0 where
  pub max_age_seconds : ℕ
  pub portfolio_stop_risk_cap_usdt : Option Decimal
  pub zone_group_id : Text → Side → Text
  pub same_plan : ExecutionPlan → ExecutionPlan → Bool

-- `IntentExecutionOutcome` and `PositionActionExecutionOutcome`
pub record IntentExecutionOutcome : Type 0 where
  pub status : IntentStatus
  pub message : Message
  pub intent : Option TradingIntent
  pub plan : Option ExecutionPlan
  pub order_ids : List Text

pub record PositionActionExecutionOutcome : Type 0 where
  pub status : IntentStatus
  pub message : Message
  pub action : Option PositionActionIntent
  pub result : Option PositionActionExecutionResult
