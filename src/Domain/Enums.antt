-- ===== src/Domain/Enums.antt =====
-- The enumerations of domain.py, each with the test `is`.
use cautious_crypto_bro.Prelude.{ℕ, ◌≡◌, Bool, true, false, arith, ◌==◌}

pub data Side : Type 0 where
  long short : Side

abbrev pub is_long : Side → Bool
is_long long = true
is_long short = false

abbrev pub side_is : Side → Side → Bool
side_is long long = true
side_is short short = true
side_is _ _ = false

abbrev pub other_side : Side → Side
other_side long = short
other_side short = long

pub data EntryType : Type 0 where
  market limit range : EntryType

pub data PositionActionType : Type 0 where
  cancel_entries reduce close : PositionActionType

pub data OpenRelation : Type 0 where
  new add_or_reentry update_existing unclassified : OpenRelation

pub data ApprovalMode : Type 0 where
  manual auto skipped : ApprovalMode

abbrev pub mode_is : ApprovalMode → ApprovalMode → Bool
mode_is ApprovalMode.manual ApprovalMode.manual = true
mode_is ApprovalMode.auto ApprovalMode.auto = true
mode_is ApprovalMode.skipped ApprovalMode.skipped = true
mode_is _ _ = false

pub data AutoApprovalMode : Type 0 where
  disabled open_only all : AutoApprovalMode

pub data ExecutionOrderType : Type 0 where
  market limit : ExecutionOrderType

abbrev pub is_market : ExecutionOrderType → Bool
is_market ExecutionOrderType.market = true
is_market ExecutionOrderType.limit = false

pub data StopLossSource : Type 0 where
  trader policy : StopLossSource

pub data TakeProfitSource : Type 0 where
  trader policy : TakeProfitSource

pub data IntentStatus : Type 0 where
  pending executing executed skipped failed uncertain : IntentStatus

abbrev intent_code : IntentStatus → ℕ
intent_code IntentStatus.pending = 0
intent_code IntentStatus.executing = 1
intent_code IntentStatus.executed = 2
intent_code IntentStatus.skipped = 3
intent_code IntentStatus.failed = 4
intent_code IntentStatus.uncertain = 5

abbrev pub status_is : IntentStatus → IntentStatus → Bool
status_is a b = intent_code a == intent_code b

pub data StrategyStatus : Type 0 where
  entering open_risk profit_protected closing closed manual_override uncertain : StrategyStatus

abbrev strategy_code : StrategyStatus → ℕ
strategy_code StrategyStatus.entering = 0
strategy_code StrategyStatus.open_risk = 1
strategy_code StrategyStatus.profit_protected = 2
strategy_code StrategyStatus.closing = 3
strategy_code StrategyStatus.closed = 4
strategy_code StrategyStatus.manual_override = 5
strategy_code StrategyStatus.uncertain = 6

abbrev pub strategy_is : StrategyStatus → StrategyStatus → Bool
strategy_is a b = strategy_code a == strategy_code b

pub status_is-true : (a b : IntentStatus) → status_is a b ≡ true → a ≡ b
status_is-true a b h = ground arith
