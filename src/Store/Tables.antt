-- ===== src/Store/Tables.antt =====
-- storage/schema.py: the tables that the repositories of intents, actions and strategies write.
use cautious_crypto_bro.Prelude.{ℕ, Option, List}
use cautious_crypto_bro.Prelude.Int.{ℤ}
use cautious_crypto_bro.Text.{Text}
use cautious_crypto_bro.Domain.Enums.{IntentStatus, ApprovalMode}
use cautious_crypto_bro.Domain.Signal.{TradingIntent, PositionActionIntent}
use cautious_crypto_bro.Domain.Plan.Defs.{ExecutionPlan}
use cautious_crypto_bro.Domain.Strategy.{PositionStrategy}

-- A row of `intents` or `position_actions`: the tables have the same columns. A payload's JSON is
-- the value that it encodes; the source's channel and message are in the payload.
pub record Row (P : Type 0) : Type 0 where
  pub id : Text
  pub payload : P
  pub status : IntentStatus
  pub approval_mode : ApprovalMode
  pub decision_user_id : Option ℤ
  pub bybit_order_id : Option Text
  pub error : Option Text
  pub created_at : ℕ
  pub updated_at : ℕ

-- A row of `execution_plans`.
pub record PlanRow : Type 0 where
  pub intent_id : Text
  pub plan : ExecutionPlan
  pub bybit_order_ids : Option (List Text)

pub data Kind : Type 0 where
  open_kind action_kind : Kind

-- A row of `manual_deliveries`; its times are whole seconds.
pub record Delivery : Type 0 where
  pub record_id : Text
  pub kind : Kind
  pub claim_token : Option Text
  pub retry_after : Option ℕ
  pub delivered_at : Option ℕ

-- A row of `interrupted_execution_notices`.
pub record Notice : Type 0 where
  pub kind : Kind
  pub record_id : Text

pub record Store : Type 0 where
  pub intents : List (Row TradingIntent)
  pub plans : List PlanRow
  pub strategies : List PositionStrategy
  pub actions : List (Row PositionActionIntent)
  pub deliveries : List Delivery
  pub notices : List Notice

-- The exceptions of the repositories. A transaction that raises is rolled back.
pub data StoreError : Type 0 where
  plan_gone claim_gone entry_strategy_gone strategy_gone conflicting_gone : StoreError
  bad_conflict_ids expiry_not_recorded bad_age_limit bad_stale_age delivery_exists : StoreError
