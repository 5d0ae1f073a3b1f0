-- ===== src/Domain/Strategy.antt =====
-- domain.py: the durable state of a supervised position.
use cautious_crypto_bro.Prelude.{ℕ, Bool, Option, List}
use cautious_crypto_bro.Text.{Text}
use cautious_crypto_bro.Decimal.{Decimal}
use cautious_crypto_bro.Domain.Enums.{Side, StrategyStatus}

pub record PositionStrategy : Type 0 where
  pub strategy_id : Text
  pub symbol : Text
  pub side : Side
  pub status : StrategyStatus
  pub entry_frozen : Bool
  pub base_position_qty : Option Decimal
  pub last_position_qty : Option Decimal
  pub last_avg_price : Option Decimal
  pub tp1_done : Bool
  pub tp2_done : Bool
  pub tp3_done : Bool
  pub trailing_active : Bool
  pub protected_stop_loss : Option Decimal
  pub trailing_distance : Option Decimal
  pub exit_revision : ℕ
  pub rebalance_needed : Bool
  pub installing_exits : Bool
  pub expected_exits : Option (List (Text × Decimal × Decimal))
  pub pause_reason : Option Text
  pub pause_notified : Bool
  pub created_at : ℕ
  pub updated_at : ℕ
