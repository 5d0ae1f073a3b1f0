-- ===== src/Store/Samples.antt =====
-- Sample tables: an executing intent and action, pending ones, and two strategies of one symbol.
use cautious_crypto_bro.Prelude.{false, none, some, [], ◌∷◌}
use cautious_crypto_bro.Text.{Text, text}
use cautious_crypto_bro.Decimal.{dec, decimal}
use cautious_crypto_bro.Domain.Enums.{
  long, IntentStatus, ApprovalMode, StrategyStatus, PositionActionType,
}
use cautious_crypto_bro.Domain.Signal.{TradingIntent, PositionActionIntent}
use cautious_crypto_bro.Domain.Strategy.{PositionStrategy}
use cautious_crypto_bro.Planner.Samples.{intent, source_message}
use cautious_crypto_bro.Store.Tables.{Row, open_kind, Store}

abbrev pub intent_row : Text → IntentStatus → ApprovalMode → Row TradingIntent
intent_row id status mode = record {
  id = id;
  payload = record intent { intent_id = id };
  status = status;
  approval_mode = mode;
  decision_user_id = none;
  bybit_order_id = none;
  error = none;
  created_at = 1000;
  updated_at = 1000;
}

abbrev pub reduce_action : Text → PositionActionIntent
reduce_action id = record {
  action_id = id;
  source = source_message;
  symbol = text "BTCUSDT";
  action = PositionActionType.reduce;
  close_pct = some (dec 50);
  expected_side = some long;
  summary = text "take half";
  confidence = decimal 9 1;
  approval_mode = ApprovalMode.manual;
  created_at = 1000;
  status = IntentStatus.pending;
  contract_review_reason = none;
}

abbrev pub action_row : Text → IntentStatus → ApprovalMode → Row PositionActionIntent
action_row id status mode = record {
  id = id;
  payload = reduce_action id;
  status = status;
  approval_mode = mode;
  decision_user_id = none;
  bybit_order_id = none;
  error = none;
  created_at = 1000;
  updated_at = 1000;
}

abbrev pub strategy_row : Text → StrategyStatus → PositionStrategy
strategy_row id status = record {
  strategy_id = id;
  symbol = text "BTCUSDT";
  side = long;
  status = status;
  entry_frozen = false;
  base_position_qty = none;
  last_position_qty = none;
  last_avg_price = none;
  tp1_done = false;
  tp2_done = false;
  tp3_done = false;
  trailing_active = false;
  protected_stop_loss = none;
  trailing_distance = none;
  exit_revision = 0;
  rebalance_needed = false;
  installing_exits = false;
  expected_exits = none;
  pause_reason = none;
  pause_notified = false;
  created_at = 1000;
  updated_at = 1000;
}

abbrev pub id_a : Text
id_a = text "a"

abbrev pub id_b : Text
id_b = text "b"

abbrev pub id_c : Text
id_c = text "c"

abbrev pub id_d : Text
id_d = text "d"

abbrev pub store : Store
store = record {
  intents =
      intent_row id_a IntentStatus.executing ApprovalMode.auto
      ∷ intent_row id_b IntentStatus.pending ApprovalMode.manual
      ∷ [];
  plans = [];
  strategies =
      strategy_row id_a StrategyStatus.open_risk
      ∷ strategy_row id_c StrategyStatus.manual_override
      ∷ [];
  actions =
      action_row id_c IntentStatus.executing ApprovalMode.auto
      ∷ action_row id_d IntentStatus.pending ApprovalMode.manual
      ∷ [];
  deliveries =
      record {
        record_id = id_b;
        kind = open_kind;
        claim_token = none;
        retry_after = none;
        delivered_at = none;
      }
      ∷ [];
  notices = [];
}
