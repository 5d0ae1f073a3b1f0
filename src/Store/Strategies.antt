-- ===== src/Store/Strategies.antt =====
-- storage/position_strategy.py: the repository of supervised position strategies.
use cautious_crypto_bro.Prelude.{
  ℕ, ◌==◌, Bool, true, false, not, ◌&&◌, ◌||◌, Option, none, some, List, [], ◌∷◌, ◌++◌, any, length,
  ltb, if◌then◌else◌,
}
use cautious_crypto_bro.Prelude.Result.{Result, ok, ◌>>◌, raise_if}
use cautious_crypto_bro.Text.{Text, same_text}
use cautious_crypto_bro.Domain.Enums.{StrategyStatus, strategy_is}
use cautious_crypto_bro.Domain.Plan.Defs.{ExecutionPlan}
use cautious_crypto_bro.Domain.Strategy.{PositionStrategy}
use cautious_crypto_bro.Store.Table.{update, affected}
use cautious_crypto_bro.Store.Tables.{
  Store, StoreError, strategy_gone, conflicting_gone, bad_conflict_ids,
}
use cautious_crypto_bro.Store.Intents.{strategy_of, set_strategy}

-- The strategy of a plan, with the defaults of `PositionStrategy`.
unfoldable pub new_strategy : ℕ → ExecutionPlan → PositionStrategy
new_strategy now p = record {
  strategy_id = p.intent_id;
  symbol = p.symbol;
  side = p.side;
  status = StrategyStatus.entering;
  entry_frozen = false;
  base_position_qty = none;
  last_position_qty = none;
  last_avg_price = none;
  tp1_done = false;
  tp2_done = false;
  tp3_done = false;
  trailing_active = false;
  protected_stop_loss = none;
  trailing_distance = none;
  exit_revision = 0;
  rebalance_needed = false;
  installing_exits = false;
  expected_exits = none;
  pause_reason = none;
  pause_notified = false;
  created_at = now;
  updated_at = now;
}

-- `ensure_position_strategy`: INSERT OR IGNORE on the primary key.
unfoldable pub ensure_position_strategy : ℕ → ExecutionPlan → Store → Store
ensure_position_strategy now p s =
    if ltb p.strategy_version 2 || any (strategy_of p.intent_id) s.strategies
    then s
    else record s { strategies = s.strategies ++ new_strategy now p ∷ [] }

-- The columns that `save_position_strategy` writes: all but the key, symbol, side and creation.
abbrev pub saved_row : PositionStrategy → PositionStrategy → PositionStrategy
saved_row state row = record state {
  strategy_id = row.strategy_id;
  symbol = row.symbol;
  side = row.side;
  created_at = row.created_at;
}

-- `save_position_strategy`
unfoldable pub save_position_strategy : PositionStrategy → Store → Result StoreError Store
save_position_strategy state s = do
  raise_if (not (affected (strategy_of state.strategy_id) s.strategies == 1)) strategy_gone
  ok (record s {
    strategies = update (strategy_of state.strategy_id) (saved_row state) s.strategies;
  })

-- `len(set(ids)) == len(ids)`
unfoldable pub all_different : List Text → Bool
all_different [] = true
all_different (id ∷ ids) = not (any (same_text id) ids) && all_different ids

abbrev pub strategy_among : List Text → PositionStrategy → Bool
strategy_among ids p = any (same_text p.strategy_id) ids

abbrev pub pause_strategy : ℕ → Text → PositionStrategy → PositionStrategy
pause_strategy now reason p = record p {
  status = StrategyStatus.manual_override;
  pause_reason = some reason;
  pause_notified = false;
  updated_at = now;
}

-- `pause_conflicting_strategies`
unfoldable pub pause_conflicting_strategies : ℕ → List Text → Text → Store → Result StoreError Store
pause_conflicting_strategies now ids reason s = do
  raise_if (length ids == 0 || not (all_different ids)) bad_conflict_ids
  raise_if (not (affected (strategy_among ids) s.strategies == length ids)) conflicting_gone
  ok (record s {
    strategies = update (strategy_among ids) (pause_strategy now reason) s.strategies;
  })

abbrev pub same_reason : Text → Option Text → Bool
same_reason reason none = false
same_reason reason (some r) = same_text reason r

abbrev pub alerted : Text → Text → PositionStrategy → Bool
alerted id reason p =
    strategy_of id p
    && same_reason reason p.pause_reason
    && strategy_is p.status StrategyStatus.manual_override

-- `mark_strategy_alert_delivered`
unfoldable pub mark_strategy_alert_delivered : Text → Text → Store → Store
mark_strategy_alert_delivered id reason s = record s {
  strategies =
      update (alerted id reason) (λ (p : PositionStrategy). record p { pause_notified = true })
        s.strategies;
}

-- `set_position_strategy_status`
unfoldable pub set_position_strategy_status : ℕ → Text → StrategyStatus → Store → Store
set_position_strategy_status now id status s = record s {
  strategies = update (strategy_of id) (set_strategy now status) s.strategies;
}
