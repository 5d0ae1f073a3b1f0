-- ===== src/Store/HandsOff.antt =====
-- storage/: positions that a person took over, or that are closed, stay out of automation's reach.
use cautious_crypto_bro.Prelude.{
  ℕ, ◌≡◌, refl, ap, ◌∙◌, Bool, true, false, not, ◌&&◌, ◌||◌, Option, List, [], ◌∷◌, any, arith,
  select,
}
use cautious_crypto_bro.Text.{Text, upper}
use cautious_crypto_bro.Domain.Enums.{StrategyStatus, strategy_is, PositionActionType}
use cautious_crypto_bro.Domain.Signal.{PositionActionIntent}
use cautious_crypto_bro.Domain.Strategy.{PositionStrategy}
use cautious_crypto_bro.Store.Table.{select-update}
use cautious_crypto_bro.Store.Tables.{Store}
use cautious_crypto_bro.Store.Intents.{set_strategy, strategy_of}
use cautious_crypto_bro.Store.Actions.{
  complete_position_action, complete_strategies, mark_position_action_uncertain, open_for,
  certain_for, managed_for, rebalance, start_closing, record_entry_cancellation, withdraw_entries,
  withdraw_entry, not_closed, close_strategy,
}
use cautious_crypto_bro.Store.Withdrawal.{cancellation_parts}
use cautious_crypto_bro.Store.Recovery.{quarantine_interrupted_executions, quarantine_symbols}

-- CLOSED or MANUAL_OVERRIDE.
abbrev pub is_hands_off : PositionStrategy → Bool
is_hands_off p =
    strategy_is p.status StrategyStatus.closed
    || strategy_is p.status StrategyStatus.manual_override

quarantine_hands_off :
    (now : ℕ) (symbols : List Text) (ps : List PositionStrategy)
    → select is_hands_off (quarantine_symbols now symbols ps) ≡ select is_hands_off ps
unfolding quarantine_symbols
quarantine_hands_off now [] ps = refl
quarantine_hands_off now (t ∷ symbols) ps =
    quarantine_hands_off now symbols _
    ∙ select-update is_hands_off (managed_for t) (set_strategy now StrategyStatus.uncertain)
        (λ p e. ground arith) (λ p e. ground arith) ps

complete_hands_off :
    (now : ℕ) (action : PositionActionType) (symbol : Text) (ps : List PositionStrategy)
    → select is_hands_off (complete_strategies now action symbol ps) ≡ select is_hands_off ps
unfolding complete_strategies
complete_hands_off now PositionActionType.reduce symbol ps =
    select-update is_hands_off (open_for symbol) (rebalance now) (λ p e. ground arith)
      (λ p e. ground arith) ps
complete_hands_off now PositionActionType.close symbol ps =
    select-update is_hands_off (certain_for symbol) (start_closing now) (λ p e. ground arith)
      (λ p e. ground arith) ps
complete_hands_off now PositionActionType.cancel_entries symbol ps =
    select-update is_hands_off (certain_for symbol) (start_closing now) (λ p e. ground arith)
      (λ p e. ground arith) ps

-- A strategy of none of these intents.
abbrev pub is_spared : List Text → PositionStrategy → Bool
is_spared ids p = not (any (λ id. strategy_of id p) ids)

module _ (spared : PositionStrategy → Bool) where
  withdrawn_spared :
      (now : ℕ) (close : Bool) (ids : List Text)
      → ((p : PositionStrategy) → spared p ≡ true → is_spared ids p ≡ true)
      → (s : Store)
      → select spared (withdraw_entries now close ids s).strategies ≡ select spared s.strategies
  unfolding withdraw_entries withdraw_entry
  withdrawn_spared now close [] far s = refl
  withdrawn_spared now false (t ∷ ids) far s =
      withdrawn_spared now false ids (λ p e. ground (arith, far p)) _
      ∙ select-update spared (not_closed t) (rebalance now) (λ p e. ground (arith, far p))
          (λ p e. ground (arith, far (rebalance now p))) s.strategies
  withdrawn_spared now true (t ∷ ids) far s =
      withdrawn_spared now true ids (λ p e. ground (arith, far p)) _
      ∙ select-update spared (strategy_of t) (close_strategy now) (λ p e. ground (arith, far p))
          (λ p e. ground (arith, far (close_strategy now p))) _
      ∙ select-update spared (not_closed t) (rebalance now) (λ p e. ground (arith, far p))
          (λ p e. ground (arith, far (rebalance now p))) s.strategies

-- A strategy that is closed or in manual override is the same row after `complete_position_action`,
-- after `mark_position_action_uncertain` and after the quarantine of a restart. The outcome of an
-- action that cancels entries is recorded by `record_entry_cancellation`, which may freeze or close
-- such a strategy when its intent is a target: it leaves every strategy of no target the same row.
pub hands_off_kept :
    (now : ℕ) (a : PositionActionIntent) (order id symbol error : Text) (order? : Option Text)
    (targets : List Text) (complete flat : Bool) (s : Store)
    → (select is_hands_off (complete_position_action now a order s).strategies
        ≡ select is_hands_off s.strategies)
      × (select is_hands_off
            (mark_position_action_uncertain now id symbol order? error s).strategies
          ≡ select is_hands_off s.strategies)
      × (select is_hands_off (quarantine_interrupted_executions now s).1.strategies
          ≡ select is_hands_off s.strategies)
      × (select
            (is_spared targets)
            (record_entry_cancellation now a targets complete flat order? s).strategies
          ≡ select (is_spared targets) s.strategies)
unfolding complete_position_action mark_position_action_uncertain quarantine_interrupted_executions
hands_off_kept now a order id symbol error order? targets complete flat s = (
  complete_hands_off now a.action a.symbol s.strategies,
  select-update is_hands_off (managed_for (upper symbol))
      (set_strategy now StrategyStatus.uncertain) (λ p e. ground arith) (λ p e. ground arith)
      s.strategies,
  quarantine_hands_off now _ s.strategies,
  ap (select (is_spared targets)) (cancellation_parts now a targets complete flat order? s).1
      ∙ withdrawn_spared (is_spared targets) now (complete && flat) targets (λ p e. e) s,
)

-- A strategy of the symbol that a completed REDUCE has left to enter, or without a rebalance.
abbrev pub unbalanced : Text → PositionStrategy → Bool
unbalanced symbol p = open_for symbol p && not (p.entry_frozen && p.rebalance_needed)

-- A strategy of the symbol that is neither closing nor out of automation's reach.
abbrev pub not_closing : Text → PositionStrategy → Bool
not_closing symbol p =
    certain_for symbol p && not (strategy_is p.status StrategyStatus.closing && p.entry_frozen)
