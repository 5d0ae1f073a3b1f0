-- ===== src/Store/Withdrawal.antt =====
-- storage/: what the failure of an entry and the cancellation of entries leave behind.
use cautious_crypto_bro.Prelude.{
  ℕ, ◌≡◌, refl, ◌==◌, ◌∙◌, Bool, true, not, ◌&&◌, ◌||◌, Option, is_some, List, [], ◌∷◌, arith, all,
  select, both_true, if_both,
}
use cautious_crypto_bro.Text.{Text}
use cautious_crypto_bro.Domain.Enums.{IntentStatus, status_is}
use cautious_crypto_bro.Domain.Signal.{TradingIntent, PositionActionIntent}
use cautious_crypto_bro.Domain.Strategy.{PositionStrategy}
use cautious_crypto_bro.Store.Table.{
  update, affected, affected-update, affected_still, select-update,
}
use cautious_crypto_bro.Store.Tables.{Row, Store}
use cautious_crypto_bro.Store.Intents.{strategy_of}
use cautious_crypto_bro.Store.Actions.{
  record_entry_cancellation, withdraw_entries, withdraw_entry, unsettled, withdraw_row, not_closed,
  close_strategy, rebalance,
}

abbrev pub is_executed : Row TradingIntent → Bool
is_executed r = status_is r.status IntentStatus.executed

-- A strategy of the entry that may still enter.
abbrev pub unfrozen : Text → PositionStrategy → Bool
unfrozen id p = not_closed id p && not p.entry_frozen

-- What a test of the strategies, false after both changes, finds none of stays so.
strategies_still :
    (test : PositionStrategy → Bool) (now : ℕ) (close : Bool) (ids : List Text) (s : Store)
    → ((p : PositionStrategy) → test (rebalance now p) ≡ true → test p ≡ true)
    → ((p : PositionStrategy) → test (close_strategy now p) ≡ true → test p ≡ true)
    → affected test s.strategies ≡ 0
    → affected test (withdraw_entries now close ids s).strategies ≡ 0
unfolding withdraw_entries withdraw_entry
strategies_still test now close [] s frozen closed h = h
strategies_still test now close (t ∷ ids) s frozen closed h =
    strategies_still test now close ids _ frozen closed (
      if_both (λ ps. affected test ps ≡ 0) close
        (λ _. affected_still test (strategy_of t) (close_strategy now) closed _ once) (λ _. once))
  where
    once : affected test (update (not_closed t) (rebalance now) s.strategies) ≡ 0
    once = affected_still test (not_closed t) (rebalance now) frozen s.strategies h

withdrawn_still :
    (now : ℕ) (close : Bool) (id : Text) (ids : List Text) (s : Store)
    → affected (unsettled id) s.intents ≡ 0
    → affected (unsettled id) (withdraw_entries now close ids s).intents ≡ 0
unfolding withdraw_entries withdraw_entry
withdrawn_still now close id [] s h = h
withdrawn_still now close id (t ∷ ids) s h = withdrawn_still now close id ids _ (
    affected_still (unsettled id) (unsettled t) (withdraw_row now) (λ r e. ground arith) s.intents
      h)

zero_true : {n : ℕ} → n ≡ 0 → n == 0 ≡ true
zero_true h = ground arith

pub each_withdrawn :
    (now : ℕ) (close : Bool) (ids : List Text) (s : Store)
    → all (λ t. affected (unsettled t) (withdraw_entries now close ids s).intents == 0) ids ≡ true
unfolding withdraw_entries withdraw_entry
each_withdrawn now close [] s = refl
each_withdrawn now close (t ∷ ids) s =
    both_true
      (zero_true (
        withdrawn_still now close t ids _ (
          affected-update (unsettled t) (withdraw_row now) (unsettled t) (λ r e. ground arith)
            (λ r e. e) s.intents)))
      (each_withdrawn now close ids _)

pub each_frozen :
    (now : ℕ) (close : Bool) (ids : List Text) (s : Store)
    → all (λ t. affected (unfrozen t) (withdraw_entries now close ids s).strategies == 0) ids ≡ true
unfolding withdraw_entries withdraw_entry
each_frozen now close [] s = refl
each_frozen now close (t ∷ ids) s =
    both_true
      (zero_true (
        strategies_still (unfrozen t) now close ids _ (λ p e. ground arith) (λ p e. ground arith)
          (if_both (λ ps. affected (unfrozen t) ps ≡ 0) close
            (λ _.
              affected_still (unfrozen t) (strategy_of t) (close_strategy now) (λ p e. ground arith)
                _ once)
            (λ _. once))))
      (each_frozen now close ids _)
  where
    once : affected (unfrozen t) (update (not_closed t) (rebalance now) s.strategies) ≡ 0
    once =
        affected-update (not_closed t) (rebalance now) (unfrozen t) (λ p e. ground arith)
          (λ p e. ground arith) s.strategies

pub each_closed :
    (now : ℕ) (ids : List Text) (s : Store)
    → all (λ t. affected (not_closed t) (withdraw_entries now true ids s).strategies == 0) ids
      ≡ true
unfolding withdraw_entries withdraw_entry
each_closed now [] s = refl
each_closed now (t ∷ ids) s =
    both_true
      (zero_true (
        strategies_still (not_closed t) now true ids _ (λ p e. ground arith) (λ p e. ground arith)
          (affected-update (strategy_of t) (close_strategy now) (not_closed t) (λ p e. ground arith)
            (λ p e. ground arith) _)))
      (each_closed now ids _)

pub executed_kept :
    (now : ℕ) (close : Bool) (ids : List Text) (s : Store)
    → select is_executed (withdraw_entries now close ids s).intents ≡ select is_executed s.intents
unfolding withdraw_entries withdraw_entry
executed_kept now close [] s = refl
executed_kept now close (t ∷ ids) s =
    executed_kept now close ids _
    ∙ select-update is_executed (unsettled t) (withdraw_row now) (λ r e. ground arith)
        (λ r e. ground arith) s.intents

-- The status of a row that is settled does not touch the intents and strategies.
pub cancellation_parts :
    (now : ℕ) (a : PositionActionIntent) (targets : List Text) (complete flat : Bool)
    (error : Option Text) (s : Store)
    → ((record_entry_cancellation now a targets complete flat error s).intents
        ≡ (withdraw_entries now (complete && flat) targets s).intents)
      × ((record_entry_cancellation now a targets complete flat error s).strategies
          ≡ (withdraw_entries now (complete && flat) targets s).strategies)
unfolding record_entry_cancellation
cancellation_parts now a targets complete flat error s =
    if_both
      (λ (t : Store).
        (t.intents ≡ (withdraw_entries now (complete && flat) targets s).intents)
        × (t.strategies ≡ (withdraw_entries now (complete && flat) targets s).strategies))
      (complete || is_some error) (λ _. (refl, refl)) (λ _. (refl, refl))
