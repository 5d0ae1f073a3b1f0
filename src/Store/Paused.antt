-- ===== src/Store/Paused.antt =====
-- storage/position_strategy.py: strategies that are paused for a conflict.
use mathlib.Core.Path.{subst}
use cautious_crypto_bro.Prelude.{
  ℕ, ◌≡◌, ◌==◌, Bool, true, not, ◌&&◌, ◌||◌, List, arith, length, select,
}
use cautious_crypto_bro.Prelude.Result.{ok, past, ok_injective}
use cautious_crypto_bro.Text.{Text, same_text_refl}
use cautious_crypto_bro.Domain.Enums.{StrategyStatus, strategy_is}
use cautious_crypto_bro.Domain.Strategy.{PositionStrategy}
use cautious_crypto_bro.Store.Table.{affected, affected-update, select-update}
use cautious_crypto_bro.Store.Tables.{Store}
use cautious_crypto_bro.Store.Strategies.{
  pause_conflicting_strategies, strategy_among, pause_strategy, all_different, same_reason,
}

-- In manual override for that reason, with the alert still to be sent.
abbrev pub is_paused : Text → PositionStrategy → Bool
is_paused reason p =
    strategy_is p.status StrategyStatus.manual_override
    && same_reason reason p.pause_reason
    && not p.pause_notified

abbrev pub still_active : List Text → Text → PositionStrategy → Bool
still_active ids reason p = strategy_among ids p && not (is_paused reason p)

-- A conflict pauses all its strategies or none. Where the call returns, each of the identifiers, which
-- are different, named a strategy, every named strategy is in manual override for the given reason with
-- its alert still to be sent, and every other strategy is the same row as before.
pub pause_conflicting_strategies-IsComplete :
    (now : ℕ) (ids : List Text) (reason : Text) (s t : Store)
    → pause_conflicting_strategies now ids reason s ≡ ok t
    → (all_different ids ≡ true)
      × (affected (strategy_among ids) s.strategies ≡ length ids)
      × (affected (still_active ids reason) t.strategies ≡ 0)
      × (select (λ p. not (strategy_among ids p)) t.strategies
          ≡ select (λ p. not (strategy_among ids p)) s.strategies)
unfolding pause_conflicting_strategies
pause_conflicting_strategies-IsComplete now ids reason s t h =
    past (length ids == 0 || not (all_different ids)) _ _ h λ c h'.
      past (not (affected (strategy_among ids) s.strategies == length ids)) _ _ h' λ d e.
        subst
          (λ (u : Store).
            (all_different ids ≡ true)
            × (affected (strategy_among ids) s.strategies ≡ length ids)
            × (affected (still_active ids reason) u.strategies ≡ 0)
            × (select (λ p. not (strategy_among ids p)) u.strategies
                ≡ select (λ p. not (strategy_among ids p)) s.strategies))
          (ok_injective e)
          (
            ground arith,
            ground arith,
            affected-update (strategy_among ids) (pause_strategy now reason)
                (still_active ids reason) (λ p k. ground (arith, same_text_refl reason))
                (λ p k. ground arith) s.strategies,
            select-update (λ p. not (strategy_among ids p)) (strategy_among ids)
                (pause_strategy now reason) (λ p k. ground arith) (λ p k. ground arith)
                s.strategies,
          )
