-- ===== src/Store/Cancellation.antt =====
-- storage/position_action.py: the outcome of `record_entry_cancellation`.
use mathlib.Core.Path.{subst}
use cautious_crypto_bro.Prelude.{
  ℕ, ◌≡◌, refl, sym, ap, ◌==◌, ◌∙◌, Bool, true, false, ◌&&◌, Option, List, [], ◌∷◌, arith, all,
  select, map,
}
use cautious_crypto_bro.Text.{Text}
use cautious_crypto_bro.Domain.Signal.{PositionActionIntent}
use cautious_crypto_bro.Domain.Strategy.{PositionStrategy}
use cautious_crypto_bro.Store.Table.{update, affected}
use cautious_crypto_bro.Store.Tables.{Store}
use cautious_crypto_bro.Store.Actions.{
  record_entry_cancellation, withdraw_entries, withdraw_entry, unsettled, not_closed, rebalance,
}
use cautious_crypto_bro.Store.Withdrawal.{
  is_executed, unfrozen, each_withdrawn, each_frozen, each_closed, executed_kept,
  cancellation_parts,
}

-- Whatever the outcome of a cancellation, no target of it is pending or executing afterwards, no
-- strategy of a target can enter any more (it is frozen or closed), and the intents that were already
-- executed are the same rows as before.
pub cancellation_settles :
    (now : ℕ) (a : PositionActionIntent) (targets : List Text) (complete flat : Bool)
    (error : Option Text) (s : Store)
    → (all
          (λ t.
            affected
              (unsettled t)
              (record_entry_cancellation now a targets complete flat error s).intents
            == 0)
          targets
        ≡ true)
      × (all
            (λ t.
              affected
                (unfrozen t)
                (record_entry_cancellation now a targets complete flat error s).strategies
              == 0)
            targets
          ≡ true)
      × (select is_executed (record_entry_cancellation now a targets complete flat error s).intents
          ≡ select is_executed s.intents)
cancellation_settles now a targets complete flat error s = (
  subst (λ rows. all (λ t. affected (unsettled t) rows == 0) targets ≡ true) (sym parts.0)
      (each_withdrawn now (complete && flat) targets s),
  subst (λ ps. all (λ t. affected (unfrozen t) ps == 0) targets ≡ true) (sym parts.1)
      (each_frozen now (complete && flat) targets s),
  ap (select is_executed) parts.0 ∙ executed_kept now (complete && flat) targets s,
)
  where
    parts :
        ((record_entry_cancellation now a targets complete flat error s).intents
          ≡ (withdraw_entries now (complete && flat) targets s).intents)
        × ((record_entry_cancellation now a targets complete flat error s).strategies
            ≡ (withdraw_entries now (complete && flat) targets s).strategies)
    parts = cancellation_parts now a targets complete flat error s

status_kept :
    (now : ℕ) (p : PositionStrategy → Bool) (ps : List PositionStrategy)
    → map (λ (x : PositionStrategy). x.status) (update p (rebalance now) ps)
      ≡ map (λ (x : PositionStrategy). x.status) ps
status_kept now p [] = refl
status_kept now p (x ∷ ps) = ground (arith, status_kept now p ps)

statuses_kept :
    (now : ℕ) (ids : List Text) (s : Store)
    → map (λ (x : PositionStrategy). x.status) (withdraw_entries now false ids s).strategies
      ≡ map (λ (x : PositionStrategy). x.status) s.strategies
unfolding withdraw_entries withdraw_entry
statuses_kept now [] s = refl
statuses_kept now (t ∷ ids) s =
    statuses_kept now ids _ ∙ status_kept now (not_closed t) s.strategies

-- Only a complete cancellation of a flat position closes strategies: it closes the strategy of every
-- target, and any cancellation that is not complete, or that finds a position, leaves the status of
-- every strategy as it was.
pub cancellation_closes :
    (now : ℕ) (a : PositionActionIntent) (targets : List Text) (error : Option Text)
    (complete : Bool) (s : Store)
    → (all
          (λ t.
            affected
              (not_closed t)
              (record_entry_cancellation now a targets true true error s).strategies
            == 0)
          targets
        ≡ true)
      × (map
            (λ (x : PositionStrategy). x.status)
            (record_entry_cancellation now a targets complete false error s).strategies
          ≡ map (λ (x : PositionStrategy). x.status) s.strategies)
      × (map
            (λ (x : PositionStrategy). x.status)
            (record_entry_cancellation now a targets false complete error s).strategies
          ≡ map (λ (x : PositionStrategy). x.status) s.strategies)
cancellation_closes now a targets error complete s = (
  subst (λ ps. all (λ t. affected (not_closed t) ps == 0) targets ≡ true)
      (sym (cancellation_parts now a targets true true error s).1) (each_closed now targets s),
  ap (map (λ (x : PositionStrategy). x.status))
        (cancellation_parts now a targets complete false error s).1
      ∙ open_kept complete,
  ap (map (λ (x : PositionStrategy). x.status))
        (cancellation_parts now a targets false complete error s).1
      ∙ statuses_kept now targets s,
)
  where
    open_kept :
        (complete : Bool)
        → map
            (λ (x : PositionStrategy). x.status)
            (withdraw_entries now (complete && false) targets s).strategies
          ≡ map (λ (x : PositionStrategy). x.status) s.strategies
    open_kept true = statuses_kept now targets s
    open_kept false = statuses_kept now targets s
