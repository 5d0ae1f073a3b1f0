-- ===== src/Store/Settled.antt =====
-- storage/: no repository method makes a decided record pending again, and so one claim is the last.
use cautious_crypto_bro.Prelude.{
  ℕ, ◌+◌, ◌==◌, ltb, suc, ◌≡◌, refl, sym, Bool, not, ◌&&◌, ◌||◌, if_both, inl, inr, Option, none,
  some, is_some, List, [], ◌∷◌, any, arith,
}
use mathlib.Core.Path.{subst}
use mathlib.Core.Logic.{◌⊎◌}
use cautious_crypto_bro.Prelude.Result.{ok, through, past, ok_injective}
use cautious_crypto_bro.Text.{Text}
use cautious_crypto_bro.Domain.Enums.{StrategyStatus}
use cautious_crypto_bro.Domain.Signal.{PositionActionIntent}
use cautious_crypto_bro.Store.Table.{update, affected}
use cautious_crypto_bro.Store.Tables.{Row, Kind, open_kind, action_kind, Store}
use cautious_crypto_bro.Store.Shared.{has_id, fail_row}
use cautious_crypto_bro.Store.Intents.{
  record_entry_failure, record_strategy_status, executing_with, strategy_of,
}
use cautious_crypto_bro.Store.Actions.{
  record_entry_cancellation, withdraw_entries, withdraw_entry, deliver_action, expire_action,
  pending_manual, expire_row, unsettled, withdraw_row, settle_row,
}
use cautious_crypto_bro.Store.Recovery.{delivery_of}
use cautious_crypto_bro.Store.Deliveries.{reconcile_each, requeue, lose, lose_row}
use cautious_crypto_bro.Store.Once.{IsDecided, IsDecided-update}

-- What is decided in the first store is decided in the second.
unfoldable pub Keeps : Text → Store → Store → Type 0
Keeps id s t =
    (IsDecided id s.intents → IsDecided id t.intents)
    × (IsDecided id s.actions → IsDecided id t.actions)

pub Keeps-all : (id : Text) (s : Store) → Keeps id s s
unfolding Keeps
Keeps-all id s = (λ h. h, λ h. h)

withdraw-IsDecided :
    (now : ℕ) (close : Bool) (id : Text) (ids : List Text) (s : Store)
    → IsDecided id s.intents
    → IsDecided id (withdraw_entries now close ids s).intents
unfolding withdraw_entries withdraw_entry
withdraw-IsDecided now close id [] s h = h
withdraw-IsDecided now close id (t ∷ ids) s h =
    withdraw-IsDecided now close id ids _
      (IsDecided-update id (unsettled t) (withdraw_row now) (λ r e. ground arith) s.intents h)

withdraw-actions :
    (now : ℕ) (close : Bool) (ids : List Text) (s : Store)
    → (withdraw_entries now close ids s).actions ≡ s.actions
unfolding withdraw_entries withdraw_entry
withdraw-actions now close [] s = refl
withdraw-actions now close (t ∷ ids) s = withdraw-actions now close ids _

pub Keeps-trans : (id : Text) (s t u : Store) → Keeps id s t → Keeps id t u → Keeps id s u
unfolding Keeps
Keeps-trans id s t u (hi, ha) (ki, ka) = (λ h. ki (hi h), λ h. ka (ha h))

pub entry_failure-Keeps :
    (now : ℕ) (record_id error : Text) (status : Option StrategyStatus) (id : Text) (s : Store)
    {t : Store}
    → record_entry_failure now record_id error status s ≡ ok t
    → Keeps id s t
unfolding Keeps record_entry_failure record_strategy_status
entry_failure-Keeps now rid error none id s h =
    past (not (affected (executing_with rid) s.intents == 1)) _ _ h λ _ h'.
      subst (Keeps id s) (ok_injective h') (
        IsDecided-update id (executing_with rid) (fail_row now error) (λ r e. ground arith)
            s.intents,
        λ ha. ha,
      )
entry_failure-Keeps now rid error (some status) id s h =
    past (not (affected (executing_with rid) s.intents == 1)) _ _ h λ _ h'.
      past (not (affected (strategy_of rid) s.strategies == 1)) _ _ h' λ _ h''.
        subst (Keeps id s) (ok_injective h'') (
          IsDecided-update id (executing_with rid) (fail_row now error) (λ r e. ground arith)
              s.intents,
          λ ha. ha,
        )

deliver_store :
    (now max_age : ℕ) (record_id : Text) (found : Option (Row PositionActionIntent)) (s : Store)
    {shown : Option PositionActionIntent} {t : Store}
    → deliver_action now max_age record_id found s ≡ ok (shown, t)
    → (t ≡ s)
      ⊎ (t ≡ record s { actions = update (pending_manual record_id) (expire_row now) s.actions })
unfolding deliver_action expire_action
deliver_store now max_age rid none s h = ground arith
deliver_store now max_age rid (some r) s h = ground arith

pub deliver-Keeps :
    (now max_age : ℕ) (record_id : Text) (found : Option (Row PositionActionIntent)) (id : Text)
    (s : Store) {shown : Option PositionActionIntent} {t : Store}
    → deliver_action now max_age record_id found s ≡ ok (shown, t)
    → Keeps id s t
unfolding Keeps
deliver-Keeps now max_age rid found id s h = elim (deliver_store now max_age rid found s h) [
  | inl e ↦ subst (Keeps id s) (sym e) (Keeps-all id s)
  | inr e ↦ subst (Keeps id s) (sym e) (
    λ hi. hi,
    IsDecided-update id (pending_manual rid) (expire_row now) (λ r e. ground arith) s.actions,
  )
]

lose-Keeps :
    (now : ℕ) (record_id : Text) (kind : Kind) (id : Text) (s : Store)
    → Keeps id s (lose now record_id kind s)
unfolding Keeps
lose-Keeps now rid open_kind id s =
    (IsDecided-update id (has_id rid) (lose_row now) (λ r e. ground arith) s.intents, λ ha. ha)
lose-Keeps now rid action_kind id s =
    (λ hi. hi, IsDecided-update id (has_id rid) (lose_row now) (λ r e. ground arith) s.actions)

pub reconcile-Keeps :
    (now stale : ℕ) (rows : List (Text × Kind × ℕ)) (requeued failed : ℕ) (id : Text) (s : Store)
    (counts : ℕ × ℕ) (t : Store)
    → reconcile_each now stale rows requeued failed s ≡ ok (counts, t)
    → Keeps id s t
unfolding Keeps reconcile_each
reconcile-Keeps now stale [] requeued failed id s counts t h =
    subst (λ u. Keeps id s u.1) (ok_injective h) (Keeps-all id s)
reconcile-Keeps now stale ((rid, kind, created) ∷ rows) requeued failed id s counts t h =
    if_both (λ r. r ≡ ok (counts, t) → Keeps id s t) (ltb (created + stale) now)
      (λ _ h'.
        Keeps-trans id s (lose now rid kind s) t (lose-Keeps now rid kind id s) (
          reconcile-Keeps now stale rows requeued (suc failed) id (lose now rid kind s) counts t
            h'))
      (λ _ h'. through (requeue rid kind s) _ h' λ s' hr hn.
        Keeps-trans id s s' t
          (past (any (delivery_of rid) s.deliveries) _ _ hr
            λ _ e. subst (Keeps id s) (ok_injective e) (Keeps-all id s))
          (reconcile-Keeps now stale rows (suc requeued) failed id s' counts t hn))
      h

pub cancellation-Keeps :
    (now : ℕ) (a : PositionActionIntent) (targets : List Text) (complete flat : Bool)
    (error : Option Text) (id : Text) (s : Store)
    → Keeps id s (record_entry_cancellation now a targets complete flat error s)
unfolding Keeps record_entry_cancellation
cancellation-Keeps now a targets complete flat error id s =
    if_both (Keeps id s) (complete || is_some error)
      (λ _. (
        intents,
        λ h.
            IsDecided-update id (has_id a.action_id) (settle_row now complete error)
              (λ r e. ground arith) _ (actions h),
      ))
      (λ _. (intents, actions))
  where
    intents :
        IsDecided id s.intents
        → IsDecided id (withdraw_entries now (complete && flat) targets s).intents
    intents = withdraw-IsDecided now (complete && flat) id targets s

    actions :
        IsDecided id s.actions
        → IsDecided id (withdraw_entries now (complete && flat) targets s).actions
    actions = subst (IsDecided id) (sym (withdraw-actions now (complete && flat) targets s))
