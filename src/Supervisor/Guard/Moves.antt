-- ===== src/Supervisor/Guard/Moves.antt =====
-- The expiry of entries and the management of a live position obey the rule.
use cautious_crypto_bro.Prelude.{
  ℕ, ◌==◌, true, false, not, ◌&&◌, refl, Option, none, some, List, [], ◌∷◌, arith,
}
use cautious_crypto_bro.Text.{Text}
use cautious_crypto_bro.Decimal.{Decimal}
use cautious_crypto_bro.Program.{return}
use cautious_crypto_bro.Domain.Plan.Defs.{ExecutionPlan}
use cautious_crypto_bro.Domain.Strategy.{PositionStrategy}
use cautious_crypto_bro.Domain.Account.{AccountPosition, AccountStateSummary}
use cautious_crypto_bro.Supervisor.Ports.{
  Task, Settings, clock, account_state, cancel_pending_entries, market_context,
  set_position_protection,
}
use cautious_crypto_bro.Supervisor.Orders.{find_position, pending_entries, entry_links}
use cautious_crypto_bro.Supervisor.Fills.{detect}
use cautious_crypto_bro.Supervisor.Trailing.{verify_protection, trailing_distance, protected_stop}
use cautious_crypto_bro.Supervisor.Replacement.{cancel_all, is_nil}
use cautious_crypto_bro.Supervisor.Steps.{close_if_flat, freeze_entries, reaches_activation}
use cautious_crypto_bro.Supervisor.Expiry.{
  ttl_minutes, keeps_entries, stale_entries, entries_fresh, cancel_stale_entries, expire,
  expire_stale_entries, handled, after_expiry, handle_expired_entries,
}
use cautious_crypto_bro.Supervisor.Live.{
  save_managed, trailing_at, trailed, activate_trailing, handle_profit_management,
}
use cautious_crypto_bro.Supervisor.Guard.{
  Seen, IsWorking, Guarded, Still, Any, guard-check, guard-if, guard-then, guard-ask, guard-call,
}
use cautious_crypto_bro.Supervisor.Guard.Stops.{cancel_all-Guarded}
use cautious_crypto_bro.Supervisor.Guard.Handlers.{save-then, close_if_flat-Guarded}
use cautious_crypto_bro.Supervisor.Guard.Freeze.{detect-Guarded, freeze_entries-Guarded}

module _ (s s' : PositionStrategy) (w : IsWorking s s') where
  cancel_stale_entries-Guarded :
      (account : AccountStateSummary) (ids : List Text) (g : Seen)
      → Guarded s Any g (cancel_stale_entries s' account ids)
  cancel_stale_entries-Guarded account [] g = tt
  cancel_stale_entries-Guarded account (id ∷ ids) g =
      guard-then s (Still g.saved) Any g (cancel_all s' (id ∷ ids)) _
        (cancel_all-Guarded s s' w.0.1 g.saved (id ∷ ids) g refl)
        (λ h a e. guard-call s (λ c h a. Unit) h account_state tt (λ a. tt))

  handled-Guarded :
      (m : Task AccountStateSummary) (g : Seen) → Guarded s Any g m → Guarded s Any g (handled m)
  handled-Guarded m g h = guard-then s Any Any g m _ h (λ h' a x. tt)

  expire-Guarded :
      (plan : ExecutionPlan) (account : AccountStateSummary) (g : Seen)
      → Guarded s Any g (expire s' plan account)
  expire-Guarded plan account g = guard-check s Any g (entry_links s' plan) _ (λ links c.
      guard-then s Any Any g (cancel_stale_entries s' account (stale_entries s' links account)) _
        (cancel_stale_entries-Guarded account (stale_entries s' links account) g) (λ h a x. tt))

  entries_fresh-Guarded :
      (plan : ExecutionPlan) (minutes : ℕ) (g : Seen) → Guarded s Any g (entries_fresh plan minutes)
  entries_fresh-Guarded plan minutes g =
      guard-if s Any g (minutes == 0) (return true) _ (λ c. tt)
        (λ c. guard-ask s Any g clock _ tt (λ now. tt))

  expire_stale_entries-Guarded :
      (settings : Settings) (plan : ExecutionPlan) (account : AccountStateSummary) (g : Seen)
      → Guarded s Any g (expire_stale_entries settings s' plan account)
  unfolding expire_stale_entries
  expire_stale_entries-Guarded settings plan account g =
      guard-if s Any g (keeps_entries s') (return (account, false)) _ (λ c. tt)
        (λ c.
          guard-then s Any Any g (entries_fresh plan (ttl_minutes settings plan)) _
            (entries_fresh-Guarded plan (ttl_minutes settings plan) g)
            (λ h fresh x.
              guard-if s Any h fresh (return (account, false)) (expire s' plan account) (λ c'. tt)
                (λ c'. expire-Guarded plan account h)))

  after_expiry-Guarded :
      (plan : ExecutionPlan) (account : AccountStateSummary) (live : Option AccountPosition)
      (g : Seen)
      → Guarded s Any g (after_expiry s' plan account live)
  after_expiry-Guarded plan account none g =
      guard-if s Any g (is_nil (pending_entries s' account)) (handled (close_if_flat s'))
        (return (account, false))
        (λ c. handled-Guarded (close_if_flat s') g (close_if_flat-Guarded s s' w g)) (λ c. tt)
  after_expiry-Guarded plan account (some p) g =
      guard-if s Any g s'.entry_frozen (return (account, false))
        (handled (freeze_entries s' plan false)) (λ c. tt)
        (λ c.
          handled-Guarded (freeze_entries s' plan false) g
            (freeze_entries-Guarded s s' plan false w g))

  pub handle_expired_entries-Guarded :
      (settings : Settings) (plan : ExecutionPlan) (account : AccountStateSummary) (g : Seen)
      → Guarded s Any g (handle_expired_entries settings s' plan account)
  unfolding handle_expired_entries
  handle_expired_entries-Guarded settings plan account g =
      guard-check s Any g (find_position s' account) _ (λ before c.
        guard-then s Any Any g (expire_stale_entries settings s' plan account) _
          (expire_stale_entries-Guarded settings plan account g)
          (λ h r x.
            guard-if s Any h r.1 _ (return (r.0, false))
              (λ c'.
                guard-check s Any h (find_position s' r.0) _
                  (λ live f. after_expiry-Guarded plan r.0 live h))
              (λ c'. tt)))

module _ (s : PositionStrategy) where
  save_managed-Guarded :
      (s' : PositionStrategy) (account : AccountStateSummary) (p : AccountPosition)
      → IsWorking s s'
      → (g : Seen) → Guarded s Any g (save_managed s' account p)
  save_managed-Guarded s' account p w g = save-then s _ account w g

  activate_trailing-Guarded :
      (s' : PositionStrategy) (plan : ExecutionPlan) (p : AccountPosition)
      → IsWorking s s'
      → (g : Seen) → Guarded s Any g (activate_trailing s' plan p)
  unfolding activate_trailing
  activate_trailing-Guarded s' plan p (w, c) g =
      guard-ask s Any g (cancel_pending_entries s'.symbol) _ w.1 (λ x1.
        guard-ask s Any (record g { account = none }) (market_context s'.symbol) _ w.1
          (λ context.
            guard-check s Any (record g { account = none }) (trailing_distance plan p context) _
              (λ distance c1.
                guard-check s Any (record g { account = none })
                  (protected_stop plan p context s'.protected_stop_loss) _
                  (λ stop c2.
                    guard-ask s Any (record g { account = none })
                      (set_position_protection s'.symbol stop (some distance)) _ w.1
                      (λ x2.
                        guard-ask s Any (record g { account = none }) account_state _ tt
                          (λ account.
                            guard-check s Any (record g { account = some account })
                              (find_position s' account) _
                              (λ live c3.
                                trailed-Guarded account stop distance live
                                  (record g { account = some account }))))))))
    where
      trailed-Guarded :
          (account : AccountStateSummary) (stop distance : Decimal) (live : Option AccountPosition)
          (h : Seen)
          → Guarded s Any h (trailed s' account stop distance live)
      trailed-Guarded account stop distance none h = close_if_flat-Guarded s s' (w, c) h
      trailed-Guarded account stop distance (some p') h =
          guard-check s Any h (verify_protection p' stop (some distance)) _ (λ x e.
            save_managed-Guarded (trailing_at s' stop distance) account p' (w, ground arith) h)

  pub handle_profit_management-Guarded :
      (s' : PositionStrategy) (plan : ExecutionPlan) (account : AccountStateSummary)
      (p : AccountPosition) (r : Decimal)
      → IsWorking s s'
      → (g : Seen) → Guarded s Any g (handle_profit_management s' plan account p r)
  unfolding handle_profit_management
  handle_profit_management-Guarded s' plan account p r w g =
      guard-then s (λ h x. IsWorking s x.0) Any g (detect s' account) _
        (detect-Guarded s s' account w g)
        (λ h x w'.
          guard-if s Any h (not x.0.trailing_active && reaches_activation plan r) _ _
            (λ c. activate_trailing-Guarded x.0 plan p w' h)
            (λ c. save_managed-Guarded x.0 account p w' h))
