-- ===== src/Supervisor/Guard/Freeze.antt =====
-- The fills that are read, and the steps that freeze or rebalance a position, obey the rule.
use cautious_crypto_bro.Prelude.{
  ℕ, ◌==◌, Bool, true, false, not, ◌||◌, ◌≡◌, refl, Option, none, some, arith,
}
use cautious_crypto_bro.Prelude.Result.{raise_if}
use cautious_crypto_bro.Program.{return, ask}
use cautious_crypto_bro.Domain.Enums.{closed, strategy_is}
use cautious_crypto_bro.Domain.Plan.Defs.{ExecutionPlan}
use cautious_crypto_bro.Domain.Strategy.{PositionStrategy}
use cautious_crypto_bro.Domain.Account.{AccountPosition, AccountStateSummary}
use cautious_crypto_bro.Supervisor.Ports.{
  account_state, cancel_pending_entries, entry_cancellation_unconfirmed,
}
use cautious_crypto_bro.Supervisor.Orders.{find_position, pending_entries, exit_link_id, live_r}
use cautious_crypto_bro.Supervisor.Fills.{find_order, detect_exit, detect}
use cautious_crypto_bro.Supervisor.Replacement.{is_nil}
use cautious_crypto_bro.Supervisor.Install.{install_structure}
use cautious_crypto_bro.Supervisor.Steps.{
  protected_status, entries_gone, resized, reaches_activation, install_resized, frozen,
  freeze_entries, rebalanced, handle_rebalance,
}
use cautious_crypto_bro.Supervisor.Guard.{
  Seen, kept, IsProgress, IsWorking, Guarded, Still, Any, guard-check, guard-if, guard-then,
  guard-ask, guard-call,
}
use cautious_crypto_bro.Supervisor.Guard.Reads.{find_order-Guarded}
use cautious_crypto_bro.Supervisor.Guard.Structure.{install_structure-Guarded}
use cautious_crypto_bro.Supervisor.Guard.Handlers.{save-then, close_if_flat-Guarded}

protected-open : (b : Bool) → strategy_is (protected_status b) closed ≡ false
protected-open b = ground arith

module _ (s : PositionStrategy) where
  detect_exit-Guarded :
      (s' : PositionStrategy) (account : AccountStateSummary) (index : ℕ) (done : Bool)
      → s'.symbol ≡ s.symbol
      → (g : Seen) → Guarded s (λ h r. kept done r.0 ≡ true) g (detect_exit s' account index done)
  unfolding detect_exit
  detect_exit-Guarded s' account index true own g = refl
  detect_exit-Guarded s' account index false own g =
      guard-then s (Still g.saved) (λ h r. kept false r.0 ≡ true) g
        (find_order s' (exit_link_id s' index) account) _
        (find_order-Guarded s s' own g.saved (exit_link_id s' index) account g refl)
        (λ h found e. refl)

  -- The fills that are found only add to what is done.
  pub detect-Guarded :
      (s' : PositionStrategy) (account : AccountStateSummary)
      → IsWorking s s'
      → (g : Seen) → Guarded s (λ h r. IsWorking s r.0) g (detect s' account)
  unfolding detect
  detect-Guarded s' account (w, c) g =
      guard-if s (λ h r. IsWorking s r.0) g (s'.exit_revision == 0) (return (s', false)) _
        (λ b. (w, c))
        (λ b.
          guard-then s (λ h r. kept s'.tp1_done r.0 ≡ true) (λ h r. IsWorking s r.0) g _ _
            (detect_exit-Guarded s' account 1 s'.tp1_done w.1 g)
            (λ h1 r1 e1.
              guard-then s (λ h r. kept s'.tp2_done r.0 ≡ true) (λ h r. IsWorking s r.0) h1 _ _
                (detect_exit-Guarded s' account 2 s'.tp2_done w.1 h1)
                (λ h2 r2 e2.
                  guard-then s (λ h r. kept s'.tp3_done r.0 ≡ true) (λ h r. IsWorking s r.0) h2 _ _
                    (detect_exit-Guarded s' account 3 s'.tp3_done w.1 h2)
                    (λ h3 r3 e3. (
                      (
                        w.0,
                        w.1,
                        w.2,
                        w.3,
                        kept-trans s.tp1_done s'.tp1_done r1.0 w.4 e1,
                        kept-trans s.tp2_done s'.tp2_done r2.0 w.5 e2,
                        kept-trans s.tp3_done s'.tp3_done r3.0 w.6 e3,
                        w.7,
                      ),
                      c,
                    )))))
    where
      kept-trans : (a b c : Bool) → kept a b ≡ true → kept b c ≡ true → kept a c ≡ true
      kept-trans a b c h k = ground arith

  install_resized-Guarded :
      (s' : PositionStrategy) (plan : ExecutionPlan) (p : AccountPosition)
      (account : AccountStateSummary) (trailing : Bool)
      → IsWorking s s'
      → (g : Seen) → Guarded s Any g (install_resized s' plan p account trailing)
  unfolding install_resized
  install_resized-Guarded s' plan p account trailing (w, c) g =
      guard-then s Any Any g (install_structure s' plan p account trailing) _
        (install_structure-Guarded s s' plan p account trailing (w, c) g)
        (λ h installed x. save-then s _ installed.account (w, protected-open trailing) h)

  resized-IsProgress :
      (s' : PositionStrategy) (p : AccountPosition) → IsProgress s s' → IsProgress s (resized s' p)
  resized-IsProgress s' p w = (w.0, w.1, w.2, w.3, w.4, w.5, w.6, omega arith)

  entries_gone-Guarded : (s' : PositionStrategy) (g : Seen) → Guarded s Any g (entries_gone s')
  entries_gone-Guarded s' g = guard-ask s Any g account_state _ tt (λ account.
      guard-check s Any (record g { account = some account })
        (raise_if (not (is_nil (pending_entries s' account))) entry_cancellation_unconfirmed) _
        (λ x c. tt))

  pub freeze_entries-Guarded :
      (s' : PositionStrategy) (plan : ExecutionPlan) (cancel_pending : Bool)
      → IsWorking s s'
      → (g : Seen) → Guarded s Any g (freeze_entries s' plan cancel_pending)
  unfolding freeze_entries
  freeze_entries-Guarded s' plan cancel_pending (w, c) g =
      guard-then s Any Any g _ _
        (guard-if s Any g cancel_pending (ask (cancel_pending_entries s'.symbol)) (return tt)
          (λ b. guard-call s (λ c h a. Unit) g (cancel_pending_entries s'.symbol) w.1 (λ a. tt))
          (λ b. tt))
        (λ h1 x1 y1.
          guard-then s Any Any h1 (entries_gone s') _ (entries_gone-Guarded s' h1) (λ h2 a2 y2.
            guard-then s Any Any h2 (entries_gone s') _ (entries_gone-Guarded s' h2)
              (λ h3 account y3.
                guard-check s Any h3 (find_position s' account) _
                  (λ live f. frozen-Guarded account live h3))))
    where
      frozen-Guarded :
          (account : AccountStateSummary) (live : Option AccountPosition) (h : Seen)
          → Guarded s Any h (frozen s' plan account live)
      frozen-Guarded account none h = close_if_flat-Guarded s s' (w, c) h
      frozen-Guarded account (some p) h =
          let r = resized-IsProgress s' p w in
          guard-check s Any h (live_r p plan.stop_loss) _ (λ x e.
            install_resized-Guarded _ plan p account (reaches_activation plan x)
              ((r.0, r.1, r.2, ground arith, r.4, r.5, r.6, r.7), c) h)

  pub handle_rebalance-Guarded :
      (s' : PositionStrategy) (plan : ExecutionPlan)
      → IsWorking s s'
      → (g : Seen) → Guarded s Any g (handle_rebalance s' plan)
  unfolding handle_rebalance
  handle_rebalance-Guarded s' plan (w, c) g = guard-ask s Any g account_state _ tt (λ account.
      guard-check s Any (record g { account = some account }) (find_position s' account) _
        (λ live f. rebalanced-Guarded account live (record g { account = some account })))
    where
      rebalanced-Guarded :
          (account : AccountStateSummary) (live : Option AccountPosition) (h : Seen)
          → Guarded s Any h (rebalanced s' plan account live)
      rebalanced-Guarded account none h = close_if_flat-Guarded s s' (w, c) h
      rebalanced-Guarded account (some p) h =
          guard-check s Any h (live_r p plan.stop_loss) _ (λ x e.
            install_resized-Guarded (resized s' p) plan p account
              (s'.trailing_active || reaches_activation plan x) (resized-IsProgress s' p w, c) h)
