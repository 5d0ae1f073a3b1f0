-- ===== src/Supervisor/Guard/Rounds.antt =====
-- The supervision of one strategy obeys the rule.
use cautious_crypto_bro.Prelude.{
  ℕ, zero, suc, ◌==◌, true, not, ◌||◌, refl, Option, none, some, is_some, List, [], ◌∷◌, arith,
}
use cautious_crypto_bro.Text.{Text}
use cautious_crypto_bro.Decimal.{Decimal}
use cautious_crypto_bro.Program.{return}
use cautious_crypto_bro.Domain.Plan.Defs.{ExecutionPlan}
use cautious_crypto_bro.Domain.Strategy.{PositionStrategy}
use cautious_crypto_bro.Domain.Account.{AccountPosition, AccountStateSummary}
use cautious_crypto_bro.Supervisor.Ports.{Task, Settings, account_state, cancel_pending_entries}
use cautious_crypto_bro.Supervisor.Orders.{find_position, pending_entries, live_r}
use cautious_crypto_bro.Supervisor.Fills.{detect}
use cautious_crypto_bro.Supervisor.Install.{save}
use cautious_crypto_bro.Supervisor.Steps.{reaches_activation}
use cautious_crypto_bro.Supervisor.Expiry.{handle_expired_entries}
use cautious_crypto_bro.Supervisor.Live.{
  Again, frozen_at, refrozen, reconcile_after_fixed_exit, grew, building, handle_entry_building,
  reconcile_live_position,
}
use cautious_crypto_bro.Supervisor.Guard.{
  Seen, IsWorking, Guarded, Still, Any, guard-check, guard-if, guard-option, guard-then, guard-ask,
}
use cautious_crypto_bro.Supervisor.Guard.Exits.{save-Guarded}
use cautious_crypto_bro.Supervisor.Guard.Handlers.{
  close_if_flat-Guarded, continue_accumulation-Guarded,
}
use cautious_crypto_bro.Supervisor.Guard.Freeze.{
  detect-Guarded, freeze_entries-Guarded, handle_rebalance-Guarded,
}
use cautious_crypto_bro.Domain.Enums.{closing, strategy_is}
use cautious_crypto_bro.Supervisor.Ports.{Reason}
use cautious_crypto_bro.Supervisor.Orders.{partial_stops}
use cautious_crypto_bro.Supervisor.Fills.{drift_reason}
use cautious_crypto_bro.Supervisor.Drift.{manual_override_reason}
use cautious_crypto_bro.Supervisor.Handoff.{handoff_partial_stops}
use cautious_crypto_bro.Supervisor.Steps.{handle_closing, handle_rebalance, handle_installing_exits}
use cautious_crypto_bro.Supervisor.Reconcile.{
  blocking_reason, without_position, Managed, after_drift, unless_drifted, check_drift,
  finish_handoff, watched, reconcile_unblocked, of_position, reconcile_with, reconcile_again,
  reconcile,
}
use cautious_crypto_bro.Supervisor.Guard.Reads.{drift_reason-Guarded}
use cautious_crypto_bro.Supervisor.Guard.Stops.{handoff_partial_stops-Guarded}
use cautious_crypto_bro.Supervisor.Guard.Handlers.{
  override-Guarded, handle_missing_position-Guarded, handle_closing-Guarded,
  handle_installing_exits-Guarded,
}
use cautious_crypto_bro.Supervisor.Guard.Moves.{
  handle_expired_entries-Guarded, handle_profit_management-Guarded,
}

-- The call of `_reconcile` in itself obeys the rule.
abbrev pub AgainGuarded : PositionStrategy → Again → Type 0
AgainGuarded s again =
    (s' : PositionStrategy) (p : AccountPosition) (account : AccountStateSummary)
    → IsWorking s s'
    → (g : Seen) → Guarded s Any g (again s' p account)

module _ (s : PositionStrategy) (again : Again) (k : AgainGuarded s again) where
  reconcile_after_fixed_exit-Guarded :
      (s' : PositionStrategy)
      → IsWorking s s'
      → (g : Seen) → Guarded s Any g (reconcile_after_fixed_exit again s')
  unfolding reconcile_after_fixed_exit
  reconcile_after_fixed_exit-Guarded s' (w, c) g =
      guard-ask s Any g (cancel_pending_entries s'.symbol) _ w.1 (λ x.
        guard-ask s Any (record g { account = none }) account_state _ tt
          (λ account.
            guard-check s Any (record g { account = some account }) (find_position s' account) _
              (λ live f. refrozen-Guarded account live (record g { account = some account }))))
    where
      refrozen-Guarded :
          (account : AccountStateSummary) (live : Option AccountPosition) (h : Seen)
          → Guarded s Any h (refrozen again s' account live)
      refrozen-Guarded account none h = close_if_flat-Guarded s s' (w, c) h
      refrozen-Guarded account (some p) h =
          guard-then s Any Any h (save (frozen_at s' p)) _
            (save-Guarded s (frozen_at s' p) ((w.0, w.1, w.2, ground arith, w.4, w.5, w.6, w.7), c)
              h)
            (λ h' a x. k s' p account (w, c) h')

  handle_entry_building-Guarded :
      (s' : PositionStrategy) (plan : ExecutionPlan) (account : AccountStateSummary)
      (p : AccountPosition) (r : Decimal)
      → IsWorking s s'
      → (g : Seen) → Guarded s Any g (handle_entry_building again s' plan account p r)
  unfolding handle_entry_building
  handle_entry_building-Guarded s' plan account p r w g =
      guard-then s (λ h x. IsWorking s x.0) Any g (detect s' account) _
        (detect-Guarded s s' account w g)
        (λ h x w'.
          guard-if s Any h x.1 (reconcile_after_fixed_exit again x.0) _
            (λ c. reconcile_after_fixed_exit-Guarded x.0 w' h)
            (λ c.
              guard-if s Any h (reaches_activation plan r || x.0.rebalance_needed) _ _
                (λ c'. freeze_entries-Guarded s (building x.0 p) plan true (w'.0, ground arith) h)
                (λ c'.
                  continue_accumulation-Guarded s (building x.0 p) plan p account
                    (x.0.exit_revision == 0 || grew s'.last_position_qty p.size)
                    (w'.0, ground arith) h)))

  reconcile_live_position-Guarded :
      (s' : PositionStrategy) (plan : ExecutionPlan) (account : AccountStateSummary)
      (p : AccountPosition)
      → IsWorking s s'
      → (g : Seen) → Guarded s Any g (reconcile_live_position again s' plan account p)
  unfolding reconcile_live_position
  reconcile_live_position-Guarded s' plan account p w g =
      guard-check s Any g (live_r p plan.stop_loss) _ (λ r e.
        guard-if s Any g (not s'.entry_frozen) (handle_entry_building again s' plan account p r) _
          (λ c. handle_entry_building-Guarded s' plan account p r w g)
          (λ c.
            guard-if s Any g s'.rebalance_needed (handle_rebalance s' plan) _
              (λ c'. handle_rebalance-Guarded s s' plan w g)
              (λ c'. handle_profit_management-Guarded s s' plan account p r w g)))

module _ (s s' : PositionStrategy) (w : IsWorking s s') (settings : Settings)
    (plan : ExecutionPlan) where
  without_position-Guarded :
      (account : AccountStateSummary) (g : Seen)
      → Guarded s Any g (without_position settings s' plan account)
  without_position-Guarded account g =
      guard-then s Any Any g (handle_expired_entries settings s' plan account) _
        (handle_expired_entries-Guarded s s' w settings plan account g)
        (λ h r x.
          guard-if s Any h r.1 (return r.0) _ (λ c. tt)
            (λ c. handle_missing_position-Guarded s s' (pending_entries s' account) r.0 w h))

  unless_drifted-Guarded :
      (account : AccountStateSummary) (rest : Task AccountStateSummary) (reason : Option Reason)
      (g : Seen)
      → Guarded s Any g rest
      → Guarded s Any g (unless_drifted settings s' account rest reason)
  unless_drifted-Guarded account rest none g h = h
  unless_drifted-Guarded account rest (some reason) g h =
      override-Guarded s settings s' account reason w g

  check_drift-Guarded :
      (account : AccountStateSummary) (rest : Task AccountStateSummary) (g : Seen)
      → ((h : Seen) → Guarded s Any h rest)
      → Guarded s Any g (check_drift settings s' account rest)
  unfolding check_drift
  check_drift-Guarded account rest g k =
      guard-then s (Still g.saved) Any g (drift_reason s' account) _
        (drift_reason-Guarded s s' w.0.1 g.saved account g refl)
        (λ h drift e. unless_drifted-Guarded account rest drift h (k h))

  module _ (manage : Managed)
      (m : (account : AccountStateSummary) (p : AccountPosition) (g : Seen)
        → Guarded s Any g (manage account p)) where
    after_drift-Guarded :
        (account : AccountStateSummary) (g : Seen)
        → Guarded s Any g (after_drift settings manage s' plan account)
    after_drift-Guarded account g =
        guard-then s Any Any g (handle_expired_entries settings s' plan account) _
          (handle_expired_entries-Guarded s s' w settings plan account g)
          (λ h r x. guard-check s Any h (find_position s' r.0) _ (λ live f.
            guard-option s Any h live (return r.0) _ (λ c. tt)
              (λ p c.
                guard-if s Any h r.1 (return r.0) (manage r.0 p) (λ c'. tt) (λ c'. m r.0 p h))))

    finish_handoff-Guarded :
        (account : AccountStateSummary) (p : AccountPosition) (g : Seen)
        → Guarded s Any g (finish_handoff settings manage s' plan account p)
    finish_handoff-Guarded account p g =
        guard-then s (Still g.saved) Any g (handoff_partial_stops s' plan p account) _
          (handoff_partial_stops-Guarded s s' w.0.1 g.saved plan p account g refl)
          (λ h account' e. guard-check s Any h (find_position s' account') _ (λ live f.
            guard-option s Any h live (return account') _ (λ c. tt)
              (λ p' c. check_drift-Guarded account' _ h (after_drift-Guarded account'))))

    watched-Guarded :
        (account : AccountStateSummary) (p : AccountPosition) (stops : List Text) (g : Seen)
        → Guarded s Any g (watched settings manage s' plan account p stops)
    watched-Guarded account p [] g = check_drift-Guarded account _ g (after_drift-Guarded account)
    watched-Guarded account p (id ∷ ids) g =
        guard-if s Any g (is_some s'.expected_exits) _ _
          (λ c. check_drift-Guarded account _ g (finish_handoff-Guarded account p))
          (λ c. finish_handoff-Guarded account p g)

    reconcile_unblocked-Guarded :
        (account : AccountStateSummary) (p : AccountPosition) (g : Seen)
        → Guarded s Any g (reconcile_unblocked settings manage s' plan account p)
    unfolding reconcile_unblocked
    reconcile_unblocked-Guarded account p g =
        guard-if s Any g s'.installing_exits (handle_installing_exits settings s' plan account p) _
          (λ c. handle_installing_exits-Guarded s settings s' plan account p w g)
          (λ c. guard-check s Any g (manual_override_reason s' plan account p) _ (λ reason e.
            guard-check s Any g (partial_stops s' plan account) _ (λ stops e'.
              unless_drifted-Guarded account (watched settings manage s' plan account p stops)
                reason g (watched-Guarded account p stops g))))

    of_position-Guarded :
        (account : AccountStateSummary) (live : Option AccountPosition) (g : Seen)
        → Guarded s Any g (of_position settings manage s' plan account live)
    of_position-Guarded account none g = without_position-Guarded account g
    of_position-Guarded account (some p) g =
        unless_drifted-Guarded account _ (blocking_reason s' plan p) g
          (reconcile_unblocked-Guarded account p g)

    reconcile_with-Guarded :
        (account : AccountStateSummary) (g : Seen)
        → Guarded s Any g (reconcile_with settings manage s' plan account)
    unfolding reconcile_with
    reconcile_with-Guarded account g = guard-check s Any g (find_position s' account) _ (λ live f.
        guard-if s Any g (strategy_is s'.status closing) (handle_closing s' account live) _
          (λ c. handle_closing-Guarded s s' account live w g)
          (λ c. of_position-Guarded account live g))

-- However often `_reconcile` calls itself, it obeys the rule.
pub reconcile-Guarded :
    (settings : Settings) (plan : ExecutionPlan) (n : ℕ) (s s' : PositionStrategy)
    (account : AccountStateSummary)
    → IsWorking s s'
    → (g : Seen) → Guarded s Any g (reconcile settings plan n s' account)
unfolding reconcile reconcile_again
reconcile-Guarded settings plan zero s s' account w g = tt
reconcile-Guarded settings plan (suc n) s s' account w g =
    reconcile_with-Guarded s s' w settings plan
      (reconcile_live_position (λ t p a. reconcile settings plan n (frozen_at t p) a) s' plan)
      (λ a p h.
        reconcile_live_position-Guarded s (λ t p a. reconcile settings plan n (frozen_at t p) a)
          (λ t p a u h'.
            reconcile-Guarded settings plan n s (frozen_at t p) a
              ((u.0.0, u.0.1, u.0.2, ground arith, u.0.4, u.0.5, u.0.6, u.0.7), u.1) h')
          s' plan a p w h)
      account g
