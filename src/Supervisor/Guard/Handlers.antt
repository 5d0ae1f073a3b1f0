-- ===== src/Supervisor/Guard/Handlers.antt =====
-- The steps of a pass obey the rule: a strategy is closed only after a flat snapshot.
use cautious_crypto_bro.Prelude.{
  ◌+◌, Bool, true, false, not, ◌&&◌, ◌||◌, ◌≡◌, refl, Option, none, some, is_some, List, arith,
}
use cautious_crypto_bro.Prelude.Result.{ok}
use cautious_crypto_bro.Text.{Text}
use cautious_crypto_bro.Program.{return, ◌>>◌}
use cautious_crypto_bro.Domain.Enums.{closed, closing, strategy_is}
use cautious_crypto_bro.Domain.Plan.Defs.{ExecutionPlan}
use cautious_crypto_bro.Domain.Strategy.{PositionStrategy}
use cautious_crypto_bro.Domain.Account.{AccountPosition, AccountStateSummary}
use cautious_crypto_bro.Supervisor.Ports.{
  Reason, Settings, clock, account_state, save_position_strategy,
}
use cautious_crypto_bro.Supervisor.Orders.{find_position, pending_entries, owned_prefix}
use cautious_crypto_bro.Supervisor.Fills.{drift_reason}
use cautious_crypto_bro.Supervisor.Replacement.{cancel_all, is_nil}
use cautious_crypto_bro.Supervisor.Install.{save, install_structure}
use cautious_crypto_bro.Supervisor.Steps.{
  override, closed_if, close_if_flat, pending_ids, handle_missing_position, handle_closing,
  at_snapshot, resume_exits, handle_installing_exits, continue_accumulation,
}
use cautious_crypto_bro.Supervisor.Guard.{
  Seen, IsProgress, IsWorking, Guarded, Still, Any, guard-check, guard-if, guard-then, guard-ask,
  guard-call,
}
use cautious_crypto_bro.Supervisor.Guard.Reads.{drift_reason-Guarded}
use cautious_crypto_bro.Supervisor.Guard.Stops.{cancel_all-Guarded}
use cautious_crypto_bro.Supervisor.Guard.Exits.{save-Guarded}
use cautious_crypto_bro.Supervisor.Guard.Structure.{install_structure-Guarded}

module _ (s : PositionStrategy) where
  -- A save, and the result of the step.
  pub save-then :
      {A : Type 0} (s' : PositionStrategy) (a : A)
      → IsWorking s s'
      → (g : Seen) → Guarded s Any g (save s' >> return a)
  save-then s' a w g = guard-then s Any Any g (save s') _ (save-Guarded s s' w g) (λ h x y. tt)

  pub override-Guarded :
      (settings : Settings) (s' : PositionStrategy) (account : AccountStateSummary)
      (reason : Reason)
      → IsWorking s s'
      → (g : Seen) → Guarded s Any g (override settings s' account reason)
  unfolding override
  override-Guarded settings s' account reason (w, c) g = save-then _ account (w, ground arith) g

  -- The snapshot that `closed_if` follows is the last one seen.
  closed_if-Guarded :
      (s' : PositionStrategy) (account : AccountStateSummary) (live : Option AccountPosition)
      (b : Bool)
      → IsWorking s s'
      → find_position s' account ≡ ok live
      → (not (is_some live) && is_nil (pending_entries s' account)) ≡ b
      → (g : Seen) → g.account ≡ some account
      → Guarded s Any g (closed_if s' account b)
  unfolding find_position pending_entries save owned_prefix
  closed_if-Guarded s' account live false w f e g x = tt
  closed_if-Guarded s' account live true (w, c) f e g x =
      guard-then s Any Any g (save (record s' { status = closed })) _
        (guard-ask s Any g clock _ tt (λ now.
          guard-call s (λ c h a. Unit) g
            (save_position_strategy (record s' { status = closed; updated_at = now }))
            (w, rw (x, f) e) (λ a. tt)))
        (λ h y z. tt)

  pub close_if_flat-Guarded :
      (s' : PositionStrategy) → IsWorking s s' → (g : Seen) → Guarded s Any g (close_if_flat s')
  unfolding close_if_flat
  close_if_flat-Guarded s' w g = guard-ask s Any g account_state _ tt (λ account.
      guard-check s Any (record g { account = some account }) (find_position s' account) _
        (λ live f.
          closed_if-Guarded s' account live
            (not (is_some live) && is_nil (pending_entries s' account)) w f refl
            (record g { account = some account }) refl))

  pub handle_missing_position-Guarded :
      (s' : PositionStrategy) (pending : List Text) (account : AccountStateSummary)
      → IsWorking s s'
      → (g : Seen) → Guarded s Any g (handle_missing_position s' pending account)
  unfolding handle_missing_position
  handle_missing_position-Guarded s' pending account w g =
      guard-if s Any g (is_some s'.last_position_qty || strategy_is s'.status closing) _
        (return account)
        (λ c.
          guard-then s (Still g.saved) Any g (cancel_all s' (pending_ids s' pending account)) _
            (cancel_all-Guarded s s' w.0.1 g.saved (pending_ids s' pending account) g refl)
            (λ h a e. close_if_flat-Guarded s' w h))
        (λ c. tt)

  pub handle_closing-Guarded :
      (s' : PositionStrategy) (account : AccountStateSummary) (live : Option AccountPosition)
      → IsWorking s s'
      → (g : Seen) → Guarded s Any g (handle_closing s' account live)
  unfolding handle_closing
  handle_closing-Guarded s' account none w g = handle_missing_position-Guarded s' _ account w g
  handle_closing-Guarded s' account (some p) w g = save-then _ account w g

  pub handle_installing_exits-Guarded :
      (settings : Settings) (s' : PositionStrategy) (plan : ExecutionPlan)
      (account : AccountStateSummary) (p : AccountPosition)
      → IsWorking s s'
      → (g : Seen) → Guarded s Any g (handle_installing_exits settings s' plan account p)
  unfolding handle_installing_exits
  handle_installing_exits-Guarded settings s' plan account p (w, c) g =
      guard-then s (Still g.saved) Any g (drift_reason s' account) _
        (drift_reason-Guarded s s' w.1 g.saved account g refl) (λ h drift e. resumed drift h)
    where
      resumed :
          (o : Option Reason) (h : Seen)
          → Guarded s Any h (resume_exits settings s' plan account p o)
      resumed (some reason) h = override-Guarded settings s' account reason (w, c) h
      resumed none h =
          guard-then s Any Any h
            (install_structure s' plan (at_snapshot p s') account s'.trailing_active) _
            (install_structure-Guarded s s' plan (at_snapshot p s') account s'.trailing_active
              (w, c) h)
            (λ h' installed x. save-then _ installed.account (w, ground arith) h')

  pub continue_accumulation-Guarded :
      (s' : PositionStrategy) (plan : ExecutionPlan) (p : AccountPosition)
      (account : AccountStateSummary) (reinstall : Bool)
      → IsWorking s s'
      → (g : Seen) → Guarded s Any g (continue_accumulation s' plan p account reinstall)
  unfolding continue_accumulation
  continue_accumulation-Guarded s' plan p account false w g = save-then s' account w g
  continue_accumulation-Guarded s' plan p account true (w, c) g =
      guard-then s Any Any g _ _
        (install_structure-Guarded s (record s' { exit_revision = s'.exit_revision + 1 }) plan p
          account false (raised, c) g)
        (λ h installed x. save-then _ installed.account (raised, c) h)
    where
      raised : IsProgress s (record s' { exit_revision = s'.exit_revision + 1 })
      raised = (w.0, w.1, w.2, w.3, w.4, w.5, w.6, omega arith)
