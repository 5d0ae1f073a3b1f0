-- ===== src/Supervisor/Fuel.antt =====
-- `_reconcile` calls itself at most once.
use cautious_crypto_bro.Prelude.{ℕ, zero, suc, true, ◌≡◌, refl, ap}
use mathlib.Core.Path.{fun_ext}
use cautious_crypto_bro.Domain.Plan.Defs.{ExecutionPlan}
use cautious_crypto_bro.Domain.Strategy.{PositionStrategy}
use cautious_crypto_bro.Domain.Account.{AccountPosition, AccountStateSummary}
use cautious_crypto_bro.Supervisor.Ports.{Settings}
use cautious_crypto_bro.Supervisor.Live.{Again, frozen_at, reconcile_live_position}
use cautious_crypto_bro.Supervisor.Reconcile.{reconcile, reconcile_with, reconcile_again, fuel}

-- A frozen state does not come to the call of `_reconcile` in itself.
module _ (settings : Settings) (again again' : Again) (s : PositionStrategy) (plan : ExecutionPlan)
    (h : s.entry_frozen ≡ true) where
  live-frozen :
      (account : AccountStateSummary) (p : AccountPosition)
      → reconcile_live_position again s plan account p
        ≡ reconcile_live_position again' s plan account p
  unfolding reconcile_live_position
  live-frozen account p = rw h refl

  again-frozen :
      (account : AccountStateSummary)
      → reconcile_again settings again s plan account
        ≡ reconcile_again settings again' s plan account
  unfolding reconcile_again
  again-frozen account =
      ap (λ manage. reconcile_with settings manage s plan account)
        (fun_ext (λ a. fun_ext (live-frozen a)))

reconcile-frozen :
    (settings : Settings) (plan : ExecutionPlan) (n : ℕ) (s : PositionStrategy)
    (account : AccountStateSummary)
    → s.entry_frozen ≡ true
    → reconcile settings plan (suc n) s account ≡ reconcile settings plan 1 s account
unfolding reconcile
reconcile-frozen settings plan n s account h =
    again-frozen settings (λ s' p a. reconcile settings plan n (frozen_at s' p) a)
      (λ s' p a. reconcile settings plan zero (frozen_at s' p) a) s plan h account

-- However often `_reconcile` may call itself, it does what it does with the fuel of one such call:
-- two levels are enough for every strategy, plan and snapshot.
pub fuel_suffices :
    (settings : Settings) (plan : ExecutionPlan) (more : ℕ) (s : PositionStrategy)
    (account : AccountStateSummary)
    → reconcile settings plan (suc (suc more)) s account ≡ reconcile settings plan fuel s account
unfolding reconcile
fuel_suffices settings plan more s account =
    ap (λ again. reconcile_again settings again s plan account)
      (fun_ext (λ s'.
        fun_ext (λ p. fun_ext (λ a. reconcile-frozen settings plan more (frozen_at s' p) a refl))))
