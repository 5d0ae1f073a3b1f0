-- ===== src/Supervisor/Guard/Claims.antt =====
-- What a pass over the strategy of one symbol asks for, whatever the exchange and the store answer.
use cautious_crypto_bro.Prelude.{true, false, ◌≡◌, Option, none, some, [], ◌∷◌}
use cautious_crypto_bro.Prelude.Result.{Result, ok, err}
use cautious_crypto_bro.Text.{Text}
use cautious_crypto_bro.Program.{return, raise, attempt, check}
use cautious_crypto_bro.Program.Safe.{Safe, Safe-attempt, Safe-weaken, Safe-allow}
use cautious_crypto_bro.Domain.Enums.{closed, uncertain, strategy_is}
use cautious_crypto_bro.Domain.Plan.Defs.{ExecutionPlan}
use cautious_crypto_bro.Domain.Strategy.{PositionStrategy}
use cautious_crypto_bro.Domain.Account.{AccountStateSummary}
use cautious_crypto_bro.Supervisor.Ports.{
  Call, clock, account_state, get_active_position_strategies, record_zone_executions,
  strategy_order, cancel_order, cancel_pending_entries, market_context, set_position_protection,
  place_reduce_only_exit, save_position_strategy, pause_conflicting_strategies, Fault, Settings,
  account_unavailable, position_changed, exits_changing,
}
use cautious_crypto_bro.Supervisor.Steps.{override}
use cautious_crypto_bro.Supervisor.Reconcile.{fuel, reconcile}
use cautious_crypto_bro.Supervisor.Pass.{
  is_trade_execution, unavailable, shared_account, recover, reconcile_symbol,
}
use cautious_crypto_bro.Supervisor.Guard.{
  Seen, unseen, after, kept, is_flat, IsProgress, IsRecorded, IsWorking, IsWorking-refl, Rule,
  Guarded, Any, guard-then, guard-if,
}
use cautious_crypto_bro.Supervisor.Guard.Handlers.{override-Guarded}
use cautious_crypto_bro.Supervisor.Guard.Rounds.{reconcile-Guarded}

shared_account-Guarded :
    (s : PositionStrategy) (shared : Option AccountStateSummary) (g : Seen)
    → Guarded s Any g (shared_account shared)
unfolding shared_account
shared_account-Guarded s none g = (tt, answered)
  where
    answered :
        (r : Result Fault AccountStateSummary)
        → Guarded s Any (after g account_state r) (attempt (check r) unavailable)
    answered (ok a) = tt
    answered (err e) =
        guard-if s Any g (is_trade_execution e) (raise account_unavailable) (raise e) (λ c. tt)
          (λ c. tt)
shared_account-Guarded s (some account) g = tt

module _ (settings : Settings) (s : PositionStrategy) (w : IsWorking s s) where
  recover-Guarded :
      (account : AccountStateSummary) (e : Fault) (g : Seen)
      → Guarded s Any g (recover settings s account e)
  unfolding recover
  recover-Guarded account e g = elim e as (λ e. Guarded s Any g (recover settings s account e)) [
    | position_changed ↦
        guard-then s Any Any g (override settings s account exits_changing) _
          (override-Guarded s settings s account exits_changing w g) (λ h a x. tt)
    | _ ↦ tt
  ]

  reconcile_symbol-Guarded :
      (plan : ExecutionPlan) (symbol : Text) (shared : Option AccountStateSummary)
      → Guarded s Any unseen (reconcile_symbol settings symbol ((s, plan) ∷ []) shared)
  unfolding reconcile_symbol
  reconcile_symbol-Guarded plan symbol shared =
      guard-if s Any unseen (strategy_is s.status uncertain) (return (shared, none)) _ (λ c. tt)
        (λ c.
          guard-then s Any Any unseen (shared_account shared) _
            (shared_account-Guarded s shared unseen)
            (λ h account x.
              Safe-attempt (Rule s) after Any (λ g e. Unit) h _ (recover settings s account)
                (Safe-weaken (Rule s) after Any Any (λ g e. Unit)
                  (λ g e. Guarded s Any g (recover settings s account e)) h _ (λ g a y. tt)
                  (λ g e y. recover-Guarded account e g)
                  (guard-then s Any Any h (reconcile settings plan fuel s account) _
                    (reconcile-Guarded settings plan fuel s s account w h) (λ g a y. tt)))))

-- The calls of a pass, and what is asked of each.
abbrev pub OwnCall : PositionStrategy → Seen → Call → Type 0
OwnCall s g (strategy_order symbol link) = symbol ≡ s.symbol
OwnCall s g (cancel_order symbol id) = symbol ≡ s.symbol
OwnCall s g (cancel_pending_entries symbol) = symbol ≡ s.symbol
OwnCall s g (market_context symbol) = symbol ≡ s.symbol
OwnCall s g (set_position_protection symbol stop trailing) = symbol ≡ s.symbol
OwnCall s g (place_reduce_only_exit symbol side quantity price link) = symbol ≡ s.symbol
OwnCall s g (save_position_strategy s') = IsProgress s s'
OwnCall s g clock = Unit
OwnCall s g account_state = Unit
OwnCall s g _ = ⊥

abbrev pub ClosesFlat : Seen → Call → Type 0
ClosesFlat g (save_position_strategy s') =
    kept (strategy_is s'.status closed) (is_flat s' g.account) ≡ true
ClosesFlat g _ = Unit

abbrev pub PlacesRecorded : Seen → Call → Type 0
PlacesRecorded g (place_reduce_only_exit symbol side quantity price link) =
    IsRecorded g.saved (link, quantity, price)
PlacesRecorded g _ = Unit

module _ (settings : Settings) (s : PositionStrategy) (plan : ExecutionPlan) (symbol : Text)
    (shared : Option AccountStateSummary) (h : strategy_is s.status closed ≡ false) where
  -- For a strategy that is not CLOSED, and whatever is answered, `_reconcile_symbol_locked` with only
  -- this strategy asks the exchange about no other symbol and saves no other strategy. Every saved
  -- state is compared with the state that the pass was given, not with what the pass saved since: it
  -- keeps the symbol and the side, keeps entries frozen and take profits done that were so in the
  -- given state, and has no smaller exit revision than the given state.
  pub reconcile_symbol-IsOwn :
      Safe
        (OwnCall s)
        after
        Any
        (λ g e. Unit)
        unseen
        (reconcile_symbol settings symbol ((s, plan) ∷ []) shared)
  reconcile_symbol-IsOwn =
      Safe-allow (Rule s) (OwnCall s) after own Any (λ g e. Unit) unseen _
        (reconcile_symbol-Guarded settings s (IsWorking-refl s h) plan symbol shared)
    where
      own : (g : Seen) (c : Call) → Rule s g c → OwnCall s g c
      own g (save_position_strategy s') r = r.0
      own g (place_reduce_only_exit symbol side quantity price link) r = r.0
      own g (strategy_order symbol link) r = r
      own g (cancel_order symbol id) r = r
      own g (cancel_pending_entries symbol) r = r
      own g (market_context symbol) r = r
      own g (set_position_protection symbol stop trailing) r = r
      own g clock r = tt
      own g account_state r = tt
      own g get_active_position_strategies r = elim r [ ]
      own g record_zone_executions r = elim r [ ]
      own g (pause_conflicting_strategies ids reason) r = elim r [ ]

  -- For a strategy that is not CLOSED, and whatever is answered, a pass saves the status CLOSED only
  -- if it has read the account since its last change on the exchange, and the last such snapshot has
  -- neither a position of the symbol nor a pending entry of the strategy.
  pub closed_when_flat :
      Safe ClosesFlat after Any
        (λ g e. Unit)
        unseen
        (reconcile_symbol settings symbol ((s, plan) ∷ []) shared)
  closed_when_flat =
      Safe-allow (Rule s) ClosesFlat after closes Any (λ g e. Unit) unseen _
        (reconcile_symbol-Guarded settings s (IsWorking-refl s h) plan symbol shared)
    where
      closes : (g : Seen) (c : Call) → Rule s g c → ClosesFlat g c
      closes g (save_position_strategy s') r = r.1
      closes g _ r = tt

  -- For a strategy that is not CLOSED, and whatever is answered, a pass places a reduce-only exit only
  -- after it has saved a state that says it is installing exits and lists this exit, with its link,
  -- quantity and price; that state is the last one saved.
  pub placed_when_recorded :
      Safe PlacesRecorded after Any
        (λ g e. Unit)
        unseen
        (reconcile_symbol settings symbol ((s, plan) ∷ []) shared)
  placed_when_recorded =
      Safe-allow (Rule s) PlacesRecorded after places Any (λ g e. Unit) unseen _
        (reconcile_symbol-Guarded settings s (IsWorking-refl s h) plan symbol shared)
    where
      places : (g : Seen) (c : Call) → Rule s g c → PlacesRecorded g c
      places g (place_reduce_only_exit symbol side quantity price link) r = r.1
      places g _ r = tt
