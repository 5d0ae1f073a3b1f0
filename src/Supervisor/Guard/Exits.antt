-- ===== src/Supervisor/Guard/Exits.antt =====
-- The installation of protection and exits obeys the rule: exits are placed after they are saved.
use cautious_crypto_bro.Prelude.{
  Bool, true, not, ◌||◌, ◌≡◌, refl, Option, none, some, [], ◌∷◌, arith,
}
use mathlib.Core.List.{Memᴰ}
use cautious_crypto_bro.Prelude.Result.{raise_if}
use cautious_crypto_bro.Text.{Text}
use cautious_crypto_bro.Decimal.{Decimal}
use cautious_crypto_bro.Program.{return}
use cautious_crypto_bro.Domain.Plan.Defs.{ExecutionPlan}
use cautious_crypto_bro.Domain.Strategy.{PositionStrategy}
use cautious_crypto_bro.Domain.Account.{AccountPosition, AccountStateSummary}
use cautious_crypto_bro.Supervisor.Ports.{
  clock, account_state, market_context, set_position_protection, place_reduce_only_exit,
  save_position_strategy, exit_conflict, exit_unconfirmed,
}
use cautious_crypto_bro.Supervisor.Orders.{is_value, same_decimal?, find_position}
use cautious_crypto_bro.Supervisor.Trailing.{verify_protection}
use cautious_crypto_bro.Supervisor.Fills.{Exits, exits_of}
use cautious_crypto_bro.Supervisor.Replacement.{find_existing_exit, is_the_exit, is_none}
use cautious_crypto_bro.Supervisor.Install.{
  Protection, save, new_trailing, new_stop, resolve_protection, save_installing_snapshot,
  apply_protection, gone_or, protected_account, confirm_protection_and_handoff,
  reconcile_or_place_exit, install_take_profit_exits, confirm_exits, verify_installation,
}
use cautious_crypto_bro.Supervisor.Guard.{
  Seen, IsWorking, IsRecorded, Guarded, Still, Any, guard-check, guard-if, guard-result, guard-then,
  guard-ask, guard-call,
}
use cautious_crypto_bro.Supervisor.Guard.Reads.{find_existing_exit-Guarded}
use cautious_crypto_bro.Supervisor.Guard.Stops.{handoff_partial_stops-Guarded}

-- A saved state that is installing the exits.
abbrev pub Installs : Exits → Option PositionStrategy → Type 0
Installs exits none = ⊥
Installs exits (some s) = (s.installing_exits ≡ true) × (exits_of s ≡ exits)

module _ (s s' : PositionStrategy) where
  -- A state that goes on being worked on is saved.
  pub save-Guarded : IsWorking s s' → (g : Seen) → Guarded s Any g (save s')
  unfolding save
  save-Guarded (w, c) g = guard-ask s Any g clock _ tt (λ now.
      guard-call s (λ c h a. Unit) g (save_position_strategy (record s' { updated_at = now }))
        (w, ground arith) (λ a. tt))

  pub save_installing_snapshot-Guarded :
      (p : AccountPosition) (protection : Protection) (enable : Bool) (exits : Exits)
      → IsWorking s s'
      → s'.expected_exits ≡ some exits
      → (g : Seen)
      → Guarded s
          (λ h a. Installs exits h.saved)
          g
          (save_installing_snapshot s' p protection enable)
  unfolding save_installing_snapshot save
  save_installing_snapshot-Guarded p protection enable exits (w, c) h g =
      guard-ask s (λ h a. Installs exits h.saved) g clock _ tt
        (λ now.
          guard-call s (λ c h a. Installs exits h.saved) g
            (save_position_strategy (record s' {
              last_position_qty = some p.size;
              last_avg_price = some p.avg_price;
              trailing_active = enable || s'.trailing_active;
              protected_stop_loss = some protection.stop;
              trailing_distance = protection.trailing;
              installing_exits = true;
              updated_at = now;
            }))
            (w, ground arith) (λ a. (refl, rw h refl)))

  module _ (own : s'.symbol ≡ s.symbol) (v : Option PositionStrategy) where
    pub resolve_protection-Guarded :
        (plan : ExecutionPlan) (p : AccountPosition) (enable : Bool) (g : Seen)
        → g.saved ≡ v
        → Guarded s (Still v) g (resolve_protection s' plan p enable)
    unfolding resolve_protection
    resolve_protection-Guarded plan p enable g e =
        guard-ask s (Still v) g (market_context s'.symbol) _ own (λ c.
          guard-check s (Still v) g (new_trailing plan p c enable) _ (λ trailing x.
            guard-check s (Still v) g (new_stop s' plan p c enable) _ (λ stop x'. e)))

    pub apply_protection-Guarded :
        (p : AccountPosition) (protection : Protection) (g : Seen)
        → g.saved ≡ v
        → Guarded s (Still v) g (apply_protection s' p protection)
    unfolding apply_protection
    apply_protection-Guarded p protection g e =
        guard-if s (Still v) g
          (not (is_value p.stop_loss protection.stop)
            || not (same_decimal? p.trailing_stop protection.trailing))
          _ (return tt)
          (λ c.
            guard-call s (λ c h a. h.saved ≡ v) g
              (set_position_protection s'.symbol protection.stop protection.trailing) own (λ a. e))
          (λ c. e)

    gone_or-Guarded :
        (found : Option AccountPosition) (g : Seen)
        → g.saved ≡ v
        → Guarded s (Still v) g (gone_or found)
    gone_or-Guarded none g e = tt
    gone_or-Guarded (some p) g e = e

    protected_account-Guarded :
        (protection : Protection) (g : Seen)
        → g.saved ≡ v
        → Guarded s (Still v) g (protected_account s' protection)
    unfolding protected_account
    protected_account-Guarded protection g e =
        guard-ask s (Still v) g account_state _ tt (λ account.
          guard-check s (Still v) (record g { account = some account }) (find_position s' account) _
            (λ found c.
              guard-then s (Still v) (Still v) (record g { account = some account }) (gone_or found)
                _ (gone_or-Guarded found (record g { account = some account }) e)
                (λ h live e'.
                  guard-check s (Still v) h
                    (verify_protection live protection.stop protection.trailing) _ (λ x c'. e'))))

    pub confirm_protection_and_handoff-Guarded :
        (plan : ExecutionPlan) (protection : Protection) (enable : Bool) (g : Seen)
        → g.saved ≡ v
        → Guarded s (Still v) g (confirm_protection_and_handoff s' plan protection enable)
    unfolding confirm_protection_and_handoff
    confirm_protection_and_handoff-Guarded plan protection enable g e =
        guard-then s (Still v) (Still v) g (protected_account s' protection) _
          (protected_account-Guarded protection g e)
          (λ h found e'. handoff_partial_stops-Guarded s _ own v plan found.1 found.0 h e')

    reconcile_or_place_exit-Guarded :
        (p : AccountPosition) (account : AccountStateSummary) (link : Text)
        (quantity price : Decimal) (g : Seen)
        → IsRecorded v (link, quantity, price)
        → g.saved ≡ v
        → Guarded s (Still v) g (reconcile_or_place_exit s' p account link quantity price)
    unfolding reconcile_or_place_exit
    reconcile_or_place_exit-Guarded p account link quantity price g r e =
        guard-then s (Still v) (Still v) g (find_existing_exit s' link account) _
          (find_existing_exit-Guarded s s' own v link account g e)
          (λ h existing e'.
            guard-if s (Still v) h (is_none existing) _ _
              (λ c.
                guard-call s (λ c h a. h.saved ≡ v) h
                  (place_reduce_only_exit s'.symbol p.side quantity price link) (own, rw e' r)
                  (λ a. e'))
              (λ c.
                guard-result s (Still v) h
                  (raise_if (not (is_the_exit existing p.side quantity price)) exit_conflict)
                  (λ a c'. e')))

    pub install_take_profit_exits-Guarded :
        (p : AccountPosition) (account : AccountStateSummary) (exits : Exits) (g : Seen)
        → ((x : Text × Decimal × Decimal) → Memᴰ x exits → IsRecorded v x)
        → g.saved ≡ v
        → Guarded s (Still v) g (install_take_profit_exits s' p account exits)
    unfolding install_take_profit_exits
    install_take_profit_exits-Guarded p account [] g r e = e
    install_take_profit_exits-Guarded p account ((link, quantity, price) ∷ exits) g r e =
        guard-then s (Still v) (Still v) g
          (reconcile_or_place_exit s' p account link quantity price) _
          (reconcile_or_place_exit-Guarded p account link quantity price g
            (r (link, quantity, price) (Memᴰ.head refl)) e)
          (λ h a e'.
            install_take_profit_exits-Guarded p account exits h (λ x m. r x (Memᴰ.tail m)) e')

    confirm_exits-Guarded :
        (p : AccountPosition) (account : AccountStateSummary) (exits : Exits) (g : Seen)
        → g.saved ≡ v
        → Guarded s (Still v) g (confirm_exits s' p account exits)
    unfolding confirm_exits
    confirm_exits-Guarded p account [] g e = e
    confirm_exits-Guarded p account ((link, quantity, price) ∷ exits) g e =
        guard-then s (Still v) (Still v) g (find_existing_exit s' link account) _
          (find_existing_exit-Guarded s s' own v link account g e)
          (λ h found e'.
            guard-check s (Still v) h
              (raise_if (not (is_the_exit found p.side quantity price)) exit_unconfirmed) _
              (λ x c. confirm_exits-Guarded p account exits h e'))

    pub verify_installation-Guarded :
        (p : AccountPosition) (protection : Protection) (exits : Exits) (g : Seen)
        → g.saved ≡ v
        → Guarded s (Still v) g (verify_installation s' p protection exits)
    unfolding verify_installation
    verify_installation-Guarded p protection exits g e =
        guard-then s (Still v) (Still v) g (protected_account s' protection) _
          (protected_account-Guarded protection g e)
          (λ h found e'.
            guard-then s (Still v) (Still v) h (confirm_exits s' p found.0 exits) _
              (confirm_exits-Guarded p found.0 exits h e') (λ h' a e''. e''))
