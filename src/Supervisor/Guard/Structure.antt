-- ===== src/Supervisor/Guard/Structure.antt =====
-- `install_structure` obeys the rule.
use cautious_crypto_bro.Prelude.{Bool, ◌≡◌, refl, Option, none, some}
use mathlib.Core.List.{Memᴰ}
use cautious_crypto_bro.Text.{Text}
use cautious_crypto_bro.Decimal.{Decimal}
use cautious_crypto_bro.Domain.Plan.Defs.{ExecutionPlan}
use cautious_crypto_bro.Domain.Strategy.{PositionStrategy}
use cautious_crypto_bro.Domain.Account.{AccountPosition, AccountStateSummary}
use cautious_crypto_bro.Supervisor.Fills.{Exits}
use cautious_crypto_bro.Supervisor.Replacement.{cancel_stale_exits}
use cautious_crypto_bro.Supervisor.Install.{
  Protection, resolve_protection, save_installing_snapshot, apply_protection,
  confirm_protection_and_handoff, install_take_profit_exits, verify_installation, install_from,
  install_structure,
}
use cautious_crypto_bro.Supervisor.Guard.{
  Seen, IsWorking, IsRecorded, Guarded, Still, Any, guard-check, guard-then,
}
use cautious_crypto_bro.Supervisor.Guard.Stops.{cancel_stale_exits-Guarded}
use cautious_crypto_bro.Supervisor.Guard.Exits.{
  Installs, save_installing_snapshot-Guarded, apply_protection-Guarded,
  confirm_protection_and_handoff-Guarded, install_take_profit_exits-Guarded,
  verify_installation-Guarded, resolve_protection-Guarded,
}

module _ (s s' : PositionStrategy) where
  -- The steps after the snapshot, in which nothing else is saved.
  Installs-IsRecorded :
      (exits : Exits) (v : Option PositionStrategy)
      → Installs exits v
      → (x : Text × Decimal × Decimal) → Memᴰ x exits
      → IsRecorded v x
  Installs-IsRecorded exits none i x m = elim i [ ]
  Installs-IsRecorded exits (some t) (h, e) x m = (h, rw e m)

  pub install_from-Guarded :
      (plan : ExecutionPlan) (p : AccountPosition) (account : AccountStateSummary) (enable : Bool)
      (protection : Protection) (exits : Exits)
      → IsWorking s s'
      → s'.expected_exits ≡ some exits
      → (g : Seen) → Guarded s Any g (install_from s' plan p account enable protection exits)
  unfolding install_from
  install_from-Guarded plan p account enable protection exits (w, c) x g =
      let own = w.1 in
      guard-then s (λ h a. Installs exits h.saved) Any g
        (save_installing_snapshot s' p protection enable) _
        (save_installing_snapshot-Guarded s s' p protection enable exits (w, c) x g)
        (λ h1 a1 i.
          guard-then s (Still h1.saved) Any h1 (apply_protection s' p protection) _
            (apply_protection-Guarded s s' own h1.saved p protection h1 refl)
            (λ h2 a2 e2.
              guard-then s (Still h1.saved) Any h2 (cancel_stale_exits s' account p) _
                (cancel_stale_exits-Guarded s s' own h1.saved account p h2 e2)
                (λ h3 a3 e3.
                  guard-then s (Still h1.saved) Any h3
                    (confirm_protection_and_handoff s' plan protection enable) _
                    (confirm_protection_and_handoff-Guarded s s' own h1.saved plan protection enable
                      h3 e3)
                    (λ h4 a4 e4.
                      guard-then s (Still h1.saved) Any h4
                        (install_take_profit_exits s' p account exits) _
                        (install_take_profit_exits-Guarded s s' own h1.saved p account exits h4
                          (Installs-IsRecorded exits h1.saved i) e4)
                        (λ h5 a5 e5.
                          guard-then s (Still h1.saved) Any h5
                            (verify_installation s' p protection exits) _
                            (verify_installation-Guarded s s' own h1.saved p protection exits h5 e5)
                            (λ h6 a6 e6. tt))))))

module _ (s s' : PositionStrategy) where
  pub install_structure-Guarded :
      (plan : ExecutionPlan) (p : AccountPosition) (account : AccountStateSummary) (enable : Bool)
      → IsWorking s s'
      → (g : Seen) → Guarded s Any g (install_structure s' plan p account enable)
  unfolding install_structure
  install_structure-Guarded plan p account enable (w, c) g =
      guard-then s (Still g.saved) Any g (resolve_protection s' plan p enable) _
        (resolve_protection-Guarded s s' w.1 g.saved plan p enable g refl)
        (λ h protection e. guard-check s Any h _ _ (λ exits x.
          install_from-Guarded s (record s' { expected_exits = some exits }) plan p account enable
            protection exits (w, c) refl h))
