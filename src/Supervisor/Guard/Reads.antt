-- ===== src/Supervisor/Guard/Reads.antt =====
-- The parts of a pass that only read obey the rule.
use cautious_crypto_bro.Prelude.{
  ℕ, zero, suc, ◌==◌, Bool, false, not, ◌&&◌, ◌||◌, ◌≡◌, Option, none, some, List, [], ◌∷◌,
  if◌then◌else◌,
}
use cautious_crypto_bro.Prelude.Int.{pos}
use cautious_crypto_bro.Prelude.Result.{ok}
use cautious_crypto_bro.Text.{Text}
use cautious_crypto_bro.Decimal.{Decimal}
use cautious_crypto_bro.Program.{return, ◌>>=◌, ask}
use cautious_crypto_bro.Domain.Strategy.{PositionStrategy}
use cautious_crypto_bro.Domain.Account.{AccountPosition, AccountOrder, AccountStateSummary}
use cautious_crypto_bro.Supervisor.Ports.{
  Task, account_state, strategy_order, Reason, unexpected_exit,
}
use cautious_crypto_bro.Supervisor.Orders.{find_position}
use cautious_crypto_bro.Supervisor.Fills.{
  Exits, exits_of, open_order, open_or_asked, find_order, is_completed, exit_reason, or_next,
  exits_drift, saved_drift, has_unexpected_exit, drift_reason,
}
use cautious_crypto_bro.Supervisor.Replacement.{
  open_or_recorded, open_exits, find_existing_exit, conflicts, executed, executed_exits, explains,
  shrunk, explained, fill_rounds,
}
use cautious_crypto_bro.Supervisor.Guard.{
  guard-check, guard-if, guard-option, Seen, after, Guarded, Still, guard-call, guard-then,
  guard-ask,
}

module _ (s s' : PositionStrategy) (own : s'.symbol ≡ s.symbol) (v : Option PositionStrategy) where
  pub find_order-Guarded :
      (link : Text) (account : AccountStateSummary) (g : Seen)
      → g.saved ≡ v
      → Guarded s (Still v) g (find_order s' link account)
  unfolding find_order
  find_order-Guarded link account g e = asked (open_order s' link account)
    where
      asked : (o : Option AccountOrder) → Guarded s (Still v) g (open_or_asked s' link o)
      asked none =
          guard-call s (λ c h a. h.saved ≡ v) g (strategy_order s'.symbol link) own (λ a. e)
      asked (some o) = e

  or_next-Guarded :
      (g : Seen) (o : Option Reason) (rest : Task (Option Reason))
      → g.saved ≡ v
      → Guarded s (Still v) g rest
      → Guarded s (Still v) g (or_next o rest)
  or_next-Guarded g none rest e h = h
  or_next-Guarded g (some reason) rest e h = e

  exits_drift-Guarded :
      (account : AccountStateSummary) (exits : Exits) (g : Seen)
      → g.saved ≡ v
      → Guarded s (Still v) g (exits_drift s' account exits)
  unfolding exits_drift
  exits_drift-Guarded account [] g e = e
  exits_drift-Guarded account ((link, quantity, price) ∷ exits) g e =
      guard-if s (Still v) g (is_completed s' link) (exits_drift s' account exits)
        (find_order s' link account >>= λ found.
          or_next (exit_reason s' link quantity price found) (exits_drift s' account exits))
        (λ c. exits_drift-Guarded account exits g e)
        (λ c.
          guard-then s (Still v) (Still v) g (find_order s' link account)
            (λ found.
              or_next (exit_reason s' link quantity price found) (exits_drift s' account exits))
            (find_order-Guarded link account g e)
            (λ h found e'.
              or_next-Guarded h (exit_reason s' link quantity price found)
                (exits_drift s' account exits) e' (exits_drift-Guarded account exits h e')))

  pub drift_reason-Guarded :
      (account : AccountStateSummary) (g : Seen)
      → g.saved ≡ v
      → Guarded s (Still v) g (drift_reason s' account)
  unfolding drift_reason
  drift_reason-Guarded account g e =
      guard-if s (Still v) g
        (s'.exit_revision == 0 || s'.rebalance_needed && not s'.installing_exits) (return none)
        (saved_drift s' account s'.expected_exits) (λ c. e) (λ c. saved s'.expected_exits)
    where
      saved : (o : Option Exits) → Guarded s (Still v) g (saved_drift s' account o)
      saved none = e
      saved (some exits) =
          guard-if s (Still v) g (has_unexpected_exit s' account) (return (some unexpected_exit))
            (exits_drift s' account exits) (λ c. e) (λ c. exits_drift-Guarded account exits g e)

  pub find_existing_exit-Guarded :
      (link : Text) (account : AccountStateSummary) (g : Seen)
      → g.saved ≡ v
      → Guarded s (Still v) g (find_existing_exit s' link account)
  unfolding find_existing_exit
  find_existing_exit-Guarded link account g e = asked (open_exits s' link account)
    where
      asked : (os : List AccountOrder) → Guarded s (Still v) g (open_or_recorded s' link os)
      asked [] =
          guard-ask s (Still v) g (strategy_order s'.symbol link)
            (λ historical. return (elim historical [ none ↦ [] | some o ↦ o ∷ [] ])) own (λ a. e)
      asked (o ∷ os) = e

  executed_exits-Guarded :
      (account : AccountStateSummary) (total : Decimal) (exits : Exits) (g : Seen)
      → g.saved ≡ v
      → Guarded s (Still v) g (executed_exits s' account total exits)
  unfolding executed_exits
  executed_exits-Guarded account total [] g e = e
  executed_exits-Guarded account total ((link, quantity, price) ∷ exits) g e =
      guard-then s (Still v) (Still v) g (find_existing_exit s' link account)
        (λ existing.
          if conflicts existing s'.side quantity price
          then return none
          else executed_exits s' account (executed existing total) exits)
        (find_existing_exit-Guarded link account g e)
        (λ h existing e'.
          guard-if s (Still v) h (conflicts existing s'.side quantity price) (return none)
            (executed_exits s' account (executed existing total) exits) (λ c. e')
            (λ c. executed_exits-Guarded account (executed existing total) exits h e'))

  explained-Guarded :
      (snapshot : AccountPosition) (account : AccountStateSummary) (rest : Task Bool)
      (live : Option AccountPosition) (g : Seen)
      → g.saved ≡ v
      → ((h : Seen) → h.saved ≡ v → Guarded s (Still v) h rest)
      → Guarded s (Still v) g (explained s' snapshot account rest live)
  explained-Guarded snapshot account rest none g e k = e
  explained-Guarded snapshot account rest (some live) g e k =
      guard-then s (Still v) (Still v) g (executed_exits s' account (pos 0) (exits_of s'))
        (λ total. elim (explains total live snapshot) [
          | none ↦ rest
          | some matched ↦ return matched
        ])
        (executed_exits-Guarded account (pos 0) (exits_of s') g e)
        (λ h total e'.
          guard-option s (Still v) h (explains total live snapshot) rest return (λ c. k h e')
            (λ matched c. e'))

  pub fill_rounds-Guarded :
      (snapshot : AccountPosition) (more : ℕ) (account : AccountStateSummary) (g : Seen)
      → g.saved ≡ v
      → Guarded s (Still v) g (fill_rounds s' snapshot more account)
  unfolding fill_rounds
  fill_rounds-Guarded snapshot zero account g e =
      guard-check s (Still v) g (find_position s' account)
        (λ live. explained s' snapshot account (return false) (shrunk live snapshot))
        (λ live found.
          explained-Guarded snapshot account (return false) (shrunk live snapshot) g e (λ h e'. e'))
  fill_rounds-Guarded snapshot (suc more) account g e =
      guard-check s (Still v) g (find_position s' account)
        (λ live.
          explained s' snapshot account (ask account_state >>= fill_rounds s' snapshot more)
            (shrunk live snapshot))
        (λ live found.
          explained-Guarded snapshot account (ask account_state >>= fill_rounds s' snapshot more)
            (shrunk live snapshot) g e
            (λ h e'.
              guard-ask s (Still v) h account_state (fill_rounds s' snapshot more) tt
                (λ a. fill_rounds-Guarded snapshot more a (after h account_state (ok a)) e')))
