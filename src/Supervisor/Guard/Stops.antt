-- ===== src/Supervisor/Guard/Stops.antt =====
-- The cancellations of exits and the handoff of partial stops obey the rule.
use cautious_crypto_bro.Prelude.{
  ℕ, zero, suc, not, ◌||◌, ◌≡◌, Option, none, some, is_some, List, [], ◌∷◌,
}
use cautious_crypto_bro.Prelude.Result.{raise_if}
use cautious_crypto_bro.Text.{Text}
use cautious_crypto_bro.Decimal.{Decimal}
use cautious_crypto_bro.Program.{return}
use cautious_crypto_bro.Domain.Plan.Defs.{ExecutionPlan}
use cautious_crypto_bro.Domain.Strategy.{PositionStrategy}
use cautious_crypto_bro.Domain.Account.{AccountPosition, AccountStateSummary}
use cautious_crypto_bro.Supervisor.Ports.{
  Task, account_state, cancel_order, set_position_protection, position_changed, position_gone,
  stop_differs,
}
use cautious_crypto_bro.Supervisor.Orders.{is_value, or_value, find_position, partial_stops}
use cautious_crypto_bro.Supervisor.Trailing.{verify_protection}
use cautious_crypto_bro.Supervisor.Handoff.{
  trailing_of, other_stop, one_of_texts, stop_at_last, stop_in_round, ensure_rounds,
  ensure_full_stop, next_stop, cancel_partial_stops, hand_off, handoff_partial_stops,
}
use cautious_crypto_bro.Supervisor.Replacement.{
  is_nil, stale_ids, cancel_all, unchanged, fills_explain, confirm_cancelled, cancel_stale_exits,
}
use cautious_crypto_bro.Supervisor.Guard.{
  Seen, Guarded, Still, guard-check, guard-if, guard-result, guard-then, guard-ask,
}
use cautious_crypto_bro.Supervisor.Guard.Reads.{fill_rounds-Guarded}

module _ (s s' : PositionStrategy) (own : s'.symbol ≡ s.symbol) (v : Option PositionStrategy) where
  pub cancel_all-Guarded :
      (ids : List Text) (g : Seen) → g.saved ≡ v → Guarded s (Still v) g (cancel_all s' ids)
  unfolding cancel_all
  cancel_all-Guarded [] g e = e
  cancel_all-Guarded (id ∷ ids) g e =
      guard-ask s (Still v) g (cancel_order s'.symbol id) (λ x. cancel_all s' ids) own
        (λ a. cancel_all-Guarded ids (record g { account = none }) e)

  fills_explain-Guarded :
      (account : AccountStateSummary) (snapshot : AccountPosition) (ids : List Text) (g : Seen)
      → g.saved ≡ v
      → Guarded s (Still v) g (fills_explain s' account snapshot ids)
  unfolding cautious_crypto_bro.Supervisor.Replacement.replacement_fill_matches
  fills_explain-Guarded account snapshot [] g e =
      fill_rounds-Guarded s s' own v snapshot 1 account g e
  fills_explain-Guarded account snapshot (id ∷ ids) g e = e

  confirm_cancelled-Guarded :
      (snapshot : AccountPosition) (ids : List Text) (g : Seen)
      → g.saved ≡ v
      → Guarded s (Still v) g (confirm_cancelled s' snapshot ids)
  confirm_cancelled-Guarded snapshot ids g e =
      guard-ask s (Still v) g account_state _ tt (λ account.
        guard-check s (Still v) (record g { account = some account }) _ _
          (λ x c.
            guard-check s (Still v) (record g { account = some account }) (find_position s' account)
              _
              (λ live found.
                guard-if s (Still v) (record g { account = some account }) (unchanged live snapshot)
                  (return tt) _ (λ c. e)
                  (λ c.
                    guard-then s (Still v) (Still v) (record g { account = some account })
                      (fills_explain s' account snapshot ids) _
                      (fills_explain-Guarded account snapshot ids
                        (record g { account = some account }) e)
                      (λ h matched e'.
                        guard-result s (Still v) h (raise_if (not matched) position_changed)
                          (λ a c. e'))))))

  pub cancel_stale_exits-Guarded :
      (account : AccountStateSummary) (snapshot : AccountPosition) (g : Seen)
      → g.saved ≡ v
      → Guarded s (Still v) g (cancel_stale_exits s' account snapshot)
  unfolding cancel_stale_exits
  cancel_stale_exits-Guarded account snapshot g e =
      guard-then s (Still v) (Still v) g (cancel_all s' (stale_ids s' account)) _
        (cancel_all-Guarded (stale_ids s' account) g e)
        (λ h a e'.
          guard-if s (Still v) h (not (is_nil (stale_ids s' account)) || s'.installing_exits)
            (confirm_cancelled s' snapshot (stale_ids s' account)) (return tt)
            (λ c. confirm_cancelled-Guarded snapshot (stale_ids s' account) h e') (λ c. e'))

  stop_at_last-Guarded :
      (stop : Decimal) (account : AccountStateSummary) (live : Option AccountPosition) (g : Seen)
      → g.saved ≡ v
      → Guarded s (Still v) g (stop_at_last s' stop account live)
  stop_at_last-Guarded stop account none g e = e
  stop_at_last-Guarded stop account (some p) g e =
      guard-check s (Still v) g (raise_if (other_stop p stop) stop_differs) _ (λ x c.
        guard-check s (Still v) g (verify_protection p stop (trailing_of s')) _ (λ x' c'. e))

  stop_in_round-Guarded :
      (stop : Decimal) (account : AccountStateSummary) (rest : Task AccountStateSummary)
      (live : Option AccountPosition) (g : Seen)
      → g.saved ≡ v
      → ((h : Seen) → h.saved ≡ v → Guarded s (Still v) h rest)
      → Guarded s (Still v) g (stop_in_round s' stop account rest live)
  stop_in_round-Guarded stop account rest none g e k = e
  stop_in_round-Guarded stop account rest (some p) g e k =
      guard-if s (Still v) g (is_value p.stop_loss stop) _ _
        (λ c. guard-check s (Still v) g (verify_protection p stop (trailing_of s')) _ (λ x c'. e))
        (λ c. guard-check s (Still v) g (raise_if (is_some p.stop_loss) stop_differs) _ (λ x c'.
          guard-ask s (Still v) g (set_position_protection s'.symbol stop (trailing_of s')) _ own
            (λ a. k (record g { account = none }) e)))

  ensure_rounds-Guarded :
      (stop : Decimal) (rounds : ℕ) (g : Seen)
      → g.saved ≡ v
      → Guarded s (Still v) g (ensure_rounds s' stop rounds)
  unfolding ensure_rounds
  ensure_rounds-Guarded stop zero g e = guard-ask s (Still v) g account_state _ tt (λ account.
      guard-check s (Still v) (record g { account = some account }) (find_position s' account) _
        (λ live c. stop_at_last-Guarded stop account live (record g { account = some account }) e))
  ensure_rounds-Guarded stop (suc rounds) g e =
      guard-ask s (Still v) g account_state _ tt (λ account.
        guard-check s (Still v) (record g { account = some account }) (find_position s' account) _
          (λ live c.
            stop_in_round-Guarded stop account (ensure_rounds s' stop rounds) live
              (record g { account = some account }) e (ensure_rounds-Guarded stop rounds)))

  next_stop-Guarded :
      (account : AccountStateSummary) (rest : Task AccountStateSummary)
      (live : Option AccountPosition) (g : Seen)
      → g.saved ≡ v
      → Guarded s (Still v) g rest
      → Guarded s (Still v) g (next_stop account rest live)
  next_stop-Guarded account rest none g e h = e
  next_stop-Guarded account rest (some p) g e h = h

  module _ (plan : ExecutionPlan) where
    cancel_partial_stops-Guarded :
        (stop : Decimal) (account : AccountStateSummary) (ids : List Text) (g : Seen)
        → g.saved ≡ v
        → Guarded s (Still v) g (cancel_partial_stops s' plan stop account ids)
    unfolding cancel_partial_stops ensure_full_stop
    cancel_partial_stops-Guarded stop account [] g e = e
    cancel_partial_stops-Guarded stop account (id ∷ ids) g e =
        guard-check s (Still v) g (partial_stops s' plan account) _ (λ present c.
          guard-if s (Still v) g (one_of_texts id present) _
            (cancel_partial_stops s' plan stop account ids)
            (λ c'. guard-ask s (Still v) g (cancel_order s'.symbol id) _ own (λ a.
              guard-then s (Still v) (Still v) (record g { account = none })
                (ensure_rounds s' stop 2) _
                (ensure_rounds-Guarded stop 2 (record g { account = none }) e)
                (λ h account' e'.
                  guard-check s (Still v) h (find_position s' account') _ (λ live c''.
                    next_stop-Guarded account' (cancel_partial_stops s' plan stop account' ids) live
                      h e' (cancel_partial_stops-Guarded stop account' ids h e')))))
            (λ c'. cancel_partial_stops-Guarded stop account ids g e))

    hand_off-Guarded :
        (p : AccountPosition) (account : AccountStateSummary) (stop : Decimal) (ids : List Text)
        (g : Seen)
        → g.saved ≡ v
        → Guarded s (Still v) g (hand_off s' plan p account stop ids)
    unfolding ensure_full_stop
    hand_off-Guarded p account stop [] g e = e
    hand_off-Guarded p account stop (id ∷ ids) g e =
        guard-check s (Still v) g (raise_if (other_stop p stop) stop_differs) _ (λ x c.
          guard-then s (Still v) (Still v) g (ensure_rounds s' stop 2) _
            (ensure_rounds-Guarded stop 2 g e)
            (λ h account' e'. guard-check s (Still v) h (find_position s' account') _ (λ live c'.
              guard-check s (Still v) h (raise_if (not (is_some live)) position_gone) _
                (λ x' c''. cancel_partial_stops-Guarded stop account' (id ∷ ids) h e'))))

    pub handoff_partial_stops-Guarded :
        (p : AccountPosition) (account : AccountStateSummary) (g : Seen)
        → g.saved ≡ v
        → Guarded s (Still v) g (handoff_partial_stops s' plan p account)
    unfolding handoff_partial_stops
    handoff_partial_stops-Guarded p account g e =
        guard-check s (Still v) g (partial_stops s' plan account) _ (λ ids c.
          hand_off-Guarded p account (or_value s'.protected_stop_loss plan.stop_loss) ids g e)
