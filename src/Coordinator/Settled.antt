-- ===== src/Coordinator/Settled.antt =====
-- Position actions: asked of the exchange once, under a claim, and their outcome is recorded.
use cautious_crypto_bro.Prelude.{
  ℕ, zero, suc, ◌*◌, ◌/◌, ltb, Bool, true, false, ◌≡◌, refl, Option, none, some, List, [], ◌∷◌, any,
  if◌then◌else◌, arith,
}
use cautious_crypto_bro.Prelude.Int.{ℤ}
use cautious_crypto_bro.Prelude.Result.{raise_if}
use cautious_crypto_bro.Text.{Text}
use cautious_crypto_bro.Decimal.{Decimal}
use cautious_crypto_bro.Program.{return, raise, ◌>>=◌, ◌>>◌, ask}
use cautious_crypto_bro.Domain.Enums.{ApprovalMode, IntentStatus, status_is}
use cautious_crypto_bro.Domain.Signal.{PositionActionIntent}
use cautious_crypto_bro.Coordinator.Ports.{
  PositionActionExecutionResult, Failure, Message, stale, failed, no_entries,
  uncertain_cancellation, cancellation_unconfirmed, now, sleep, account_state, get_position_action,
  claim_position_action, mark_position_action_failed, mark_position_action_uncertain,
  strategy_order, cancel_order, execute_position_action, complete_position_action,
  entry_cancellation_targets, record_entry_cancellation, Deployment, PositionActionExecutionOutcome,
}
use cautious_crypto_bro.Coordinator.Actions.{
  expected_remaining, action_link, filled_by, action_order_filled, confirms_position_action,
  unconfirmed, confirmed_now, confirm_attempts, confirm_position_action, age, of_current,
  mark_stale, claim_action, is_action_preflight, preflight_failure_outcome, order_of,
  uncertain_outcome, failure_outcome, cancels, owned_entry, owned_ids, cancel_orders,
  await_cancelled, has_no_position, cancel_owned, cancel_targets, cancel_source_entries,
  execute_claimed, execute_locked_action, execute_found, run_position_action,
}
use cautious_crypto_bro.Coordinator.Ledger.{
  Ledger, untouched, kept, Ruled, Steady, Ruled-if, Ruled-ask, Ruled-call, Ruled-check,
  Ruled-result, Ruled-then, Ruled-try,
}

abbrev pub Anything : Ledger → Failure → Type 0
Anything g e = Unit

-- A claim that was taken has a recorded outcome.
abbrev pub IsSettled : {A : Type 0} → Ledger → A → Type 0
IsSettled g a = kept g.claimed g.settled ≡ true

abbrev Claimed : Ledger → Type 0
Claimed g = g.claimed ≡ true

settled-claim : (claimed : Bool) → kept claimed true ≡ true
settled-claim claimed = ground arith

settled-kept : (g : Ledger) → g.settled ≡ true → kept g.claimed g.settled ≡ true
settled-kept g h = ground arith

-- A record that settles, and an outcome.
failure_outcome-IsSettled :
    (a : PositionActionIntent) (result : Option PositionActionExecutionResult) (e : Failure)
    (g : Ledger)
    → Claimed g
    → Ruled IsSettled Anything g (failure_outcome a result e)
unfolding failure_outcome preflight_failure_outcome uncertain_outcome
failure_outcome-IsSettled a result e g c =
    Ruled-if IsSettled Anything g (is_action_preflight e) (preflight_failure_outcome a e)
      (uncertain_outcome a result e)
      (λ b.
        Ruled-ask IsSettled Anything g (mark_position_action_failed a.action_id (failed e)) _ c
          (λ x. settled-claim g.claimed) (λ e. tt))
      (λ b.
        Ruled-ask IsSettled Anything g
          (mark_position_action_uncertain a.action_id a.symbol (order_of result) (failed e)) _ c
          (λ x. settled-claim g.claimed) (λ e. tt))

confirmed_now-Steady :
    (a : PositionActionIntent) (r : PositionActionExecutionResult) (expected : Option Decimal)
    (filled : Bool) (g : Ledger)
    → Claimed g
    → Steady Claimed g (confirmed_now a r expected filled)
confirmed_now-Steady a r expected false g c = c
confirmed_now-Steady a r expected true g c =
    Ruled-ask (λ h x. Claimed h) (λ h e. Claimed h) g account_state _ tt
      (λ state.
        Ruled-result (λ h x. Claimed h) (λ h e. Claimed h) g
          (confirms_position_action a r state expected) (λ x. c) (λ e. c))
      (λ e. c)

filled-Steady :
    (a : PositionActionIntent) (r : PositionActionExecutionResult) (filled : Bool) (g : Ledger)
    → Claimed g
    → Steady Claimed g (if filled then return true else action_order_filled a r)
unfolding action_order_filled
filled-Steady a r true g c = c
filled-Steady a r false g c =
    Ruled-ask (λ h x. Claimed h) (λ h e. Claimed h) g (strategy_order a.symbol (action_link a)) _ tt
      (λ found.
        Ruled-result (λ h x. Claimed h) (λ h e. Claimed h) g (filled_by r found) (λ x. c) (λ e. c))
      (λ e. c)

confirm_attempts-Steady :
    (a : PositionActionIntent) (r : PositionActionExecutionResult) (expected : Option Decimal)
    (more : ℕ) (filled : Bool) (g : Ledger)
    → Claimed g
    → Steady Claimed g (confirm_attempts a r expected more filled)
unfolding confirm_attempts
confirm_attempts-Steady a r expected zero filled g c =
    Ruled-then (λ h x. Claimed h) (λ h x. Claimed h) (λ h e. Claimed h) g _ _
      (filled-Steady a r filled g c)
      (λ h filled' c'.
        Ruled-then (λ h x. Claimed h) (λ h x. Claimed h) (λ h e. Claimed h) h _ _
          (confirmed_now-Steady a r expected filled' h c')
          (λ h' done c''.
            Ruled-if (λ h x. Claimed h) (λ h e. Claimed h) h' done (return tt)
              (raise (unconfirmed a filled')) (λ b. c'') (λ b. c'')))
confirm_attempts-Steady a r expected (suc more) filled g c =
    Ruled-then (λ h x. Claimed h) (λ h x. Claimed h) (λ h e. Claimed h) g _ _
      (filled-Steady a r filled g c)
      (λ h filled' c'.
        Ruled-then (λ h x. Claimed h) (λ h x. Claimed h) (λ h e. Claimed h) h _ _
          (confirmed_now-Steady a r expected filled' h c')
          (λ h' done c''.
            Ruled-if (λ h x. Claimed h) (λ h e. Claimed h) h' done (return tt) _ (λ b. c'')
              (λ b.
                Ruled-ask (λ h x. Claimed h) (λ h e. Claimed h) h' sleep _ tt
                  (λ x. confirm_attempts-Steady a r expected more filled' h' c'') (λ e. c''))))

-- The confirmation and the record of a completed action.
completed-IsSettled :
    (a : PositionActionIntent) (r : PositionActionExecutionResult) (g : Ledger)
    → Claimed g
    → Ruled
        (λ h x. Claimed h × (h.settled ≡ true))
        (λ h e. Claimed h)
        g
        (confirm_position_action a r >> ask (complete_position_action a r.order_id))
unfolding confirm_position_action
completed-IsSettled a r g c =
    Ruled-then (λ h x. Claimed h) (λ h x. Claimed h × (h.settled ≡ true)) (λ h e. Claimed h) g _ _
      (Ruled-check (λ h x. Claimed h) (λ h e. Claimed h) g (expected_remaining a r) _
        (λ expected e. confirm_attempts-Steady a r expected 19 false g c) (λ e. c))
      (λ h x c'.
        Ruled-call (λ q h x. Claimed h × (h.settled ≡ true)) (λ h e. Claimed h) h
          (complete_position_action a r.order_id) c' (λ x. (c', refl)) (λ e. c'))

execute_claimed-IsSettled :
    (a : PositionActionIntent) (g : Ledger)
    → Claimed g
    → g.acted ≡ false
    → Ruled IsSettled Anything g (execute_claimed a)
execute_claimed-IsSettled a g c n =
    Ruled-try (λ h x. Claimed h) IsSettled (λ h e. Claimed h) Anything g
      (ask (execute_position_action a)) _ _
      (Ruled-call (λ q h x. Claimed h) (λ h e. Claimed h) g (execute_position_action a) (c, n)
        (λ x. c) (λ e. c))
      (λ h result c'.
        Ruled-try (λ h x. Claimed h × (h.settled ≡ true)) IsSettled (λ h e. Claimed h) Anything h _
          _ _ (completed-IsSettled a result h c') (λ h' x d. settled-kept h' d.1)
          (λ h' e c''. failure_outcome-IsSettled a (some result) e h' c''))
      (λ h e c'. failure_outcome-IsSettled a none e h c')

-- The cancellations, and the records of their outcome.
cancel_orders-Steady :
    (a : PositionActionIntent) (ids : List Text) (g : Ledger)
    → Claimed g
    → Steady Claimed g (cancel_orders a ids)
unfolding cancel_orders
cancel_orders-Steady a [] g c = c
cancel_orders-Steady a (id ∷ ids) g c =
    Ruled-ask (λ h x. Claimed h) (λ h e. Claimed h) g (cancel_order a.symbol id) _ c
      (λ x. cancel_orders-Steady a ids g c) (λ e. c)

await_cancelled-Steady :
    (a : PositionActionIntent) (targets : List Text) (more : ℕ) (g : Ledger)
    → Claimed g
    → Steady Claimed g (await_cancelled a targets more)
unfolding await_cancelled
await_cancelled-Steady a targets zero g c =
    Ruled-ask (λ h x. Claimed h) (λ h e. Claimed h) g account_state _ tt
      (λ state.
        Ruled-if (λ h x. Claimed h) (λ h e. Claimed h) g
          (any (owned_entry a targets) state.open_orders) (raise cancellation_unconfirmed)
          (return tt) (λ b. c) (λ b. c))
      (λ e. c)
await_cancelled-Steady a targets (suc more) g c =
    Ruled-ask (λ h x. Claimed h) (λ h e. Claimed h) g account_state _ tt
      (λ state.
        Ruled-if (λ h x. Claimed h) (λ h e. Claimed h) g
          (any (owned_entry a targets) state.open_orders) _ (return tt)
          (λ b.
            Ruled-ask (λ h x. Claimed h) (λ h e. Claimed h) g sleep _ tt
              (λ x. await_cancelled-Steady a targets more g c) (λ e. c))
          (λ b. c))
      (λ e. c)

cancel_owned-IsSettled :
    (a : PositionActionIntent) (targets : List Text) (g : Ledger)
    → Claimed g
    → Ruled (λ h x. Claimed h × (h.settled ≡ true)) (λ h e. Claimed h) g (cancel_owned a targets)
cancel_owned-IsSettled a targets g c =
    Ruled-ask (λ h x. Claimed h × (h.settled ≡ true)) (λ h e. Claimed h) g
      (record_entry_cancellation a targets false false none) _ c
      (λ x1.
        Ruled-ask (λ h x. Claimed h × (h.settled ≡ true)) (λ h e. Claimed h)
          (record g { settled = g.settled }) account_state _ tt
          (λ state.
            Ruled-then (λ h x. Claimed h) (λ h x. Claimed h × (h.settled ≡ true)) (λ h e. Claimed h)
              (record g { settled = g.settled }) _ _
              (cancel_orders-Steady a (owned_ids a targets state) (record g { settled = g.settled })
                c)
              (λ h2 x2 c2.
                Ruled-then (λ h x. Claimed h) (λ h x. Claimed h × (h.settled ≡ true))
                  (λ h e. Claimed h) h2 _ _ (await_cancelled-Steady a targets 19 h2 c2)
                  (λ h3 x3 c3.
                    Ruled-ask (λ h x. Claimed h × (h.settled ≡ true)) (λ h e. Claimed h) h3
                      account_state _ tt
                      (λ last.
                        Ruled-check (λ h x. Claimed h × (h.settled ≡ true)) (λ h e. Claimed h) h3
                          (raise_if (any (owned_entry a targets) last.open_orders)
                            cancellation_unconfirmed)
                          _
                          (λ x4 e4.
                            Ruled-ask (λ h x. Claimed h × (h.settled ≡ true)) (λ h e. Claimed h) h3
                              (record_entry_cancellation a targets true (has_no_position a last)
                                none)
                              _ c3 (λ x5. (c3, refl)) (λ e. c3))
                          (λ e. c3))
                      (λ e. c3))))
          (λ e. c))
      (λ e. c)

cancel_targets-IsSettled :
    (a : PositionActionIntent) (targets : List Text) (g : Ledger)
    → Claimed g
    → Ruled IsSettled Anything g (cancel_targets a targets)
cancel_targets-IsSettled a [] g c =
    Ruled-ask IsSettled Anything g (mark_position_action_failed a.action_id no_entries) _ c
      (λ x. settled-claim g.claimed) (λ e. tt)
cancel_targets-IsSettled a (id ∷ ids) g c =
    Ruled-try (λ h x. Claimed h × (h.settled ≡ true)) IsSettled (λ h e. Claimed h) Anything g
      (cancel_owned a (id ∷ ids)) _ _ (cancel_owned-IsSettled a (id ∷ ids) g c)
      (λ h x d. settled-kept h d.1)
      (λ h e c'.
        Ruled-ask IsSettled Anything h
          (record_entry_cancellation a (id ∷ ids) false false (some (uncertain_cancellation e))) _
          c' (λ x. settled-claim h.claimed) (λ e. tt))

executed-IsSettled :
    (a : PositionActionIntent) (g : Ledger)
    → Claimed g
    → g.acted ≡ false
    → Ruled IsSettled Anything g
        (if cancels a.action then cancel_source_entries a else execute_claimed a)
unfolding cancel_source_entries
executed-IsSettled a g c n =
    Ruled-if IsSettled Anything g (cancels a.action) (cancel_source_entries a) (execute_claimed a)
      (λ b.
        Ruled-ask IsSettled Anything g (entry_cancellation_targets a) _ tt
          (λ targets. cancel_targets-IsSettled a targets g c) (λ e. tt))
      (λ b. execute_claimed-IsSettled a g c n)

-- After `_claim_position_action`: the action is claimed, or there is an outcome.
abbrev IsClaimed : Ledger → Option PositionActionExecutionOutcome → Type 0
IsClaimed g none = Claimed g × (g.acted ≡ false)
IsClaimed g (some o) = IsSettled g o

claim_action-IsClaimed :
    (d : Deployment) (a : PositionActionIntent) (mode : ApprovalMode) (user : Option ℤ) (g : Ledger)
    → g.claimed ≡ false
    → g.acted ≡ false
    → Ruled IsClaimed Anything g (claim_action d a mode user)
unfolding claim_action
claim_action-IsClaimed d a mode user g n k =
    Ruled-ask IsClaimed Anything g now _ tt
      (λ time.
        Ruled-ask IsClaimed Anything g (claim_position_action a.action_id user mode) _ n
          (λ claimed.
            Ruled-if IsClaimed Anything (record g { claimed = claimed })
              (ltb (d.max_age_seconds * 1000000) (age a time)) _ _
              (λ b.
                Ruled-then IsSettled IsClaimed Anything (record g { claimed = claimed })
                  (mark_stale a (stale (age a time / 1000000)) claimed) _
                  (mark_stale-IsSettled (stale (age a time / 1000000)) claimed) (λ h x e. e))
              (λ b. claimed-or claimed))
          (λ e. tt))
      (λ e. tt)
  where
    mark_stale-IsSettled :
        (message : Message) (claimed : Bool)
        → Ruled IsSettled Anything (record g { claimed = claimed }) (mark_stale a message claimed)
    mark_stale-IsSettled message false = refl
    mark_stale-IsSettled message true =
        Ruled-call (λ q h x. IsSettled h x) Anything (record g { claimed = true })
          (mark_position_action_failed a.action_id message) refl (λ x. refl) (λ e. tt)

    claimed-or :
        (claimed : Bool)
        → Ruled IsClaimed Anything
            (record g { claimed = claimed })
            (if claimed
              then return none
              else (ask (get_position_action a.action_id) >>= λ current.
                  return (some (of_current a current))))
    claimed-or true = (refl, k)
    claimed-or false =
        Ruled-ask IsClaimed Anything (record g { claimed = false })
          (get_position_action a.action_id) _ tt (λ current. refl) (λ e. tt)

execute_locked_action-IsSettled :
    (d : Deployment) (a : PositionActionIntent) (mode : ApprovalMode) (user : Option ℤ)
    → Ruled IsSettled Anything untouched (execute_locked_action d a mode user)
unfolding execute_locked_action
execute_locked_action-IsSettled d a mode user =
    Ruled-then IsClaimed IsSettled Anything untouched (claim_action d a mode user) _
      (claim_action-IsClaimed d a mode user untouched refl refl)
      (λ h terminal c. concluded h terminal c)
  where
    concluded :
        (h : Ledger) (terminal : Option PositionActionExecutionOutcome)
        → IsClaimed h terminal
        → Ruled IsSettled Anything h (elim terminal [
          | some done ↦ return done
          | none ↦ if cancels a.action then cancel_source_entries a else execute_claimed a
        ])
    concluded h none (c, k) = executed-IsSettled a h c k
    concluded h (some o) c = c

-- Whatever the exchange and the store answer, the execution of a position action sends at most one
-- order to reduce or close, and sends it, cancels an entry or records an outcome only after the store
-- has granted it the claim of the action. If it returns and has the claim, the store has acknowledged
-- a record of the outcome: completed, failed, uncertain, or of the cancellation.
pub run_position_action-IsSettled :
    (d : Deployment) (id : Text) (mode : ApprovalMode) (user : Option ℤ)
    → Ruled IsSettled Anything untouched (run_position_action d id mode user)
unfolding run_position_action
run_position_action-IsSettled d id mode user =
    Ruled-ask IsSettled Anything untouched (get_position_action id) _ tt (λ found. run found)
      (λ e. tt)
  where
    run :
        (found : Option PositionActionIntent)
        → Ruled IsSettled Anything untouched (execute_found d mode user found)
    run none = refl
    run (some a) =
        Ruled-if IsSettled Anything untouched (status_is a.status IntentStatus.pending)
          (execute_locked_action d a mode user) _
          (λ b. execute_locked_action-IsSettled d a mode user) (λ b. refl)
