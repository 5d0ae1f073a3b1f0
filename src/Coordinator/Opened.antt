-- ===== src/Coordinator/Opened.antt =====
-- Entries: sent under a claim and a durable strategy, and their outcome is recorded.
use cautious_crypto_bro.Prelude.{
  ◌==◌, Bool, true, false, not, ◌≡◌, refl, inl, inr, Option, none, some, List, [], ◌∷◌,
  if◌then◌else◌, arith,
}
use cautious_crypto_bro.Prelude.Int.{ℤ}
use cautious_crypto_bro.Text.{Text}
use cautious_crypto_bro.Program.{return, ◌>>=◌, ◌>>◌, ask}
use cautious_crypto_bro.Domain.Enums.{ApprovalMode, IntentStatus, status_is, is_market}
use cautious_crypto_bro.Domain.Signal.{TradingIntent}
use cautious_crypto_bro.Domain.Plan.Defs.{PlannedOrder, ExecutionPlan}
use cautious_crypto_bro.Coordinator.Ports.{
  index_error, withdrawn, historical, get_intent, get_execution_plan, claim_for_execution,
  mark_failed, ensure_position_strategy, Deployment, IntentExecutionOutcome,
}
use cautious_crypto_bro.Coordinator.Opens.{
  outcome_of, Prepared, current_outcome, claim_prepared, prepare_plan, prepare_intent,
  prepare_execution, prepare_physical_primary, prepare_physical_remaining, execute_primary,
  rebase_on_fill, execute_remaining, execute_resting, attempted, execute_staged, execute_ordered,
  execute_claimed_intent, is_withdrawn, execute_prepared, execute_locked_intent,
}
use cautious_crypto_bro.Coordinator.Ledger.{
  Ledger, untouched, Ruled, Ruled-if, Ruled-ask, Ruled-call, Ruled-then, Ruled-try,
}
use cautious_crypto_bro.Coordinator.Stages.{
  NoMatter, IsConcluded, At, Unsent, Filled, fail_entry-IsConcluded, preflight-At,
  prepare_physical_primary-At, execute_primary-At, rebase_on_fill-At, prepare_physical_remaining-At,
  execute_remaining-At, execute_resting-At, done-IsConcluded,
}

module _ (d : Deployment) (id : Text) (i : TradingIntent) where
  -- The branches of an entry with a strategy.
  execute_staged-IsConcluded :
      (prepared : ExecutionPlan) (g : Ledger)
      → Unsent true g
      → Ruled IsConcluded NoMatter g (execute_staged d id i prepared)
  unfolding execute_staged
  execute_staged-IsConcluded prepared g a =
      Ruled-try (λ h x. Unsent true h) IsConcluded (λ h e. Unsent true h) NoMatter g
        (prepare_physical_primary d prepared) _ _ (prepare_physical_primary-At d id i prepared g a)
        (λ h plan b.
          Ruled-try (λ h x. Filled h) IsConcluded (λ h e. At true false h) NoMatter h
            (execute_primary plan) _ _ (execute_primary-At d id i plan h b)
            (λ h primary c.
              Ruled-try (λ h x. Filled h) IsConcluded (λ h e. Filled h) NoMatter h
                (rebase_on_fill plan primary) _ _ (rebase_on_fill-At d id i plan primary h c)
                (λ h rebased c.
                  Ruled-try (λ h x. Filled h) IsConcluded (λ h e. Filled h) NoMatter h
                    (prepare_physical_remaining d plan rebased primary) _ _
                    (prepare_physical_remaining-At d id i plan rebased primary h c)
                    (λ h effective c.
                      Ruled-try (λ h x. h.settled ≡ true) IsConcluded (λ h e. At true true h)
                        NoMatter h (execute_remaining d id plan effective primary) _ _
                        (execute_remaining-At d id i plan effective primary h c)
                        (λ h ids e. done-IsConcluded d id i effective ids h e)
                        (λ h e c.
                          fail_entry-IsConcluded d id i (attempted plan effective true true) e true
                            h c))
                    (λ h e c.
                      fail_entry-IsConcluded d id i (attempted plan rebased true true) e true h
                        c.0))
                (λ h e c.
                  fail_entry-IsConcluded d id i (attempted plan plan true true) e true h c.0))
            (λ h e c. fail_entry-IsConcluded d id i (attempted plan plan true false) e true h c))
        (λ h e c.
          fail_entry-IsConcluded d id i (attempted prepared prepared true false) e true h c.0)

  execute_ordered-IsConcluded :
      (plan : ExecutionPlan) (orders : List PlannedOrder) (g : Ledger)
      → Unsent true g
      → Ruled IsConcluded NoMatter g (execute_ordered d id i plan orders)
  execute_ordered-IsConcluded plan [] g a =
      fail_entry-IsConcluded d id i (attempted plan plan true false) index_error true g a.0
  execute_ordered-IsConcluded plan (o ∷ os) g a =
      Ruled-if IsConcluded NoMatter g (is_market o.order_type) (execute_staged d id i plan) _
        (λ b. execute_staged-IsConcluded plan g a)
        (λ b.
          Ruled-try (λ h x. h.settled ≡ true) IsConcluded (λ h e. At true false h) NoMatter g
            (execute_resting d id plan) _ _ (execute_resting-At d id i plan g a)
            (λ h ids e. done-IsConcluded d id i plan ids h e)
            (λ h e c. fail_entry-IsConcluded d id i (attempted plan plan true false) e true h c))

  execute_claimed_intent-IsConcluded :
      (mode : ApprovalMode) (plan : ExecutionPlan) (g : Ledger)
      → Unsent false g
      → Ruled IsConcluded NoMatter g (execute_claimed_intent d id mode i plan)
  unfolding execute_claimed_intent
  execute_claimed_intent-IsConcluded mode plan g a =
      Ruled-try (λ h x. Unsent false h) IsConcluded (λ h e. Unsent false h) NoMatter g _ _ _
        (preflight-At d id i plan mode g a)
        (λ h prepared b.
          Ruled-try (λ h x. Unsent true h) IsConcluded (λ h e. Unsent false h) NoMatter h
            (ask (ensure_position_strategy prepared)) _ _
            (Ruled-call (λ q h x. Unsent true h) (λ h e. Unsent false h) h
              (ensure_position_strategy prepared) tt (λ x. ((b.0.0, refl, b.0.2), b.1, b.2))
              (λ e. b))
            (λ h x c. execute_ordered-IsConcluded prepared prepared.orders h c)
            (λ h e c.
              fail_entry-IsConcluded d id i (attempted prepared prepared false false) e false h
                c.0))
        (λ h e c. fail_entry-IsConcluded d id i (attempted plan plan false false) e false h c.0)

-- After `_prepare_execution`: the intent is claimed, or there is an outcome.
abbrev IsPrepared : Ledger → Prepared → Type 0
IsPrepared g (inl o) = IsConcluded g o
IsPrepared g (inr x) = Unsent false g

claim_prepared-IsPrepared :
    (id : Text) (mode : ApprovalMode) (user : Option ℤ) (i : TradingIntent) (plan : ExecutionPlan)
    → Ruled IsPrepared NoMatter untouched (claim_prepared id mode user i plan)
claim_prepared-IsPrepared id mode user i plan =
    Ruled-ask IsPrepared NoMatter untouched (claim_for_execution id user mode) _ refl
      (λ claimed. granted claimed) (λ e. tt)
  where
    current :
        Ruled IsPrepared NoMatter untouched
          (ask (get_intent id) >>= λ found. return (inl (current_outcome i plan found)))
    current = Ruled-ask IsPrepared NoMatter untouched (get_intent id) _ tt (λ found. refl) (λ e. tt)

    claimed-now :
        Ruled IsPrepared NoMatter
          (record untouched { claimed = true })
          (if plan.strategy_version == 2
            then return (inr (i, plan))
            else (ask (mark_failed id (historical plan.strategy_version))
                >> return (
                    inl (
                      outcome_of IntentStatus.failed
                        (historical plan.strategy_version)
                        (some i)
                        (some plan)
                        []))))
    claimed-now =
        Ruled-if IsPrepared NoMatter (record untouched { claimed = true })
          (plan.strategy_version == 2) (return (inr (i, plan))) _
          (λ b. ((refl, refl, refl), refl, refl))
          (λ b.
            Ruled-ask IsPrepared NoMatter (record untouched { claimed = true })
              (mark_failed id (historical plan.strategy_version)) _ refl (λ x. refl) (λ e. tt))

    granted :
        (claimed : Bool)
        → Ruled IsPrepared NoMatter
            (record untouched { claimed = claimed })
            (if not claimed
              then (ask (get_intent id) >>= λ found. return (inl (current_outcome i plan found)))
              else if plan.strategy_version == 2
              then return (inr (i, plan))
              else (ask (mark_failed id (historical plan.strategy_version))
                  >> return (
                      inl (
                        outcome_of IntentStatus.failed
                          (historical plan.strategy_version)
                          (some i)
                          (some plan)
                          []))))
    granted true = claimed-now
    granted false = current

prepare_execution-IsPrepared :
    (id : Text) (mode : ApprovalMode) (user : Option ℤ)
    → Ruled IsPrepared NoMatter untouched (prepare_execution id mode user)
unfolding prepare_execution
prepare_execution-IsPrepared id mode user =
    Ruled-ask IsPrepared NoMatter untouched (get_intent id) _ tt (λ found. of_intent found)
      (λ e. tt)
  where
    of_plan :
        (i : TradingIntent) (plan : Option ExecutionPlan)
        → Ruled IsPrepared NoMatter untouched (prepare_plan id mode user i plan)
    of_plan i none = refl
    of_plan i (some plan) =
        Ruled-if IsPrepared NoMatter untouched (status_is i.status IntentStatus.pending)
          (claim_prepared id mode user i plan) _
          (λ b. claim_prepared-IsPrepared id mode user i plan) (λ b. refl)

    of_intent :
        (found : Option TradingIntent)
        → Ruled IsPrepared NoMatter untouched (prepare_intent id mode user found)
    of_intent none = refl
    of_intent (some i) =
        Ruled-ask IsPrepared NoMatter untouched (get_execution_plan id) _ tt
          (λ plan. of_plan i plan) (λ e. tt)

-- Whatever the exchange and the store answer, the execution of an intent sends entries, and records an
-- outcome, only after the store has granted it the claim of the intent, and sends entries only after
-- the store has acknowledged their strategy; it sends the first leg once at most, also where sending it
-- is answered by an error, and the others once at most and only after its fill, or all of them at once;
-- after that fill it never records the strategy as CLOSED. If it returns and has the claim, the store has
-- acknowledged a record of the outcome, or the outcome is SKIPPED, for the source had withdrawn it.
pub execute_locked_intent-IsConcluded :
    (d : Deployment) (id : Text) (mode : ApprovalMode) (user : Option ℤ)
    → Ruled IsConcluded NoMatter untouched (execute_locked_intent d id mode user)
unfolding execute_locked_intent
execute_locked_intent-IsConcluded d id mode user =
    Ruled-then IsPrepared IsConcluded NoMatter untouched (prepare_execution id mode user) _
      (prepare_execution-IsPrepared id mode user) (λ h prepared a. run h prepared a)
  where
    run :
        (h : Ledger) (prepared : Prepared)
        → IsPrepared h prepared
        → Ruled IsConcluded NoMatter h (execute_prepared d id mode prepared)
    run h (inl o) a = a
    run h (inr (i, plan)) a =
        Ruled-ask IsConcluded NoMatter h (get_intent id) _ tt
          (λ current.
            Ruled-if IsConcluded NoMatter h (is_withdrawn current) _
              (execute_claimed_intent d id mode i plan)
              (λ b.
                skipped h (outcome_of IntentStatus.skipped withdrawn current (some plan) []) refl)
              (λ b. execute_claimed_intent-IsConcluded d id i mode plan h a))
          (λ e. tt)
      where
        skipped :
            (g : Ledger) (o : IntentExecutionOutcome)
            → status_is o.status IntentStatus.skipped ≡ true
            → IsConcluded g o
        skipped g o e = ground arith
