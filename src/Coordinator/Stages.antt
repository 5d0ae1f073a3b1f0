-- ===== src/Coordinator/Stages.antt =====
-- The stages of an entry: what each asks for, and what is known where it returns or raises.
use cautious_crypto_bro.Prelude.{
  Bool, true, false, not, ◌&&◌, ◌||◌, ◌≡◌, refl, none, some, List, [], if◌then◌else◌, arith,
}
use cautious_crypto_bro.Prelude.Result.{raise_if}
use cautious_crypto_bro.Text.{Text}
use cautious_crypto_bro.Program.{return, raise, ◌>>◌, ask, attempt}
use cautious_crypto_bro.Program.Safe.{Safe-attempt}
use cautious_crypto_bro.Domain.Enums.{ApprovalMode, IntentStatus, status_is, StrategyStatus}
use cautious_crypto_bro.Domain.Signal.{TradingIntent}
use cautious_crypto_bro.Domain.Plan.Defs.{ExecutionPlan}
use cautious_crypto_bro.Coordinator.Ports.{
  MarketPrimaryExecutionResult, Failure, preflight_port, geometry_changed, primary_evidence_missing,
  symbol_owned, executed, failed, account_state, get_active_position_strategies, mark_executed,
  record_entry_failure, update_execution_plan, prepare_entry_plan, prepare_market_primary,
  prepare_remaining_entries, execute, execute_remaining_entries, execute_market_primary,
  execute_prepared_market_primary, market_context, register_zone, Deployment,
  IntentExecutionOutcome,
}
use cautious_crypto_bro.Coordinator.Preflight.{is_nonempty, owns_symbol}
use cautious_crypto_bro.Coordinator.Zones.{recover_bindings, enroll_executed_zone}
use cautious_crypto_bro.Coordinator.Opens.{
  assert_open_preflight, outcome_of, is_entry_preflight, Attempted, failed_status, fail_entry,
  changes_geometry, prepare_entry, register, prepare_physical_primary, for_allocation, merged_plan,
  merge_primary, prepare_physical_remaining, execute_primary, rebase_on_fill, finish,
  execute_remaining, execute_resting, done,
}
use cautious_crypto_bro.Coordinator.Ledger.{
  Ledger, after, kept, is_closed, Rule, Ruled, Steady, Ruled-if, Ruled-ask, Ruled-call,
  Ruled-result, Ruled-then,
}
use cautious_crypto_bro.Coordinator.Evidence.{
  neutral-then, neutral-check, neutral-if, register-Keeps, enroll_executed_zone-Keeps,
  recover_bindings-Keeps,
}

abbrev pub NoMatter : Ledger → Failure → Type 0
NoMatter g e = Unit

-- A claim that was taken has a recorded outcome, or the source had withdrawn the entry.
abbrev pub IsConcluded : Ledger → IntentExecutionOutcome → Type 0
IsConcluded g o = kept g.claimed (g.settled || status_is o.status IntentStatus.skipped) ≡ true

-- A claimed entry, by whether it has a strategy and whether its first leg is filled.
abbrev pub At : Bool → Bool → Ledger → Type 0
At created filled g = (g.claimed ≡ true) × (g.strategy ≡ created) × (g.filled ≡ filled)

-- A claimed entry of which nothing was sent.
abbrev pub Unsent : Bool → Ledger → Type 0
Unsent created g = At created false g × (g.sent ≡ false) × (g.rest ≡ false)

-- A claimed entry of which only the first leg was sent, and is filled.
abbrev pub Filled : Ledger → Type 0
Filled g = At true true g × (g.rest ≡ false)

concluded : (g : Ledger) (o : IntentExecutionOutcome) → g.settled ≡ true → IsConcluded g o
concluded g o h = ground arith

-- A strategy is only closed where no leg was filled.
failed_status-kept :
    (t : Attempted) (e : Failure)
    → kept (is_closed (failed_status t e)) (not t.primary_filled) ≡ true
unfolding failed_status
failed_status-kept t e = by_cases t.strategy_created (is_entry_preflight e) t.primary_filled
  where
    by_cases :
        (created preflight filled : Bool)
        → kept
            (is_closed (
              if created
              then some (
                  if preflight && not filled
                  then StrategyStatus.closed
                  else StrategyStatus.uncertain)
              else none))
            (not filled)
          ≡ true
    by_cases created preflight filled = ground arith

module _ (d : Deployment) (id : Text) (i : TradingIntent) where
  pub fail_entry-IsConcluded :
      (t : Attempted) (e : Failure) (created : Bool) (g : Ledger)
      → At created t.primary_filled g
      → Ruled IsConcluded NoMatter g (fail_entry d id i t e)
  unfolding fail_entry
  fail_entry-IsConcluded t e created g a =
      Ruled-then (λ h x. At created t.primary_filled h) IsConcluded NoMatter g
        (if is_nonempty t.plan.entry_slices && t.strategy_created
          then recover_bindings d t.effective_plan
          else return tt)
        _
        (Ruled-if (λ h x. At created t.primary_filled h) NoMatter g
          (is_nonempty t.plan.entry_slices && t.strategy_created)
          (recover_bindings d t.effective_plan) (return tt)
          (λ b.
            recover_bindings-Keeps (At created t.primary_filled) d t.effective_plan NoMatter g a)
          (λ b. a))
        (λ h x b.
          Ruled-ask IsConcluded NoMatter h (record_entry_failure id (failed e) (failed_status t e))
            _ (b.0, rw b.2 (failed_status-kept t e))
            (λ y.
              concluded (record h { settled = true })
                (outcome_of IntentStatus.failed (failed e) (some i) (some t.effective_plan) [])
                refl)
            (λ e. tt))

  -- The claimed entry before it has a strategy.
  prepare_entry-At :
      (plan : ExecutionPlan) (g : Ledger)
      → Unsent false g
      → Steady (Unsent false) g (prepare_entry d plan)
  prepare_entry-At plan g a =
      Ruled-ask (λ h x. Unsent false h) (λ h e. Unsent false h) g (prepare_entry_plan plan) _ a.0.0
        (λ prepared.
          neutral-check (Unsent false) g
            (raise_if (changes_geometry d plan prepared) geometry_changed) _ a
            (λ x.
              neutral-then (Unsent false) g
                (if d.same_plan prepared plan
                  then return tt
                  else ask (update_execution_plan prepared))
                _
                (neutral-if (Unsent false) g (d.same_plan prepared plan) (return tt)
                  (ask (update_execution_plan prepared)) a
                  (Ruled-call (λ q h x. Unsent false h) (λ h e. Unsent false h) g
                    (update_execution_plan prepared) tt (λ x. a) (λ e. a)))
                (λ h x b. b)))
        (λ e. a)

  pub preflight-At :
      (plan : ExecutionPlan) (mode : ApprovalMode) (g : Ledger)
      → Unsent false g
      → Steady (Unsent false) g (assert_open_preflight d i plan mode >> prepare_entry d plan)
  unfolding assert_open_preflight
  preflight-At plan mode g a =
      neutral-then (Unsent false) g (assert_open_preflight d i plan mode) _
        (Ruled-ask (λ h x. Unsent false h) (λ h e. Unsent false h) g get_active_position_strategies
          _ tt
          (λ active.
            neutral-check (Unsent false) g (raise_if (owns_symbol plan.symbol active) symbol_owned)
              _ a
              (λ x.
                Ruled-ask (λ h x. Unsent false h) (λ h e. Unsent false h) g account_state _ tt
                  (λ state.
                    Ruled-result (λ h x. Unsent false h) (λ h e. Unsent false h) g _ (λ x. a)
                      (λ e. a))
                  (λ e. a)))
          (λ e. a))
        (λ h x b. prepare_entry-At plan h b)

  -- The first leg, which is sent once.
  pub prepare_physical_primary-At :
      (plan : ExecutionPlan) (g : Ledger)
      → Unsent true g
      → Steady (Unsent true) g (prepare_physical_primary d plan)
  unfolding prepare_physical_primary
  prepare_physical_primary-At plan g a =
      neutral-if (Unsent true) g (not (is_nonempty plan.entry_slices)) (return plan) _ a (
        neutral-then (Unsent true) g
          (attempt (ask (prepare_market_primary plan)) (λ e. raise (preflight_port e))) _
          (Safe-attempt Rule after (λ h x. Unsent true h) (λ h e. Unsent true h) g
            (ask (prepare_market_primary plan)) (λ e. raise (preflight_port e))
            (Ruled-call (λ q h x. Unsent true h) (λ h e. Unsent true h) g
              (prepare_market_primary plan) a.0.0 (λ x. a) (λ e. a)))
          (λ h prepared b.
            Ruled-ask (λ h x. Unsent true h) (λ h e. Unsent true h) h
              (update_execution_plan prepared) _ tt
              (λ x.
                neutral-then (Unsent true) h
                  (if is_nonempty prepared.entry_slices then register d prepared else return tt) _
                  (neutral-if (Unsent true) h (is_nonempty prepared.entry_slices)
                    (register d prepared) (return tt)
                    (register-Keeps (Unsent true) (d.zone_group_id prepared.symbol prepared.side)
                      prepared.intent_id h b)
                    b)
                  (λ h' y c. c))
              (λ e. b)))

  pub execute_primary-At :
      (plan : ExecutionPlan) (g : Ledger)
      → Unsent true g
      → Ruled (λ h x. Filled h) (λ h e. At true false h) g (execute_primary plan)
  execute_primary-At plan g a =
      Ruled-if (λ h x. Filled h) (λ h e. At true false h) g (is_nonempty plan.entry_slices)
        (ask (execute_prepared_market_primary plan)) (ask (execute_market_primary plan))
        (λ b.
          Ruled-call (λ q h x. Filled h) (λ h e. At true false h) g
            (execute_prepared_market_primary plan) (a.0.0, a.0.1, a.1)
            (λ x. ((a.0.0, a.0.1, refl), a.2)) (λ e. a.0))
        (λ b.
          Ruled-call (λ q h x. Filled h) (λ h e. At true false h) g (execute_market_primary plan)
            (a.0.0, a.0.1, a.1) (λ x. ((a.0.0, a.0.1, refl), a.2)) (λ e. a.0))

  pub rebase_on_fill-At :
      (plan : ExecutionPlan) (primary : MarketPrimaryExecutionResult) (g : Ledger)
      → Filled g
      → Steady Filled g (rebase_on_fill plan primary)
  rebase_on_fill-At plan primary g a =
      Ruled-ask (λ h x. Filled h) (λ h e. Filled h) g (market_context plan.symbol) _ tt
        (λ c. Ruled-result (λ h x. Filled h) (λ h e. Filled h) g _ (λ x. a) (λ e. a)) (λ e. a)

  merge_primary-At :
      (primary : MarketPrimaryExecutionResult) (allocated : ExecutionPlan) (g : Ledger)
      → Filled g
      → Steady Filled g (merge_primary d primary allocated)
  merge_primary-At primary allocated g a =
      neutral-check Filled g
        (raise_if (not (is_nonempty primary.entry_slices)) primary_evidence_missing) _ a
        (λ x. neutral-check Filled g (merged_plan primary allocated) _ a (λ merged.
          Ruled-ask (λ h x. Filled h) (λ h e. Filled h) g (update_execution_plan merged) _ tt
            (λ y.
              neutral-then Filled g (register d merged) _
                (register-Keeps Filled (d.zone_group_id merged.symbol merged.side) merged.intent_id
                  g a)
                (λ h z b. b))
            (λ e. a)))

  pub prepare_physical_remaining-At :
      (submitted rebased : ExecutionPlan) (primary : MarketPrimaryExecutionResult) (g : Ledger)
      → Filled g
      → Steady Filled g (prepare_physical_remaining d submitted rebased primary)
  unfolding prepare_physical_remaining
  prepare_physical_remaining-At submitted rebased primary g a =
      Ruled-ask (λ h x. Filled h) (λ h e. Filled h) g
        (prepare_remaining_entries (for_allocation submitted rebased primary)) _ a.0.0
        (λ allocated.
          neutral-if Filled g
            (is_nonempty allocated.entry_slices && not (is_nonempty submitted.entry_slices))
            (merge_primary d primary allocated) (return allocated)
            (merge_primary-At primary allocated g a) a)
        (λ e. a)

  -- The record of an executed entry, after which nothing is raised.
  finish-At :
      (filled : Bool) (plan effective : ExecutionPlan) (ids : List Text) (g : Ledger)
      → At true filled g
      → Ruled (λ h x. h.settled ≡ true) (λ h e. At true filled h) g (finish d id plan effective ids)
  finish-At filled plan effective ids g a =
      Ruled-ask (λ h x. h.settled ≡ true) (λ h e. At true filled h) g (mark_executed id ids) _ a.0
        (λ x.
          Ruled-then (λ h y. h.settled ≡ true) (λ h y. h.settled ≡ true) (λ h e. At true filled h)
            (record g { settled = true })
            (enroll_executed_zone d effective ids (is_nonempty plan.entry_slices)) _
            (enroll_executed_zone-Keeps (λ h. h.settled ≡ true) d effective ids
              (is_nonempty plan.entry_slices) (λ h e. At true filled h)
              (record g { settled = true }) refl)
            (λ h y b. b))
        (λ e. a)

  pub execute_remaining-At :
      (plan effective : ExecutionPlan) (primary : MarketPrimaryExecutionResult) (g : Ledger)
      → Filled g
      → Ruled
          (λ h x. h.settled ≡ true)
          (λ h e. At true true h)
          g
          (execute_remaining d id plan effective primary)
  execute_remaining-At plan effective primary g a =
      Ruled-ask (λ h x. h.settled ≡ true) (λ h e. At true true h) g
        (update_execution_plan effective) _ tt
        (λ x.
          Ruled-ask (λ h x. h.settled ≡ true) (λ h e. At true true h) g
            (execute_remaining_entries effective) _ (a.0.0, a.0.1, a.0.2, a.1)
            (λ remaining. finish-At true plan effective _ (record g { rest = true }) a.0)
            (λ e. a.0))
        (λ e. a.0)

  pub execute_resting-At :
      (plan : ExecutionPlan) (g : Ledger)
      → Unsent true g
      → Ruled (λ h x. h.settled ≡ true) (λ h e. At true false h) g (execute_resting d id plan)
  execute_resting-At plan g a =
      Ruled-then (λ h x. Unsent true h) (λ h x. h.settled ≡ true) (λ h e. At true false h) g
        (if is_nonempty plan.entry_slices then register d plan else return tt) _
        (Ruled-if (λ h x. Unsent true h) (λ h e. At true false h) g (is_nonempty plan.entry_slices)
          (register d plan) (return tt)
          (λ b.
            Ruled-call (λ q h x. Unsent true h) (λ h e. At true false h) g
              (register_zone (d.zone_group_id plan.symbol plan.side) plan.intent_id) tt (λ x. a)
              (λ e. a.0))
          (λ b. a))
        (λ h x b.
          Ruled-ask (λ h x. h.settled ≡ true) (λ h e. At true false h) h (execute plan) _
            (b.0.0, b.0.1, b.1, b.2)
            (λ ids. finish-At false plan plan ids (record h { sent = true; rest = true }) b.0)
            (λ e. b.0))

  pub done-IsConcluded :
      (effective : ExecutionPlan) (ids : List Text) (g : Ledger)
      → g.settled ≡ true
      → Ruled IsConcluded NoMatter g (done i effective ids)
  done-IsConcluded effective ids g e =
      concluded g (outcome_of IntentStatus.executed executed (some i) (some effective) ids) e
