-- ===== src/Supervisor/Steps.antt =====
-- position_supervisor.py: the steps that end the supervision of a strategy, and the installations.
use cautious_crypto_bro.Prelude.{
  ◌+◌, Bool, true, false, not, ◌&&◌, ◌||◌, Option, none, some, is_some, List, map, select,
  if◌then◌else◌,
}
use cautious_crypto_bro.Prelude.Int.{leb_ℤ}
use cautious_crypto_bro.Prelude.Result.{raise_if}
use cautious_crypto_bro.Text.{Text, same_text}
use cautious_crypto_bro.Decimal.{Decimal}
use cautious_crypto_bro.Program.{return, ◌>>=◌, ◌>>◌, ask, check}
use cautious_crypto_bro.Domain.Enums.{
  StrategyStatus, closing, closed, open_risk, profit_protected, manual_override, strategy_is,
}
use cautious_crypto_bro.Domain.Plan.Defs.{ExecutionPlan}
use cautious_crypto_bro.Domain.Strategy.{PositionStrategy}
use cautious_crypto_bro.Domain.Account.{AccountPosition, AccountOrder, AccountStateSummary, kind}
use cautious_crypto_bro.Supervisor.Ports.{
  Task, account_state, cancel_pending_entries, entry_cancellation_unconfirmed, Reason, Settings,
}
use cautious_crypto_bro.Supervisor.Orders.{
  find_position, pending_entries, is_entry, live_r, or_value,
}
use cautious_crypto_bro.Supervisor.Fills.{drift_reason}
use cautious_crypto_bro.Supervisor.Handoff.{one_of_texts}
use cautious_crypto_bro.Supervisor.Replacement.{cancel_all, is_nil}
use cautious_crypto_bro.Supervisor.Install.{save, Installed, install_structure}

-- `_manual_override`
unfoldable pub override :
    Settings → PositionStrategy → AccountStateSummary → Reason → Task AccountStateSummary
override settings s account reason =
    save (record s {
      status = manual_override;
      pause_reason = some (settings.render reason);
      pause_notified = false;
    })
    >> return account

abbrev pub closed_if : PositionStrategy → AccountStateSummary → Bool → Task AccountStateSummary
closed_if s account true = save (record s { status = closed }) >> return account
closed_if s account false = return account

-- `_close_if_flat`
unfoldable pub close_if_flat : PositionStrategy → Task AccountStateSummary
close_if_flat s = do
  account ← ask account_state
  live ← check (find_position s account)
  closed_if s account (not (is_some live) && is_nil (pending_entries s account))

abbrev pub pending_ids : PositionStrategy → List Text → AccountStateSummary → List Text
pending_ids s links account =
    map (λ (o : AccountOrder). o.order_id)
      (select
        (λ (o : AccountOrder).
          same_text o.symbol s.symbol && is_entry (kind o) && one_of_texts o.order_link_id links)
        account.open_orders)

-- `_handle_missing_position`
unfoldable pub handle_missing_position :
    PositionStrategy → List Text → AccountStateSummary → Task AccountStateSummary
handle_missing_position s pending account =
    if is_some s.last_position_qty || strategy_is s.status closing
    then (cancel_all s (pending_ids s pending account) >> close_if_flat s)
    else return account

-- `_handle_closing`
unfoldable pub handle_closing :
    PositionStrategy → AccountStateSummary → Option AccountPosition → Task AccountStateSummary
handle_closing s account none = handle_missing_position s (pending_entries s account) account
handle_closing s account (some p) =
    save (record s { last_position_qty = some p.size; last_avg_price = some p.avg_price })
    >> return account

abbrev pub protected_status : Bool → StrategyStatus
protected_status trailing = if trailing then profit_protected else open_risk

-- The state with what was installed.
abbrev pub with_installed : PositionStrategy → Installed → PositionStrategy
with_installed s i = record s {
  protected_stop_loss = some i.stop;
  trailing_distance = i.trailing;
  expected_exits = some i.exits;
}

abbrev pub at_snapshot : AccountPosition → PositionStrategy → AccountPosition
at_snapshot p s = record p {
  size = or_value s.last_position_qty p.size;
  avg_price = or_value s.last_avg_price p.avg_price;
}

abbrev pub resume_exits :
    Settings
    → PositionStrategy
    → ExecutionPlan
    → AccountStateSummary
    → AccountPosition
    → Option Reason
    → Task AccountStateSummary
resume_exits settings s plan account p (some reason) = override settings s account reason
resume_exits settings s plan account p none = do
  installed ← install_structure s plan (at_snapshot p s) account s.trailing_active
  save (record (with_installed s installed) {
    installing_exits = false;
    status = protected_status s.trailing_active;
  })
  return installed.account

-- `_handle_installing_exits`
unfoldable pub handle_installing_exits :
    Settings
    → PositionStrategy
    → ExecutionPlan
    → AccountStateSummary
    → AccountPosition
    → Task AccountStateSummary
handle_installing_exits settings s plan account p = do
  drift ← drift_reason s account
  resume_exits settings s plan account p drift

-- `_continue_accumulation`
unfoldable pub continue_accumulation :
    PositionStrategy
    → ExecutionPlan
    → AccountPosition
    → AccountStateSummary
    → Bool
    → Task AccountStateSummary
continue_accumulation s plan p account false = save s >> return account
continue_accumulation s plan p account true = do
  let next : PositionStrategy = record s { exit_revision = s.exit_revision + 1 }
  installed ← install_structure next plan p account false
  save (with_installed next installed)
  return installed.account

-- A round of the loop of `_freeze_entries`.
abbrev pub entries_gone : PositionStrategy → Task AccountStateSummary
entries_gone s = do
  account ← ask account_state
  check (raise_if (not (is_nil (pending_entries s account))) entry_cancellation_unconfirmed)
  return account

-- The state that a frozen or rebalanced position is installed with.
abbrev pub resized : PositionStrategy → AccountPosition → PositionStrategy
resized s p = record s {
  base_position_qty = some p.size;
  last_position_qty = some p.size;
  last_avg_price = some p.avg_price;
  exit_revision = s.exit_revision + 1;
  rebalance_needed = false;
}

abbrev pub reaches_activation : ExecutionPlan → Decimal → Bool
reaches_activation plan r = leb_ℤ plan.policy.strategy_v2.trailing_activation_r r

-- The exits of a resized state, and the state that is saved with them.
unfoldable pub install_resized :
    PositionStrategy
    → ExecutionPlan
    → AccountPosition
    → AccountStateSummary
    → Bool
    → Task AccountStateSummary
install_resized s plan p account trailing = do
  installed ← install_structure s plan p account trailing
  save (record (with_installed s installed) {
    status = protected_status trailing;
    trailing_active = trailing;
  })
  return installed.account

abbrev pub frozen :
    PositionStrategy
    → ExecutionPlan
    → AccountStateSummary
    → Option AccountPosition
    → Task AccountStateSummary
frozen s plan account none = close_if_flat s
frozen s plan account (some p) = do
  r ← check (live_r p plan.stop_loss)
  install_resized (record (resized s p) { entry_frozen = true }) plan p account
      (reaches_activation plan r)

-- `_freeze_entries`
unfoldable pub freeze_entries : PositionStrategy → ExecutionPlan → Bool → Task AccountStateSummary
freeze_entries s plan cancel_pending = do
  if cancel_pending then ask (cancel_pending_entries s.symbol) else return tt
  first ← entries_gone s
  account ← entries_gone s
  live ← check (find_position s account)
  frozen s plan account live

abbrev pub rebalanced :
    PositionStrategy
    → ExecutionPlan
    → AccountStateSummary
    → Option AccountPosition
    → Task AccountStateSummary
rebalanced s plan account none = close_if_flat s
rebalanced s plan account (some p) = do
  r ← check (live_r p plan.stop_loss)
  install_resized (resized s p) plan p account (s.trailing_active || reaches_activation plan r)

-- `_handle_rebalance`
unfoldable pub handle_rebalance : PositionStrategy → ExecutionPlan → Task AccountStateSummary
handle_rebalance s plan = do
  account ← ask account_state
  live ← check (find_position s account)
  rebalanced s plan account live
