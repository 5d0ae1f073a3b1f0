-- ===== src/Supervisor/Reconcile.antt =====
-- position_supervisor.py: the supervision of one strategy with its position.
use cautious_crypto_bro.Prelude.{
  ℕ, zero, suc, not, ◌&&◌, Option, none, some, is_some, List, [], ◌∷◌, if◌then◌else◌,
}
use cautious_crypto_bro.Prelude.Int.{pos, leb_ℤ}
use cautious_crypto_bro.Text.{Text}
use cautious_crypto_bro.Decimal.{sub, abs}
use cautious_crypto_bro.Program.{return, raise, ◌>>=◌, check}
use cautious_crypto_bro.Domain.Enums.{closing, strategy_is, side_is}
use cautious_crypto_bro.Domain.Plan.Defs.{ExecutionPlan}
use cautious_crypto_bro.Domain.Strategy.{PositionStrategy}
use cautious_crypto_bro.Domain.Account.{AccountPosition, AccountStateSummary}
use cautious_crypto_bro.Supervisor.Ports.{
  Task, out_of_fuel, Reason, side_mismatch, take_profit_outside, trailing_outside, invalid_stop,
  Settings,
}
use cautious_crypto_bro.Supervisor.Orders.{find_position, pending_entries, partial_stops}
use cautious_crypto_bro.Supervisor.Fills.{drift_reason}
use cautious_crypto_bro.Supervisor.Drift.{manual_override_reason}
use cautious_crypto_bro.Supervisor.Handoff.{handoff_partial_stops}
use cautious_crypto_bro.Supervisor.Steps.{
  override, handle_closing, handle_missing_position, handle_installing_exits,
}
use cautious_crypto_bro.Supervisor.Expiry.{handle_expired_entries}
use cautious_crypto_bro.Supervisor.Live.{Again, frozen_at, reconcile_live_position}

-- The checks of `_blocked_reconcile_outcome` on a position.
unfoldable pub blocking_reason : PositionStrategy → ExecutionPlan → AccountPosition → Option Reason
blocking_reason s plan p =
    if not (side_is p.side s.side)
    then some side_mismatch
    else if is_some p.take_profit
    then some take_profit_outside
    else if not s.trailing_active && is_some p.trailing_stop
    then some trailing_outside
    else if leb_ℤ (abs (sub p.avg_price plan.stop_loss)) (pos 0)
    then some invalid_stop
    else none

-- The branch of `_blocked_reconcile_outcome` without a position.
abbrev pub without_position :
    Settings → PositionStrategy → ExecutionPlan → AccountStateSummary → Task AccountStateSummary
without_position settings s plan account = do
  (account', expiry_handled) ← handle_expired_entries settings s plan account
  if expiry_handled
      then return account'
      else handle_missing_position s (pending_entries s account) account'

-- `_reconcile_live_position`, of the state and its plan.
abbrev pub Managed : Type 0
Managed = AccountStateSummary → AccountPosition → Task AccountStateSummary

-- The part of `_reconcile` that follows the drift checks.
abbrev pub after_drift :
    Settings
    → Managed
    → PositionStrategy
    → ExecutionPlan
    → AccountStateSummary
    → Task AccountStateSummary
after_drift settings manage s plan account = do
  (account', expiry_handled) ← handle_expired_entries settings s plan account
  live ← check (find_position s account')
  elim live [
    | none ↦ return account'
    | some p ↦ if expiry_handled then return account' else manage account' p
  ]

abbrev pub unless_drifted :
    Settings
    → PositionStrategy
    → AccountStateSummary
    → Task AccountStateSummary
    → Option Reason
    → Task AccountStateSummary
unless_drifted settings s account rest none = rest
unless_drifted settings s account rest (some reason) = override settings s account reason

unfoldable pub check_drift :
    Settings
    → PositionStrategy
    → AccountStateSummary
    → Task AccountStateSummary
    → Task AccountStateSummary
check_drift settings s account rest = do
  drift ← drift_reason s account
  unless_drifted settings s account rest drift

-- The handoff of partial stops that an interrupted installation left.
abbrev pub finish_handoff :
    Settings
    → Managed
    → PositionStrategy
    → ExecutionPlan
    → AccountStateSummary
    → AccountPosition
    → Task AccountStateSummary
finish_handoff settings manage s plan account p = do
  account' ← handoff_partial_stops s plan p account
  live ← check (find_position s account')
  elim live [
    | none ↦ return account'
    | some p' ↦ check_drift settings s account' (after_drift settings manage s plan account')
  ]

abbrev pub watched :
    Settings
    → Managed
    → PositionStrategy
    → ExecutionPlan
    → AccountStateSummary
    → AccountPosition
    → List Text
    → Task AccountStateSummary
watched settings manage s plan account p [] =
    check_drift settings s account (after_drift settings manage s plan account)
watched settings manage s plan account p (id ∷ ids) =
    let handoff = finish_handoff settings manage s plan account p in
    if is_some s.expected_exits then check_drift settings s account handoff else handoff

-- `_reconcile` of a position that is not blocked.
unfoldable pub reconcile_unblocked :
    Settings
    → Managed
    → PositionStrategy
    → ExecutionPlan
    → AccountStateSummary
    → AccountPosition
    → Task AccountStateSummary
reconcile_unblocked settings manage s plan account p =
    if s.installing_exits then handle_installing_exits settings s plan account p else do
      reason ← check (manual_override_reason s plan account p)
      stops ← check (partial_stops s plan account)
      unless_drifted settings s account (watched settings manage s plan account p stops) reason

abbrev pub of_position :
    Settings
    → Managed
    → PositionStrategy
    → ExecutionPlan
    → AccountStateSummary
    → Option AccountPosition
    → Task AccountStateSummary
of_position settings manage s plan account none = without_position settings s plan account
of_position settings manage s plan account (some p) =
    unless_drifted settings s account (reconcile_unblocked settings manage s plan account p)
      (blocking_reason s plan p)

-- `_reconcile`, with the management of a live position.
unfoldable pub reconcile_with :
    Settings
    → Managed
    → PositionStrategy
    → ExecutionPlan
    → AccountStateSummary
    → Task AccountStateSummary
reconcile_with settings manage s plan account = do
  live ← check (find_position s account)
  if strategy_is s.status closing
      then handle_closing s account live
      else of_position settings manage s plan account live

-- `_reconcile`, with the call of itself in `_reconcile_after_fixed_exit`.
unfoldable pub reconcile_again :
    Settings
    → Again
    → PositionStrategy
    → ExecutionPlan
    → AccountStateSummary
    → Task AccountStateSummary
reconcile_again settings again s plan account =
    reconcile_with settings (reconcile_live_position again s plan) s plan account

-- `fuel` bounds the calls of `_reconcile` in itself.
unfoldable pub reconcile :
    Settings → ExecutionPlan → ℕ → PositionStrategy → AccountStateSummary → Task AccountStateSummary
reconcile settings plan zero s account = raise out_of_fuel
reconcile settings plan (suc fuel) s account =
    reconcile_again settings
      (λ s' p account'. reconcile settings plan fuel (frozen_at s' p) account') s plan account

-- The fuel that the supervisor runs with.
abbrev pub fuel : ℕ
fuel = 2
