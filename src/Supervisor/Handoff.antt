-- ===== src/Supervisor/Handoff.antt =====
-- position_management/exit_installer.py: partial stops give way to the full stop of the position.
use cautious_crypto_bro.Prelude.{
  ℕ, zero, suc, Bool, not, ◌&&◌, Option, none, some, is_some, List, [], ◌∷◌, any, if◌then◌else◌,
}
use cautious_crypto_bro.Prelude.Result.{raise_if}
use cautious_crypto_bro.Text.{Text, same_text}
use cautious_crypto_bro.Decimal.{Decimal}
use cautious_crypto_bro.Program.{return, ◌>>=◌, ◌>>◌, ask, check}
use cautious_crypto_bro.Domain.Plan.Defs.{ExecutionPlan}
use cautious_crypto_bro.Domain.Strategy.{PositionStrategy}
use cautious_crypto_bro.Domain.Account.{AccountPosition, AccountStateSummary}
use cautious_crypto_bro.Supervisor.Ports.{
  Task, account_state, set_position_protection, cancel_order, stop_differs, position_gone,
}
use cautious_crypto_bro.Supervisor.Orders.{is_value, or_value, find_position, partial_stops}
use cautious_crypto_bro.Supervisor.Trailing.{verify_protection}

abbrev pub trailing_of : PositionStrategy → Option Decimal
trailing_of s = if s.trailing_active then s.trailing_distance else none

-- A stop that is there and is another one.
abbrev pub other_stop : AccountPosition → Decimal → Bool
other_stop p stop = is_some p.stop_loss && not (is_value p.stop_loss stop)

-- What follows the loop of `_ensure_full_stop`.
abbrev pub stop_at_last :
    PositionStrategy
    → Decimal
    → AccountStateSummary
    → Option AccountPosition
    → Task AccountStateSummary
stop_at_last s stop account none = return account
stop_at_last s stop account (some p) =
    check (raise_if (other_stop p stop) stop_differs)
    >> check (verify_protection p stop (trailing_of s))
    >> return account

-- One round of the loop, with what comes after it.
abbrev pub stop_in_round :
    PositionStrategy
    → Decimal
    → AccountStateSummary
    → Task AccountStateSummary
    → Option AccountPosition
    → Task AccountStateSummary
stop_in_round s stop account rest none = return account
stop_in_round s stop account rest (some p) =
    if is_value p.stop_loss stop
    then (check (verify_protection p stop (trailing_of s)) >> return account)
    else (check (raise_if (is_some p.stop_loss) stop_differs)
        >> ask (set_position_protection s.symbol stop (trailing_of s))
        >> rest)

unfoldable pub ensure_rounds : PositionStrategy → Decimal → ℕ → Task AccountStateSummary
ensure_rounds s stop zero = do
  account ← ask account_state
  live ← check (find_position s account)
  stop_at_last s stop account live
ensure_rounds s stop (suc rounds) = do
  account ← ask account_state
  live ← check (find_position s account)
  stop_in_round s stop account (ensure_rounds s stop rounds) live

-- `_ensure_full_stop`
unfoldable pub ensure_full_stop : PositionStrategy → Decimal → Task AccountStateSummary
ensure_full_stop s stop = ensure_rounds s stop 2

abbrev pub one_of_texts : Text → List Text → Bool
one_of_texts t = any (same_text t)

abbrev pub next_stop :
    AccountStateSummary
    → Task AccountStateSummary
    → Option AccountPosition
    → Task AccountStateSummary
next_stop account rest none = return account
next_stop account rest (some p) = rest

-- The loop of `handoff_partial_stops`, with the account of the last look.
unfoldable pub cancel_partial_stops :
    PositionStrategy
    → ExecutionPlan
    → Decimal
    → AccountStateSummary
    → List Text
    → Task AccountStateSummary
cancel_partial_stops s plan stop account [] = return account
cancel_partial_stops s plan stop account (id ∷ ids) = do
  present ← check (partial_stops s plan account)
  if one_of_texts id present
      then (do
        ask (cancel_order s.symbol id)
        account' ← ensure_full_stop s stop
        live ← check (find_position s account')
        next_stop account' (cancel_partial_stops s plan stop account' ids) live)
      else cancel_partial_stops s plan stop account ids

abbrev pub hand_off :
    PositionStrategy
    → ExecutionPlan
    → AccountPosition
    → AccountStateSummary
    → Decimal
    → List Text
    → Task AccountStateSummary
hand_off s plan p account stop [] = return account
hand_off s plan p account stop (id ∷ ids) = do
  check (raise_if (other_stop p stop) stop_differs)
  account' ← ensure_full_stop s stop
  live ← check (find_position s account')
  check (raise_if (not (is_some live)) position_gone)
  cancel_partial_stops s plan stop account' (id ∷ ids)

-- `handoff_partial_stops`
unfoldable pub handoff_partial_stops :
    PositionStrategy
    → ExecutionPlan
    → AccountPosition
    → AccountStateSummary
    → Task AccountStateSummary
handoff_partial_stops s plan p account = do
  ids ← check (partial_stops s plan account)
  hand_off s plan p account (or_value s.protected_stop_loss plan.stop_loss) ids
