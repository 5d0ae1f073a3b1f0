-- ===== src/Supervisor/Install.antt =====
-- position_management/exit_installer.py: the protection and the exits of a position are installed.
use cautious_crypto_bro.Prelude.{
  Bool, true, false, not, ◌||◌, Option, none, some, [], ◌∷◌, if◌then◌else◌,
}
use cautious_crypto_bro.Prelude.Result.{Result, ok, err, raise_if}
use cautious_crypto_bro.Text.{Text}
use cautious_crypto_bro.Decimal.{Decimal, max, min}
use cautious_crypto_bro.Program.{return, raise, ◌>>=◌, ◌>>◌, ask, check}
use cautious_crypto_bro.Domain.Enums.{Side, long, short}
use cautious_crypto_bro.Domain.Policy.{InstrumentContext}
use cautious_crypto_bro.Domain.Plan.Defs.{ExecutionPlan}
use cautious_crypto_bro.Domain.Strategy.{PositionStrategy}
use cautious_crypto_bro.Domain.Account.{AccountPosition, AccountStateSummary}
use cautious_crypto_bro.Supervisor.Ports.{
  Fault, Task, clock, account_state, market_context, set_position_protection,
  place_reduce_only_exit, save_position_strategy, position_gone, exit_conflict, exit_unconfirmed,
}
use cautious_crypto_bro.Supervisor.Orders.{
  is_value, same_decimal?, or_value, or_option, find_position,
}
use cautious_crypto_bro.Supervisor.Trailing.{verify_protection, trailing_distance, protected_stop}
use cautious_crypto_bro.Supervisor.Fills.{Exits}
use cautious_crypto_bro.Supervisor.Targets.{planned_exits}
use cautious_crypto_bro.Supervisor.Handoff.{handoff_partial_stops}
use cautious_crypto_bro.Supervisor.Replacement.{
  find_existing_exit, is_the_exit, is_none, cancel_stale_exits,
}

-- `_save`, with the time of the call.
unfoldable pub save : PositionStrategy → Task (Unit {0})
save s = do now ← ask clock; ask (save_position_strategy (record s { updated_at = now }))

-- What `_resolve_protection` returns.
pub record Protection : Type 0 where
  pub context : InstrumentContext
  pub stop : Decimal
  pub trailing : Option Decimal

abbrev stricter_stop : Side → Decimal → Option Decimal → Decimal
stricter_stop side stop none = stop
stricter_stop long stop (some live) = max stop live
stricter_stop short stop (some live) = min stop live

abbrev pub new_trailing :
    ExecutionPlan → AccountPosition → InstrumentContext → Bool → Result Fault (Option Decimal)
new_trailing plan p c false = ok none
new_trailing plan p c true = some_of (trailing_distance plan p c)
  where
    some_of : Result Fault Decimal → Result Fault (Option Decimal)
    some_of (ok d) = ok (some d)
    some_of (err e) = err e

abbrev pub new_stop :
    PositionStrategy
    → ExecutionPlan
    → AccountPosition
    → InstrumentContext
    → Bool
    → Result Fault Decimal
new_stop s plan p c false = ok (or_value s.protected_stop_loss plan.stop_loss)
new_stop s plan p c true = protected_stop plan p c s.protected_stop_loss

-- `_resolve_protection`
unfoldable pub resolve_protection :
    PositionStrategy → ExecutionPlan → AccountPosition → Bool → Task Protection
resolve_protection s plan p enable = do
  c ← ask (market_context s.symbol)
  trailing ← check (new_trailing plan p c enable)
  stop ← check (new_stop s plan p c enable)
  return (record {
    context = c;
    stop = stricter_stop p.side stop p.stop_loss;
    trailing = if s.trailing_active then or_option s.trailing_distance trailing else trailing;
  })

-- `_save_installing_snapshot`
unfoldable pub save_installing_snapshot :
    PositionStrategy → AccountPosition → Protection → Bool → Task (Unit {0})
save_installing_snapshot s p protection enable = save (record s {
  installing_exits = true;
  protected_stop_loss = some protection.stop;
  trailing_active = enable || s.trailing_active;
  trailing_distance = protection.trailing;
  last_position_qty = some p.size;
  last_avg_price = some p.avg_price;
})

-- `_apply_protection`
unfoldable pub apply_protection : PositionStrategy → AccountPosition → Protection → Task (Unit {0})
apply_protection s p protection =
    if not (is_value p.stop_loss protection.stop)
      || not (same_decimal? p.trailing_stop protection.trailing)
    then ask (set_position_protection s.symbol protection.stop protection.trailing)
    else return tt

abbrev pub gone_or : Option AccountPosition → Task AccountPosition
gone_or none = raise position_gone
gone_or (some p) = return p

-- The account after an installation, read again, with the protection that it shows.
unfoldable pub protected_account :
    PositionStrategy → Protection → Task (AccountStateSummary × AccountPosition)
protected_account s protection = do
  account ← ask account_state
  found ← check (find_position s account)
  live ← gone_or found
  check (verify_protection live protection.stop protection.trailing)
  return (account, live)

-- `_confirm_protection_and_handoff`
unfoldable pub confirm_protection_and_handoff :
    PositionStrategy → ExecutionPlan → Protection → Bool → Task AccountStateSummary
confirm_protection_and_handoff s plan protection enable = do
  (account, live) ← protected_account s protection
  handoff_partial_stops
      (record s {
        protected_stop_loss = some protection.stop;
        trailing_active = enable;
        trailing_distance = protection.trailing;
      })
      plan live account

-- `_reconcile_or_place_exit`
unfoldable pub reconcile_or_place_exit :
    PositionStrategy
    → AccountPosition
    → AccountStateSummary
    → Text
    → Decimal
    → Decimal
    → Task (Unit {0})
reconcile_or_place_exit s p account link quantity price = do
  existing ← find_existing_exit s link account
  if is_none existing
      then ask (place_reduce_only_exit s.symbol p.side quantity price link)
      else check (raise_if (not (is_the_exit existing p.side quantity price)) exit_conflict)

-- `_install_take_profit_exits`
unfoldable pub install_take_profit_exits :
    PositionStrategy → AccountPosition → AccountStateSummary → Exits → Task (Unit {0})
install_take_profit_exits s p account [] = return tt
install_take_profit_exits s p account ((link, quantity, price) ∷ exits) =
    reconcile_or_place_exit s p account link quantity price
    >> install_take_profit_exits s p account exits

unfoldable pub confirm_exits :
    PositionStrategy → AccountPosition → AccountStateSummary → Exits → Task (Unit {0})
confirm_exits s p account [] = return tt
confirm_exits s p account ((link, quantity, price) ∷ exits) = do
  matches ← find_existing_exit s link account
  check (raise_if (not (is_the_exit matches p.side quantity price)) exit_unconfirmed)
  confirm_exits s p account exits

-- `_verify_installation`
unfoldable pub verify_installation :
    PositionStrategy → AccountPosition → Protection → Exits → Task AccountStateSummary
verify_installation s p protection exits = do
  (account, live) ← protected_account s protection
  confirm_exits s p account exits >> return account

-- What `install_structure` returns.
pub record Installed : Type 0 where
  pub account : AccountStateSummary
  pub stop : Decimal
  pub trailing : Option Decimal
  pub exits : Exits

-- The exits of an installation that was begun, or those of the plan.
abbrev pub exits_to_install :
    PositionStrategy
    → ExecutionPlan
    → AccountPosition
    → InstrumentContext
    → Bool
    → Option Exits
    → Result Fault Exits
exits_to_install s plan p c true (some exits) = ok exits
exits_to_install s plan p c _ _ = planned_exits s plan p c

-- `install_structure`, from the installing snapshot on.
unfoldable pub install_from :
    PositionStrategy
    → ExecutionPlan
    → AccountPosition
    → AccountStateSummary
    → Bool
    → Protection
    → Exits
    → Task Installed
install_from s plan p account enable protection exits = do
  save_installing_snapshot s p protection enable
  apply_protection s p protection
  cancel_stale_exits s account p
  handed ← confirm_protection_and_handoff s plan protection enable
  install_take_profit_exits s p account exits
  verified ← verify_installation s p protection exits
  return (record {
    account = verified;
    stop = protection.stop;
    trailing = protection.trailing;
    exits = exits;
  })

-- `install_structure`
unfoldable pub install_structure :
    PositionStrategy → ExecutionPlan → AccountPosition → AccountStateSummary → Bool → Task Installed
install_structure s plan p account enable = do
  protection ← resolve_protection s plan p enable
  exits ← check (exits_to_install s plan p protection.context s.installing_exits s.expected_exits)
  install_from (record s { expected_exits = some exits }) plan p account enable protection exits
