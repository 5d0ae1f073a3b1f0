-- ===== src/Supervisor/Live.antt =====
-- position_supervisor.py: a live position is built up, frozen, rebalanced or trailed.
use cautious_crypto_bro.Prelude.{
  ◌==◌, Bool, true, false, not, ◌&&◌, ◌||◌, Option, none, some, if◌then◌else◌,
}
use cautious_crypto_bro.Prelude.Int.{pos, ltb_ℤ}
use cautious_crypto_bro.Decimal.{Decimal, max}
use cautious_crypto_bro.Program.{return, ◌>>=◌, ◌>>◌, ask, check}
use cautious_crypto_bro.Domain.Enums.{open_risk, profit_protected}
use cautious_crypto_bro.Domain.Plan.Defs.{ExecutionPlan}
use cautious_crypto_bro.Domain.Strategy.{PositionStrategy}
use cautious_crypto_bro.Domain.Account.{AccountPosition, AccountStateSummary}
use cautious_crypto_bro.Supervisor.Ports.{
  Task, account_state, cancel_pending_entries, market_context, set_position_protection,
}
use cautious_crypto_bro.Supervisor.Orders.{find_position, live_r, or_value}
use cautious_crypto_bro.Supervisor.Fills.{detect}
use cautious_crypto_bro.Supervisor.Trailing.{verify_protection, trailing_distance, protected_stop}
use cautious_crypto_bro.Supervisor.Install.{save}
use cautious_crypto_bro.Supervisor.Steps.{
  close_if_flat, continue_accumulation, freeze_entries, handle_rebalance, reaches_activation,
}

-- `_reconcile` again, of a state that is frozen at the position.
abbrev pub Again : Type 0
Again = PositionStrategy → AccountPosition → AccountStateSummary → Task AccountStateSummary

abbrev pub frozen_at : PositionStrategy → AccountPosition → PositionStrategy
frozen_at s p = record s {
  entry_frozen = true;
  last_position_qty = some p.size;
  last_avg_price = some p.avg_price;
}

abbrev pub refrozen :
    Again
    → PositionStrategy
    → AccountStateSummary
    → Option AccountPosition
    → Task AccountStateSummary
refrozen again s account none = close_if_flat s
refrozen again s account (some p) = save (frozen_at s p) >> again s p account

-- `_reconcile_after_fixed_exit`
unfoldable pub reconcile_after_fixed_exit : Again → PositionStrategy → Task AccountStateSummary
reconcile_after_fixed_exit again s = do
  ask (cancel_pending_entries s.symbol)
  account ← ask account_state
  live ← check (find_position s account)
  refrozen again s account live

abbrev pub grew : Option Decimal → Decimal → Bool
grew none size = false
grew (some previous) size = ltb_ℤ previous size

-- The state while entries fill.
abbrev pub building : PositionStrategy → AccountPosition → PositionStrategy
building s p = record s {
  status = open_risk;
  base_position_qty = some (max (or_value s.base_position_qty (pos 0)) p.size);
  last_position_qty = some p.size;
  last_avg_price = some p.avg_price;
}

-- `_handle_entry_building`
unfoldable pub handle_entry_building :
    Again
    → PositionStrategy
    → ExecutionPlan
    → AccountStateSummary
    → AccountPosition
    → Decimal
    → Task AccountStateSummary
handle_entry_building again s plan account p r = do
  (s', filled) ← detect s account
  if filled
      then reconcile_after_fixed_exit again s'
      else if reaches_activation plan r || s'.rebalance_needed
      then freeze_entries (building s' p) plan true
      else continue_accumulation (building s' p) plan p account
          (s'.exit_revision == 0 || grew s.last_position_qty p.size)

-- The last save of `_handle_profit_management`.
abbrev pub save_managed :
    PositionStrategy → AccountStateSummary → AccountPosition → Task AccountStateSummary
save_managed s account p =
    save (record s { last_position_qty = some p.size; last_avg_price = some p.avg_price })
    >> return account

-- The state with the trailing stop that was confirmed.
abbrev pub trailing_at : PositionStrategy → Decimal → Decimal → PositionStrategy
trailing_at s stop distance = record s {
  trailing_active = true;
  protected_stop_loss = some stop;
  trailing_distance = some distance;
  status = profit_protected;
}

abbrev pub trailed :
    PositionStrategy
    → AccountStateSummary
    → Decimal
    → Decimal
    → Option AccountPosition
    → Task AccountStateSummary
trailed s account stop distance none = close_if_flat s
trailed s account stop distance (some p) =
    check (verify_protection p stop (some distance))
    >> save_managed (trailing_at s stop distance) account p

-- The branch of `_handle_profit_management` that activates the trailing stop.
unfoldable pub activate_trailing :
    PositionStrategy → ExecutionPlan → AccountPosition → Task AccountStateSummary
activate_trailing s plan p = do
  ask (cancel_pending_entries s.symbol)
  c ← ask (market_context s.symbol)
  distance ← check (trailing_distance plan p c)
  stop ← check (protected_stop plan p c s.protected_stop_loss)
  ask (set_position_protection s.symbol stop (some distance))
  account ← ask account_state
  live ← check (find_position s account)
  trailed s account stop distance live

-- `_handle_profit_management`
unfoldable pub handle_profit_management :
    PositionStrategy
    → ExecutionPlan
    → AccountStateSummary
    → AccountPosition
    → Decimal
    → Task AccountStateSummary
handle_profit_management s plan account p r = do
  (s', filled) ← detect s account
  if not s'.trailing_active && reaches_activation plan r
      then activate_trailing s' plan p
      else save_managed s' account p

-- `_reconcile_live_position`
unfoldable pub reconcile_live_position :
    Again
    → PositionStrategy
    → ExecutionPlan
    → AccountStateSummary
    → AccountPosition
    → Task AccountStateSummary
reconcile_live_position again s plan account p = do
  r ← check (live_r p plan.stop_loss)
  if not s.entry_frozen
      then handle_entry_building again s plan account p r
      else if s.rebalance_needed
      then handle_rebalance s plan
      else handle_profit_management s plan account p r
