-- ===== src/Supervisor/Trailing.antt =====
-- position_management/trailing_stop_manager.py: the protected stop and the trailing distance.
use cautious_crypto_bro.Prelude.{not, ◌&&◌, ◌||◌, Option, none, some, is_some}
use cautious_crypto_bro.Prelude.Int.{pos, leb_ℤ}
use cautious_crypto_bro.Prelude.Result.{Result, ok, ◌>>=◌, ◌>>◌, raise_if}
use cautious_crypto_bro.Decimal.{
  Decimal, add, sub, mul, abs, max, min, round_ceiling, round_floor, round_half_up,
}
use cautious_crypto_bro.Domain.Enums.{Side, long, short}
use cautious_crypto_bro.Domain.Policy.{InstrumentContext}
use cautious_crypto_bro.Domain.Plan.Defs.{ExecutionPlan}
use cautious_crypto_bro.Domain.Account.{AccountPosition}
use cautious_crypto_bro.Supervisor.Ports.{
  Fault, stop_unconfirmed, trailing_unconfirmed, stop_not_below, stop_not_above, trailing_zero,
}
use cautious_crypto_bro.Supervisor.Orders.{is_value, same_decimal?, or_value, to_steps}

-- `verify_protection`
unfoldable pub verify_protection :
    AccountPosition → Decimal → Option Decimal → Result Fault (Unit {0})
verify_protection p stop trailing = do
  raise_if (not (is_value p.stop_loss stop)) stop_unconfirmed
  raise_if (is_some trailing && not (same_decimal? p.trailing_stop trailing)) trailing_unconfirmed

abbrev stricter : Side → Decimal → Option Decimal → Decimal
stricter side raw none = raw
stricter long raw (some previous) = max raw previous
stricter short raw (some previous) = min raw previous

-- The branches of `protected_stop`, from the anchor and the buffer.
unfoldable pub protected_on :
    Side → Decimal → Decimal → Decimal → Option Decimal → Decimal → Decimal → Result Fault Decimal
protected_on long stop anchor buffer previous tick mark = do
  result ← to_steps round_ceiling (stricter long (max stop (add anchor buffer)) previous) tick
  raise_if (leb_ℤ mark result) stop_not_below
  ok result
protected_on short stop anchor buffer previous tick mark = do
  result ← to_steps round_floor (stricter short (min stop (sub anchor buffer)) previous) tick
  raise_if (leb_ℤ result (pos 0) || leb_ℤ result mark) stop_not_above
  ok result

-- `protected_stop`
unfoldable pub protected_stop :
    ExecutionPlan → AccountPosition → InstrumentContext → Option Decimal → Result Fault Decimal
protected_stop plan p c previous =
    let buffer =
      mul (abs (sub p.avg_price plan.stop_loss)) plan.policy.strategy_v2.minimum_locked_profit_r in
    protected_on p.side plan.stop_loss (or_value p.break_even_price p.avg_price) buffer previous
      c.tick_size p.mark_price

-- `trailing_distance`
unfoldable pub trailing_distance :
    ExecutionPlan → AccountPosition → InstrumentContext → Result Fault Decimal
trailing_distance plan p c = do
  result ←
      to_steps round_half_up
        (mul (abs (sub p.avg_price plan.stop_loss)) plan.policy.strategy_v2.trailing_distance_r)
        c.tick_size
  raise_if (leb_ℤ result (pos 0)) trailing_zero
  ok result
