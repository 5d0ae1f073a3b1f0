-- ===== src/Planner/Sizing.antt =====
-- execution.py: the checks on the entry levels, and the orders sized to the risk budget.
use cautious_crypto_bro.Prelude.{Bool, not, ◌&&◌, ◌||◌, Option, none, some, List, [], ◌∷◌, map}
use cautious_crypto_bro.Prelude.Int.{pos, ltb_ℤ, leb_ℤ, eqb_ℤ}
use cautious_crypto_bro.Prelude.Result.{Result, ok, ◌>>=◌, ◌>>◌, raise_if, map_err}
use cautious_crypto_bro.Decimal.{Decimal, sub, mul, abs, dec, percent, sum}
use cautious_crypto_bro.Domain.Enums.{Side, long, short, EntryType, ExecutionOrderType}
use cautious_crypto_bro.Domain.Signal.{TradingIntent}
use cautious_crypto_bro.Domain.Policy.{
  InstrumentContext, ExecutionPolicy, risk_budget_usdt, select_leverage,
}
use cautious_crypto_bro.Domain.Plan.Defs.{PlannedOrder, validate_order, leg_name}
use cautious_crypto_bro.Planner.Error.{
  PlanError, leverage_rejected, max_loss_not_positive, over_risk_budget, no_stop_distance,
  below_minimum, below_notional, long_stop_geometry, long_level_order, short_stop_geometry,
  short_level_order, market_below_long_entry, market_above_short_entry, checked, divide,
}
use cautious_crypto_bro.Planner.Entries.{EntrySpec, round_to_step}

-- `_validate_entry_geometry`
unfoldable pub validate_entry_geometry :
    Side → Decimal → Decimal → Decimal → Decimal → Result PlanError (Unit {0})
validate_entry_geometry long first second third stop = do
  raise_if (leb_ℤ first stop || leb_ℤ second stop || leb_ℤ third stop) long_stop_geometry
  raise_if (not (ltb_ℤ second first && ltb_ℤ third second)) long_level_order
validate_entry_geometry short first second third stop = do
  raise_if (leb_ℤ stop first || leb_ℤ stop second || leb_ℤ stop third) short_stop_geometry
  raise_if (not (ltb_ℤ first second && ltb_ℤ second third)) short_level_order

-- The market against the primary entry.
unfoldable pub passed_through : Side → Decimal → Decimal → Result PlanError (Unit {0})
passed_through long primary market = raise_if (ltb_ℤ market primary) market_below_long_entry
passed_through short primary market = raise_if (ltb_ℤ primary market) market_above_short_entry

-- `_validate_not_passed_through`
unfoldable pub validate_not_passed_through :
    EntryType → Side → Decimal → Decimal → Result PlanError (Unit {0})
validate_not_passed_through EntryType.market side primary market = ok tt
validate_not_passed_through _ side primary market = passed_through side primary market

-- `if context.min_notional and notional < context.min_notional`
abbrev pub below_notional_of : InstrumentContext → Decimal → Bool
below_notional_of c notional = not (eqb_ℤ c.min_notional (pos 0)) && ltb_ℤ notional c.min_notional

-- `quantity <= 0 or quantity < context.min_qty`
abbrev pub below_minimum_of : InstrumentContext → Decimal → Bool
below_minimum_of c quantity = leb_ℤ quantity (pos 0) || ltb_ℤ quantity c.min_qty

abbrev pub limit_price : ExecutionOrderType → Decimal → Option Decimal
limit_price ExecutionOrderType.market price = none
limit_price ExecutionOrderType.limit price = some price

-- `_planned_order`
unfoldable pub planned_order :
    EntrySpec → ExecutionPolicy → InstrumentContext → Decimal → Result PlanError PlannedOrder
planned_order spec policy c stop = do
  let distance = abs (sub spec.reference_price stop)
  raise_if (leb_ℤ distance (pos 0)) (no_stop_distance spec.leg)
  budget ← checked (risk_budget_usdt policy)
  raw ← divide (percent (mul budget spec.risk_pct)) distance
  quantity ← round_to_step raw c.qty_step
  raise_if (below_minimum_of c quantity) (below_minimum spec.leg)
  raise_if (below_notional_of c (mul quantity spec.reference_price)) (below_notional spec.leg)
  checked (
      validate_order (record {
        name = leg_name spec.leg;
        risk_pct = some spec.risk_pct;
        order_type = spec.order_type;
        quantity = quantity;
        price = limit_price spec.order_type spec.reference_price;
        reference_price = spec.reference_price;
        take_profit = none;
      }))

-- `order.quantity * abs(order.reference_price - stop_loss)`
unfoldable pub order_loss : Decimal → PlannedOrder → Decimal
order_loss stop o = mul o.quantity (abs (sub o.reference_price stop))

-- What the ladder loses if every leg fills and the stop is hit.
unfoldable pub ladder_loss : Decimal → List PlannedOrder → Decimal
ladder_loss stop orders = sum (map (order_loss stop) orders)

-- `_risk_checked_orders`
unfoldable pub risk_checked_orders :
    EntrySpec
    → EntrySpec
    → EntrySpec
    → ExecutionPolicy
    → InstrumentContext
    → Decimal
    → Result PlanError (PlannedOrder × PlannedOrder × PlannedOrder × Decimal)
risk_checked_orders a b c policy context stop = do
  primary ← planned_order a policy context stop
  secondary ← planned_order b policy context stop
  tertiary ← planned_order c policy context stop
  let loss = ladder_loss stop (primary ∷ secondary ∷ tertiary ∷ [])
  raise_if (leb_ℤ loss (pos 0)) max_loss_not_positive
  budget ← checked (risk_budget_usdt policy)
  raise_if (ltb_ℤ budget loss) over_risk_budget
  ok (primary, secondary, tertiary, loss)

abbrev requested_leverage : Option Decimal → Decimal
requested_leverage none = dec 10
requested_leverage (some l) = l

-- `_plan_leverage`
unfoldable pub plan_leverage : TradingIntent → InstrumentContext → Result PlanError Decimal
plan_leverage i c = elim c.leverage_filter [
  | none ↦ ok (requested_leverage i.leverage)
  | some limits ↦ map_err leverage_rejected (select_leverage limits (requested_leverage i.leverage))
]
