-- ===== src/Planner/Build.antt =====
-- execution.py: `ExecutionPlanner.plan`.
use cautious_crypto_bro.Prelude.{ℕ, Option, none, some, List, [], ◌∷◌, map}
use cautious_crypto_bro.Prelude.Result.{Result, ◌>>=◌, ◌>>◌, or_raise}
use cautious_crypto_bro.Decimal.{Decimal, mul, sum}
use cautious_crypto_bro.Domain.Signal.{TradingIntent}
use cautious_crypto_bro.Domain.Policy.{InstrumentContext, ExecutionPolicy}
use cautious_crypto_bro.Domain.Plan.Defs.{PlannedTakeProfit, PlannedOrder, ExecutionPlan}
use cautious_crypto_bro.Domain.Plan.Rules.{validate_plan}
use cautious_crypto_bro.Planner.Error.{PlanError, assertion, checked, divide}
use cautious_crypto_bro.Planner.Entries.{resolve_stop_loss, entry_specs}
use cautious_crypto_bro.Planner.Sizing.{
  validate_entry_geometry, validate_not_passed_through, risk_checked_orders, plan_leverage,
}
use cautious_crypto_bro.Planner.Targets.{
  take_profit_targets, validate_target_geometry, validate_initial_exit_capacity,
}

abbrev pub order_quantities : List PlannedOrder → List Decimal
order_quantities = map (λ (o : PlannedOrder). o.quantity)

-- `_weighted_entry`
unfoldable pub weighted_entry : List PlannedOrder → Result PlanError Decimal
weighted_entry orders =
    divide (sum (map (λ (o : PlannedOrder). mul o.reference_price o.quantity) orders))
      (sum (order_quantities orders))

-- `targets[-1].price`
abbrev pub last_price : List PlannedTakeProfit → Option Decimal
last_price [] = none
last_price (t ∷ []) = some t.price
last_price (t ∷ u ∷ targets) = last_price (u ∷ targets)

-- `ExecutionPlanner.plan`; `now` is the clock that stamps the plan.
unfoldable pub plan :
    ℕ → TradingIntent → ExecutionPolicy → InstrumentContext → Result PlanError ExecutionPlan
plan now i policy c = do
  (stop, source) ← resolve_stop_loss i policy.strategy_v2 c
  (first, second, third) ← entry_specs i policy.strategy_v2 c stop
  validate_entry_geometry i.side first.reference_price second.reference_price third.reference_price
      stop
  validate_not_passed_through i.entry.type i.side first.reference_price c.market_price
  (primary, secondary, tertiary, loss) ← risk_checked_orders first second third policy c stop
  let orders = primary ∷ secondary ∷ tertiary ∷ []
  weighted ← weighted_entry orders
  (targets, target_source) ← take_profit_targets i policy.strategy_v2 weighted stop c.tick_size
  validate_target_geometry i.side weighted targets
  validate_initial_exit_capacity i.side primary stop targets c
  leverage ← plan_leverage i c
  last ← or_raise (last_price targets) assertion
  checked (
      validate_plan (record {
        strategy_version = 2;
        intent_id = i.intent_id;
        symbol = i.symbol;
        side = i.side;
        leverage = leverage;
        orders = orders;
        entry_slices = [];
        stop_loss = stop;
        stop_loss_source = source;
        take_profit = last;
        take_profit_targets = targets;
        take_profit_source = target_source;
        trader_take_profit = i.take_profit;
        runner_pct = policy.strategy_v2.runner_pct;
        policy = policy;
        planned_max_loss_usdt = loss;
        created_at = now;
      }))
