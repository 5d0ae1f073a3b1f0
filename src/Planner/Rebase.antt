-- ===== src/Planner/Rebase.antt =====
-- execution.py: `rebase_market_plan` on the actual fill, and `refresh_market_plan` on the quote.
use cautious_crypto_bro.Prelude.{
  Bool, not, ◌||◌, Option, none, some, List, [], ◌∷◌, ltb, ◌==◌, if◌then◌else◌,
}
use cautious_crypto_bro.Prelude.Int.{pos, ltb_ℤ, leb_ℤ, eqb_ℤ}
use cautious_crypto_bro.Prelude.Result.{Result, ok, err, ◌>>=◌, ◌>>◌, raise_if, or_raise}
use cautious_crypto_bro.Decimal.{Decimal, add, sub, mul, abs, dec, percent, min}
use cautious_crypto_bro.Domain.Enums.{
  Side, long, short, ExecutionOrderType, is_market, TakeProfitSource,
}
use cautious_crypto_bro.Domain.Policy.{InstrumentContext, risk_budget_usdt}
use cautious_crypto_bro.Domain.Plan.Defs.{
  PlannedTakeProfit, PlannedOrder, Leg, e2, e3, leg_name, validate_order, ExecutionPlan,
}
use cautious_crypto_bro.Domain.Plan.Rules.{revalidate_plan}
use cautious_crypto_bro.Planner.Error.{
  PlanError, assertion, no_stop_distance, rebase_below_minimum, rebase_below_notional,
  rebase_needs_v2, rebase_needs_three_legs, rebase_needs_market, scale_ins_not_limit,
  fill_price_not_positive, fill_quantity_not_positive, long_fill_outside_stop,
  short_fill_outside_stop, fill_consumes_budget, no_budget_left, no_rebased_stop_distance,
  rebased_target_too_close, rebased_targets_collapse, rebased_over_budget, not_refreshable,
  bad_market_price, market_outside_stop, refreshed_below_minimum, refreshed_below_notional, checked,
  divide,
}
use cautious_crypto_bro.Planner.Entries.{round_price, round_to_step, scale_in_price}
use cautious_crypto_bro.Planner.Sizing.{
  validate_entry_geometry, below_minimum_of, below_notional_of, ladder_loss,
}
use cautious_crypto_bro.Planner.Targets.{
  build_take_profit_targets, round_target, validate_target_geometry, validate_initial_exit_capacity,
}
use cautious_crypto_bro.Planner.Build.{weighted_entry, last_price}

-- `_RebaseGeometry`
pub record RebaseGeometry : Type 0 where
  pub stop_loss : Decimal
  pub risk_budget : Decimal
  pub remaining_scale : Decimal
  pub context : InstrumentContext

-- `_scale_in_order`
unfoldable pub scale_in_order :
    RebaseGeometry → Leg → Decimal → Decimal → Result PlanError PlannedOrder
scale_in_order g leg price risk_pct = do
  let distance = abs (sub price g.stop_loss)
  raise_if (leb_ℤ distance (pos 0)) (no_stop_distance leg)
  raw ← divide (mul (percent (mul g.risk_budget risk_pct)) g.remaining_scale) distance
  quantity ← round_to_step raw g.context.qty_step
  raise_if (below_minimum_of g.context quantity) (rebase_below_minimum leg)
  raise_if (below_notional_of g.context (mul quantity price)) (rebase_below_notional leg)
  checked (
      validate_order (record {
        name = leg_name leg;
        risk_pct = some risk_pct;
        order_type = ExecutionOrderType.limit;
        quantity = quantity;
        price = some price;
        reference_price = price;
        take_profit = none;
      }))

-- The fill on the wrong side of the stop.
unfoldable pub fill_inside_stop : Side → Decimal → Decimal → Result PlanError (Unit {0})
fill_inside_stop long fill stop = raise_if (leb_ℤ fill stop) long_fill_outside_stop
fill_inside_stop short fill stop = raise_if (leb_ℤ stop fill) short_fill_outside_stop

-- The checks on the legs in `_validate_rebase_inputs`; the first leg is handed on.
unfoldable pub rebase_primary : List PlannedOrder → Result PlanError PlannedOrder
rebase_primary (primary ∷ second ∷ third ∷ []) = do
  raise_if (not (is_market primary.order_type)) rebase_needs_market
  raise_if (is_market second.order_type || is_market third.order_type) scale_ins_not_limit
  ok primary
rebase_primary _ = err rebase_needs_three_legs

-- `_validate_rebase_inputs`
unfoldable pub validate_rebase_inputs :
    ExecutionPlan → Decimal → Decimal → Result PlanError PlannedOrder
validate_rebase_inputs p fill_price filled = do
  raise_if (ltb p.strategy_version 2) rebase_needs_v2
  primary ← rebase_primary p.orders
  raise_if (leb_ℤ fill_price (pos 0)) fill_price_not_positive
  raise_if (leb_ℤ filled (pos 0)) fill_quantity_not_positive
  fill_inside_stop p.side fill_price p.stop_loss
  ok primary

-- `_rebase_reference_prices`: the distance to the stop and the two scale-in levels.
unfoldable pub rebase_reference_prices :
    ExecutionPlan → Decimal → InstrumentContext → Result PlanError (Decimal × Decimal × Decimal)
rebase_reference_prices p fill c = do
  let s = p.policy.strategy_v2
  let distance = abs (sub fill p.stop_loss)
  second ← round_price (scale_in_price p.side fill s.secondary_entry_depth_r distance) c.tick_size
  third ← round_price (scale_in_price p.side fill s.tertiary_entry_depth_r distance) c.tick_size
  validate_entry_geometry p.side fill second third p.stop_loss
  ok (distance, second, third)

-- `_rebase_remaining_scale`
unfoldable pub rebase_remaining_scale : ExecutionPlan → Decimal → Decimal → Result PlanError Decimal
rebase_remaining_scale p filled distance = do
  let s = p.policy.strategy_v2
  budget ← checked (risk_budget_usdt p.policy)
  let primary_risk = mul filled distance
  raise_if (leb_ℤ budget primary_risk) fill_consumes_budget
  let nominal = percent (mul budget (add s.secondary_entry_risk_pct s.tertiary_entry_risk_pct))
  ratio ← divide (sub budget primary_risk) nominal
  let scale = min (dec 1) ratio
  raise_if (leb_ℤ scale (pos 0)) no_budget_left
  ok scale

-- `plan.trader_take_profit or (plan.take_profit if the source is TRADER else None)`
abbrev from_source : TakeProfitSource → Decimal → Option Decimal
from_source TakeProfitSource.trader price = some price
from_source TakeProfitSource.policy price = none

unfoldable pub trader_target : Option Decimal → TakeProfitSource → Decimal → Option Decimal
trader_target none source price = from_source source price
trader_target (some target) source price =
    if eqb_ℤ target (pos 0) then from_source source price else some target

-- `_resolve_rebase_targets`
unfoldable pub resolve_rebase_targets :
    ExecutionPlan
    → Decimal
    → PlannedOrder
    → InstrumentContext
    → Result PlanError (List PlannedTakeProfit × TakeProfitSource × Option Decimal)
resolve_rebase_targets p weighted primary c = do
  let distance = abs (sub weighted p.stop_loss)
  raise_if (leb_ℤ distance (pos 0)) no_rebased_stop_distance
  let target = trader_target p.trader_take_profit p.take_profit_source p.take_profit
  rounded ← round_target target c.tick_size
  (targets, source) ← build_take_profit_targets (record {
    side = p.side;
    strategy = p.policy.strategy_v2;
    weighted_entry = weighted;
    risk_distance = distance;
    tick_size = c.tick_size;
    trader_take_profit = rounded;
    trader_target_error = rebased_target_too_close;
    collapsed_targets_error = rebased_targets_collapse;
  })
  validate_target_geometry p.side weighted targets
  validate_initial_exit_capacity p.side primary p.stop_loss targets c
  ok (targets, source, target)

-- `rebase_market_plan`, with `_rebuild_rebased_plan` at its end.
unfoldable pub rebase_market_plan :
    ExecutionPlan → Decimal → Decimal → InstrumentContext → Result PlanError ExecutionPlan
rebase_market_plan p fill_price filled c = do
  leg ← validate_rebase_inputs p fill_price filled
  let s = p.policy.strategy_v2
  budget ← checked (risk_budget_usdt p.policy)
  (distance, second, third) ← rebase_reference_prices p fill_price c
  scale ← rebase_remaining_scale p filled distance
  let primary = record leg { quantity = filled; price = none; reference_price = fill_price }
  let g : RebaseGeometry = record {
    stop_loss = p.stop_loss;
    risk_budget = budget;
    remaining_scale = scale;
    context = c;
  }
  secondary ← scale_in_order g e2 second s.secondary_entry_risk_pct
  tertiary ← scale_in_order g e3 third s.tertiary_entry_risk_pct
  let orders = primary ∷ secondary ∷ tertiary ∷ []
  let loss = ladder_loss p.stop_loss orders
  raise_if (ltb_ℤ budget loss) rebased_over_budget
  weighted ← weighted_entry orders
  (targets, source, target) ← resolve_rebase_targets p weighted primary c
  last ← or_raise (last_price targets) assertion
  checked (
      revalidate_plan (record p {
        orders = orders;
        take_profit = last;
        take_profit_targets = targets;
        take_profit_source = source;
        trader_take_profit = target;
        planned_max_loss_usdt = loss;
      }))

-- The market on the wrong side of the stop.
abbrev pub outside_stop : Side → Decimal → Decimal → Bool
outside_stop long price stop = leb_ℤ price stop
outside_stop short price stop = leb_ℤ stop price

-- `plan.orders[0]` of a plan that may be refreshed.
unfoldable pub refreshable : ExecutionPlan → List PlannedOrder → Result PlanError PlannedOrder
refreshable p [] = do raise_if (not (p.strategy_version == 2)) not_refreshable; err assertion
refreshable p (primary ∷ rest) = do
  raise_if (not (p.strategy_version == 2) || not (is_market primary.order_type)) not_refreshable
  ok primary

-- `refresh_market_plan`
unfoldable pub refresh_market_plan :
    ExecutionPlan → InstrumentContext → Result PlanError ExecutionPlan
refresh_market_plan p c = do
  primary ← refreshable p p.orders
  let price = c.market_price
  raise_if (leb_ℤ price (pos 0)) bad_market_price
  raise_if (outside_stop p.side price p.stop_loss) market_outside_stop
  budget ← checked (risk_budget_usdt p.policy)
  affordable ←
      divide (percent (mul budget p.policy.strategy_v2.primary_entry_risk_pct))
        (abs (sub price p.stop_loss))
  quantity ← round_to_step (min primary.quantity affordable) c.qty_step
  raise_if (below_minimum_of c quantity) refreshed_below_minimum
  raise_if (below_notional_of c (mul quantity price)) refreshed_below_notional
  rebase_market_plan p price quantity c
