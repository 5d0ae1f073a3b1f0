-- ===== src/Planner/Examples.antt =====
-- Concrete runs of the planner.
use cautious_crypto_bro.Prelude.{◌≡◌, refl, some, [], ◌∷◌, ◌++◌, map, All}
use cautious_crypto_bro.Prelude.Int.{pos, ◌≤ℤ◌, ◌<ℤ◌}
use mathlib.Core.List.{head?}
use cautious_crypto_bro.Prelude.Result.{ok}
use cautious_crypto_bro.Decimal.{Decimal, dec, decimal}
use cautious_crypto_bro.Domain.Enums.{long, EntryType}
use cautious_crypto_bro.Domain.Policy.{
  risk_budget_usdt, strategy_bounds, validate_v2_policy, validate_policy,
}
use cautious_crypto_bro.Domain.Plan.Defs.{PlannedOrder, ExecutionPlan}
use cautious_crypto_bro.Domain.Plan.Rules.{validate_slices, revalidate_plan}
use cautious_crypto_bro.Planner.Sizing.{ladder_loss}
use cautious_crypto_bro.Planner.Build.{weighted_entry}
use cautious_crypto_bro.Planner.Rebase.{
  scale_in_order, fill_inside_stop, rebase_primary, validate_rebase_inputs, rebase_reference_prices,
  rebase_remaining_scale, trader_target, resolve_rebase_targets, rebase_market_plan,
}
use cautious_crypto_bro.Domain.Plan.Valid.{IsV2Ladder}
use cautious_crypto_bro.Planner.Orders.{IsTradable}
use cautious_crypto_bro.Planner.Risk.{plan_within_budget, plan-IsTradable, plan-IsV2Ladder}
use cautious_crypto_bro.Planner.Geometry.{
  Worsens, Improves, NotPassed, reference_prices, target_prices, plan_geometry,
}
use cautious_crypto_bro.Planner.Rebased.{IsRebased, rebase-IsRebased}
use cautious_crypto_bro.Planner.Samples.{planned, policy, context, intent}

-- The quantities of the legs: 0.06, 0.037 and 0.044.
plan_quantities :
    map (λ (o : PlannedOrder). o.quantity) planned.0.orders
    ≡ decimal 6 2 ∷ decimal 37 3 ∷ decimal 44 3 ∷ []
unfolding planned decimal
plan_quantities = refl

plan_within_budget_example :
    (budget : Decimal) × (risk_budget_usdt policy ≡ ok budget)
    × (planned.0.policy ≡ policy)
    × (pos 0 <ℤ planned.0.planned_max_loss_usdt)
    × (planned.0.planned_max_loss_usdt ≤ℤ budget)
    × (planned.0.planned_max_loss_usdt ≡ ladder_loss planned.0.stop_loss planned.0.orders)
plan_within_budget_example = plan_within_budget 5 intent policy context planned.0 planned.1

plan-IsTradable_example : All (IsTradable context) planned.0.orders
plan-IsTradable_example = plan-IsTradable 5 intent policy context planned.0 planned.1

plan-IsV2Ladder_example : IsV2Ladder planned.0
plan-IsV2Ladder_example = plan-IsV2Ladder 5 intent policy context planned.0 planned.1

plan_geometry_example :
    (planned.0.side ≡ long)
    × Worsens long (reference_prices planned.0.orders ++ planned.0.stop_loss ∷ [])
    × ((weighted : Decimal) × (weighted_entry planned.0.orders ≡ ok weighted)
        × Improves long (weighted ∷ target_prices planned.0.take_profit_targets))
    × ((first : Decimal) × (head? (reference_prices planned.0.orders) ≡ some first)
        × NotPassed EntryType.market long first (dec 60000))
plan_geometry_example = plan_geometry 5 intent policy context planned.0 planned.1

-- The first leg filled at 60010 for 0.059.
rebased :
    (q : ExecutionPlan) × (rebase_market_plan planned.0 (dec 60010) (decimal 59 3) context ≡ ok q)
unfolding planned rebase_market_plan validate_rebase_inputs rebase_primary fill_inside_stop
    rebase_reference_prices rebase_remaining_scale scale_in_order resolve_rebase_targets
    trader_target revalidate_plan validate_policy validate_v2_policy strategy_bounds validate_slices
rebased = (_, refl)

rebase-IsRebased_example : IsRebased planned.0 (dec 60010) (decimal 59 3) context rebased.0
rebase-IsRebased_example =
    rebase-IsRebased planned.0 (dec 60010) (decimal 59 3) context rebased.0 rebased.1
