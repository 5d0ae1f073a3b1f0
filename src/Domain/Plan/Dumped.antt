-- ===== src/Domain/Plan/Dumped.antt =====
-- domain.py: the validation of a plan that was dumped as a whole and got other slices.
use cautious_crypto_bro.Prelude.{List, [], ◌∷◌}
use cautious_crypto_bro.Prelude.Result.{Result, ok, ◌>>=◌, ◌>>◌}
use cautious_crypto_bro.Domain.Invalid.{Invalid}
use cautious_crypto_bro.Domain.Policy.{validate_policy}
use cautious_crypto_bro.Domain.Plan.Defs.{
  PlannedOrder, PlannedTakeProfit, validate_order, validate_take_profit, ExecutionPlan,
}
use cautious_crypto_bro.Domain.Plan.Rules.{validate_plan}

unfoldable pub revalidate_orders : List PlannedOrder → Result Invalid (Unit {0})
revalidate_orders [] = ok tt
revalidate_orders (o ∷ orders) = do _ ← validate_order o; revalidate_orders orders

unfoldable pub revalidate_targets : List PlannedTakeProfit → Result Invalid (Unit {0})
revalidate_targets [] = ok tt
revalidate_targets (t ∷ targets) = do _ ← validate_take_profit t; revalidate_targets targets

-- `ExecutionPlan.model_validate(plan.model_dump() | {"entry_slices": slices})`: the dumped policy,
-- orders and targets are validated anew; the slices are objects, which are not.
unfoldable pub revalidate_dumped : ExecutionPlan → Result Invalid ExecutionPlan
revalidate_dumped p = do
  validate_policy p.policy
  revalidate_orders p.orders
  revalidate_targets p.take_profit_targets
  validate_plan p
