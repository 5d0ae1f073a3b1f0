-- ===== src/Coordinator/Zones.antt =====
-- entry_ownership.py and the zone of an executed entry: evidence that never changes an outcome.
use cautious_crypto_bro.Prelude.{
  Bool, false, not, ◌&&◌, ◌||◌, Option, none, some, List, [], ◌∷◌, ◌++◌, any, if◌then◌else◌, ltb,
}
use cautious_crypto_bro.Prelude.Int.{eqb_ℤ}
use cautious_crypto_bro.Prelude.Result.{Result, ok, err, raise_if, or_raise}
use cautious_crypto_bro.Text.{Text, text, same_text, prefix, lower, is_space}
use cautious_crypto_bro.Decimal.{is_positive}
use cautious_crypto_bro.Program.{return, raise, ◌>>=◌, ◌>>◌, ask, attempt, check}
use cautious_crypto_bro.Domain.Enums.{side_is}
use cautious_crypto_bro.Domain.Plan.Defs.{PlannedOrder, ExecutionPlan}
use cautious_crypto_bro.Domain.Plan.Rules.{entry_orders}
use cautious_crypto_bro.Domain.Account.{AccountOrder, is_protective}
use cautious_crypto_bro.Coordinator.Ports.{
  ZoneOrder, Failure, index_error, invalid_zone_order, id_count_differs, binding_mismatch,
  get_execution_plan, register_zone, bind_zone_order, zone_bound_orders, strategy_order, Job,
  Deployment,
}

-- A text that matches ^\S+$.
abbrev pub is_token : Text → Bool
is_token [] = false
is_token (c ∷ s) = not (any is_space (c ∷ s))

-- The constraints of `ZoneOrder` with the role ENTRY.
unfoldable pub validate_zone_order : ZoneOrder → Result Failure ZoneOrder
validate_zone_order z =
    if is_token z.order_id && is_token z.order_link_id && is_positive z.quantity
    then ok z
    else err invalid_zone_order

-- f"ccb-v2-{plan.intent_id.hex[:20]}-" with the order's name
unfoldable pub child_link : ExecutionPlan → PlannedOrder → Text
child_link plan o = text "ccb-v2-" ++ prefix 20 plan.intent_id ++ text "-" ++ lower o.name

abbrev pub zone_order_of : ExecutionPlan → PlannedOrder → Text → ZoneOrder
zone_order_of plan o id = record {
  zone_id = plan.intent_id;
  order_id = id;
  order_link_id = child_link plan o;
  quantity = o.quantity;
}

unfoldable pub bind_orders : ExecutionPlan → List PlannedOrder → List Text → Job (Unit {0})
bind_orders plan [] [] = return tt
bind_orders plan (o ∷ os) (id ∷ ids) = do
  z ← check (validate_zone_order (zone_order_of plan o id))
  ask (bind_zone_order z)
  bind_orders plan os ids
bind_orders plan _ _ = raise id_count_differs

abbrev pub planned_children : ExecutionPlan → Result Failure (List PlannedOrder)
planned_children plan = or_raise (entry_orders plan) index_error

abbrev pub enroll : Deployment → ExecutionPlan → List Text → Bool → Job (Unit {0})
enroll d plan ids registered = do
  if registered
      then return tt
      else ask (register_zone (d.zone_group_id plan.symbol plan.side) plan.intent_id)
  children ← check (planned_children plan)
  bind_orders plan children ids

-- `_enroll_executed_zone`
unfoldable pub enroll_executed_zone : Deployment → ExecutionPlan → List Text → Bool → Job (Unit {0})
enroll_executed_zone d plan ids registered =
    if ltb plan.strategy_version 2
    then return tt
    else attempt (enroll d plan ids registered) (λ e. return tt)

abbrev pub is_other_order : ExecutionPlan → PlannedOrder → AccountOrder → Bool
is_other_order plan child o =
    not (same_text o.symbol plan.symbol)
    || not (same_text o.order_link_id (child_link plan child))
    || not (eqb_ℤ o.quantity child.quantity)
    || not (side_is o.side plan.side)
    || o.reduce_only
    || o.close_on_trigger
    || is_protective o

abbrev pub bind_found : ExecutionPlan → PlannedOrder → Option AccountOrder → Job (Unit {0})
bind_found plan child none = return tt
bind_found plan child (some o) = do
  check (raise_if (is_other_order plan child o) binding_mismatch)
  z ← check (validate_zone_order (zone_order_of plan child o.order_id))
  ask (bind_zone_order z)

unfoldable pub recover_children : ExecutionPlan → List Text → List PlannedOrder → Job (Unit {0})
recover_children plan known [] = return tt
recover_children plan known (child ∷ children) =
    if any (same_text (child_link plan child)) known
    then recover_children plan known children
    else do
      found ← ask (strategy_order plan.symbol (child_link plan child))
      bind_found plan child found
      recover_children plan known children

-- `recover_entry_bindings` of entry_ownership.py
unfoldable pub recover_entry_bindings : Deployment → ExecutionPlan → Job (Unit {0})
recover_entry_bindings d plan = do
  known ← ask (zone_bound_orders (d.zone_group_id plan.symbol plan.side))
  children ← check (planned_children plan)
  recover_children plan known children

abbrev pub stored_or : ExecutionPlan → Option ExecutionPlan → ExecutionPlan
stored_or plan none = plan
stored_or plan (some stored) = stored

-- The `try` of `_recover_entry_bindings`.
abbrev pub recover_stored : Deployment → ExecutionPlan → Job (Unit {0})
recover_stored d plan = do
  stored ← ask (get_execution_plan plan.intent_id)
  recover_entry_bindings d (stored_or plan stored)

-- `_recover_entry_bindings`
unfoldable pub recover_bindings : Deployment → ExecutionPlan → Job (Unit {0})
recover_bindings d plan = attempt (recover_stored d plan) (λ e. return tt)
