-- ===== src/Coordinator/Evidence.antt =====
-- The evidence of zones leaves the history of an entry as it is.
use cautious_crypto_bro.Prelude.{Bool, Option, none, some, List, [], ◌∷◌, any, if◌then◌else◌, ltb}
use cautious_crypto_bro.Prelude.Result.{Result, raise_if}
use cautious_crypto_bro.Text.{Text, same_text}
use cautious_crypto_bro.Program.{return, ◌>>=◌, ask, check}
use cautious_crypto_bro.Domain.Plan.Defs.{PlannedOrder, ExecutionPlan}
use cautious_crypto_bro.Domain.Account.{AccountOrder}
use cautious_crypto_bro.Coordinator.Ports.{
  Failure, get_execution_plan, register_zone, bind_zone_order, zone_bound_orders, strategy_order,
  binding_mismatch, Job, Deployment,
}
use cautious_crypto_bro.Coordinator.Zones.{
  validate_zone_order, child_link, zone_order_of, bind_orders, planned_children, enroll,
  enroll_executed_zone, is_other_order, bind_found, recover_children, recover_entry_bindings,
  stored_or, recover_stored, recover_bindings,
}
use cautious_crypto_bro.Coordinator.Ledger.{
  Ledger, Ruled, Steady, Ruled-if, Ruled-ask, Ruled-call, Ruled-check, Ruled-then, Ruled-swallow,
}

module _ (I : Ledger → Type 0) where
  abbrev Keeps : {A : Type 0} → Ledger → Job A → Type 0
  Keeps g m = Steady I g m

  pub neutral-then :
      {A B : Type 0} (g : Ledger) (m : Job A) (f : A → Job B)
      → Keeps g m
      → ((h : Ledger) (a : A) → I h → Keeps h (f a))
      → Keeps g (m >>= f)
  neutral-then g m f h k = Ruled-then (λ h a. I h) (λ h a. I h) (λ h e. I h) g m f h k

  pub neutral-check :
      {A B : Type 0} (g : Ledger) (r : Result Failure A) (f : A → Job B)
      → I g
      → ((a : A) → Keeps g (f a))
      → Keeps g (check r >>= f)
  neutral-check g r f i k = Ruled-check (λ h a. I h) (λ h e. I h) g r f (λ a e. k a) (λ e. i)

  pub neutral-if :
      {A : Type 0} (g : Ledger) (c : Bool) (m n : Job A)
      → Keeps g m
      → Keeps g n
      → Keeps g (if c then m else n)
  neutral-if g c m n h k = Ruled-if (λ h a. I h) (λ h e. I h) g c m n (λ e. h) (λ e. k)

  bind_orders-Keeps :
      (plan : ExecutionPlan) (os : List PlannedOrder) (ids : List Text) (g : Ledger)
      → I g
      → Keeps g (bind_orders plan os ids)
  unfolding bind_orders
  bind_orders-Keeps plan [] [] g i = i
  bind_orders-Keeps plan [] (id ∷ ids) g i = i
  bind_orders-Keeps plan (o ∷ os) [] g i = i
  bind_orders-Keeps plan (o ∷ os) (id ∷ ids) g i =
      neutral-check g (validate_zone_order (zone_order_of plan o id)) _ i (λ z.
        Ruled-ask (λ h a. I h) (λ h e. I h) g (bind_zone_order z) _ tt
          (λ x. bind_orders-Keeps plan os ids g i) (λ e. i))

  pub register-Keeps : (group id : Text) (g : Ledger) → I g → Keeps g (ask (register_zone group id))
  register-Keeps group id g i =
      Ruled-call (λ q h a. I h) (λ h e. I h) g (register_zone group id) tt (λ x. i) (λ e. i)

  pub enroll_executed_zone-Keeps :
      (d : Deployment) (plan : ExecutionPlan) (ids : List Text) (registered : Bool)
      (Raised : Ledger → Failure → Type 0) (g : Ledger)
      → I g
      → Ruled (λ h a. I h) Raised g (enroll_executed_zone d plan ids registered)
  unfolding enroll_executed_zone
  enroll_executed_zone-Keeps d plan ids registered X g i =
      Ruled-if (λ h a. I h) X g (ltb plan.strategy_version 2) (return tt) _ (λ b. i)
        (λ b. Ruled-swallow I X g (enroll d plan ids registered) (
          neutral-then g _ _
            (neutral-if g registered (return tt)
              (ask (register_zone (d.zone_group_id plan.symbol plan.side) plan.intent_id)) i
              (register-Keeps (d.zone_group_id plan.symbol plan.side) plan.intent_id g i))
            (λ h x j.
              neutral-check h (planned_children plan) _ j
                (λ children. bind_orders-Keeps plan children ids h j))))

  bind_found-Keeps :
      (plan : ExecutionPlan) (child : PlannedOrder) (found : Option AccountOrder) (g : Ledger)
      → I g
      → Keeps g (bind_found plan child found)
  bind_found-Keeps plan child none g i = i
  bind_found-Keeps plan child (some o) g i =
      neutral-check g (raise_if (is_other_order plan child o) binding_mismatch) _ i (λ x.
        neutral-check g (validate_zone_order (zone_order_of plan child o.order_id)) _ i
          (λ z. Ruled-call (λ q h a. I h) (λ h e. I h) g (bind_zone_order z) tt (λ x. i) (λ e. i)))

  recover_children-Keeps :
      (plan : ExecutionPlan) (known : List Text) (children : List PlannedOrder) (g : Ledger)
      → I g
      → Keeps g (recover_children plan known children)
  unfolding recover_children
  recover_children-Keeps plan known [] g i = i
  recover_children-Keeps plan known (child ∷ children) g i =
      neutral-if g (any (same_text (child_link plan child)) known)
        (recover_children plan known children) _ (recover_children-Keeps plan known children g i)
        (Ruled-ask (λ h a. I h) (λ h e. I h) g (strategy_order plan.symbol (child_link plan child))
          _ tt
          (λ found.
            neutral-then g (bind_found plan child found) _ (bind_found-Keeps plan child found g i)
              (λ h x j. recover_children-Keeps plan known children h j))
          (λ e. i))

  recover_entry_bindings-Keeps :
      (d : Deployment) (plan : ExecutionPlan) (g : Ledger)
      → I g
      → Keeps g (recover_entry_bindings d plan)
  unfolding recover_entry_bindings
  recover_entry_bindings-Keeps d plan g i =
      Ruled-ask (λ h a. I h) (λ h e. I h) g
        (zone_bound_orders (d.zone_group_id plan.symbol plan.side)) _ tt
        (λ known.
          neutral-check g (planned_children plan) _ i
            (λ children. recover_children-Keeps plan known children g i))
        (λ e. i)

  pub recover_bindings-Keeps :
      (d : Deployment) (plan : ExecutionPlan) (Raised : Ledger → Failure → Type 0) (g : Ledger)
      → I g
      → Ruled (λ h a. I h) Raised g (recover_bindings d plan)
  unfolding recover_bindings
  recover_bindings-Keeps d plan X g i = Ruled-swallow I X g (recover_stored d plan) (
      Ruled-ask (λ h a. I h) (λ h e. I h) g (get_execution_plan plan.intent_id) _ tt
        (λ stored. recover_entry_bindings-Keeps d (stored_or plan stored) g i) (λ e. i))
