-- ===== src/Domain/Plan/Rules.antt =====
-- domain.py: the validators of `ExecutionPlan`, and its physical entry orders.
use cautious_crypto_bro.Prelude.{
  ℕ, suc, Bool, true, false, not, ◌&&◌, ◌||◌, Option, none, some, is_some, if◌then◌else◌, List, [],
  ◌∷◌, ◌++◌, map, length, any, all, select, first, leb, ◌==◌,
}
use mathlib.Core.List.{reverse}
use cautious_crypto_bro.Prelude.Int.{ltb_ℤ, leb_ℤ, eqb_ℤ}
use cautious_crypto_bro.Prelude.Result.{Result, ok, ◌>>=◌, ◌>>◌, raise_if}
use cautious_crypto_bro.Text.{Text, text, same_text}
use cautious_crypto_bro.Decimal.{Decimal, is_positive, add, dec, sum}
use cautious_crypto_bro.Domain.Invalid.{
  Invalid, out_of_bounds, over_risk_budget, slices_need_v2, slices_not_contiguous,
  slices_out_of_order, slice_fill_incomplete, slice_quantity, not_three_legs, leg_names,
  leg_risk_missing, leg_risk_total, leg_take_profit, not_three_exits, exit_pct_total,
  target_pct_total,
}
use cautious_crypto_bro.Domain.Enums.{is_market}
use cautious_crypto_bro.Domain.Signal.{none_or_positive}
use cautious_crypto_bro.Domain.Policy.{risk_budget_usdt, validate_policy}
use cautious_crypto_bro.Domain.Plan.Defs.{
  PlannedTakeProfit, PlannedOrder, Leg, e1, e2, e3, leg_name, EntrySlice, validate_slice,
  slice_name, ExecutionPlan,
}

-- The values of the fields that are set, in order.
abbrev pub present : List (Option Decimal) → List Decimal
present [] = []
present (none ∷ ds) = present ds
present (some d ∷ ds) = d ∷ present ds

abbrev pub three_names : List PlannedOrder → Bool
three_names (a ∷ b ∷ c ∷ []) =
    same_text a.name (text "E1") && same_text b.name (text "E2") && same_text c.name (text "E3")
three_names _ = false

abbrev pub risk_pcts : List PlannedOrder → List (Option Decimal)
risk_pcts = map (λ (o : PlannedOrder). o.risk_pct)

abbrev pub close_pcts : List PlannedTakeProfit → List Decimal
close_pcts = map (λ (t : PlannedTakeProfit). t.close_pct)

-- `_validate_v2_ladder`
unfoldable pub validate_v2_ladder : ExecutionPlan → Result Invalid (Unit {0})
validate_v2_ladder p = do
  raise_if (not (length p.orders == 3)) not_three_legs
  raise_if (not (three_names p.orders)) leg_names
  raise_if (any (λ (o : PlannedOrder). not (is_some o.risk_pct)) p.orders) leg_risk_missing
  raise_if (not (eqb_ℤ (sum (present (risk_pcts p.orders))) (dec 100))) leg_risk_total
  raise_if (any (λ (o : PlannedOrder). is_some o.take_profit) p.orders) leg_take_profit
  raise_if (not (length p.take_profit_targets == 3)) not_three_exits
  raise_if (not (eqb_ℤ (add (sum (close_pcts p.take_profit_targets)) p.runner_pct) (dec 100)))
      exit_pct_total

-- `_validate_target_percentages_total_100`
unfoldable pub validate_target_percentages : ExecutionPlan → Result Invalid (Unit {0})
validate_target_percentages p =
    raise_if (not (eqb_ℤ (sum (close_pcts p.take_profit_targets)) (dec 100))) target_pct_total

-- `tuple(s for s in self.entry_slices if s.leg_name == order.name)`
abbrev pub children_of : PlannedOrder → List EntrySlice → List EntrySlice
children_of o = select (λ s. same_text (leg_name s.leg) o.name)

-- The indexes are n, n + 1, ...
unfoldable pub counts_from : ℕ → List EntrySlice → Bool
counts_from n [] = true
counts_from n (s ∷ rest) = s.index == n && counts_from (suc n) rest

abbrev pub only_zero : List EntrySlice → Bool
only_zero (s ∷ []) = s.index == 0
only_zero _ = false

abbrev pub executed_or_planned : EntrySlice → Option Decimal → Decimal
executed_or_planned s none = s.quantity
executed_or_planned s (some filled) = filled

abbrev pub is_filled : EntrySlice → Bool
is_filled s = is_some s.filled_quantity

abbrev pub slice_quantities : List EntrySlice → List Decimal
slice_quantities = map (λ (s : EntrySlice). executed_or_planned s s.filled_quantity)

-- `_validate_slice_quantities`
unfoldable pub validate_slice_quantities :
    PlannedOrder → List EntrySlice → Result Invalid (Unit {0})
validate_slice_quantities o children = do
  raise_if
      (any is_filled children && (not (all is_filled children) || not (is_market o.order_type)))
      slice_fill_incomplete
  raise_if (not (eqb_ℤ (sum (slice_quantities children)) o.quantity)) slice_quantity

-- The loop of `_validate_entry_slices`: the slices in the order of the legs.
unfoldable pub ordered_slices :
    List PlannedOrder → List EntrySlice → Result Invalid (List EntrySlice)
ordered_slices [] slices = ok []
ordered_slices (o ∷ orders) slices = do
  let children = children_of o slices
  raise_if (length children == 0 || not (counts_from 1 children) && not (only_zero children))
      slices_not_contiguous
  validate_slice_quantities o children
  rest ← ordered_slices orders slices
  ok (children ++ rest)

abbrev same_leg : Leg → Leg → Bool
same_leg e1 e1 = true
same_leg e2 e2 = true
same_leg e3 e3 = true
same_leg _ _ = false

abbrev same_optional : Option Decimal → Option Decimal → Bool
same_optional none none = true
same_optional (some a) (some b) = eqb_ℤ a b
same_optional _ _ = false

unfoldable pub same_slice : EntrySlice → EntrySlice → Bool
same_slice a b =
    same_leg a.leg b.leg
    && a.index == b.index
    && eqb_ℤ a.quantity b.quantity
    && same_optional a.filled_quantity b.filled_quantity

unfoldable pub same_slices : List EntrySlice → List EntrySlice → Bool
same_slices [] [] = true
same_slices (a ∷ as') (b ∷ bs) = same_slice a b && same_slices as' bs
same_slices _ _ = false

-- `_validate_entry_slices`
unfoldable pub validate_entry_slices : ExecutionPlan → Result Invalid (Unit {0})
validate_entry_slices p = if length p.entry_slices == 0 then ok tt else do
  raise_if (not (p.strategy_version == 2)) slices_need_v2
  ordered ← ordered_slices p.orders p.entry_slices
  raise_if (not (same_slices ordered p.entry_slices)) slices_out_of_order

-- The constraints of the fields of `ExecutionPlan`.
unfoldable pub plan_bounds : ExecutionPlan → Bool
plan_bounds p =
    leb 1 p.strategy_version
    && leb_ℤ (dec 1) p.leverage
    && leb 1 (length p.orders)
    && leb (length p.orders) 20
    && leb (length p.entry_slices) 500
    && is_positive p.stop_loss
    && is_positive p.take_profit
    && none_or_positive p.trader_take_profit
    && leb_ℤ (dec 0) p.runner_pct
    && ltb_ℤ p.runner_pct (dec 100)
    && leb_ℤ (dec 0) p.planned_max_loss_usdt

-- The check of the ladder, by the version of the plan.
unfoldable pub validate_ladder : ExecutionPlan → Result Invalid (Unit {0})
validate_ladder p =
    if leb 2 p.strategy_version
    then validate_v2_ladder p
    else if length p.take_profit_targets == 0
    then ok tt
    else validate_target_percentages p

-- `ExecutionPlan.validate_risk_budget`, after the constraints of the fields.
unfoldable pub validate_plan : ExecutionPlan → Result Invalid ExecutionPlan
validate_plan p = do
  raise_if (not (plan_bounds p)) out_of_bounds
  budget ← risk_budget_usdt p.policy
  raise_if (ltb_ℤ budget p.planned_max_loss_usdt) over_risk_budget
  validate_ladder p
  validate_entry_slices p
  ok p

unfoldable pub validate_slices : List EntrySlice → Result Invalid (Unit {0})
validate_slices [] = ok tt
validate_slices (s ∷ slices) = do _ ← validate_slice s; validate_slices slices

-- `ExecutionPlan.model_validate(payload)` where the policy and the slices were dumped before: they
-- are validated anew. Orders and targets are handed over as objects, which are not.
unfoldable pub revalidate_plan : ExecutionPlan → Result Invalid ExecutionPlan
revalidate_plan p = do validate_policy p.policy; validate_slices p.entry_slices; validate_plan p

-- `logical[name]`: a later order of the same name hides an earlier one.
abbrev pub logical : List PlannedOrder → Text → Option PlannedOrder
logical orders name = first (λ (o : PlannedOrder). same_text o.name name) (reverse orders)

abbrev physical :
    EntrySlice → Option PlannedOrder → Option (List PlannedOrder) → Option (List PlannedOrder)
physical s (some o) (some rest) =
    some (record o { name = slice_name s; quantity = s.quantity; risk_pct = none } ∷ rest)
physical s _ _ = none

unfoldable pub physical_orders : List PlannedOrder → List EntrySlice → Option (List PlannedOrder)
physical_orders orders [] = some []
physical_orders orders (s ∷ slices) =
    physical s (logical orders (leg_name s.leg)) (physical_orders orders slices)

-- `ExecutionPlan.entry_orders`; `none` is the KeyError of a slice without its order.
unfoldable pub entry_orders : ExecutionPlan → Option (List PlannedOrder)
entry_orders p =
    if length p.entry_slices == 0 then some p.orders else physical_orders p.orders p.entry_slices
