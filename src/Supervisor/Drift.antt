-- ===== src/Supervisor/Drift.antt =====
-- position_supervisor.py: the reasons to hand a live position over to a person.
use cautious_crypto_bro.Prelude.{
  Bool, true, false, not, ◌&&◌, ◌||◌, Option, none, some, is_some, List, [], ◌∷◌, map, select, any,
  first, if◌then◌else◌,
}
use cautious_crypto_bro.Prelude.Int.{ltb_ℤ, eqb_ℤ}
use cautious_crypto_bro.Prelude.Result.{Result, ok, ◌>>=◌}
use cautious_crypto_bro.Text.{Text, same_text}
use cautious_crypto_bro.Decimal.{Decimal}
use cautious_crypto_bro.Domain.Enums.{side_is, other_side}
use cautious_crypto_bro.Domain.Plan.Defs.{PlannedOrder, ExecutionPlan}
use cautious_crypto_bro.Domain.Strategy.{PositionStrategy}
use cautious_crypto_bro.Domain.Account.{AccountPosition, AccountOrder, AccountStateSummary}
use cautious_crypto_bro.Supervisor.Ports.{
  Fault, Reason, partial_stop_changed, partial_stop_unattributed, entry_unexpected,
  entry_side_changed, entry_quantity_changed, entry_price_changed, size_increased, average_changed,
  trailing_inconsistent, stop_changed, trailing_changed,
}
use cautious_crypto_bro.Supervisor.Orders.{
  is_value, entry_links, link_among, is_partial_stop, is_pending_entry, partial_stops,
}

-- An owned partial stop that is not the plan's.
abbrev is_changed_stop :
    PositionStrategy → ExecutionPlan → List (Text × PlannedOrder) → AccountOrder → Bool
is_changed_stop s plan links o =
    same_text o.symbol s.symbol
    && is_partial_stop o
    && link_among o.parent_order_link_id links
    && (not (is_value o.trigger_price plan.stop_loss) || not (side_is o.side (other_side s.side)))

abbrev is_foreign_stop :
    PositionStrategy → ExecutionPlan → List (Text × PlannedOrder) → AccountOrder → Bool
is_foreign_stop s plan links o =
    same_text o.symbol s.symbol
    && is_partial_stop o
    && is_value o.trigger_price plan.stop_loss
    && not (link_among o.parent_order_link_id links)

-- `_unattributed_partial_stop`
unfoldable pub unattributed_partial_stop :
    PositionStrategy
    → ExecutionPlan
    → AccountStateSummary
    → List (Text × PlannedOrder)
    → Option Reason
unattributed_partial_stop s plan account links =
    elim (first (is_changed_stop s plan links) account.open_orders) [
      | some o ↦ some (partial_stop_changed o.order_id)
      | none ↦
          if any (is_foreign_stop s plan links) account.open_orders
          then some partial_stop_unattributed
          else none
    ]

-- `expected.get(link)`: of two entries with one link the dict has the later.
abbrev planned_for : Text → List (Text × PlannedOrder) → Option PlannedOrder
planned_for link [] = none
planned_for link ((other, planned) ∷ links) =
    let later = planned_for link links in
    if is_some later then later else if same_text link other then some planned else none

abbrev price_reason : Text → Option Decimal → Option Decimal → Option Reason
price_reason link none live = none
price_reason link (some expected) live =
    if is_value live expected then none else some (entry_price_changed link expected live)

-- `_entry_order_drift`
abbrev order_drift : PositionStrategy → AccountOrder → Option PlannedOrder → Option Reason
order_drift s o none = some (entry_unexpected o.order_link_id)
order_drift s o (some planned) =
    if not (side_is o.side s.side)
    then some (entry_side_changed o.order_link_id)
    else if not (eqb_ℤ o.quantity planned.quantity)
    then some (entry_quantity_changed o.order_link_id)
    else price_reason o.order_link_id planned.price o.price

unfoldable pub entry_order_drift :
    PositionStrategy → List (Text × PlannedOrder) → AccountOrder → Option Reason
entry_order_drift s links o = order_drift s o (planned_for o.order_link_id links)

abbrev first_reason : List (Option Reason) → Option Reason
first_reason [] = none
first_reason (none ∷ rest) = first_reason rest
first_reason (some reason ∷ rest) = some reason

-- `_owned_entry_drift`
unfoldable pub owned_entry_drift :
    PositionStrategy → AccountStateSummary → List (Text × PlannedOrder) → Option Reason
owned_entry_drift s account links =
    if s.entry_frozen
    then none
    else first_reason
        (map (entry_order_drift s links) (select (is_pending_entry s) account.open_orders))

abbrev exceeds : Decimal → Option Decimal → Bool
exceeds d none = false
exceeds d (some e) = ltb_ℤ e d

abbrev is_other : Decimal → Option Decimal → Bool
is_other d none = false
is_other d (some e) = not (eqb_ℤ d e)

-- `_size_increased_after_freeze`
unfoldable pub size_increased_after_freeze : PositionStrategy → AccountPosition → Option Reason
size_increased_after_freeze s p =
    if s.entry_frozen && not s.rebalance_needed && exceeds p.size s.last_position_qty
    then some size_increased
    else none

-- `_average_changed_after_freeze`
unfoldable pub average_changed_after_freeze : PositionStrategy → AccountPosition → Option Reason
average_changed_after_freeze s p =
    if s.entry_frozen && not s.rebalance_needed && is_other p.avg_price s.last_avg_price
    then some average_changed
    else none

abbrev has_stops : List Text → Bool
has_stops [] = false
has_stops _ = true

-- `_protection_drift`, with the strategy's stop.
abbrev stop_drift : AccountPosition → List Text → Option Decimal → Option Reason
stop_drift p stops none = none
stop_drift p stops (some expected) =
    if not (is_value p.stop_loss expected) && not (not (is_some p.stop_loss) && has_stops stops)
    then some (stop_changed expected p.stop_loss)
    else none

unfoldable pub protection_drift : PositionStrategy → AccountPosition → List Text → Option Reason
protection_drift s p stops = stop_drift p stops s.protected_stop_loss

abbrev distance_drift : AccountPosition → Option Decimal → Option Reason
distance_drift p none = some trailing_inconsistent
distance_drift p (some expected) =
    if is_value p.trailing_stop expected
    then none
    else some (trailing_changed expected p.trailing_stop)

-- `_trailing_drift`
unfoldable pub trailing_drift : PositionStrategy → AccountPosition → Option Reason
trailing_drift s p = if s.trailing_active then distance_drift p s.trailing_distance else none

-- `_manual_override_reason`: the checks in their order.
unfoldable pub manual_override_reason :
    PositionStrategy
    → ExecutionPlan
    → AccountStateSummary
    → AccountPosition
    → Result Fault (Option Reason)
manual_override_reason s plan account p = do
  links ← entry_links s plan
  stops ← partial_stops s plan account
  ok (
      first_reason (
        unattributed_partial_stop s plan account links
        ∷ owned_entry_drift s account links
        ∷ size_increased_after_freeze s p
        ∷ average_changed_after_freeze s p
        ∷ protection_drift s p stops
        ∷ trailing_drift s p
        ∷ []))
