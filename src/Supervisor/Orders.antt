-- ===== src/Supervisor/Orders.antt =====
-- position_management/_helpers.py and the selections of orders and positions of the supervisor.
use cautious_crypto_bro.Prelude.{
  ℕ, Bool, true, false, not, ◌&&◌, ◌||◌, Option, none, some, List, [], ◌∷◌, ◌++◌, map, select, any,
  if◌then◌else◌,
}
use cautious_crypto_bro.Prelude.Int.{pos, eqb_ℤ}
use cautious_crypto_bro.Prelude.Result.{Result, ok, err, or_raise}
use cautious_crypto_bro.Text.{Text, text, same_text, starts_with, prefix, lower, number_text}
use cautious_crypto_bro.Decimal.{Decimal, is_positive, sub, div, mul, abs}
use cautious_crypto_bro.Domain.Enums.{Side, long, short, side_is, other_side}
use cautious_crypto_bro.Domain.Plan.Defs.{PlannedOrder, ExecutionPlan}
use cautious_crypto_bro.Domain.Plan.Rules.{entry_orders}
use cautious_crypto_bro.Domain.Strategy.{PositionStrategy}
use cautious_crypto_bro.Domain.Account.{
  AccountPosition, AccountOrder, AccountStateSummary, OrderKind, entry, kind,
}
use cautious_crypto_bro.Supervisor.Ports.{Fault, several_positions, arithmetic, slice_without_order}

-- `==` of a Decimal and an optional one, and of two optional ones.
abbrev pub is_value : Option Decimal → Decimal → Bool
is_value none e = false
is_value (some d) e = eqb_ℤ d e

abbrev pub same_decimal? : Option Decimal → Option Decimal → Bool
same_decimal? none none = true
same_decimal? (some d) (some e) = eqb_ℤ d e
same_decimal? _ _ = false

-- `d or e`: zero counts as none.
abbrev pub or_value : Option Decimal → Decimal → Decimal
or_value none e = e
or_value (some d) e = if eqb_ℤ d (pos 0) then e else d

abbrev pub or_option : Option Decimal → Option Decimal → Option Decimal
or_option none e = e
or_option (some d) e = if eqb_ℤ d (pos 0) then e else some d

abbrev is_live_status : Text → Bool
is_live_status s =
    same_text s (text "New") || same_text s (text "PartiallyFilled") || same_text s (text "Filled")

-- `_matches_exit`
unfoldable pub matches_exit : AccountOrder → Side → Decimal → Decimal → Bool
matches_exit o side quantity price =
    side_is o.side (other_side side)
    && o.reduce_only
    && same_text o.order_type (text "Limit")
    && eqb_ℤ o.quantity quantity
    && is_live_status o.status
    && is_value o.price price

abbrev the_position : List AccountPosition → Result Fault (Option AccountPosition)
the_position [] = ok none
the_position (p ∷ []) = ok (some p)
the_position _ = err several_positions

-- `_find_position`
unfoldable pub find_position :
    PositionStrategy → AccountStateSummary → Result Fault (Option AccountPosition)
find_position s account =
    the_position (select (λ (p : AccountPosition). same_text p.symbol s.symbol) account.positions)

unfoldable pub divided : Decimal → Decimal → Result Fault Decimal
divided a b = or_raise (div a b) arithmetic

-- `_round_price` and `_round_down`
abbrev pub scaled : (Decimal → Decimal) → Decimal → Result Fault Decimal → Result Fault Decimal
scaled rounding tick (ok d) = ok (mul (rounding d) tick)
scaled rounding tick (err e) = err e

unfoldable pub to_steps : (Decimal → Decimal) → Decimal → Decimal → Result Fault Decimal
to_steps rounding value step = scaled rounding step (divided value step)

-- f"ccb-v2-{state.strategy_id.hex[:20]}-"
unfoldable pub owned_prefix : PositionStrategy → Text
owned_prefix s = text "ccb-v2-" ++ prefix 20 s.strategy_id ++ text "-"

-- `FillDetector.entry_link_id` and `exit_link_id`
unfoldable pub entry_link_id : PositionStrategy → Text → Text
entry_link_id s name = owned_prefix s ++ lower name

unfoldable pub exit_link_id : PositionStrategy → ℕ → Text
exit_link_id s index =
    owned_prefix s ++ text "t" ++ number_text index ++ text "r" ++ number_text s.exit_revision

abbrev pub is_entry : OrderKind → Bool
is_entry entry = true
is_entry _ = false

abbrev pub is_pending_entry : PositionStrategy → AccountOrder → Bool
is_pending_entry s o =
    same_text o.symbol s.symbol
    && is_entry (kind o)
    && starts_with o.order_link_id (owned_prefix s ++ text "e")

-- `_pending_entries`
unfoldable pub pending_entries : PositionStrategy → AccountStateSummary → List Text
pending_entries s account =
    map (λ (o : AccountOrder). o.order_link_id) (select (is_pending_entry s) account.open_orders)

-- The links of the plan's entries; a slice without its order is a KeyError.
unfoldable pub entry_links :
    PositionStrategy → ExecutionPlan → Result Fault (List (Text × PlannedOrder))
entry_links s plan = linked (entry_orders plan)
  where
    linked : Option (List PlannedOrder) → Result Fault (List (Text × PlannedOrder))
    linked none = err slice_without_order
    linked (some orders) = ok (map (λ (o : PlannedOrder). (entry_link_id s o.name, o)) orders)

abbrev pub is_partial_stop : AccountOrder → Bool
is_partial_stop o = same_text o.stop_order_type (text "PartialStopLoss")

abbrev pub link_among : Text → List (Text × PlannedOrder) → Bool
link_among link = any (λ (e : Text × PlannedOrder). same_text link e.0)

abbrev is_blank : Text → Bool
is_blank [] = true
is_blank _ = false

abbrev pub owned_partial_stop :
    PositionStrategy → ExecutionPlan → List (Text × PlannedOrder) → AccountOrder → Bool
owned_partial_stop s plan links o =
    same_text o.symbol s.symbol
    && side_is o.side (other_side s.side)
    && is_partial_stop o
    && is_value o.trigger_price plan.stop_loss
    && link_among o.parent_order_link_id links
    && not (is_blank o.order_id)
    && is_positive o.remaining_quantity

abbrev stops_among :
    PositionStrategy
    → ExecutionPlan
    → AccountStateSummary
    → Result Fault (List (Text × PlannedOrder))
    → Result Fault (List Text)
stops_among s plan account (ok links) = ok (
    map (λ (o : AccountOrder). o.order_id)
      (select (owned_partial_stop s plan links) account.open_orders))
stops_among s plan account (err e) = err e

-- `partial_stops`
unfoldable pub partial_stops :
    PositionStrategy → ExecutionPlan → AccountStateSummary → Result Fault (List Text)
partial_stops s plan account = stops_among s plan account (entry_links s plan)

abbrev favorable : AccountPosition → Side → Decimal
favorable p long = sub p.mark_price p.avg_price
favorable p short = sub p.avg_price p.mark_price

-- `_live_r`
unfoldable pub live_r : AccountPosition → Decimal → Result Fault Decimal
live_r p stop = divided (favorable p p.side) (abs (sub p.avg_price stop))
