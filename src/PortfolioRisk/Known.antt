-- ===== src/PortfolioRisk/Known.antt =====
-- portfolio_risk.py: the risk is a number only where every exposure has a known stop.
use mathlib.Core.Path.{subst}
use cautious_crypto_bro.Prelude.{
  ◌≡◌, refl, sym, ◌∙◌, ◌⊎◌, inl, inr, Bool, true, false, not, ◌&&◌, ◌||◌, ◌==◌, Option, none, some,
  List, [], ◌∷◌, ◌++◌, any, map, select, length, arith, first, All, if_both,
}
use cautious_crypto_bro.Prelude.Int.{pos, eqb_ℤ, ltb_ℤ}
use cautious_crypto_bro.Prelude.Result.{ok, through, past, or_raise, or_raise_ok}
use cautious_crypto_bro.Text.{Text, text, same_text, same_text-true, prefix, lower, starts_with}
use cautious_crypto_bro.Decimal.{Decimal, add, dec, sum}
use cautious_crypto_bro.Domain.Enums.{side_is}
use cautious_crypto_bro.Domain.Plan.Defs.{PlannedOrder, ExecutionPlan}
use cautious_crypto_bro.Domain.Plan.Rules.{entry_orders}
use cautious_crypto_bro.Domain.Account.{
  AccountPosition, AccountOrder, AccountStateSummary, is_protective,
}
use cautious_crypto_bro.PortfolioRisk.Defs.{
  verified_position_stop_loss, position_risk, order_risk, entry_risk, open_stop_risk_usdt,
  is_passive, owns, no_exchange_stop, unknown_plan, slice_without_order, covered_stop,
  stop_or_covered, covers, link_prefix,
}

-- A plan of the position's symbol and side.
abbrev pub is_for : AccountPosition → ExecutionPlan → Bool
is_for p plan = same_text plan.symbol p.symbol && side_is plan.side p.side

-- A live partial stop against the position, at the stop of the plan, that hangs on an entry order of it.
abbrev pub is_stop_of : AccountPosition → ExecutionPlan → List PlannedOrder → AccountOrder → Bool
is_stop_of p plan entries o =
    same_text o.symbol p.symbol
    && not (side_is o.side p.side)
    && same_text o.stop_order_type (text "PartialStopLoss")
    && stops_at o.trigger_price
    && any
        (λ (e : PlannedOrder).
          same_text o.parent_order_link_id
            ((text "ccb-v2-" ++ prefix 20 plan.intent_id ++ text "-") ++ lower e.name))
        entries
    && not (length o.order_id == 0)
    && ltb_ℤ (pos 0) o.remaining_quantity
  where
    stops_at : Option Decimal → Bool
    stops_at none = false
    stops_at (some price) = eqb_ℤ plan.stop_loss price

-- A position with a stop of its own, or with exactly one plan of its symbol and side whose live partial
-- stops add up to its size.
pub HasStop : AccountStateSummary → List ExecutionPlan → AccountPosition → Type 0
HasStop state plans p =
    ((stop : Decimal) × (p.stop_loss ≡ some stop))
    ⊎ ((plan : ExecutionPlan) × (entries : List PlannedOrder) × (select (is_for p) plans
          ≡ plan ∷ [])
        × (entry_orders plan ≡ some entries)
        × (eqb_ℤ
              (sum (
                map (λ (o : AccountOrder). o.remaining_quantity)
                  (select (is_stop_of p plan entries) state.open_orders)))
              p.size
            ≡ true))

-- An order that adds no risk: nothing is left of it, or it reduces, closes or protects a position.
abbrev pub adds_nothing : AccountOrder → Bool
adds_nothing o =
    not (ltb_ℤ (pos 0) o.remaining_quantity)
    || o.reduce_only
    || o.close_on_trigger
    || is_protective o

-- The link identifier is one of the plan's.
abbrev pub is_linked : AccountOrder → ExecutionPlan → Bool
is_linked o plan =
    starts_with o.order_link_id (text "ccb-v2-" ++ prefix 20 plan.intent_id ++ text "-")

-- An order that adds no risk, or the first plan that owns it is for its symbol and its side.
pub IsPlanned : List ExecutionPlan → AccountOrder → Type 0
IsPlanned plans o =
    (adds_nothing o ≡ true)
    ⊎ ((plan : ExecutionPlan) × (first (is_linked o) plans ≡ some plan)
        × (o.symbol ≡ plan.symbol)
        × (side_is o.side plan.side ≡ true))

parents_any :
    (link : Text) (plan : ExecutionPlan) (entries : List PlannedOrder)
    → any (same_text link) (map (λ (o : PlannedOrder). link_prefix plan ++ lower o.name) entries)
      ≡ any (λ (e : PlannedOrder). same_text link (link_prefix plan ++ lower e.name)) entries
parents_any link plan [] = refl
parents_any link plan (e ∷ entries) = ground (arith, parents_any link plan entries)

covers-same :
    (p : AccountPosition) (plan : ExecutionPlan) (entries : List PlannedOrder) (o : AccountOrder)
    → covers p plan (map (λ (o : PlannedOrder). link_prefix plan ++ lower o.name) entries) o
      ≡ is_stop_of p plan entries o
covers-same p plan entries o = ground (arith, parents_any o.parent_order_link_id plan entries)

select-same :
    (f g : AccountOrder → Bool)
    → ((o : AccountOrder) → f o ≡ g o)
    → (orders : List AccountOrder) → select f orders ≡ select g orders
select-same f g same [] = refl
select-same f g same (o ∷ orders) = ground (arith, same o, select-same f g same orders)

covered-HasStop :
    (state : AccountStateSummary) (plans : List ExecutionPlan) (p : AccountPosition)
    (only : List ExecutionPlan) (stop : Decimal)
    → select (is_for p) plans ≡ only
    → covered_stop p state only ≡ ok (some stop)
    → HasStop state plans p
unfolding HasStop covered_stop
covered-HasStop state plans p [] stop s h = absurd (cc)
covered-HasStop state plans p (plan ∷ []) stop s h =
    through (or_raise (entry_orders plan) slice_without_order) _ h λ entries e h'. inr (
      plan,
      entries,
      s,
      or_raise_ok (entry_orders plan) slice_without_order e,
      subst (λ os. eqb_ℤ (sum (map (λ (o : AccountOrder). o.remaining_quantity) os)) p.size ≡ true)
          (select-same _ (is_stop_of p plan entries) (covers-same p plan entries) state.open_orders)
          (ground arith),
    )
covered-HasStop state plans p (plan ∷ other ∷ only) stop s h = absurd (cc)

verified-HasStop :
    (state : AccountStateSummary) (plans : List ExecutionPlan) (p : AccountPosition)
    (own : Option Decimal) (stop : Decimal)
    → p.stop_loss ≡ own
    → stop_or_covered own p state plans ≡ ok (some stop)
    → HasStop state plans p
unfolding HasStop
verified-HasStop state plans p (some own) stop e h = inl (own, e)
verified-HasStop state plans p none stop e h =
    covered-HasStop state plans p (select (is_for p) plans) stop refl h

positions-HasStop :
    (state : AccountStateSummary) (plans : List ExecutionPlan) (ps : List AccountPosition)
    (total : Decimal) {result : Decimal}
    → position_risk state plans ps total ≡ ok result
    → All (HasStop state plans) ps
unfolding position_risk verified_position_stop_loss
positions-HasStop state plans [] total h = tt
positions-HasStop state plans (p ∷ ps) total h =
    through (verified_position_stop_loss p state plans) _ h λ found e h'.
      through (or_raise found no_exchange_stop) _ h' λ stop e' h''. (
        verified-HasStop state plans p p.stop_loss stop refl (
            subst (λ o. verified_position_stop_loss p state plans ≡ ok o)
              (or_raise_ok found no_exchange_stop e') e),
        positions-HasStop state plans ps _ h'',
      )

passive-same : (o : AccountOrder) → is_passive o ≡ adds_nothing o
passive-same o = ground arith

entry-IsPlanned :
    (o : AccountOrder) (plans : List ExecutionPlan) {risk : Decimal}
    → entry_risk o plans ≡ ok risk
    → (plan : ExecutionPlan) × (first (owns o) plans ≡ some plan)
      × (o.symbol ≡ plan.symbol)
      × (side_is o.side plan.side ≡ true)
unfolding entry_risk
entry-IsPlanned o plans h = through (or_raise (first (owns o) plans) unknown_plan) _ h λ plan e h'.
    past (not (same_text o.symbol plan.symbol) || not (side_is o.side plan.side)) _ _ h' λ c _. (
      plan,
      or_raise_ok (first (owns o) plans) unknown_plan e,
      same_text-true o.symbol plan.symbol (ground arith),
      ground arith,
    )

orders-IsPlanned :
    (plans : List ExecutionPlan) (orders : List AccountOrder) (total : Decimal) (result : Decimal)
    → order_risk plans orders total ≡ ok result
    → All (IsPlanned plans) orders
unfolding order_risk IsPlanned
orders-IsPlanned plans [] total result h = tt
orders-IsPlanned plans (o ∷ orders) total result h =
    if_both (λ r. r ≡ ok result → IsPlanned plans o × All (IsPlanned plans) orders) (is_passive o)
      (λ e k. (inl (sym (passive-same o) ∙ e), orders-IsPlanned plans orders total result k))
      (λ _ k. through (entry_risk o plans) _ k λ risk e k'.
        (inr (entry-IsPlanned o plans e), orders-IsPlanned plans orders (add total risk) result k'))
      h

-- The open risk is computed only where it is bounded. When `open_stop_risk_usdt` returns a number, every
-- position has a stop of its own, or has exactly one plan of its symbol and side whose live partial
-- stops, at the stop of the plan, add up to the position's size; and every order that can add risk (some
-- quantity left, not reducing, closing or protective) is owned by a plan of its symbol and side.
pub open_stop_risk-IsKnown :
    (state : AccountStateSummary) (plans : List ExecutionPlan) (total : Decimal)
    → open_stop_risk_usdt state plans ≡ ok total
    → All (HasStop state plans) state.positions × All (IsPlanned plans) state.open_orders
unfolding open_stop_risk_usdt
open_stop_risk-IsKnown state plans total h =
    through (position_risk state plans state.positions (dec 0)) _ h λ held e h'. (
      positions-HasStop state plans state.positions (dec 0) e,
      orders-IsPlanned plans state.open_orders held total h',
    )
