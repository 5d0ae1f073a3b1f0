-- ===== src/PortfolioRisk/Defs.antt =====
-- portfolio_risk.py: the stop risk that the account already carries.
use cautious_crypto_bro.Prelude.{
  Bool, true, false, not, ◌&&◌, ◌||◌, Option, none, some, List, [], ◌∷◌, ◌++◌, map, select, first,
  any, if◌then◌else◌,
}
use cautious_crypto_bro.Prelude.Int.{pos, leb_ℤ, eqb_ℤ}
use cautious_crypto_bro.Prelude.Result.{Result, ok, ◌>>=◌, ◌>>◌, raise_if, or_raise, map_err}
use cautious_crypto_bro.Text.{Text, text, same_text, starts_with, prefix, upper, lower, after_last}
use cautious_crypto_bro.Decimal.{Decimal, is_positive, add, sub, mul, div, abs, max, min, dec, sum}
use cautious_crypto_bro.Domain.Enums.{Side, long, short, side_is, other_side}
use cautious_crypto_bro.Domain.Invalid.{Invalid}
use cautious_crypto_bro.Domain.Policy.{ExecutionPolicy, risk_budget_usdt}
use cautious_crypto_bro.Domain.Plan.Defs.{PlannedOrder, ExecutionPlan}
use cautious_crypto_bro.Domain.Plan.Rules.{entry_orders}
use cautious_crypto_bro.Domain.Account.{
  AccountPosition, AccountOrder, AccountStateSummary, is_protective,
}

-- The messages of `PortfolioRiskUnavailable` and of the ValueErrors; `slice_without_order` is the
-- KeyError of `ExecutionPlan.entry_orders`.
pub data RiskError : Type 0 where
  no_exchange_stop unknown_plan plan_mismatch no_price slice_without_order : RiskError
  no_capacity no_capital arithmetic : RiskError
  bad_policy : Invalid → RiskError

abbrev pub plan_of_position : AccountPosition → ExecutionPlan → Bool
plan_of_position p plan = same_text plan.symbol p.symbol && side_is plan.side p.side

abbrev pub link_prefix : ExecutionPlan → Text
link_prefix plan = text "ccb-v2-" ++ prefix 20 plan.intent_id ++ text "-"

abbrev pub equals : Decimal → Option Decimal → Bool
equals d none = false
equals d (some e) = eqb_ℤ d e

abbrev is_empty : Text → Bool
is_empty [] = true
is_empty (c ∷ s) = false

-- A native partial stop of one of the plan's entries.
abbrev pub covers : AccountPosition → ExecutionPlan → List Text → AccountOrder → Bool
covers p plan parents o =
    same_text o.symbol p.symbol
    && side_is o.side (other_side p.side)
    && same_text o.stop_order_type (text "PartialStopLoss")
    && equals plan.stop_loss o.trigger_price
    && any (same_text o.parent_order_link_id) parents
    && not (is_empty o.order_id)
    && is_positive o.remaining_quantity

-- The stop of the only plan, where its partial stops cover the position.
unfoldable pub covered_stop :
    AccountPosition → AccountStateSummary → List ExecutionPlan → Result RiskError (Option Decimal)
covered_stop p state (plan ∷ []) = do
  orders ← or_raise (entry_orders plan) slice_without_order
  let parents = map (λ (o : PlannedOrder). link_prefix plan ++ lower o.name) orders
  let covered = sum (
      map (λ (o : AccountOrder). o.remaining_quantity)
        (select (covers p plan parents) state.open_orders))
  ok (if eqb_ℤ covered p.size then some plan.stop_loss else none)
covered_stop p state _ = ok none

abbrev pub stop_or_covered :
    Option Decimal
    → AccountPosition
    → AccountStateSummary
    → List ExecutionPlan
    → Result RiskError (Option Decimal)
stop_or_covered (some stop) p state plans = ok (some stop)
stop_or_covered none p state plans = covered_stop p state (select (plan_of_position p) plans)

-- `_verified_position_stop_loss`
unfoldable pub verified_position_stop_loss :
    AccountPosition → AccountStateSummary → List ExecutionPlan → Result RiskError (Option Decimal)
verified_position_stop_loss p = stop_or_covered p.stop_loss p

abbrev pub loss_per_unit : Side → Decimal → Decimal → Decimal
loss_per_unit long price stop = max (pos 0) (sub price stop)
loss_per_unit short price stop = max (pos 0) (sub stop price)

-- The first loop of `open_stop_risk_usdt`.
unfoldable pub position_risk :
    AccountStateSummary
    → List ExecutionPlan
    → List AccountPosition
    → Decimal
    → Result RiskError Decimal
position_risk state plans [] total = ok total
position_risk state plans (p ∷ positions) total = do
  found ← verified_position_stop_loss p state plans
  stop ← or_raise found no_exchange_stop
  position_risk state plans positions
      (add total (mul p.size (loss_per_unit p.side p.avg_price stop)))

-- The orders that the second loop skips.
abbrev pub is_passive : AccountOrder → Bool
is_passive o =
    leb_ℤ o.remaining_quantity (pos 0) || o.reduce_only || o.close_on_trigger || is_protective o

abbrev pub owns : AccountOrder → ExecutionPlan → Bool
owns o plan = starts_with o.order_link_id (link_prefix plan)

abbrev planned_price : Option PlannedOrder → Option Decimal
planned_price none = none
planned_price (some o) = some o.reference_price

-- `order.price or ...`: a price of zero counts as none.
abbrev price_or : Option Decimal → Option Decimal → Option Decimal
price_or none other = other
price_or (some d) other = if eqb_ℤ d (pos 0) then other else some d

-- What one live entry order adds.
unfoldable pub entry_risk : AccountOrder → List ExecutionPlan → Result RiskError Decimal
entry_risk o plans = do
  plan ← or_raise (first (owns o) plans) unknown_plan
  raise_if (not (same_text o.symbol plan.symbol) || not (side_is o.side plan.side)) plan_mismatch
  orders ← or_raise (entry_orders plan) slice_without_order
  let planned =
      first (λ (e : PlannedOrder). same_text (upper e.name) (upper (after_last 45 o.order_link_id)))
        orders
  price ← or_raise (price_or o.price (planned_price planned)) no_price
  ok (mul o.remaining_quantity (abs (sub price plan.stop_loss)))

-- The second loop of `open_stop_risk_usdt`.
unfoldable pub order_risk :
    List ExecutionPlan → List AccountOrder → Decimal → Result RiskError Decimal
order_risk plans [] total = ok total
order_risk plans (o ∷ orders) total =
    if is_passive o
    then order_risk plans orders total
    else (entry_risk o plans >>= λ risk. order_risk plans orders (add total risk))

-- `open_stop_risk_usdt`; the strategies' plans are all that it reads of them.
unfoldable pub open_stop_risk_usdt :
    AccountStateSummary → List ExecutionPlan → Result RiskError Decimal
open_stop_risk_usdt state plans = do
  total ← position_risk state plans state.positions (dec 0)
  order_risk plans state.open_orders total

abbrev limited : ExecutionPolicy → Decimal → Decimal → Result RiskError ExecutionPolicy
limited policy budget effective = if eqb_ℤ effective budget then ok policy else do
  capital ← or_raise policy.trading_capital_usdt no_capital
  pct ← or_raise (div (mul effective (dec 100)) capital) arithmetic
  ok (record policy { risk_per_trade_pct = pct })

-- `policy_with_remaining_portfolio_risk`
unfoldable pub policy_with_remaining_portfolio_risk :
    ExecutionPolicy → Decimal → Result RiskError ExecutionPolicy
policy_with_remaining_portfolio_risk policy remaining = do
  raise_if (leb_ℤ remaining (pos 0)) no_capacity
  budget ← map_err bad_policy (risk_budget_usdt policy)
  limited policy budget (min budget remaining)
