-- ===== src/Coordinator/Preflight.antt =====
-- execution_coordinator.py: the checks before an entry.
use cautious_crypto_bro.Prelude.{
  Bool, true, false, not, ◌&&◌, Option, none, some, List, [], ◌∷◌, ◌++◌, map, select, any,
  if◌then◌else◌,
}
use cautious_crypto_bro.Prelude.Int.{ltb_ℤ}
use cautious_crypto_bro.Prelude.Result.{Result, ok, err, ◌>>=◌, raise_if, map_err}
use cautious_crypto_bro.Text.{Text, same_text}
use cautious_crypto_bro.Decimal.{Decimal, is_positive, add}
use cautious_crypto_bro.Domain.Enums.{Side, side_is, OpenRelation, ApprovalMode, mode_is}
use cautious_crypto_bro.Domain.Signal.{TradingIntent}
use cautious_crypto_bro.Domain.Plan.Defs.{ExecutionPlan}
use cautious_crypto_bro.Domain.Strategy.{PositionStrategy}
use cautious_crypto_bro.Domain.Account.{
  AccountPosition, AccountOrder, AccountStateSummary, is_protective,
}
use cautious_crypto_bro.PortfolioRisk.Defs.{RiskError, open_stop_risk_usdt}
use cautious_crypto_bro.Coordinator.Ports.{
  SafetyReason, relation_not_eligible, several_positions, new_conflict, opposite_exposure, Failure,
  arithmetic, index_error, risk_unverified, cap_exceeded, preflight_conflict, auto_unsafe,
  Deployment,
}

abbrev pub is_open_entry : TradingIntent → AccountOrder → Bool
is_open_entry i o =
    same_text o.symbol i.symbol
    && is_positive o.remaining_quantity
    && not o.reduce_only
    && not o.close_on_trigger
    && not (is_protective o)

abbrev pub open_positions : TradingIntent → AccountStateSummary → List AccountPosition
open_positions i state =
    select (λ (p : AccountPosition). same_text p.symbol i.symbol) state.positions

abbrev pub open_entries : TradingIntent → AccountStateSummary → List AccountOrder
open_entries i state = select (is_open_entry i) state.open_orders

abbrev pub existing_sides : TradingIntent → AccountStateSummary → List Side
existing_sides i state =
    map (λ (p : AccountPosition). p.side) (open_positions i state)
    ++ map (λ (o : AccountOrder). o.side) (open_entries i state)

abbrev pub more_than_one : List AccountPosition → Bool
more_than_one (p ∷ q ∷ ps) = true
more_than_one _ = false

abbrev pub is_nonempty {ℓ} : {A : Type ℓ} → List A → Bool
is_nonempty [] = false
is_nonempty _ = true

-- The sides of the exposure against the relation.
abbrev pub relation_reason : OpenRelation → Side → List Side → Option SafetyReason
relation_reason OpenRelation.new side sides = if is_nonempty sides then some new_conflict else none
relation_reason OpenRelation.add_or_reentry side sides =
    if any (λ other. not (side_is other side)) sides then some opposite_exposure else none
relation_reason _ side sides = some relation_not_eligible

abbrev pub may_open : OpenRelation → Bool
may_open OpenRelation.new = true
may_open OpenRelation.add_or_reentry = true
may_open _ = false

-- `auto_open_safety_reason`
unfoldable pub auto_open_safety_reason : TradingIntent → AccountStateSummary → Option SafetyReason
auto_open_safety_reason i state =
    if not (may_open i.relation)
    then some relation_not_eligible
    else if more_than_one (open_positions i state)
    then some several_positions
    else relation_reason i.relation i.side (existing_sides i state)

-- `except ValueError` around the portfolio risk.
abbrev risk_failure : RiskError → Failure
risk_failure RiskError.arithmetic = arithmetic
risk_failure RiskError.slice_without_order = index_error
risk_failure _ = risk_unverified

abbrev within_risk_cap :
    AccountStateSummary
    → List ExecutionPlan
    → ExecutionPlan
    → Option Decimal
    → Result Failure (Unit {0})
within_risk_cap state plans plan none = ok tt
within_risk_cap state plans plan (some cap) = do
  risk ← map_err risk_failure (open_stop_risk_usdt state plans)
  raise_if (ltb_ℤ cap (add risk plan.planned_max_loss_usdt)) cap_exceeded

abbrev no_reason : (SafetyReason → Failure) → Option SafetyReason → Result Failure (Unit {0})
no_reason wrap none = ok tt
no_reason wrap (some reason) = err (wrap reason)

abbrev pub owns_symbol : Text → List (PositionStrategy × ExecutionPlan) → Bool
owns_symbol symbol = any (λ (r : PositionStrategy × ExecutionPlan). same_text r.0.symbol symbol)

-- The checks on the snapshot.
unfoldable pub preflight_checks :
    Deployment
    → TradingIntent
    → ExecutionPlan
    → ApprovalMode
    → List ExecutionPlan
    → AccountStateSummary
    → Result Failure (Unit {0})
preflight_checks d i plan mode plans state = do
  risk ← within_risk_cap state plans plan d.portfolio_stop_risk_cap_usdt
  conflict ←
      no_reason preflight_conflict
        (auto_open_safety_reason (record i { relation = OpenRelation.new }) state)
  if mode_is mode ApprovalMode.auto
      then no_reason auto_unsafe (auto_open_safety_reason i state)
      else ok tt
