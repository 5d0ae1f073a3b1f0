-- ===== src/Planner/Geometry.antt =====
-- Where the levels of a plan lie: the stop, the entries, the weighted entry and the exits.
use cautious_crypto_bro.Prelude.{
  ℕ, ◌≡◌, refl, sym, ap, false, not, Option, none, some, List, [], ◌∷◌, ◌++◌, map, arith, length,
  ◌==◌,
}
use mathlib.Core.Path.{subst}
use mathlib.Core.List.{head?}
use cautious_crypto_bro.Prelude.Int.{◌≤ℤ◌, ◌<ℤ◌, leb_ℤ, pos}
use cautious_crypto_bro.Prelude.Result.{ok, through, past, map_err_ok, ok_injective}
use cautious_crypto_bro.Decimal.{Decimal, abs, sub}
use cautious_crypto_bro.Domain.Enums.{Side, long, short, EntryType, TakeProfitSource}
use cautious_crypto_bro.Domain.Signal.{TradingIntent}
use cautious_crypto_bro.Domain.Policy.{InstrumentContext, StrategyV2Policy, ExecutionPolicy}
use cautious_crypto_bro.Domain.Plan.Defs.{
  PlannedOrder, PlannedTakeProfit, ExecutionPlan, validate_take_profit,
}
use cautious_crypto_bro.Planner.Error.{checked, invalid}
use cautious_crypto_bro.Planner.Entries.{round_price}
use cautious_crypto_bro.Planner.Sizing.{
  validate_entry_geometry, passed_through, validate_not_passed_through,
}
use cautious_crypto_bro.Planner.Targets.{
  TakeProfitRequest, Rules, collapses, derived_take_profits, chosen_rules,
  build_take_profit_targets, round_target, take_profit_targets, validate_target_geometry,
}
use cautious_crypto_bro.Planner.Build.{weighted_entry, plan}
use cautious_crypto_bro.Planner.Stages.{Stages}
use cautious_crypto_bro.Planner.Risk.{IsBuilt, plan-IsBuilt}

-- `b` lies strictly on the losing side of `a`.
abbrev pub Worse : Side → Decimal → Decimal → Type 0
Worse long a b = b <ℤ a
Worse short a b = a <ℤ b

-- Each value lies strictly on the losing side of the one before it.
abbrev pub Worsens : Side → List Decimal → Type 0
Worsens side [] = Unit
Worsens side (a ∷ []) = Unit
Worsens side (a ∷ b ∷ rest) = Worse side a b × Worsens side (b ∷ rest)

-- Each value lies strictly on the winning side of the one before it.
abbrev pub Improves : Side → List Decimal → Type 0
Improves side [] = Unit
Improves side (a ∷ []) = Unit
Improves side (a ∷ b ∷ rest) = Worse side b a × Improves side (b ∷ rest)

abbrev pub target_prices : List PlannedTakeProfit → List Decimal
target_prices = map (λ (t : PlannedTakeProfit). t.price)

abbrev pub reference_prices : List PlannedOrder → List Decimal
reference_prices = map (λ (o : PlannedOrder). o.reference_price)

pub validate_entry_geometry-Worsens :
    (side : Side) (a b d stop : Decimal)
    → validate_entry_geometry side a b d stop ≡ ok tt
    → Worsens side (a ∷ b ∷ d ∷ stop ∷ [])
unfolding validate_entry_geometry
validate_entry_geometry-Worsens long a b d stop h = ground arith
validate_entry_geometry-Worsens short a b d stop h = ground arith

-- With a price before them, or none, the exits improve on it.
abbrev ImprovesFrom : Side → Option Decimal → List PlannedTakeProfit → Type 0
ImprovesFrom side none targets = Improves side (target_prices targets)
ImprovesFrom side (some a) targets = Improves side (a ∷ target_prices targets)

validate_take_profit-same :
    (t : PlannedTakeProfit) {u : PlannedTakeProfit} → validate_take_profit t ≡ ok u → u ≡ t
unfolding validate_take_profit
validate_take_profit-same t h = ground arith

from_price :
    (side : Side) (previous : Option Decimal) (t : PlannedTakeProfit)
    (rest : List PlannedTakeProfit)
    → collapses side previous t.price ≡ false
    → Improves side (t.price ∷ target_prices rest)
    → ImprovesFrom side previous (t ∷ rest)
from_price side none t rest h k = k
from_price long (some a) t rest h k = (ground arith, k)
from_price short (some a) t rest h k = (ground arith, k)

derived-Improves :
    (r : TakeProfitRequest) (previous : Option Decimal) (rules : Rules)
    (targets : List PlannedTakeProfit)
    → derived_take_profits r previous rules ≡ ok targets
    → ImprovesFrom r.side previous targets
unfolding derived_take_profits
derived-Improves r none [] targets h = subst (ImprovesFrom r.side none) (ok_injective h) tt
derived-Improves r (some a) [] targets h = subst (ImprovesFrom r.side (some a)) (ok_injective h) tt
derived-Improves r previous ((name, multiple, pct) ∷ rules) targets h =
    through (round_price _ r.tick_size) _ h λ price _ h1. past (leb_ℤ price (pos 0)) _ _ h1 λ _ h2.
      past (collapses r.side previous price) _ _ h2 λ moves h3.
        through (checked (validate_take_profit _)) _ h3 λ t valid h4.
          through (derived_take_profits r (some price) rules) _ h4 λ rest derived h5.
            let same = validate_take_profit-same _ (map_err_ok invalid _ valid) in
            let at : price ≡ t.price = sym (ap (λ (u : PlannedTakeProfit). u.price) same) in
            subst (ImprovesFrom r.side previous) (ok_injective h5) (
              from_price r.side previous t rest
                (subst (λ x. collapses r.side previous x ≡ false) at moves)
                (subst (λ x. Improves r.side (x ∷ target_prices rest)) at
                  (derived-Improves r (some price) rules rest derived)))

build-Improves :
    (r : TakeProfitRequest) (built : List PlannedTakeProfit × TakeProfitSource)
    → build_take_profit_targets r ≡ ok built
    → Improves r.side (target_prices built.0)
unfolding build_take_profit_targets
build-Improves r built h = through (chosen_rules r r.trader_take_profit) _ h λ (rules, source) _ h1.
    through (derived_take_profits r none rules) _ h1 λ targets derived h2.
      past (not (length targets == 3)) _ _ h2 λ _ h3.
        subst
          (λ (b : List PlannedTakeProfit × TakeProfitSource). Improves r.side (target_prices b.0))
          (ok_injective h3) (derived-Improves r none rules targets derived)

take_profit_targets-Improves :
    (i : TradingIntent) (s : StrategyV2Policy) (weighted stop tick : Decimal)
    (built : List PlannedTakeProfit × TakeProfitSource)
    → take_profit_targets i s weighted stop tick ≡ ok built
    → Improves i.side (target_prices built.0)
unfolding take_profit_targets
take_profit_targets-Improves i s weighted stop tick built h =
    past (leb_ℤ (abs (sub weighted stop)) (pos 0)) _ _ h λ _ h1.
      through (round_target i.take_profit tick) _ h1 λ target _ h2. build-Improves _ built h2

-- The first exit is beyond the weighted entry, so all of them are.
Improves-weighted :
    (side : Side) (weighted : Decimal) (targets : List PlannedTakeProfit)
    → validate_target_geometry side weighted targets ≡ ok tt
    → Improves side (target_prices targets)
    → Improves side (weighted ∷ target_prices targets)
unfolding validate_target_geometry
Improves-weighted side weighted [] h k = tt
Improves-weighted long weighted (t ∷ targets) h k = (ground arith, k)
Improves-weighted short weighted (t ∷ targets) h k = (ground arith, k)

-- The market has not passed a LIMIT or RANGE entry.
abbrev pub NotPassed : EntryType → Side → Decimal → Decimal → Type 0
NotPassed EntryType.market side primary market = Unit
NotPassed _ long primary market = primary ≤ℤ market
NotPassed _ short primary market = market ≤ℤ primary

validate_not_passed_through-NotPassed :
    (type : EntryType) (side : Side) (primary market : Decimal)
    → validate_not_passed_through type side primary market ≡ ok tt
    → NotPassed type side primary market
unfolding validate_not_passed_through passed_through
validate_not_passed_through-NotPassed EntryType.market side primary market h = tt
validate_not_passed_through-NotPassed EntryType.limit long primary market h = ground arith
validate_not_passed_through-NotPassed EntryType.limit short primary market h = ground arith
validate_not_passed_through-NotPassed EntryType.range long primary market h = ground arith
validate_not_passed_through-NotPassed EntryType.range short primary market h = ground arith

-- If `plan` returns a plan for an intent, the plan has the intent's side; on that side the three
-- entries and then the stop lie ever further into the loss, the average entry and then the three
-- exits ever further into the profit; and the market has not passed the first entry of a LIMIT or
-- RANGE intent.
pub plan_geometry :
    (now : ℕ) (i : TradingIntent) (policy : ExecutionPolicy) (c : InstrumentContext)
    (p : ExecutionPlan)
    → plan now i policy c ≡ ok p
    → (p.side ≡ i.side)
      × Worsens i.side (reference_prices p.orders ++ p.stop_loss ∷ [])
      × ((weighted : Decimal) × (weighted_entry p.orders ≡ ok weighted)
          × Improves i.side (weighted ∷ target_prices p.take_profit_targets))
      × ((first : Decimal) × (head? (reference_prices p.orders) ≡ some first)
          × NotPassed i.entry.type i.side first c.market_price)
plan_geometry now i policy c p planned =
    let b : IsBuilt now i policy c p = plan-IsBuilt now i policy c p planned in
    let s : Stages now i policy c p = b.stages in
    let worse = validate_entry_geometry-Worsens i.side _ _ _ s.stop s.geometry in
    let better =
      take_profit_targets-Improves i policy.strategy_v2 s.weighted s.stop c.tick_size _ s.aimed in
    (
      b.side_kept,
      rw (b.orders, b.stop_kept, b.sized.first_price, b.sized.second_price, b.sized.third_price)
          worse,
      (
        s.weighted,
        rw b.orders s.weighed,
        rw b.targets (Improves-weighted i.side s.weighted s.targets s.target_geometry better),
      ),
      (
        s.first.reference_price,
        rw (b.orders, b.sized.first_price) refl,
        validate_not_passed_through-NotPassed _ _ _ _ s.not_passed,
      ),
    )
