-- ===== src/Planner/Targets.antt =====
-- execution.py: the three fixed exits, and whether the first entry can carry them.
use cautious_crypto_bro.Prelude.{
  ℕ, ◌+◌, ◌==◌, Bool, not, Option, none, some, if◌then◌else◌, List, [], ◌∷◌, any, length,
}
use cautious_crypto_bro.Prelude.Int.{pos, leb_ℤ}
use cautious_crypto_bro.Prelude.Result.{Result, ok, ◌>>=◌, ◌>>◌, raise_if}
use cautious_crypto_bro.Text.{Text, text}
use cautious_crypto_bro.Decimal.{Decimal, add, sub, mul, abs, dec, percent, half}
use cautious_crypto_bro.Domain.Enums.{Side, long, short, TakeProfitSource}
use cautious_crypto_bro.Domain.Signal.{TradingIntent}
use cautious_crypto_bro.Domain.Policy.{InstrumentContext, StrategyV2Policy, exit_rules}
use cautious_crypto_bro.Domain.Plan.Defs.{PlannedTakeProfit, PlannedOrder, validate_take_profit}
use cautious_crypto_bro.Planner.Error.{
  PlanError, weighted_entry_at_stop, not_three_targets, trader_target_too_close, targets_collapse,
  target_not_positive, no_partial_exit, no_runner, no_configured_runner, long_target_geometry,
  short_target_geometry, checked, divide,
}
use cautious_crypto_bro.Planner.Entries.{round_price, round_to_step}
use cautious_crypto_bro.Planner.Sizing.{below_minimum_of, below_notional_of}

pub record TakeProfitRequest : Type 0 where
  pub side : Side
  pub strategy : StrategyV2Policy
  pub weighted_entry : Decimal
  pub risk_distance : Decimal
  pub tick_size : Decimal
  pub trader_take_profit : Option Decimal
  pub trader_target_error : PlanError
  pub collapsed_targets_error : PlanError

abbrev pub Rules : Type 0
Rules = List (Text × Decimal × Decimal)

-- The trader's reward, which is negative on the wrong side.
unfoldable pub trader_reward : Side → Decimal → Decimal → Decimal
trader_reward long target entry = sub target entry
trader_reward short target entry = sub entry target

-- `_trader_capped_rules`
unfoldable pub trader_capped_rules :
    TakeProfitRequest → Decimal → Result PlanError (Rules × TakeProfitSource)
trader_capped_rules r target = do
  let s = r.strategy
  trader_r ← divide (trader_reward r.side target r.weighted_entry) r.risk_distance
  raise_if (leb_ℤ trader_r s.first_take_profit_r) r.trader_target_error
  if leb_ℤ s.third_take_profit_r trader_r
      then ok (exit_rules s, TakeProfitSource.policy)
      else ok (
        (text "TP1", s.first_take_profit_r, s.first_take_profit_pct)
            ∷ (text "TP2", half (add s.first_take_profit_r trader_r), s.second_take_profit_pct)
            ∷ (text "TP3", trader_r, s.third_take_profit_pct)
            ∷ [],
        TakeProfitSource.trader,
      )

-- An exit that does not move on from the one before it.
abbrev pub collapses : Side → Option Decimal → Decimal → Bool
collapses side none price = Bool.false
collapses long (some previous) price = leb_ℤ price previous
collapses short (some previous) price = leb_ℤ previous price

-- `entry + reward` for a LONG, `entry - reward` for a SHORT.
unfoldable pub reward_price : Side → Decimal → Decimal → Decimal
reward_price long entry reward = add entry reward
reward_price short entry reward = sub entry reward

-- The loop of `_derived_take_profits`, from the price of the exit before.
unfoldable pub derived_take_profits :
    TakeProfitRequest → Option Decimal → Rules → Result PlanError (List PlannedTakeProfit)
derived_take_profits r previous [] = ok []
derived_take_profits r previous ((name, multiple, pct) ∷ rules) = do
  price ←
      round_price (reward_price r.side r.weighted_entry (mul r.risk_distance multiple)) r.tick_size
  raise_if (leb_ℤ price (pos 0)) target_not_positive
  raise_if (collapses r.side previous price) r.collapsed_targets_error
  target ← checked (
      validate_take_profit
        (record { name = name; price = price; close_pct = pct; r_multiple = multiple }))
  rest ← derived_take_profits r (some price) rules
  ok (target ∷ rest)

unfoldable pub chosen_rules :
    TakeProfitRequest → Option Decimal → Result PlanError (Rules × TakeProfitSource)
chosen_rules r none = ok (exit_rules r.strategy, TakeProfitSource.policy)
chosen_rules r (some target) = trader_capped_rules r target

-- `_build_take_profit_targets`
unfoldable pub build_take_profit_targets :
    TakeProfitRequest → Result PlanError (List PlannedTakeProfit × TakeProfitSource)
build_take_profit_targets r = do
  (rules, source) ← chosen_rules r r.trader_take_profit
  targets ← derived_take_profits r none rules
  raise_if (not (length targets == 3)) not_three_targets
  ok (targets, source)

-- The trader's target on the grid of ticks, where there is one.
unfoldable pub round_target : Option Decimal → Decimal → Result PlanError (Option Decimal)
round_target none tick = ok none
round_target (some target) tick = do rounded ← round_price target tick; ok (some rounded)

-- `_take_profit_targets`
unfoldable pub take_profit_targets :
    TradingIntent
    → StrategyV2Policy
    → Decimal
    → Decimal
    → Decimal
    → Result PlanError (List PlannedTakeProfit × TakeProfitSource)
take_profit_targets i s weighted stop tick = do
  let distance = abs (sub weighted stop)
  raise_if (leb_ℤ distance (pos 0)) weighted_entry_at_stop
  target ← round_target i.take_profit tick
  build_take_profit_targets (record {
    side = i.side;
    strategy = s;
    weighted_entry = weighted;
    risk_distance = distance;
    tick_size = tick;
    trader_take_profit = target;
    trader_target_error = trader_target_too_close;
    collapsed_targets_error = targets_collapse;
  })

-- `_validate_target_geometry`
unfoldable pub validate_target_geometry :
    Side → Decimal → List PlannedTakeProfit → Result PlanError (Unit {0})
validate_target_geometry long weighted targets =
    raise_if (any (λ (t : PlannedTakeProfit). leb_ℤ t.price weighted) targets) long_target_geometry
validate_target_geometry short weighted targets =
    raise_if (any (λ (t : PlannedTakeProfit). leb_ℤ weighted t.price) targets) short_target_geometry

-- What the exits placed so far take: their number, their quantity and the percentages seen.
pub record Placed : Type 0 where
  pub count : ℕ
  pub quantity : Decimal
  pub total_pct : Decimal

-- One round of the loop of `_validate_initial_exit_capacity`.
unfoldable pub place_exit :
    Side
    → PlannedOrder
    → Decimal
    → InstrumentContext
    → PlannedTakeProfit
    → Placed
    → Result PlanError Placed
place_exit side primary distance c target placed = do
  let seen = record placed { total_pct = add placed.total_pct target.close_pct }
  quantity ← round_to_step (percent (mul primary.quantity target.close_pct)) c.qty_step
  if below_minimum_of c quantity then ok seen else do
    price ←
        round_price (reward_price side primary.reference_price (mul distance target.r_multiple))
          c.tick_size
    if below_notional_of c (mul quantity price)
        then ok seen
        else ok (record seen { count = placed.count + 1; quantity = add placed.quantity quantity })

unfoldable pub place_exits :
    Side
    → PlannedOrder
    → Decimal
    → InstrumentContext
    → List PlannedTakeProfit
    → Placed
    → Result PlanError Placed
place_exits side primary distance c [] placed = ok placed
place_exits side primary distance c (t ∷ targets) placed = do
  placed' ← place_exit side primary distance c t placed
  place_exits side primary distance c targets placed'

-- `_validate_initial_exit_capacity`
unfoldable pub validate_initial_exit_capacity :
    Side
    → PlannedOrder
    → Decimal
    → List PlannedTakeProfit
    → InstrumentContext
    → Result PlanError (Unit {0})
validate_initial_exit_capacity side primary stop targets c = do
  placed ←
      place_exits side primary (abs (sub primary.reference_price stop)) c targets
        (record { count = 0; quantity = dec 0; total_pct = dec 0 })
  raise_if (placed.count == 0) no_partial_exit
  raise_if (below_minimum_of c (sub primary.quantity placed.quantity)) no_runner
  raise_if (leb_ℤ (dec 100) placed.total_pct) no_configured_runner
