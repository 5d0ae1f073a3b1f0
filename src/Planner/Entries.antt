-- ===== src/Planner/Entries.antt =====
-- execution.py: rounding to the instrument, the stop, the entry levels and the sized entry orders.
use cautious_crypto_bro.Prelude.{Bool, ◌||◌, Option, none, some}
use cautious_crypto_bro.Prelude.Int.{pos, leb_ℤ, eqb_ℤ}
use cautious_crypto_bro.Prelude.Result.{Result, ok, ◌>>=◌, ◌>>◌, raise_if, or_raise}
use cautious_crypto_bro.Decimal.{
  Decimal, add, sub, mul, abs, round_down, round_floor, round_ceiling, round_half_up, dec, percent,
  half, opposite,
}
use cautious_crypto_bro.Domain.Enums.{
  Side, long, short, EntryType, ExecutionOrderType, StopLossSource,
}
use cautious_crypto_bro.Domain.Signal.{TradingIntent}
use cautious_crypto_bro.Domain.Policy.{InstrumentContext, StrategyV2Policy}
use cautious_crypto_bro.Domain.Plan.Defs.{Leg, e1, e2, e3}
use cautious_crypto_bro.Planner.Error.{
  PlanError, arithmetic, assertion, stop_not_positive, range_too_narrow, no_primary_distance,
  levels_collapse, bad_tick_size, bad_quantity_step, divide,
}

-- `_round_price`
unfoldable pub round_price : Decimal → Decimal → Result PlanError Decimal
round_price value tick = do
  raise_if (leb_ℤ tick (pos 0)) bad_tick_size
  ticks ← divide value tick
  ok (mul (round_half_up ticks) tick)

-- `_round_down`
unfoldable pub round_to_step : Decimal → Decimal → Result PlanError Decimal
round_to_step value step = do
  raise_if (leb_ℤ step (pos 0)) bad_quantity_step
  steps ← divide value step
  ok (mul (round_down steps) step)

-- Where the fallback stop is measured from; `Decimal("None")` raises.
unfoldable pub stop_anchor :
    EntryType → TradingIntent → InstrumentContext → Result PlanError Decimal
stop_anchor EntryType.market i c = ok c.market_price
stop_anchor EntryType.limit i c = or_raise i.entry.price arithmetic
stop_anchor EntryType.range i c =
    or_raise (elim i.side [ long ↦ i.entry.range_low | short ↦ i.entry.range_high ]) arithmetic

-- The policy's stop, rounded away from the entry.
unfoldable pub fallback_stop : Side → Decimal → Decimal → Decimal → Result PlanError Decimal
fallback_stop long anchor distance tick = do
  ticks ← divide (mul anchor (sub (dec 1) distance)) tick
  ok (mul (round_floor ticks) tick)
fallback_stop short anchor distance tick = do
  ticks ← divide (mul anchor (add (dec 1) distance)) tick
  ok (mul (round_ceiling ticks) tick)

unfoldable pub stop_candidate :
    Option Decimal
    → TradingIntent
    → StrategyV2Policy
    → InstrumentContext
    → Result PlanError (Decimal × StopLossSource)
stop_candidate (some stop) i s c = do
  rounded ← round_price stop c.tick_size
  ok (rounded, StopLossSource.trader)
stop_candidate none i s c = do
  anchor ← stop_anchor i.entry.type i c
  stop ← fallback_stop i.side anchor (percent s.fallback_stop_distance_pct) c.tick_size
  ok (stop, StopLossSource.policy)

-- `_resolve_stop_loss`
unfoldable pub resolve_stop_loss :
    TradingIntent
    → StrategyV2Policy
    → InstrumentContext
    → Result PlanError (Decimal × StopLossSource)
resolve_stop_loss i s c = do
  (stop, source) ← stop_candidate i.stop_loss i s c
  raise_if (leb_ℤ stop (pos 0)) stop_not_positive
  ok (stop, source)

pub record EntrySpec : Type 0 where
  pub leg : Leg
  pub order_type : ExecutionOrderType
  pub reference_price : Decimal
  pub risk_pct : Decimal

-- `len(set(prices)) != 3`
abbrev pub collide : Decimal → Decimal → Decimal → Bool
collide a b c = eqb_ℤ a b || eqb_ℤ a c || eqb_ℤ b c

-- `_range_entry_prices`
unfoldable pub range_entry_prices :
    TradingIntent → InstrumentContext → Result PlanError (Decimal × Decimal × Decimal)
range_entry_prices i c = do
  low ← or_raise i.entry.range_low assertion
  high ← or_raise i.entry.range_high assertion
  let middle = half (add low high)
  first ← round_price (elim i.side [ long ↦ high | short ↦ low ]) c.tick_size
  second ← round_price middle c.tick_size
  third ← round_price (elim i.side [ long ↦ low | short ↦ high ]) c.tick_size
  raise_if (collide first second third) range_too_narrow
  ok (first, second, third)

-- `price + direction * depth * distance`: scale-ins lie on the stop's side.
unfoldable pub scale_in_price : Side → Decimal → Decimal → Decimal → Decimal
scale_in_price long price depth distance = add price (mul (mul (opposite (dec 1)) depth) distance)
scale_in_price short price depth distance = add price (mul (mul (dec 1) depth) distance)

-- The primary level of a MARKET or a LIMIT entry.
unfoldable pub primary_level :
    EntryType → TradingIntent → InstrumentContext → Result PlanError (Decimal × ExecutionOrderType)
primary_level EntryType.market i c = ok (c.market_price, ExecutionOrderType.market)
primary_level _ i c = do
  price ← or_raise i.entry.price assertion
  rounded ← round_price price c.tick_size
  ok (rounded, ExecutionOrderType.limit)

-- `_ladder_entry_prices`
unfoldable pub ladder_entry_prices :
    TradingIntent
    → StrategyV2Policy
    → InstrumentContext
    → Decimal
    → Result PlanError (Decimal × Decimal × Decimal × ExecutionOrderType)
ladder_entry_prices i s c stop = do
  (primary, kind) ← primary_level i.entry.type i c
  let distance = abs (sub primary stop)
  raise_if (leb_ℤ distance (pos 0)) no_primary_distance
  second ←
      round_price (scale_in_price i.side primary s.secondary_entry_depth_r distance) c.tick_size
  third ← round_price (scale_in_price i.side primary s.tertiary_entry_depth_r distance) c.tick_size
  raise_if (collide primary second third) levels_collapse
  ok (primary, second, third, kind)

-- The prices of the three legs and the type of the first.
unfoldable pub entry_prices :
    EntryType
    → TradingIntent
    → StrategyV2Policy
    → InstrumentContext
    → Decimal
    → Result PlanError (Decimal × Decimal × Decimal × ExecutionOrderType)
entry_prices EntryType.range i s c stop = do
  (first, second, third) ← range_entry_prices i c
  ok (first, second, third, ExecutionOrderType.limit)
entry_prices _ i s c stop = ladder_entry_prices i s c stop

-- `_entry_specs`
unfoldable pub entry_specs :
    TradingIntent
    → StrategyV2Policy
    → InstrumentContext
    → Decimal
    → Result PlanError (EntrySpec × EntrySpec × EntrySpec)
entry_specs i s c stop = do
  (first, second, third, kind) ← entry_prices i.entry.type i s c stop
  ok (
    record {
      leg = e1;
      order_type = kind;
      reference_price = first;
      risk_pct = s.primary_entry_risk_pct;
    },
    record {
      leg = e2;
      order_type = ExecutionOrderType.limit;
      reference_price = second;
      risk_pct = s.secondary_entry_risk_pct;
    },
    record {
      leg = e3;
      order_type = ExecutionOrderType.limit;
      reference_price = third;
      risk_pct = s.tertiary_entry_risk_pct;
    },
  )
