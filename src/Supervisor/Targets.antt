-- ===== src/Supervisor/Targets.antt =====
-- position_management/exit_installer.py: the exits planned for the live position.
use cautious_crypto_bro.Prelude.{
  ℕ, ◌+◌, Bool, not, ◌&&◌, ◌||◌, Option, none, some, List, [], ◌∷◌, ◌++◌, map, any, if◌then◌else◌,
}
use cautious_crypto_bro.Prelude.Int.{pos, ltb_ℤ, leb_ℤ, eqb_ℤ}
use cautious_crypto_bro.Prelude.Result.{Result, ok, err, ◌>>=◌, ◌>>◌, raise_if}
use cautious_crypto_bro.Text.{Text}
use cautious_crypto_bro.Decimal.{
  Decimal, is_positive, add, sub, mul, abs, half, sum, max, min, round_floor, round_ceiling,
  round_half_up, round_down,
}
use cautious_crypto_bro.Domain.Enums.{Side, long, short, TakeProfitSource, trader}
use cautious_crypto_bro.Domain.Policy.{InstrumentContext}
use cautious_crypto_bro.Domain.Plan.Defs.{PlannedTakeProfit, ExecutionPlan}
use cautious_crypto_bro.Domain.Strategy.{PositionStrategy}
use cautious_crypto_bro.Domain.Account.{AccountPosition}
use cautious_crypto_bro.Supervisor.Ports.{
  Fault, cap_passed, unprofitable_ticks, shared_ticks, index_out_of_range,
}
use cautious_crypto_bro.Supervisor.Orders.{or_option, divided, to_steps, exit_link_id}
use cautious_crypto_bro.Supervisor.Fills.{Exits}

-- `_ExitGeometry`
pub record ExitGeometry : Type 0 where
  pub position : AccountPosition
  pub context : InstrumentContext
  pub remaining_weight : Decimal
  pub risk_distance : Decimal
  pub cap : Option Decimal
  pub target_rs : List Decimal

abbrev pub done_flags : PositionStrategy → List Bool
done_flags s = s.tp1_done ∷ s.tp2_done ∷ s.tp3_done ∷ []

-- The close_pct of the targets that are not done.
abbrev pub open_weights : List PlannedTakeProfit → List Bool → Result Fault (List Decimal)
open_weights [] done = ok []
open_weights (t ∷ ts) [] = err index_out_of_range
open_weights (t ∷ ts) (d ∷ ds) = do
  rest ← open_weights ts ds
  ok (if d then rest else t.close_pct ∷ rest)

abbrev of_trader : TakeProfitSource → Decimal → Option Decimal
of_trader trader price = some price
of_trader _ price = none

-- `plan.trader_take_profit or (...)`
unfoldable pub exit_cap : ExecutionPlan → Option Decimal
exit_cap plan =
    or_option plan.trader_take_profit (of_trader plan.take_profit_source plan.take_profit)

abbrev last_of : Decimal → List Decimal → Decimal
last_of x [] = x
last_of x (y ∷ ys) = last_of y ys

abbrev all_scaled : Decimal → Decimal → List Decimal → Result Fault (List Decimal)
all_scaled cap_r last [] = ok []
all_scaled cap_r last (r ∷ rs) = do
  scaled ← divided (mul r cap_r) last
  rest ← all_scaled cap_r last rs
  ok (scaled ∷ rest)

abbrev capped_rs : Decimal → List Decimal → Result Fault (List Decimal)
capped_rs cap_r [] = err index_out_of_range
capped_rs cap_r (r ∷ rs) =
    if ltb_ℤ cap_r (last_of r rs)
    then if ltb_ℤ r cap_r
      then ok (r ∷ half (add r cap_r) ∷ cap_r ∷ [])
      else all_scaled cap_r (last_of r rs) (r ∷ rs)
    else ok (r ∷ rs)

abbrev beyond : Side → Decimal → Decimal → Decimal
beyond long price avg = sub price avg
beyond short price avg = sub avg price

-- `_resolve_target_rs`
unfoldable pub resolve_target_rs :
    ExecutionPlan → AccountPosition → Decimal → Option Decimal → Result Fault (List Decimal)
resolve_target_rs plan p risk none =
    ok (map (λ (t : PlannedTakeProfit). t.r_multiple) plan.take_profit_targets)
resolve_target_rs plan p risk (some cap) = do
  cap_r ← divided (beyond p.side cap p.avg_price) risk
  raise_if (not (is_positive cap_r)) cap_passed
  capped_rs cap_r (map (λ (t : PlannedTakeProfit). t.r_multiple) plan.take_profit_targets)

abbrev raw_price : Side → Decimal → Decimal → Decimal → Decimal
raw_price long avg r risk = add avg (mul r risk)
raw_price short avg r risk = sub avg (mul r risk)

abbrev within_cap : Side → Decimal → Decimal → Option Decimal → Result Fault Decimal
within_cap side tick price none = ok price
within_cap long tick price (some cap) = do
  cap_price ← to_steps round_floor cap tick
  ok (min price cap_price)
within_cap short tick price (some cap) = do
  cap_price ← to_steps round_ceiling cap tick
  ok (max price cap_price)

-- `_compute_exit_price`
unfoldable pub compute_exit_price : ExitGeometry → Decimal → Result Fault Decimal
compute_exit_price g r = do
  price ←
      to_steps round_half_up (raw_price g.position.side g.position.avg_price r g.risk_distance)
        g.context.tick_size
  within_cap g.position.side g.context.tick_size price g.cap

-- `price <= position.avg_price` of a long position, `>=` of a short one.
abbrev pub is_unprofitable : Side → Decimal → Decimal → Bool
is_unprofitable long price avg = leb_ℤ price avg
is_unprofitable short price avg = leb_ℤ avg price

abbrev pub has_price : Decimal → Exits → Bool
has_price price = any (λ (e : Text × Decimal × Decimal). eqb_ℤ price e.2)

abbrev pub below_notional : InstrumentContext → Decimal → Decimal → Bool
below_notional c quantity price =
    not (eqb_ℤ c.min_notional (pos 0)) && ltb_ℤ (mul quantity price) c.min_notional

-- The leg of a quantity that reaches the minimum.
unfoldable pub priced_exit :
    PositionStrategy
    → ExitGeometry
    → Decimal
    → ℕ
    → Exits
    → Decimal
    → Result Fault (Option (Text × Decimal × Decimal))
priced_exit s g r index expected quantity = do
  price ← compute_exit_price g r
  raise_if (is_unprofitable g.position.side price g.position.avg_price) unprofitable_ticks
  raise_if (has_price price expected) shared_ticks
  ok (
      if below_notional g.context quantity price
      then none
      else some (exit_link_id s index, quantity, price))

abbrev pub below_minimum : InstrumentContext → Decimal → Bool
below_minimum c quantity = not (is_positive quantity) || ltb_ℤ quantity c.min_qty

-- `_planned_exit`
unfoldable pub planned_exit :
    PositionStrategy
    → ExitGeometry
    → PlannedTakeProfit
    → Decimal
    → ℕ
    → Exits
    → Result Fault (Option (Text × Decimal × Decimal))
planned_exit s g t r index expected = do
  share ← divided (mul g.position.size t.close_pct) g.remaining_weight
  quantity ← to_steps round_down share g.context.qty_step
  if below_minimum g.context quantity then ok none else priced_exit s g r index expected quantity

abbrev pub with_exit : Exits → Option (Text × Decimal × Decimal) → Exits
with_exit expected none = expected
with_exit expected (some leg) = expected ++ (leg ∷ [])

-- The loop of `_planned_exits`, with `done` and `target_rs` from the index on.
unfoldable pub planned_legs :
    PositionStrategy
    → ExitGeometry
    → ℕ
    → Exits
    → List PlannedTakeProfit
    → List Bool
    → List Decimal
    → Result Fault Exits
planned_legs s g index expected [] done rs = ok expected
planned_legs s g index expected (t ∷ ts) (d ∷ ds) (r ∷ rs) = do
  leg ← if d then ok none else planned_exit s g t r index expected
  planned_legs s g (index + 1) (with_exit expected leg) ts ds rs
planned_legs s g index expected (t ∷ ts) _ _ = err index_out_of_range

-- The geometry that `_planned_exits` computes.
abbrev pub geometry_of :
    ExecutionPlan → AccountPosition → InstrumentContext → List Decimal → List Decimal → ExitGeometry
geometry_of plan p c weights rs = record {
  position = p;
  context = c;
  remaining_weight = add plan.runner_pct (sum weights);
  risk_distance = abs (sub p.avg_price plan.stop_loss);
  cap = exit_cap plan;
  target_rs = rs;
}

-- `_planned_exits`
unfoldable pub planned_exits :
    PositionStrategy → ExecutionPlan → AccountPosition → InstrumentContext → Result Fault Exits
planned_exits s plan p c = do
  weights ← open_weights plan.take_profit_targets (done_flags s)
  rs ← resolve_target_rs plan p (abs (sub p.avg_price plan.stop_loss)) (exit_cap plan)
  if is_positive (add plan.runner_pct (sum weights))
      then planned_legs s (geometry_of plan p c weights rs) 1 [] plan.take_profit_targets
          (done_flags s) rs
      else ok []
