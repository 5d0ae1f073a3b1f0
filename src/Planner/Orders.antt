-- ===== src/Planner/Orders.antt =====
-- What one sized entry order, and the three of a ladder, satisfy.
use cautious_crypto_bro.Prelude.{◌≡◌, sym, ap, false, arith}
use mathlib.Core.Path.{subst}
use cautious_crypto_bro.Prelude.Int.{pos, ◌≤ℤ◌, ◌<ℤ◌, leb_ℤ}
use cautious_crypto_bro.Prelude.Result.{ok, through, past, map_err_ok, ok_injective}
use cautious_crypto_bro.Decimal.{Decimal, sub, mul, abs, round_down}
use cautious_crypto_bro.Domain.Policy.{InstrumentContext, ExecutionPolicy, risk_budget_usdt}
use cautious_crypto_bro.Domain.Plan.Defs.{PlannedOrder, validate_order}
use cautious_crypto_bro.Planner.Error.{invalid, checked, divide}
use cautious_crypto_bro.Planner.Entries.{EntrySpec, round_to_step}
use cautious_crypto_bro.Planner.Sizing.{planned_order, below_minimum_of, below_notional_of}

pub validate_order-same : (o : PlannedOrder) {o' : PlannedOrder} → validate_order o ≡ ok o' → o' ≡ o
unfolding validate_order
validate_order-same o h = ground arith

-- The quantity is a whole number of steps, and not below the exchange's minima.
pub record IsTradable (c : InstrumentContext) (o : PlannedOrder) : Type 0 where
  pub steps : Decimal
  pub whole : o.quantity ≡ mul (round_down steps) c.qty_step
  pub positive : pos 0 <ℤ o.quantity
  pub minimum : c.min_qty ≤ℤ o.quantity
  pub notional : below_notional_of c (mul o.quantity o.reference_price) ≡ false

pub round_to_step-whole :
    (value step : Decimal) {q : Decimal}
    → round_to_step value step ≡ ok q
    → (steps : Decimal) × (q ≡ mul (round_down steps) step)
unfolding round_to_step
round_to_step-whole value step h =
    past _ _ _ h
      λ _ h1. through (divide value step) _ h1 λ steps _ h2. (steps, sym (ok_injective h2))

pub above_minimum :
    (c : InstrumentContext) (q : Decimal)
    → below_minimum_of c q ≡ false
    → (pos 0 <ℤ q) × (c.min_qty ≤ℤ q)
above_minimum c q h = ground arith

pub planned_order-same :
    (spec : EntrySpec) (policy : ExecutionPolicy) (c : InstrumentContext) (stop : Decimal)
    {o : PlannedOrder}
    → planned_order spec policy c stop ≡ ok o
    → (o.reference_price ≡ spec.reference_price) × IsTradable c o
unfolding planned_order
planned_order-same spec policy c stop h =
    past (leb_ℤ (abs (sub spec.reference_price stop)) (pos 0)) _ _ h λ _ h1.
      through (checked (risk_budget_usdt policy)) _ h1 λ budget _ h2.
        through (divide _ _) _ h2 λ raw _ h3.
          through (round_to_step raw c.qty_step) _ h3 λ quantity rounded h4.
            past (below_minimum_of c quantity) _ _ h4 λ enough h5.
              past (below_notional_of c (mul quantity spec.reference_price)) _ _ h5 λ worth h6.
                let same = validate_order-same _ (map_err_ok invalid _ h6) in
                let (steps, whole) = round_to_step-whole raw c.qty_step rounded in
                let (positive, minimum) = above_minimum c quantity enough in
                (
                  ap (λ (o : PlannedOrder). o.reference_price) same,
                  subst (IsTradable c) (sym same) (record {
                    steps = steps;
                    whole = whole;
                    positive = positive;
                    minimum = minimum;
                    notional = worth;
                  }),
                )
