-- ===== src/Supervisor/Geometry.antt =====
-- The exits that are planned for a position.
use cautious_crypto_bro.Prelude.{
  ℕ, ◌+◌, Bool, true, false, ◌||◌, ◌≡◌, refl, Option, none, some, List, [], ◌∷◌, ◌++◌,
  if◌then◌else◌, arith, All, ◌⊎◌, sym,
}
use mathlib.Core.Path.{subst}
use cautious_crypto_bro.Prelude.Int.{pos, eqb_ℤ, ◌<ℤ◌, ◌≤ℤ◌, leb_ℤ-false, ltb_ℤ-false, eqb_ℤ-true}
use cautious_crypto_bro.Prelude.Result.{Result, ok, err, through, past, ok_injective}
use cautious_crypto_bro.Text.{Text}
use cautious_crypto_bro.Decimal.{Decimal, round_down, mul, is_positive, sum, add}
use cautious_crypto_bro.Domain.Enums.{Side, long, short}
use cautious_crypto_bro.Domain.Policy.{InstrumentContext}
use cautious_crypto_bro.Domain.Plan.Defs.{PlannedTakeProfit, ExecutionPlan}
use cautious_crypto_bro.Domain.Strategy.{PositionStrategy}
use cautious_crypto_bro.Domain.Account.{AccountPosition}
use cautious_crypto_bro.Supervisor.Ports.{Fault}
use cautious_crypto_bro.Supervisor.Orders.{scaled, divided, to_steps, exit_link_id}
use cautious_crypto_bro.Supervisor.Fills.{Exits}
use cautious_crypto_bro.Supervisor.Targets.{
  ExitGeometry, is_unprofitable, has_price, below_notional, priced_exit, below_minimum,
  compute_exit_price, planned_exit, with_exit, planned_legs, planned_exits, done_flags,
  open_weights, exit_cap, resolve_target_rs, geometry_of,
}

abbrev pub IsProfitable : Side → Decimal → Decimal → Type 0
IsProfitable long entry price = entry <ℤ price
IsProfitable short entry price = price <ℤ entry

-- An exit (link, quantity, price) of whole quantity steps that the exchange takes, on the profitable
-- side of the average entry.
pub record IsExit (p : AccountPosition) (c : InstrumentContext) (e : Text × Decimal × Decimal)
    : Type 0 where
  pub steps : Decimal
  pub whole : e.1 ≡ mul (round_down steps) c.qty_step
  pub positive : pos 0 <ℤ e.1
  pub minimum : c.min_qty ≤ℤ e.1
  pub notional : (c.min_notional ≡ pos 0) ⊎ (c.min_notional ≤ℤ mul e.1 e.2)
  pub profitable : IsProfitable p.side p.avg_price e.2

-- Such exits, no two of which have one price.
abbrev pub AreFit : AccountPosition → InstrumentContext → Exits → Type 0
AreFit p c [] = Unit
AreFit p c (e ∷ es) =
    IsExit p c e × All (λ (x : Text × Decimal × Decimal). eqb_ℤ e.2 x.2 ≡ false) es × AreFit p c es

profitable :
    (side : Side) (price avg : Decimal)
    → is_unprofitable side price avg ≡ false
    → IsProfitable side avg price
profitable long price avg h = leb_ℤ-false price avg h
profitable short price avg h = leb_ℤ-false avg price h

at_minimum :
    (c : InstrumentContext) (q : Decimal)
    → below_minimum c q ≡ false
    → (pos 0 <ℤ q) × (c.min_qty ≤ℤ q)
at_minimum c q h = ground arith

at_notional :
    (c : InstrumentContext) (q price : Decimal)
    → below_notional c q price ≡ false
    → (c.min_notional ≡ pos 0) ⊎ (c.min_notional ≤ℤ mul q price)
at_notional c q price h =
    ground (arith, eqb_ℤ-true c.min_notional (pos 0), ltb_ℤ-false (mul q price) c.min_notional)

to_steps-whole :
    (value step : Decimal) {q : Decimal}
    → to_steps round_down value step ≡ ok q
    → (steps : Decimal) × (q ≡ mul (round_down steps) step)
unfolding to_steps
to_steps-whole value step {q} h = of_result (divided value step) h
  where
    of_result :
        (r : Result Fault Decimal)
        → scaled round_down step r ≡ ok q
        → (steps : Decimal) × (q ≡ mul (round_down steps) step)
    of_result (ok d) h = (d, sym (ok_injective h))
    of_result (err e) h = absurd (cc)

eqb-sym : (a b : Decimal) → eqb_ℤ a b ≡ false → eqb_ℤ b a ≡ false
eqb-sym a b h = ground arith

differs-snoc :
    (price : Decimal) (es : Exits) (x : Text × Decimal × Decimal)
    → All (λ (y : Text × Decimal × Decimal). eqb_ℤ price y.2 ≡ false) es
    → eqb_ℤ price x.2 ≡ false
    → All (λ (y : Text × Decimal × Decimal). eqb_ℤ price y.2 ≡ false) (es ++ x ∷ [])
differs-snoc price [] x h k = (k, tt)
differs-snoc price (e ∷ es) x h k = (h.0, differs-snoc price es x h.1 k)

module _ (p : AccountPosition) (c : InstrumentContext) where
  AreFit-snoc :
      (es : Exits) (x : Text × Decimal × Decimal)
      → AreFit p c es
      → IsExit p c x
      → has_price x.2 es ≡ false
      → AreFit p c (es ++ x ∷ [])
  AreFit-snoc [] x h f d = (f, tt, tt)
  AreFit-snoc (e ∷ es) x (f', d', h) f d = (
    f',
    differs-snoc e.2 es x d' (eqb-sym x.2 e.2 (first-false (eqb_ℤ x.2 e.2) _ d)),
    AreFit-snoc es x h f (second-false (eqb_ℤ x.2 e.2) _ d),
  )
    where
      first-false : (a b : Bool) → a || b ≡ false → a ≡ false
      first-false a b h = ground arith

      second-false : (a b : Bool) → a || b ≡ false → b ≡ false
      second-false a b h = ground arith

module _ (s : PositionStrategy) (g : ExitGeometry) where
  -- The leg of a target can be added to those before it.
  planned_exit-fit :
      (t : PlannedTakeProfit) (r : Decimal) (index : ℕ) (expected : Exits)
      (leg : Option (Text × Decimal × Decimal))
      → AreFit g.position g.context expected
      → planned_exit s g t r index expected ≡ ok leg
      → AreFit g.position g.context (with_exit expected leg)
  unfolding planned_exit priced_exit
  planned_exit-fit t r index expected leg a h =
      through (divided (mul g.position.size t.close_pct) g.remaining_weight) _ h (λ share e1 h1.
        through (to_steps round_down share g.context.qty_step) _ h1 (λ quantity e2 h2.
          of_quantity quantity (below_minimum g.context quantity)
            (to_steps-whole share g.context.qty_step e2) refl h2))
    where
      priced :
          (quantity price : Decimal) (b : Bool)
          → (steps : Decimal) × (quantity ≡ mul (round_down steps) g.context.qty_step)
          → below_minimum g.context quantity ≡ false
          → is_unprofitable g.position.side price g.position.avg_price ≡ false
          → has_price price expected ≡ false
          → below_notional g.context quantity price ≡ b
          → ◌≡◌ {A = Option (Text × Decimal × Decimal)}
              (if b then none else some (exit_link_id s index, quantity, price))
              leg
          → AreFit g.position g.context (with_exit expected leg)
      priced quantity price true w m u d n e =
          subst (λ o. AreFit g.position g.context (with_exit expected o)) e a
      priced quantity price false w m u d n e =
          subst (λ o. AreFit g.position g.context (with_exit expected o)) e
            (AreFit-snoc g.position g.context expected (exit_link_id s index, quantity, price) a
              (record {
                steps = w.0;
                whole = w.1;
                positive = (at_minimum g.context quantity m).0;
                minimum = (at_minimum g.context quantity m).1;
                notional = at_notional g.context quantity price n;
                profitable = profitable g.position.side price g.position.avg_price u;
              })
              d)

      of_quantity :
          (quantity : Decimal) (b : Bool)
          → (steps : Decimal) × (quantity ≡ mul (round_down steps) g.context.qty_step)
          → below_minimum g.context quantity ≡ b
          → (if b then ok none else priced_exit s g r index expected quantity) ≡ ok leg
          → AreFit g.position g.context (with_exit expected leg)
      of_quantity quantity true w m h =
          subst (λ o. AreFit g.position g.context (with_exit expected o)) (ok_injective h) a
      of_quantity quantity false w m h = through (compute_exit_price g r) _ h (λ price e h1.
          past (is_unprofitable g.position.side price g.position.avg_price) _ _ h1 (λ u h2.
            past (has_price price expected) _ _ h2 (λ d h3.
              priced quantity price (below_notional g.context quantity price) w m u d refl
                (ok_injective h3))))

  planned_legs-fit :
      (index : ℕ) (expected : Exits) (ts : List PlannedTakeProfit) (done : List Bool)
      (rs : List Decimal) (exits : Exits)
      → AreFit g.position g.context expected
      → planned_legs s g index expected ts done rs ≡ ok exits
      → AreFit g.position g.context exits
  unfolding planned_legs
  planned_legs-fit index expected [] done rs exits a h =
      subst (AreFit g.position g.context) (ok_injective h) a
  planned_legs-fit index expected (t ∷ ts) [] rs exits a h = absurd (cc)
  planned_legs-fit index expected (t ∷ ts) (d ∷ ds) [] exits a h = absurd (cc)
  planned_legs-fit index expected (t ∷ ts) (true ∷ ds) (r ∷ rs) exits a h =
      planned_legs-fit (index + 1) expected ts ds rs exits a h
  planned_legs-fit index expected (t ∷ ts) (false ∷ ds) (r ∷ rs) exits a h =
      through (planned_exit s g t r index expected) _ h (λ leg e h'.
        planned_legs-fit (index + 1) (with_exit expected leg) ts ds rs exits
          (planned_exit-fit t r index expected leg a e) h')

planned-weighed :
    (s : PositionStrategy) (plan : ExecutionPlan) (p : AccountPosition) (c : InstrumentContext)
    (weights rs : List Decimal) (b : Bool) (exits : Exits)
    → (if b
        then planned_legs s
            (geometry_of plan p c weights rs)
            1
            []
            plan.take_profit_targets
            (done_flags s)
            rs
        else ok [])
      ≡ ok exits
    → AreFit p c exits
planned-weighed s plan p c weights rs true exits h =
    planned_legs-fit s (geometry_of plan p c weights rs) 1 [] plan.take_profit_targets
      (done_flags s) rs exits tt h
planned-weighed s plan p c weights rs false exits h = subst (AreFit p c) (ok_injective h) tt

-- If `_planned_exits` returns, every exit of a long is priced above the position's average entry and
-- every exit of a short below it, its quantity is a positive whole number of quantity steps that is
-- not below the minimum quantity, it is worth the minimum notional where one is set, and no two exits
-- have one price.
pub planned_exits-AreFit :
    (s : PositionStrategy) (plan : ExecutionPlan) (p : AccountPosition) (c : InstrumentContext)
    {exits : Exits}
    → planned_exits s plan p c ≡ ok exits
    → AreFit p c exits
unfolding planned_exits
planned_exits-AreFit s plan p c {exits} h =
    through (open_weights plan.take_profit_targets (done_flags s)) _ h (λ weights e1 h1.
      through (resolve_target_rs plan p _ (exit_cap plan)) _ h1 (λ rs e2 h2.
        planned-weighed s plan p c weights rs (is_positive (add plan.runner_pct (sum weights)))
          exits h2))
