-- ===== src/Planner/Risk.antt =====
-- The planner keeps within the risk budget, sizes every leg to the exchange's lots, and builds
-- the ladder of Strategy V2.
use cautious_crypto_bro.Prelude.{ℕ, ◌≡◌, refl, sym, ap, [], ◌∷◌, All, arith}
use mathlib.Core.Path.{subst, ap₂, ◌∙◌}
use cautious_crypto_bro.Prelude.Int.{pos, ◌≤ℤ◌, ◌<ℤ◌, ltb_ℤ, leb_ℤ, leb_ℤ-false}
use cautious_crypto_bro.Prelude.Result.{ok, through, past, ok_injective}
use cautious_crypto_bro.Decimal.{Decimal}
use cautious_crypto_bro.Domain.Signal.{TradingIntent}
use cautious_crypto_bro.Domain.Policy.{InstrumentContext, ExecutionPolicy, risk_budget_usdt}
use cautious_crypto_bro.Domain.Plan.Defs.{PlannedOrder, ExecutionPlan}
use cautious_crypto_bro.Domain.Plan.Valid.{IsV2Ladder, IsValidPlan, validate_plan-IsValidPlan}
use cautious_crypto_bro.Planner.Error.{checked}
use cautious_crypto_bro.Planner.Entries.{EntrySpec}
use cautious_crypto_bro.Planner.Sizing.{planned_order, ladder_loss, risk_checked_orders}
use cautious_crypto_bro.Planner.Build.{plan}
use cautious_crypto_bro.Planner.Orders.{IsTradable, planned_order-same}
use cautious_crypto_bro.Planner.Stages.{Stages, plan-Stages}

-- What the three sized orders of a ladder satisfy.
pub record IsSized (first : EntrySpec) (second : EntrySpec) (third : EntrySpec)
    (policy : ExecutionPolicy) (c : InstrumentContext) (stop : Decimal) (a : PlannedOrder)
    (b : PlannedOrder) (d : PlannedOrder) (loss : Decimal) : Type 0 where
  pub first_price : a.reference_price ≡ first.reference_price
  pub second_price : b.reference_price ≡ second.reference_price
  pub third_price : d.reference_price ≡ third.reference_price
  pub tradable : All (IsTradable c) (a ∷ b ∷ d ∷ [])
  pub loss_known : loss ≡ ladder_loss stop (a ∷ b ∷ d ∷ [])
  pub loss_positive : pos 0 <ℤ loss

pub risk_checked_orders-IsSized :
    (first second third : EntrySpec) (policy : ExecutionPolicy) (c : InstrumentContext)
    (stop : Decimal) (a b d : PlannedOrder) (loss : Decimal)
    → risk_checked_orders first second third policy c stop ≡ ok (a, b, d, loss)
    → IsSized first second third policy c stop a b d loss
unfolding risk_checked_orders
risk_checked_orders-IsSized first second third policy c stop a b d loss h =
    through (planned_order first policy c stop) _ h λ a' ea h1.
      through (planned_order second policy c stop) _ h1 λ b' eb h2.
        through (planned_order third policy c stop) _ h2 λ d' ed h3.
          past (leb_ℤ (ladder_loss stop (a' ∷ b' ∷ d' ∷ [])) (pos 0)) _ _ h3 λ positive h4.
            through (checked (risk_budget_usdt policy)) _ h4 λ budget known h5.
              past (ltb_ℤ budget (ladder_loss stop (a' ∷ b' ∷ d' ∷ []))) _ _ h5 λ within h6.
                let (pa, ta) = planned_order-same first policy c stop ea in
                let (pb, tb) = planned_order-same second policy c stop eb in
                let (pd, td) = planned_order-same third policy c stop ed in
                subst
                  (λ (r : PlannedOrder × PlannedOrder × PlannedOrder × Decimal).
                    IsSized first second third policy c stop r.0 r.1 r.2 r.3)
                  (ok_injective h6)
                  (record {
                    first_price = pa;
                    second_price = pb;
                    third_price = pd;
                    tradable = (ta, (tb, (td, tt)));
                    loss_known = refl;
                    loss_positive = leb_ℤ-false _ (pos 0) positive;
                  })

-- A returned plan: its parts are those of the stages, and it is valid.
pub record IsBuilt (now : ℕ) (i : TradingIntent) (policy : ExecutionPolicy) (c : InstrumentContext)
    (p : ExecutionPlan) : Type 0 where
  pub stages : Stages now i policy c p
  pub sized :
      IsSized stages.first stages.second stages.third policy c stages.stop stages.primary
        stages.secondary stages.tertiary stages.loss
  pub orders : p.orders ≡ stages.primary ∷ stages.secondary ∷ stages.tertiary ∷ []
  pub side_kept : p.side ≡ i.side
  pub policy_kept : p.policy ≡ policy
  pub loss_kept : p.planned_max_loss_usdt ≡ stages.loss
  pub stop_kept : p.stop_loss ≡ stages.stop
  pub version : p.strategy_version ≡ 2
  pub targets : p.take_profit_targets ≡ stages.targets
  pub valid : IsValidPlan p

module _ (now : ℕ) (i : TradingIntent) (policy : ExecutionPolicy) (c : InstrumentContext)
    (p : ExecutionPlan) (planned : plan now i policy c ≡ ok p) where
  pub plan-IsBuilt : IsBuilt now i policy c p
  plan-IsBuilt =
      let s : Stages now i policy c p = plan-Stages now i policy c p planned in
      let (same, valid) = validate_plan-IsValidPlan _ s.validated in
      record {
        stages = s;
        sized = risk_checked_orders-IsSized _ _ _ _ _ _ _ _ _ _ s.sized;
        orders = ap (λ (q : ExecutionPlan). q.orders) same;
        side_kept = ap (λ (q : ExecutionPlan). q.side) same;
        policy_kept = ap (λ (q : ExecutionPlan). q.policy) same;
        loss_kept = ap (λ (q : ExecutionPlan). q.planned_max_loss_usdt) same;
        stop_kept = ap (λ (q : ExecutionPlan). q.stop_loss) same;
        version = ap (λ (q : ExecutionPlan). q.strategy_version) same;
        targets = ap (λ (q : ExecutionPlan). q.take_profit_targets) same;
        valid = subst IsValidPlan (sym same) valid;
      }

  -- If `plan` returns a plan, the plan carries the given policy, and its planned loss is
  -- positive, is what the ladder loses when every leg fills and the stop is hit, and is at most
  -- the policy's risk budget.
  pub plan_within_budget :
      (budget : Decimal) × (risk_budget_usdt policy ≡ ok budget)
      × (p.policy ≡ policy)
      × (pos 0 <ℤ p.planned_max_loss_usdt)
      × (p.planned_max_loss_usdt ≤ℤ budget)
      × (p.planned_max_loss_usdt ≡ ladder_loss p.stop_loss p.orders)
  plan_within_budget =
      let b : IsBuilt now i policy c p = plan-IsBuilt in
      (
        b.valid.budget,
        subst (λ q. risk_budget_usdt q ≡ ok b.valid.budget) b.policy_kept b.valid.budget_known,
        b.policy_kept,
        rw b.loss_kept b.sized.loss_positive,
        b.valid.within,
        b.loss_kept ∙ b.sized.loss_known ∙ sym (ap₂ ladder_loss b.stop_kept b.orders),
      )

  -- If `plan` returns a plan, every entry leg is a positive whole number of quantity steps, is not
  -- below the minimum quantity, and is worth the minimum notional where one is set.
  pub plan-IsTradable : All (IsTradable c) p.orders
  plan-IsTradable = let b : IsBuilt now i policy c p = plan-IsBuilt in rw b.orders b.sized.tradable

  -- If `plan` returns a plan, it has the three legs E1, E2 and E3, whose risk shares total 100 and
  -- which own no take profit, and three exits whose percentages and the runner's total 100.
  pub plan-IsV2Ladder : IsV2Ladder p
  plan-IsV2Ladder =
      let b : IsBuilt now i policy c p = plan-IsBuilt in b.valid.ladder (rw b.version (omega arith))
