-- ===== src/Domain/Plan/Valid.antt =====
-- What a validated `ExecutionPlan` satisfies.
use cautious_crypto_bro.Prelude.{
  ◌≤◌, ◌≡◌, true, false, not, is_some, List, [], ◌∷◌, map, length, any, leb, ◌==◌, All, arith,
  Bool-cases, inl, inr,
}
use cautious_crypto_bro.Prelude.Int.{◌≤ℤ◌, ltb_ℤ, eqb_ℤ, eqb_ℤ-true, ltb_ℤ-false}
use cautious_crypto_bro.Prelude.Result.{ok, through, past}
use cautious_crypto_bro.Text.{text, same_text-true}
use cautious_crypto_bro.Decimal.{Decimal, add, sum, dec}
use cautious_crypto_bro.Domain.Policy.{risk_budget_usdt}
use cautious_crypto_bro.Domain.Plan.Defs.{PlannedOrder, ExecutionPlan}
use cautious_crypto_bro.Domain.Plan.Rules.{
  present, risk_pcts, close_pcts, three_names, validate_v2_ladder, validate_ladder,
  validate_entry_slices, plan_bounds, validate_plan,
}

-- Each leg has a share of the risk and owns no take profit.
abbrev pub OwnsRiskOnly : PlannedOrder → Type 0
OwnsRiskOnly o = (is_some o.risk_pct ≡ true) × (is_some o.take_profit ≡ false)

-- The ladder of Strategy V2.
pub record IsV2Ladder (p : ExecutionPlan) : Type 0 where
  pub names : map (λ (o : PlannedOrder). o.name) p.orders ≡ text "E1" ∷ text "E2" ∷ text "E3" ∷ []
  pub legs : All OwnsRiskOnly p.orders
  pub risk_total : sum (present (risk_pcts p.orders)) ≡ dec 100
  pub three_exits : length p.take_profit_targets ≡ 3
  pub exit_total : add (sum (close_pcts p.take_profit_targets)) p.runner_pct ≡ dec 100

three_names-true :
    (orders : List PlannedOrder)
    → three_names orders ≡ true
    → map (λ (o : PlannedOrder). o.name) orders ≡ text "E1" ∷ text "E2" ∷ text "E3" ∷ []
three_names-true [] h = cc
three_names-true (a ∷ []) h = cc
three_names-true (a ∷ b ∷ []) h = cc
three_names-true (a ∷ b ∷ c ∷ []) h = ground (
  arith,
  same_text-true a.name (text "E1"),
  same_text-true b.name (text "E2"),
  same_text-true c.name (text "E3"),
)
three_names-true (a ∷ b ∷ c ∷ d ∷ rest) h = cc

any_missing :
    (orders : List PlannedOrder)
    → any (λ (o : PlannedOrder). not (is_some o.risk_pct)) orders ≡ false
    → any (λ (o : PlannedOrder). is_some o.take_profit) orders ≡ false
    → All OwnsRiskOnly orders
any_missing [] h k = tt
any_missing (o ∷ orders) h k = ground (arith, any_missing orders)

pub validate_v2_ladder-IsV2Ladder :
    (p : ExecutionPlan) {u : Unit {0}} → validate_v2_ladder p ≡ ok u → IsV2Ladder p
unfolding validate_v2_ladder
validate_v2_ladder-IsV2Ladder p h = past (not (length p.orders == 3)) _ _ h λ _ h1.
    past (not (three_names p.orders)) _ _ h1 λ named h2.
      past (any (λ (o : PlannedOrder). not (is_some o.risk_pct)) p.orders) _ _ h2 λ shares h3.
        past (not (eqb_ℤ (sum (present (risk_pcts p.orders))) (dec 100))) _ _ h3 λ total h4.
          past (any (λ (o : PlannedOrder). is_some o.take_profit) p.orders) _ _ h4 λ owned h5.
            past (not (length p.take_profit_targets == 3)) _ _ h5 λ exits h6. record {
              names = three_names-true p.orders (ground arith);
              legs = any_missing p.orders shares owned;
              risk_total = eqb_ℤ-true _ _ (ground arith);
              three_exits = ground arith;
              exit_total = eqb_ℤ-true _ _ (ground arith);
            }

pub record IsValidPlan (p : ExecutionPlan) : Type 0 where
  pub budget : Decimal
  pub budget_known : risk_budget_usdt p.policy ≡ ok budget
  pub within : p.planned_max_loss_usdt ≤ℤ budget
  pub bounds : plan_bounds p ≡ true
  pub ladder : 2 ≤ p.strategy_version → IsV2Ladder p
  pub slices : validate_entry_slices p ≡ ok tt

validate_ladder-IsV2Ladder :
    (p : ExecutionPlan) {u : Unit {0}}
    → validate_ladder p ≡ ok u
    → 2 ≤ p.strategy_version
    → IsV2Ladder p
unfolding validate_ladder
validate_ladder-IsV2Ladder p h v = elim (Bool-cases (leb 2 p.strategy_version)) [
  | inl new ↦ validate_v2_ladder-IsV2Ladder p (rw new at h)
  | inr old ↦ absurd (ground arith)
]

pub validate_plan-IsValidPlan :
    (p : ExecutionPlan) {q : ExecutionPlan} → validate_plan p ≡ ok q → (q ≡ p) × IsValidPlan p
unfolding validate_plan
validate_plan-IsValidPlan p {q} h = past (not (plan_bounds p)) _ _ h λ bounded h1.
    through (risk_budget_usdt p.policy) _ h1 λ budget known h2.
      past (ltb_ℤ budget p.planned_max_loss_usdt) _ _ h2 λ within h3.
        through (validate_ladder p) _ h3 λ u ladder h4.
          through (validate_entry_slices p) _ h4 λ v slices h5. (
            ground arith,
            record {
              budget = budget;
              budget_known = known;
              within = ltb_ℤ-false budget p.planned_max_loss_usdt within;
              bounds = ground arith;
              ladder = validate_ladder-IsV2Ladder p ladder;
              slices = slices;
            },
          )
