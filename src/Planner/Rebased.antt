-- ===== src/Planner/Rebased.antt =====
-- A rebased plan keeps what was frozen, and the checks of a plan hold of it anew.
use cautious_crypto_bro.Prelude.{◌≡◌, refl, sym, ap, none, [], ◌∷◌, ◌++◌, All, arith, ltb, ◌≤◌}
use mathlib.Core.Path.{subst}
use cautious_crypto_bro.Prelude.Int.{pos, ◌≤ℤ◌, ltb_ℤ, leb_ℤ, ltb_ℤ-false}
use cautious_crypto_bro.Prelude.Result.{ok, through, past, map_err_ok, or_raise, ok_injective}
use cautious_crypto_bro.Decimal.{Decimal, abs, sub, mul}
use cautious_crypto_bro.Domain.Policy.{InstrumentContext, risk_budget_usdt, validate_policy}
use cautious_crypto_bro.Domain.Plan.Defs.{PlannedOrder, ExecutionPlan, Leg, e2, e3}
use cautious_crypto_bro.Domain.Plan.Rules.{revalidate_plan, validate_slices}
use cautious_crypto_bro.Domain.Plan.Valid.{IsV2Ladder, IsValidPlan, validate_plan-IsValidPlan}
use cautious_crypto_bro.Planner.Error.{invalid, assertion, checked, divide}
use cautious_crypto_bro.Planner.Entries.{round_price, round_to_step}
use cautious_crypto_bro.Planner.Sizing.{
  validate_entry_geometry, below_minimum_of, below_notional_of, ladder_loss,
}
use cautious_crypto_bro.Planner.Build.{weighted_entry, last_price}
use cautious_crypto_bro.Planner.Rebase.{
  RebaseGeometry, scale_in_order, validate_rebase_inputs, rebase_reference_prices,
  rebase_remaining_scale, resolve_rebase_targets, rebase_market_plan,
}
use cautious_crypto_bro.Planner.Orders.{
  IsTradable, validate_order-same, round_to_step-whole, above_minimum,
}
use cautious_crypto_bro.Planner.Geometry.{
  Worsens, reference_prices, validate_entry_geometry-Worsens,
}

scale_in_order-same :
    (g : RebaseGeometry) (leg : Leg) (price risk_pct : Decimal) {o : PlannedOrder}
    → scale_in_order g leg price risk_pct ≡ ok o
    → (o.reference_price ≡ price) × IsTradable g.context o
unfolding scale_in_order
scale_in_order-same g leg price risk_pct h =
    past (leb_ℤ (abs (sub price g.stop_loss)) (pos 0)) _ _ h λ _ h1.
      through (divide _ _) _ h1 λ raw _ h2.
        through (round_to_step raw g.context.qty_step) _ h2 λ quantity rounded h3.
          past (below_minimum_of g.context quantity) _ _ h3 λ enough h4.
            past (below_notional_of g.context (mul quantity price)) _ _ h4 λ worth h5.
              let same = validate_order-same _ (map_err_ok invalid _ h5) in
              let (steps, whole) = round_to_step-whole raw g.context.qty_step rounded in
              let (positive, minimum) = above_minimum g.context quantity enough in
              (
                ap (λ (o : PlannedOrder). o.reference_price) same,
                subst (IsTradable g.context) (sym same) (record {
                  steps = steps;
                  whole = whole;
                  positive = positive;
                  minimum = minimum;
                  notional = worth;
                }),
              )

rebase_levels :
    (p : ExecutionPlan) (fill : Decimal) (c : InstrumentContext)
    (levels : Decimal × Decimal × Decimal)
    → rebase_reference_prices p fill c ≡ ok levels
    → Worsens p.side (fill ∷ levels.1 ∷ levels.2 ∷ p.stop_loss ∷ [])
unfolding rebase_reference_prices
rebase_levels p fill c levels h = through (round_price _ c.tick_size) _ h λ second _ h1.
    through (round_price _ c.tick_size) _ h1 λ third _ h2.
      through (validate_entry_geometry p.side fill second third p.stop_loss) _ h2 λ u fits h3.
        subst
          (λ (l : Decimal × Decimal × Decimal).
            Worsens p.side (fill ∷ l.1 ∷ l.2 ∷ p.stop_loss ∷ []))
          (ok_injective h3)
          (validate_entry_geometry-Worsens p.side fill second third p.stop_loss fits)

rebase_version :
    (p : ExecutionPlan) (fill_price filled : Decimal) {leg : PlannedOrder}
    → validate_rebase_inputs p fill_price filled ≡ ok leg
    → 2 ≤ p.strategy_version
unfolding validate_rebase_inputs
rebase_version p fill_price filled h = past (ltb p.strategy_version 2) _ _ h λ new _. ground arith

revalidate_plan-IsValidPlan :
    (p : ExecutionPlan) {q : ExecutionPlan} → revalidate_plan p ≡ ok q → (q ≡ p) × IsValidPlan p
unfolding revalidate_plan
revalidate_plan-IsValidPlan p h =
    through (validate_policy p.policy) _ h λ u _ h1.
      through (validate_slices p.entry_slices) _ h1 λ v _ h2. validate_plan-IsValidPlan p h2

-- What a rebase keeps and what it makes.
pub record IsRebased (p : ExecutionPlan) (fill_price : Decimal) (filled : Decimal)
    (c : InstrumentContext) (q : ExecutionPlan) : Type 0 where
  pub policy_kept : q.policy ≡ p.policy
  pub stop_kept : q.stop_loss ≡ p.stop_loss
  pub side_kept : q.side ≡ p.side
  pub slices_kept : q.entry_slices ≡ p.entry_slices
  pub primary : PlannedOrder
  pub secondary : PlannedOrder
  pub tertiary : PlannedOrder
  pub orders : q.orders ≡ primary ∷ secondary ∷ tertiary ∷ []
  pub filled_quantity : primary.quantity ≡ filled
  pub filled_price : primary.reference_price ≡ fill_price
  pub scale_ins : All (IsTradable c) (secondary ∷ tertiary ∷ [])
  pub levels : Worsens p.side (reference_prices q.orders ++ p.stop_loss ∷ [])
  pub budget : Decimal
  pub budget_known : risk_budget_usdt p.policy ≡ ok budget
  pub loss_known : q.planned_max_loss_usdt ≡ ladder_loss p.stop_loss q.orders
  pub within : q.planned_max_loss_usdt ≤ℤ budget
  pub ladder : IsV2Ladder q

-- If `rebase_market_plan` returns a plan, policy, stop, side and entry slices are the old ones,
-- the first leg has the fill's price and quantity, the scale-ins are whole tradable lots, the
-- three levels and then the stop lie ever further into the loss, and the loss of the new ladder
-- at the stop is within the old risk budget; the plan has the ladder of Strategy V2 again.
pub rebase-IsRebased :
    (p : ExecutionPlan) (fill_price filled : Decimal) (c : InstrumentContext) (q : ExecutionPlan)
    → rebase_market_plan p fill_price filled c ≡ ok q
    → IsRebased p fill_price filled c q
unfolding rebase_market_plan
rebase-IsRebased p fill_price filled c q h =
    through (validate_rebase_inputs p fill_price filled) _ h λ leg inputs h1.
      through (checked (risk_budget_usdt p.policy)) _ h1 λ budget known h2.
        through (rebase_reference_prices p fill_price c) _ h2 λ (distance, second, third) levels h3.
          through (rebase_remaining_scale p filled distance) _ h3 λ scale _ h4.
            through (scale_in_order _ e2 second _) _ h4 λ secondary made2 h5.
              through (scale_in_order _ e3 third _) _ h5 λ tertiary made3 h6.
                past (ltb_ℤ budget (ladder_loss p.stop_loss (_ ∷ secondary ∷ tertiary ∷ []))) _ _ h6
                  λ within h7. through (weighted_entry _) _ h7 λ weighted _ h8.
                    through (resolve_rebase_targets p weighted _ c) _ h8
                      λ (targets, source, target) _ h9.
                        through (or_raise (last_price targets) assertion) _ h9 λ last _ h10.
                          let (same, valid) =
                            revalidate_plan-IsValidPlan _ (map_err_ok invalid _ h10) in
                          let (price2, lot2) = scale_in_order-same _ e2 second _ made2 in
                          let (price3, lot3) = scale_in_order-same _ e3 third _ made3 in
                          subst (IsRebased p fill_price filled c) (sym same) (record {
                            policy_kept = refl;
                            stop_kept = refl;
                            side_kept = refl;
                            slices_kept = refl;
                            primary = record leg {
                              quantity = filled;
                              price = none;
                              reference_price = fill_price;
                            };
                            secondary = secondary;
                            tertiary = tertiary;
                            orders = refl;
                            filled_quantity = refl;
                            filled_price = refl;
                            scale_ins = (lot2, (lot3, tt));
                            levels =
                                rw (price2, price3)
                                  (rebase_levels p fill_price c (distance, second, third) levels);
                            budget = budget;
                            budget_known = map_err_ok invalid _ known;
                            loss_known = refl;
                            within = ltb_ℤ-false budget _ within;
                            ladder = valid.ladder (rebase_version p fill_price filled inputs);
                          })
