-- ===== src/Planner/Stages.antt =====
-- What a run of `plan` that returned has computed, stage by stage.
use cautious_crypto_bro.Prelude.{ℕ, ◌≡◌, some, List, [], ◌∷◌}
use cautious_crypto_bro.Prelude.Result.{ok, through, map_err_ok, or_raise_ok}
use cautious_crypto_bro.Decimal.{Decimal}
use cautious_crypto_bro.Domain.Enums.{StopLossSource, TakeProfitSource}
use cautious_crypto_bro.Domain.Signal.{TradingIntent}
use cautious_crypto_bro.Domain.Policy.{InstrumentContext, ExecutionPolicy}
use cautious_crypto_bro.Domain.Plan.Defs.{PlannedTakeProfit, PlannedOrder, ExecutionPlan}
use cautious_crypto_bro.Domain.Plan.Rules.{validate_plan}
use cautious_crypto_bro.Planner.Error.{invalid}
use cautious_crypto_bro.Planner.Entries.{EntrySpec, resolve_stop_loss, entry_specs}
use cautious_crypto_bro.Planner.Sizing.{
  validate_entry_geometry, validate_not_passed_through, risk_checked_orders, plan_leverage,
}
use cautious_crypto_bro.Planner.Targets.{
  take_profit_targets, validate_target_geometry, validate_initial_exit_capacity,
}
use cautious_crypto_bro.Planner.Build.{weighted_entry, plan, last_price}

-- The values that the stages handed on, and what each stage said.
pub record Stages (now : ℕ) (i : TradingIntent) (policy : ExecutionPolicy) (c : InstrumentContext)
    (p : ExecutionPlan) : Type 0 where
  pub stop : Decimal
  pub source : StopLossSource
  pub first : EntrySpec
  pub second : EntrySpec
  pub third : EntrySpec
  pub primary : PlannedOrder
  pub secondary : PlannedOrder
  pub tertiary : PlannedOrder
  pub loss : Decimal
  pub weighted : Decimal
  pub targets : List PlannedTakeProfit
  pub target_source : TakeProfitSource
  pub leverage : Decimal
  pub last : Decimal
  pub stop_resolved : resolve_stop_loss i policy.strategy_v2 c ≡ ok (stop, source)
  pub specs : entry_specs i policy.strategy_v2 c stop ≡ ok (first, second, third)
  pub geometry :
      validate_entry_geometry i.side first.reference_price second.reference_price
        third.reference_price stop
      ≡ ok tt
  pub not_passed :
      validate_not_passed_through i.entry.type i.side first.reference_price c.market_price ≡ ok tt
  pub sized :
      risk_checked_orders first second third policy c stop ≡ ok (primary, secondary, tertiary, loss)
  pub weighed : weighted_entry (primary ∷ secondary ∷ tertiary ∷ []) ≡ ok weighted
  pub aimed :
      take_profit_targets i policy.strategy_v2 weighted stop c.tick_size
      ≡ ok (targets, target_source)
  pub target_geometry : validate_target_geometry i.side weighted targets ≡ ok tt
  pub capacity : validate_initial_exit_capacity i.side primary stop targets c ≡ ok tt
  pub levered : plan_leverage i c ≡ ok leverage
  pub ends : last_price targets ≡ some last
  pub validated :
      validate_plan (record {
        strategy_version = 2;
        intent_id = i.intent_id;
        symbol = i.symbol;
        side = i.side;
        leverage = leverage;
        orders = primary ∷ secondary ∷ tertiary ∷ [];
        entry_slices = [];
        stop_loss = stop;
        stop_loss_source = source;
        take_profit = last;
        take_profit_targets = targets;
        take_profit_source = target_source;
        trader_take_profit = i.take_profit;
        runner_pct = policy.strategy_v2.runner_pct;
        policy = policy;
        planned_max_loss_usdt = loss;
        created_at = now;
      })
      ≡ ok p

pub plan-Stages :
    (now : ℕ) (i : TradingIntent) (policy : ExecutionPolicy) (c : InstrumentContext)
    (p : ExecutionPlan)
    → plan now i policy c ≡ ok p
    → Stages now i policy c p
unfolding plan
plan-Stages now i policy c p h =
    through (resolve_stop_loss i policy.strategy_v2 c) _ h λ (stop, source) e1 h1.
      through (entry_specs i policy.strategy_v2 c stop) _ h1 λ (first, second, third) e2 h2.
        through (validate_entry_geometry _ _ _ _ _) _ h2 λ u e3 h3.
          through (validate_not_passed_through _ _ _ _) _ h3 λ v e4 h4.
            through (risk_checked_orders first second third policy c stop) _ h4
              λ (primary, secondary, tertiary, loss) e5 h5.
                through (weighted_entry _) _ h5 λ weighted e6 h6.
                  through (take_profit_targets _ _ weighted stop _) _ h6
                    λ (targets, target_source) e7 h7.
                      through (validate_target_geometry _ _ _) _ h7 λ w e8 h8.
                        through (validate_initial_exit_capacity _ _ _ _ _) _ h8 λ x e9 h9.
                          through (plan_leverage i c) _ h9 λ leverage e10 h10.
                            through _ _ h10 λ last e11 h11. record {
                              stop = stop;
                              source = source;
                              first = first;
                              second = second;
                              third = third;
                              primary = primary;
                              secondary = secondary;
                              tertiary = tertiary;
                              loss = loss;
                              weighted = weighted;
                              targets = targets;
                              target_source = target_source;
                              leverage = leverage;
                              last = last;
                              stop_resolved = e1;
                              specs = e2;
                              geometry = e3;
                              not_passed = e4;
                              sized = e5;
                              weighed = e6;
                              aimed = e7;
                              target_geometry = e8;
                              capacity = e9;
                              levered = e10;
                              ends = or_raise_ok _ _ e11;
                              validated = map_err_ok invalid _ h11;
                            }
