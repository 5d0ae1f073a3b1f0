-- ===== src/Domain/Policy.antt =====
-- domain.py: instruments and policies.
use cautious_crypto_bro.Prelude.{ℕ, Bool, true, not, ◌&&◌, ◌||◌, Option, none, some, List, [], ◌∷◌}
use cautious_crypto_bro.Prelude.Int.{ltb_ℤ, leb_ℤ, eqb_ℤ}
use cautious_crypto_bro.Prelude.Result.{Result, ok, ◌>>=◌, ◌>>◌, raise_if, or_raise}
use cautious_crypto_bro.Text.{Text, text}
use cautious_crypto_bro.Decimal.{
  Decimal, is_positive, min, add, sub, mul, div, round_down, dec, percent,
}
use cautious_crypto_bro.Domain.Invalid.{
  Invalid, out_of_bounds, exit_rs_not_increasing, exit_total, entry_total, entry_depths,
  take_profit_rs, v2_exit_total, trailing_distance, locked_profit, no_capital, leverage_filter,
  leverage_too_low,
}

pub record LeverageFilter : Type 0 where
  pub min_leverage : Decimal
  pub max_leverage : Decimal
  pub step : Decimal

-- `LeverageFilter.__post_init__`
unfoldable pub validate_leverage_filter : LeverageFilter → Result Invalid (Unit {0})
validate_leverage_filter f =
    raise_if
      (ltb_ℤ f.min_leverage (dec 1)
        || ltb_ℤ f.max_leverage f.min_leverage
        || not (is_positive f.step))
      leverage_filter

-- `LeverageFilter.select`; a step of zero cannot be built.
unfoldable pub select_leverage : LeverageFilter → Decimal → Result Invalid Decimal
select_leverage f requested = do
  raise_if (ltb_ℤ requested f.min_leverage) leverage_too_low
  let capped = min requested f.max_leverage
  ratio ← or_raise (div (sub capped f.min_leverage) f.step) leverage_filter
  ok (add f.min_leverage (mul (round_down ratio) f.step))

pub record InstrumentContext : Type 0 where
  pub market_price : Decimal
  pub tick_size : Decimal
  pub qty_step : Decimal
  pub min_qty : Decimal
  pub min_notional : Decimal
  pub leverage_filter : Option LeverageFilter

pub record ExitPolicy : Type 0 where
  pub minimum_reward_bps : Decimal
  pub basic_r_multiple : Decimal
  pub basic_close_pct : Decimal
  pub medium_r_multiple : Decimal
  pub medium_close_pct : Decimal
  pub high_r_multiple : Decimal
  pub high_close_pct : Decimal

-- `Field(gt=0, lt=100)`
abbrev pub is_pct : Decimal → Bool
is_pct d = is_positive d && ltb_ℤ d (dec 100)

-- The constraints of the fields and `ExitPolicy.validate_ladder`.
unfoldable pub validate_exit_policy : ExitPolicy → Result Invalid (Unit {0})
validate_exit_policy p = do
  raise_if
      (not (
        leb_ℤ (dec 0) p.minimum_reward_bps
        && leb_ℤ p.minimum_reward_bps (dec 1000)
        && is_positive p.basic_r_multiple
        && is_pct p.basic_close_pct
        && is_positive p.medium_r_multiple
        && is_pct p.medium_close_pct
        && is_positive p.high_r_multiple
        && is_pct p.high_close_pct))
      out_of_bounds
  raise_if
      (not (
        ltb_ℤ p.basic_r_multiple p.medium_r_multiple
        && ltb_ℤ p.medium_r_multiple p.high_r_multiple))
      exit_rs_not_increasing
  raise_if (not (eqb_ℤ (add (add p.basic_close_pct p.medium_close_pct) p.high_close_pct) (dec 100)))
      exit_total

pub data ExitProfile : Type 0 where
  baseline payoff_challenger payoff_early_trail payoff_early_tight_trail : ExitProfile
  payoff_early_tight_trail_long_015 payoff_early_tight_trail_long_ab_015 : ExitProfile
  payoff_early_tight_trail_long_ab_020_control : ExitProfile

pub data ParticipationArm : Type 0 where
  take skip : ParticipationArm

pub data MomentumStratum : Type 0 where
  positive nonpositive unavailable : MomentumStratum

pub record StrategyV2Policy : Type 0 where
  pub exit_profile : ExitProfile
  pub long_participation_arm : Option ParticipationArm
  pub long_participation_momentum : Option MomentumStratum
  pub entry_order_ttl_minutes : ℕ
  pub fallback_stop_distance_pct : Decimal
  pub primary_entry_risk_pct : Decimal
  pub secondary_entry_risk_pct : Decimal
  pub tertiary_entry_risk_pct : Decimal
  pub secondary_entry_depth_r : Decimal
  pub tertiary_entry_depth_r : Decimal
  pub first_take_profit_r : Decimal
  pub second_take_profit_r : Decimal
  pub third_take_profit_r : Decimal
  pub first_take_profit_pct : Decimal
  pub second_take_profit_pct : Decimal
  pub third_take_profit_pct : Decimal
  pub runner_pct : Decimal
  pub trailing_activation_r : Decimal
  pub trailing_distance_r : Decimal
  pub minimum_locked_profit_r : Decimal

-- The constraints of the fields of `StrategyV2Policy`.
unfoldable pub strategy_bounds : StrategyV2Policy → Bool
strategy_bounds s =
    is_pct s.fallback_stop_distance_pct
    && is_pct s.primary_entry_risk_pct
    && is_pct s.secondary_entry_risk_pct
    && is_pct s.tertiary_entry_risk_pct
    && is_positive s.secondary_entry_depth_r
    && ltb_ℤ s.secondary_entry_depth_r (dec 1)
    && is_positive s.tertiary_entry_depth_r
    && ltb_ℤ s.tertiary_entry_depth_r (dec 1)
    && is_positive s.first_take_profit_r
    && is_positive s.second_take_profit_r
    && is_positive s.third_take_profit_r
    && is_pct s.first_take_profit_pct
    && is_pct s.second_take_profit_pct
    && is_pct s.third_take_profit_pct
    && is_pct s.runner_pct
    && is_positive s.trailing_activation_r
    && is_positive s.trailing_distance_r
    && leb_ℤ (dec 0) s.minimum_locked_profit_r

-- `StrategyV2Policy.validate_v2_policy`, after the constraints of the fields.
unfoldable pub validate_v2_policy : StrategyV2Policy → Result Invalid (Unit {0})
validate_v2_policy s = do
  raise_if (not (strategy_bounds s)) out_of_bounds
  raise_if
      (not (
        eqb_ℤ
          (add (add s.primary_entry_risk_pct s.secondary_entry_risk_pct) s.tertiary_entry_risk_pct)
          (dec 100)))
      entry_total
  raise_if (not (ltb_ℤ s.secondary_entry_depth_r s.tertiary_entry_depth_r)) entry_depths
  raise_if
      (not (
        ltb_ℤ s.first_take_profit_r s.second_take_profit_r
        && ltb_ℤ s.second_take_profit_r s.third_take_profit_r))
      take_profit_rs
  raise_if
      (not (
        eqb_ℤ
          (add (add (add s.first_take_profit_pct s.second_take_profit_pct) s.third_take_profit_pct)
            s.runner_pct)
          (dec 100)))
      v2_exit_total
  raise_if (leb_ℤ s.trailing_activation_r s.trailing_distance_r) trailing_distance
  raise_if (ltb_ℤ (sub s.trailing_activation_r s.trailing_distance_r) s.minimum_locked_profit_r)
      locked_profit

-- `exit_rules`: name, R multiple and percentage of each fixed exit.
unfoldable pub exit_rules : StrategyV2Policy → List (Text × Decimal × Decimal)
exit_rules s =
    (text "TP1", s.first_take_profit_r, s.first_take_profit_pct)
    ∷ (text "TP2", s.second_take_profit_r, s.second_take_profit_pct)
    ∷ (text "TP3", s.third_take_profit_r, s.third_take_profit_pct)
    ∷ []

-- The two fields that only historical V1 plans read are left out.
pub record ExecutionPolicy : Type 0 where
  pub trading_capital_usdt : Option Decimal
  pub risk_per_trade_pct : Decimal
  pub strategy_v2 : StrategyV2Policy

abbrev pub capital_bound : Option Decimal → Bool
capital_bound none = true
capital_bound (some c) = is_positive c

-- What validating a policy anew checks: its own fields, then the strategy.
unfoldable pub validate_policy : ExecutionPolicy → Result Invalid (Unit {0})
validate_policy p = do
  raise_if
      (not (
        capital_bound p.trading_capital_usdt
        && is_positive p.risk_per_trade_pct
        && leb_ℤ p.risk_per_trade_pct (dec 10)))
      out_of_bounds
  validate_v2_policy p.strategy_v2

-- `ExecutionPolicy.risk_budget_usdt`
unfoldable pub risk_budget_usdt : ExecutionPolicy → Result Invalid Decimal
risk_budget_usdt p = do
  capital ← or_raise p.trading_capital_usdt no_capital
  ok (percent (mul capital p.risk_per_trade_pct))
