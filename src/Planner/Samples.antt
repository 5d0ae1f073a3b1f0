-- ===== src/Planner/Samples.antt =====
-- A sample intent, policy and instrument.
use cautious_crypto_bro.Prelude.{none, some, ◌≡◌, refl}
use cautious_crypto_bro.Prelude.Int.{pos, negsuc}
use cautious_crypto_bro.Text.{text, same_text}
use cautious_crypto_bro.Decimal.{
  dec, decimal, add, sub, mul, div, abs, round_down, round_half_up, percent, sum, opposite, one,
}
use cautious_crypto_bro.Domain.Enums.{long, EntryType, OpenRelation, ApprovalMode, IntentStatus}
use cautious_crypto_bro.Domain.Signal.{SourceMessage, TradingIntent}
use cautious_crypto_bro.Domain.Policy.{
  InstrumentContext, ExitProfile, StrategyV2Policy, ExecutionPolicy, risk_budget_usdt, exit_rules,
}
use cautious_crypto_bro.Prelude.Result.{ok}
use cautious_crypto_bro.Domain.Plan.Defs.{
  ExecutionPlan, validate_order, order_bounds, leg_name, validate_take_profit,
}
use cautious_crypto_bro.Domain.Plan.Rules.{
  validate_plan, plan_bounds, validate_ladder, validate_v2_ladder, validate_entry_slices,
}
use cautious_crypto_bro.Planner.Error.{divide}
use cautious_crypto_bro.Planner.Entries.{
  resolve_stop_loss, stop_candidate, round_price, entry_specs, entry_prices, ladder_entry_prices,
  primary_level, scale_in_price, round_to_step,
}
use cautious_crypto_bro.Planner.Sizing.{
  validate_entry_geometry, validate_not_passed_through, risk_checked_orders, planned_order,
  ladder_loss, order_loss, plan_leverage,
}
use cautious_crypto_bro.Planner.Targets.{
  take_profit_targets, round_target, build_take_profit_targets, chosen_rules, derived_take_profits,
  reward_price, validate_target_geometry, validate_initial_exit_capacity, place_exits, place_exit,
}
use cautious_crypto_bro.Planner.Build.{plan, weighted_entry}

abbrev pub source_message : SourceMessage
source_message = record {
  channel_id = negsuc 1000;
  channel_title = text "signals";
  channel_username = none;
  message_id = pos 7;
  published_at = 1000;
  received_at = 1001;
  text = text "BTC long";
  recovery_review_reason = none;
}

-- The defaults of `StrategyV2Policy`.
abbrev pub default_strategy : StrategyV2Policy
default_strategy = record {
  exit_profile = ExitProfile.baseline;
  long_participation_arm = none;
  long_participation_momentum = none;
  entry_order_ttl_minutes = 0;
  fallback_stop_distance_pct = dec 2;
  primary_entry_risk_pct = dec 60;
  secondary_entry_risk_pct = dec 25;
  tertiary_entry_risk_pct = dec 15;
  secondary_entry_depth_r = decimal 33 2;
  tertiary_entry_depth_r = decimal 66 2;
  first_take_profit_r = decimal 5 1;
  second_take_profit_r = dec 1;
  third_take_profit_r = decimal 15 1;
  first_take_profit_pct = dec 25;
  second_take_profit_pct = dec 25;
  third_take_profit_pct = dec 25;
  runner_pct = dec 25;
  trailing_activation_r = decimal 5 1;
  trailing_distance_r = decimal 3 1;
  minimum_locked_profit_r = decimal 5 2;
}

abbrev pub policy : ExecutionPolicy
policy = record {
  trading_capital_usdt = some (dec 10000);
  risk_per_trade_pct = dec 1;
  strategy_v2 = default_strategy;
}

abbrev pub context : InstrumentContext
context = record {
  market_price = dec 60000;
  tick_size = decimal 1 1;
  qty_step = decimal 1 3;
  min_qty = decimal 1 3;
  min_notional = dec 5;
  leverage_filter = none;
}

abbrev pub intent : TradingIntent
intent = record {
  intent_id = text "00112233445566778899aabbccddeeff";
  source = source_message;
  symbol = text "BTCUSDT";
  side = long;
  entry = record { type = EntryType.market; price = none; range_low = none; range_high = none };
  stop_loss = some (dec 59000);
  take_profit = none;
  leverage = none;
  summary = text "BTC long";
  confidence = decimal 9 1;
  relation = OpenRelation.new;
  relation_evidence = none;
  approval_mode = ApprovalMode.manual;
  created_at = 1000;
  status = IntentStatus.pending;
}

-- The plan for the intent above, and that it is what the planner returns.
unfoldable pub planned : (p : ExecutionPlan) × (plan 5 intent policy context ≡ ok p)
unfolding plan resolve_stop_loss stop_candidate round_price divide entry_specs entry_prices
    ladder_entry_prices primary_level scale_in_price validate_entry_geometry
    validate_not_passed_through risk_checked_orders planned_order risk_budget_usdt round_to_step
    validate_order order_bounds leg_name ladder_loss order_loss weighted_entry take_profit_targets
    round_target build_take_profit_targets chosen_rules exit_rules derived_take_profits reward_price
    validate_take_profit validate_target_geometry validate_initial_exit_capacity place_exits
    place_exit plan_leverage validate_plan plan_bounds validate_ladder validate_v2_ladder
    validate_entry_slices add sub mul div abs round_down round_half_up dec decimal percent sum
    opposite one same_text
planned = (_, refl)
