-- ===== src/Planner/Error.antt =====
-- The exceptions of execution.py, one constructor for each message. `invalid` is the
-- ValidationError of a value that does not meet its model, `arithmetic` an exception of `decimal`,
-- `assertion` a failed `assert`.
use cautious_crypto_bro.Prelude.Result.{Result, or_raise, map_err}
use cautious_crypto_bro.Decimal.{Decimal, div}
use cautious_crypto_bro.Domain.Invalid.{Invalid}
use cautious_crypto_bro.Domain.Plan.Defs.{Leg}

pub data PlanError : Type 0 where
  invalid leverage_rejected : Invalid → PlanError
  arithmetic assertion : PlanError
  max_loss_not_positive over_risk_budget stop_not_positive : PlanError
  not_refreshable bad_market_price market_outside_stop : PlanError
  refreshed_below_minimum refreshed_below_notional : PlanError
  rebased_over_budget rebase_needs_v2 rebase_needs_three_legs rebase_needs_market : PlanError
  scale_ins_not_limit fill_price_not_positive fill_quantity_not_positive : PlanError
  long_fill_outside_stop short_fill_outside_stop fill_consumes_budget no_budget_left : PlanError
  no_rebased_stop_distance : PlanError
  range_too_narrow no_primary_distance levels_collapse : PlanError
  no_stop_distance below_minimum below_notional : Leg → PlanError
  rebase_below_minimum rebase_below_notional : Leg → PlanError
  weighted_entry_at_stop not_three_targets : PlanError
  trader_target_too_close targets_collapse : PlanError
  rebased_target_too_close rebased_targets_collapse : PlanError
  target_not_positive no_partial_exit no_runner no_configured_runner : PlanError
  long_stop_geometry long_level_order short_stop_geometry short_level_order : PlanError
  long_target_geometry short_target_geometry : PlanError
  market_below_long_entry market_above_short_entry : PlanError
  bad_tick_size bad_quantity_step : PlanError

-- A ValueError of the domain that nothing catches.
abbrev pub checked : {A : Type 0} → Result Invalid A → Result PlanError A
checked = map_err invalid

unfoldable pub divide : Decimal → Decimal → Result PlanError Decimal
divide a b = or_raise (div a b) arithmetic
