-- ===== src/Domain/Invalid.antt =====
-- The `ValueError`s of domain.py, one for each `raise`; `out_of_bounds` is a `Field` constraint.
pub data Invalid : Type 0 where
  out_of_bounds : Invalid
  not_usdt bad_base_asset : Invalid
  market_with_price limit_without_price limit_with_range : Invalid
  range_with_price range_incomplete range_not_increasing : Invalid
  long_stop_not_below long_target_not_above short_stop_not_above short_target_not_below : Invalid
  long_targets_crossed short_targets_crossed : Invalid
  reduce_without_pct pct_without_reduce : Invalid
  exit_rs_not_increasing exit_total : Invalid
  entry_total entry_depths take_profit_rs v2_exit_total trailing_distance locked_profit : Invalid
  no_capital : Invalid
  leverage_filter leverage_too_low : Invalid
  market_order_with_price limit_order_without_price : Invalid
  slice_fill_evidence : Invalid
  over_risk_budget : Invalid
  slices_need_v2 slices_not_contiguous slices_out_of_order : Invalid
  slice_fill_incomplete slice_quantity : Invalid
  not_three_legs leg_names leg_risk_missing leg_risk_total leg_take_profit : Invalid
  not_three_exits exit_pct_total target_pct_total : Invalid
