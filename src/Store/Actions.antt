-- ===== src/Store/Actions.antt =====
-- storage/position_action.py: the repository of lifecycle actions.
use cautious_crypto_bro.Prelude.{
  ℕ, ◌+◌, ◌*◌, ◌==◌, Bool, true, false, not, ◌&&◌, ◌||◌, Option, none, some, is_some, List, [], ◌∷◌,
  map, select, first, leb, if◌then◌else◌,
}
use cautious_crypto_bro.Prelude.Int.{ℤ, eqb_ℤ}
use cautious_crypto_bro.Prelude.Result.{Result, ok, ◌>>◌, raise_if}
use cautious_crypto_bro.Text.{Text, text, same_text, starts_with, prefix, upper}
use cautious_crypto_bro.Domain.Enums.{
  Side, side_is, IntentStatus, status_is, ApprovalMode, mode_is, StrategyStatus, strategy_is,
  PositionActionType,
}
use cautious_crypto_bro.Domain.Signal.{TradingIntent, PositionActionIntent}
use cautious_crypto_bro.Domain.Strategy.{PositionStrategy}
use cautious_crypto_bro.Store.Table.{update, affected}
use cautious_crypto_bro.Store.Tables.{Row, Store, StoreError, expiry_not_recorded, bad_age_limit}
use cautious_crypto_bro.Store.Shared.{transition_pending, has_id, mark_rows_failed}
use cautious_crypto_bro.Store.Intents.{strategy_of, set_strategy}

abbrev pub expired_action_error : Text
expired_action_error = text "Lifecycle instruction expired before approval; no exchange action sent"

abbrev pub contract_review_prefix : Text
contract_review_prefix = text "Unverified lifecycle contract: "

-- `s.removeprefix(p)` of a text that starts with `p`.
abbrev drop_prefix : Text → Text → Text
drop_prefix s [] = s
drop_prefix [] (d ∷ p) = []
drop_prefix (c ∷ s) (d ∷ p) = drop_prefix s p

-- `_contract_review_reason`
unfoldable pub contract_review_reason : Option Text → Option Text
contract_review_reason none = none
contract_review_reason (some error) =
    if starts_with error contract_review_prefix
    then some (drop_prefix error contract_review_prefix)
    else none

abbrev hydrated : Option (Row PositionActionIntent) → Option PositionActionIntent
hydrated none = none
hydrated (some r) = some (record (r.payload) {
  status = r.status;
  approval_mode = r.approval_mode;
  contract_review_reason = contract_review_reason r.error;
})

-- `get_position_action`
unfoldable pub get_position_action : Text → Store → Option PositionActionIntent
get_position_action id s = hydrated (first (has_id id) s.actions)

-- `age_seconds(now) <= max_age_seconds`, in microseconds.
abbrev pub is_fresh : ℕ → ℕ → PositionActionIntent → Bool
is_fresh now max_age a =
    let born =
      if leb a.created_at a.source.published_at then a.created_at else a.source.published_at in
    leb now (born + max_age * 1_000_000)

-- The errors of a skipped action that is still to be shown.
unfoldable pub is_notice : Option Text → Bool
is_notice none = false
is_notice (some error) =
    same_text error expired_action_error || starts_with error contract_review_prefix

abbrev pub pending_manual : Text → Row PositionActionIntent → Bool
pending_manual id r =
    has_id id r
    && status_is r.status IntentStatus.pending
    && mode_is r.approval_mode ApprovalMode.manual

abbrev pub expire_row : ℕ → Row PositionActionIntent → Row PositionActionIntent
expire_row now r = record r {
  status = IntentStatus.skipped;
  error = some expired_action_error;
  updated_at = now;
}

-- The transition of a pending action that is too old.
unfoldable pub expire_action :
    ℕ
    → Text
    → Row PositionActionIntent
    → Store
    → Result StoreError (Option PositionActionIntent × Store)
expire_action now id r s = do
  raise_if (not (affected (pending_manual id) s.actions == 1)) expiry_not_recorded
  ok (
    some (record (r.payload) { status = IntentStatus.skipped }),
    record s { actions = update (pending_manual id) (expire_row now) s.actions },
  )

-- What becomes of the row that was found.
unfoldable pub deliver_action :
    ℕ
    → ℕ
    → Text
    → Option (Row PositionActionIntent)
    → Store
    → Result StoreError (Option PositionActionIntent × Store)
deliver_action now max_age id none s = ok (none, s)
deliver_action now max_age id (some r) s =
    if not (mode_is r.approval_mode ApprovalMode.manual)
    then ok (none, s)
    else if status_is r.status IntentStatus.skipped
    then ok (
      if is_notice r.error
          then some (record (r.payload) {
            status = IntentStatus.skipped;
            contract_review_reason = contract_review_reason r.error;
          })
          else none,
      s,
    )
    else if not (status_is r.status IntentStatus.pending)
    then ok (none, s)
    else if is_fresh now max_age r.payload
    then ok (some r.payload, s)
    else expire_action now id r s

-- `prepare_manual_action_delivery`
unfoldable pub prepare_manual_action_delivery :
    ℕ → ℕ → Text → Store → Result StoreError (Option PositionActionIntent × Store)
prepare_manual_action_delivery now max_age id s = do
  raise_if (max_age == 0) bad_age_limit
  deliver_action now max_age id (first (has_id id) s.actions) s

-- `claim_position_action_for_execution`
unfoldable pub claim_position_action :
    ℕ → Text → Option ℤ → Option ApprovalMode → Store → Bool × Store
claim_position_action now id user mode s =
    let (claimed, rows) = transition_pending now id IntentStatus.executing user mode s.actions in
    (claimed, record s { actions = rows })

-- `mark_position_action_skipped`
unfoldable pub mark_position_action_skipped : ℕ → Text → Option ℤ → Store → Bool × Store
mark_position_action_skipped now id user s =
    let (skipped, rows) = transition_pending now id IntentStatus.skipped user none s.actions in
    (skipped, record s { actions = rows })

-- WHERE symbol = ? AND status NOT IN ('CLOSED', 'MANUAL_OVERRIDE')
abbrev pub open_for : Text → PositionStrategy → Bool
open_for symbol p =
    same_text p.symbol symbol
    && not (strategy_is p.status StrategyStatus.closed)
    && not (strategy_is p.status StrategyStatus.manual_override)

abbrev pub certain_for : Text → PositionStrategy → Bool
certain_for symbol p = open_for symbol p && not (strategy_is p.status StrategyStatus.uncertain)

abbrev pub rebalance : ℕ → PositionStrategy → PositionStrategy
rebalance now p = record p { entry_frozen = true; rebalance_needed = true; updated_at = now }

abbrev pub start_closing : ℕ → PositionStrategy → PositionStrategy
start_closing now p = record p {
  status = StrategyStatus.closing;
  entry_frozen = true;
  rebalance_needed = false;
  updated_at = now;
}

-- The strategy transition of `complete_position_action`.
unfoldable pub complete_strategies :
    ℕ → PositionActionType → Text → List PositionStrategy → List PositionStrategy
complete_strategies now PositionActionType.reduce symbol = update (open_for symbol) (rebalance now)
complete_strategies now _ symbol = update (certain_for symbol) (start_closing now)

-- `complete_position_action`
unfoldable pub complete_position_action : ℕ → PositionActionIntent → Text → Store → Store
complete_position_action now a order_id s = record s {
  actions =
      update (has_id a.action_id)
        (λ r. record r {
          status = IntentStatus.executed;
          bybit_order_id = some order_id;
          error = none;
          updated_at = now;
        })
        s.actions;
  strategies = complete_strategies now a.action a.symbol s.strategies;
}

-- `mark_position_action_failed`
unfoldable pub mark_position_action_failed : ℕ → Text → Text → Store → Store
mark_position_action_failed now id error s = record s {
  actions = mark_rows_failed now id error s.actions;
}

-- The four statuses that automation manages.
abbrev pub is_managed : StrategyStatus → Bool
is_managed StrategyStatus.entering = true
is_managed StrategyStatus.open_risk = true
is_managed StrategyStatus.profit_protected = true
is_managed StrategyStatus.closing = true
is_managed _ = false

abbrev pub managed_for : Text → PositionStrategy → Bool
managed_for symbol p = same_text p.symbol symbol && is_managed p.status

-- `mark_position_action_uncertain`
unfoldable pub mark_position_action_uncertain : ℕ → Text → Text → Option Text → Text → Store → Store
mark_position_action_uncertain now id symbol order_id error s = record s {
  actions =
      update (has_id id)
        (λ r. record r {
          status = IntentStatus.uncertain;
          bybit_order_id = order_id;
          error = some (prefix 2000 error);
          updated_at = now;
        })
        s.actions;
  strategies =
      update (managed_for (upper symbol)) (set_strategy now StrategyStatus.uncertain) s.strategies;
}

abbrev side_matches : Option Side → Side → Bool
side_matches none side = true
side_matches (some expected) side = side_is side expected

-- WHERE channel_id = ? AND status IN (...), and the filter over the rows that come back.
abbrev pub is_target : PositionActionIntent → Row TradingIntent → Bool
is_target a r =
    eqb_ℤ r.payload.source.channel_id a.source.channel_id
    && not (status_is r.status IntentStatus.skipped)
    && same_text r.payload.symbol a.symbol
    && leb r.payload.source.published_at a.source.published_at
    && side_matches a.expected_side r.payload.side

-- `entry_cancellation_targets`
unfoldable pub entry_cancellation_targets : PositionActionIntent → Store → List Text
entry_cancellation_targets a s =
    map (λ (r : Row TradingIntent). r.payload.intent_id) (select (is_target a) s.intents)

abbrev pub unsettled : Text → Row TradingIntent → Bool
unsettled id r =
    has_id id r
    && (status_is r.status IntentStatus.pending || status_is r.status IntentStatus.executing)

abbrev pub withdraw_row : ℕ → Row TradingIntent → Row TradingIntent
withdraw_row now r = record r {
  status = IntentStatus.skipped;
  error = some (text "Entry withdrawn by source");
  updated_at = now;
}

abbrev pub not_closed : Text → PositionStrategy → Bool
not_closed id p = strategy_of id p && not (strategy_is p.status StrategyStatus.closed)

abbrev pub close_strategy : ℕ → PositionStrategy → PositionStrategy
close_strategy now p = record p {
  status = StrategyStatus.closed;
  rebalance_needed = false;
  updated_at = now;
}

-- One round of the loop of `record_entry_cancellation`.
unfoldable pub withdraw_entry : ℕ → Bool → Text → Store → Store
withdraw_entry now close id s =
    let frozen = update (not_closed id) (rebalance now) s.strategies in
    record s {
      intents = update (unsettled id) (withdraw_row now) s.intents;
      strategies = if close then update (strategy_of id) (close_strategy now) frozen else frozen;
    }

unfoldable pub withdraw_entries : ℕ → Bool → List Text → Store → Store
withdraw_entries now close [] s = s
withdraw_entries now close (id ∷ ids) s =
    withdraw_entries now close ids (withdraw_entry now close id s)

abbrev pub settle_row : ℕ → Bool → Option Text → Row PositionActionIntent → Row PositionActionIntent
settle_row now complete error r = record r {
  status = if complete then IntentStatus.executed else IntentStatus.uncertain;
  error = error;
  updated_at = now;
}

-- `record_entry_cancellation`
unfoldable pub record_entry_cancellation :
    ℕ → PositionActionIntent → List Text → Bool → Bool → Option Text → Store → Store
record_entry_cancellation now a targets complete flat error s =
    let s' = withdraw_entries now (complete && flat) targets s in
    if complete || is_some error
    then record s' {
      actions = update (has_id a.action_id) (settle_row now complete error) s'.actions;
    }
    else s'
