-- ===== src/Store/Recovery.antt =====
-- storage/recovery.py: quarantine of the executions that a restart interrupted, and its notices.
use cautious_crypto_bro.Prelude.{
  ℕ, Bool, true, false, not, ◌&&◌, none, List, [], ◌∷◌, ◌++◌, map, any, select, if◌then◌else◌,
}
use cautious_crypto_bro.Text.{Text, text, same_text}
use cautious_crypto_bro.Domain.Enums.{ApprovalMode, mode_is, StrategyStatus, PositionActionType}
use cautious_crypto_bro.Domain.Signal.{PositionActionIntent}
use cautious_crypto_bro.Domain.Strategy.{PositionStrategy}
use cautious_crypto_bro.Store.Table.{update}
use cautious_crypto_bro.Store.Tables.{Row, Kind, open_kind, action_kind, Delivery, Notice, Store}
use cautious_crypto_bro.Store.Shared.{is_executing, interrupt_row}
use cautious_crypto_bro.Store.Intents.{set_strategy}
use cautious_crypto_bro.Store.Actions.{managed_for}

abbrev pub interrupted : Text
interrupted =
    text
      "Process restarted during execution; exchange outcome is unknown; not retried automatically"

abbrev pub kind_is : Kind → Kind → Bool
kind_is open_kind open_kind = true
kind_is action_kind action_kind = true
kind_is _ _ = false

abbrev pub delivery_of : Text → Delivery → Bool
delivery_of id d = same_text d.record_id id

abbrev pub new_delivery : Text → Kind → Delivery
new_delivery id kind = record {
  record_id = id;
  kind = kind;
  claim_token = none;
  retry_after = none;
  delivered_at = none;
}

-- INSERT OR IGNORE INTO manual_deliveries(record_id, kind)
abbrev pub reserve_delivery : Text → Kind → List Delivery → List Delivery
reserve_delivery id kind ds =
    if any (delivery_of id) ds then ds else ds ++ new_delivery id kind ∷ []

module _ {P : Type 0} where
  abbrev pub ids_of : List (Row P) → List Text
  ids_of = map (λ (r : Row P). r.id)

  abbrev pub auto_executing : Row P → Bool
  auto_executing r = is_executing r && mode_is r.approval_mode ApprovalMode.auto

-- INSERT OR IGNORE INTO manual_deliveries(record_id, kind) SELECT ...
unfoldable pub reserve_all : Kind → List Text → List Delivery → List Delivery
reserve_all kind [] ds = ds
reserve_all kind (id ∷ ids) ds = reserve_all kind ids (reserve_delivery id kind ds)

-- `_quarantine_executing_records`: the identifiers of the interrupted records, the table after it,
-- and the deliveries.
unfoldable pub quarantine_records :
    {P : Type 0}
    → ℕ
    → Kind
    → List (Row P)
    → List Delivery
    → List Text × List (Row P) × List Delivery
quarantine_records now kind rows ds = (
  ids_of (select is_executing rows),
  update is_executing (interrupt_row now interrupted) rows,
  reserve_all kind (ids_of (select auto_executing rows)) ds,
)

abbrev pub notice_of : Kind → Text → Notice → Bool
notice_of kind id n = kind_is n.kind kind && same_text n.record_id id

-- INSERT OR IGNORE INTO interrupted_execution_notices
unfoldable pub add_notices : Kind → List Text → List Notice → List Notice
add_notices kind [] ns = ns
add_notices kind (id ∷ ids) ns =
    add_notices kind ids
      (if any (notice_of kind id) ns then ns else ns ++ record { kind = kind; record_id = id } ∷ [])

abbrev pub manages_position : PositionActionType → Bool
manages_position PositionActionType.cancel_entries = false
manages_position _ = true

abbrev pub interrupts_position : Row PositionActionIntent → Bool
interrupts_position r = is_executing r && manages_position r.payload.action

-- `action_symbols`; a sorted set there, where this list keeps the order and repeats.
unfoldable pub action_symbols : List (Row PositionActionIntent) → List Text
action_symbols rows =
    map (λ (r : Row PositionActionIntent). r.payload.symbol) (select interrupts_position rows)

-- The UPDATE for each symbol.
unfoldable pub quarantine_symbols : ℕ → List Text → List PositionStrategy → List PositionStrategy
quarantine_symbols now [] ps = ps
quarantine_symbols now (symbol ∷ symbols) ps =
    quarantine_symbols now symbols
      (update (managed_for symbol) (set_strategy now StrategyStatus.uncertain) ps)

-- `quarantine_interrupted_executions`
unfoldable pub quarantine_interrupted_executions : ℕ → Store → (List Text × List Text) × Store
quarantine_interrupted_executions now s =
    let symbols = action_symbols s.actions in
    let (intent_ids, intents', deliveries') =
      quarantine_records now open_kind s.intents s.deliveries in
    let (action_ids, actions', deliveries'') =
      quarantine_records now action_kind s.actions deliveries' in
    (
      (intent_ids, action_ids),
      record s {
        intents = intents';
        actions = actions';
        deliveries = deliveries'';
        notices = add_notices action_kind action_ids (add_notices open_kind intent_ids s.notices);
        strategies = quarantine_symbols now symbols s.strategies;
      },
    )

-- `pending_recovery_notices`, without its ORDER BY.
unfoldable pub pending_recovery_notices : Store → List Text × List Text
pending_recovery_notices s = (
  map (λ (n : Notice). n.record_id) (select (λ (n : Notice). kind_is n.kind open_kind) s.notices),
  map (λ (n : Notice). n.record_id) (select (λ (n : Notice). kind_is n.kind action_kind) s.notices),
)

abbrev pub acknowledged : List Text → List Text → Notice → Bool
acknowledged intent_ids action_ids n =
    any (same_text n.record_id) (if kind_is n.kind open_kind then intent_ids else action_ids)

-- `acknowledge_recovery_notices`
unfoldable pub acknowledge_recovery_notices : List Text → List Text → Store → Store
acknowledge_recovery_notices intent_ids action_ids s = record s {
  notices = select (λ n. not (acknowledged intent_ids action_ids n)) s.notices;
}
