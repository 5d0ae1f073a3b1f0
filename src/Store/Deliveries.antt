-- ===== src/Store/Deliveries.antt =====
-- storage/manual_delivery.py and storage/auto_outcome.py: the queue of what the bot has to show.
use cautious_crypto_bro.Prelude.{
  ℕ, suc, ◌+◌, ◌/◌, ◌==◌, Bool, true, false, not, ◌&&◌, ◌||◌, Option, none, some, is_some, List, [],
  ◌∷◌, ◌++◌, map, any, select, leb, ltb, if◌then◌else◌,
}
use cautious_crypto_bro.Prelude.Result.{Result, ok, ◌>>=◌, ◌>>◌, raise_if}
use cautious_crypto_bro.Text.{Text, text, same_text}
use cautious_crypto_bro.Domain.Enums.{IntentStatus, status_is, ApprovalMode, mode_is}
use cautious_crypto_bro.Store.Table.{update, affected}
use cautious_crypto_bro.Store.Tables.{
  Row, Kind, open_kind, action_kind, Delivery, Store, StoreError, bad_stale_age, delivery_exists,
}
use cautious_crypto_bro.Store.Shared.{has_id}
use cautious_crypto_bro.Store.Recovery.{delivery_of, new_delivery, reserve_delivery}

-- CURRENT_TIMESTAMP and `datetime('now', ...)`: whole seconds.
abbrev pub seconds : ℕ → ℕ
seconds now = now / 1_000_000

-- `'+5 minutes'` and `'+30 seconds'`.
abbrev pub lease : ℕ
lease = 300

abbrev pub retry_delay : ℕ
retry_delay = 30

abbrev pub due : ℕ → Option ℕ → Bool
due now none = true
due now (some t) = leb t (seconds now)

abbrev pub claimable : ℕ → Text → Delivery → Bool
claimable now id d = delivery_of id d && not (is_some d.delivered_at) && due now d.retry_after

abbrev pub lease_row : ℕ → Text → Delivery → Delivery
lease_row now token d = record d {
  claim_token = some token;
  retry_after = some (seconds now + lease);
}

-- `claim_manual_delivery`; the token is the `uuid4` that the call draws.
unfoldable pub claim_manual_delivery : ℕ → Text → Text → Store → Option Text × Store
claim_manual_delivery now id token s = (
  if affected (claimable now id) s.deliveries == 1 then some token else none,
  record s { deliveries = update (claimable now id) (lease_row now token) s.deliveries },
)

abbrev pub holds : Text → Option Text → Bool
holds token none = false
holds token (some t) = same_text t token

abbrev pub held : Text → Text → Delivery → Bool
held id token d = delivery_of id d && holds token d.claim_token

abbrev pub finish_row : ℕ → Bool → Delivery → Delivery
finish_row now delivered d = record d {
  claim_token = none;
  delivered_at = if delivered then some (seconds now) else none;
  retry_after = some (seconds now + retry_delay);
}

-- `finish_manual_delivery`
unfoldable pub finish_manual_delivery : ℕ → Text → Text → Bool → Store → Store
finish_manual_delivery now id token delivered s = record s {
  deliveries = update (held id token) (finish_row now delivered) s.deliveries;
}

abbrev pub lost_error : Text
lost_error = text "Stale manual approval request; delivery queue was lost"

abbrev pub lose_row : {P : Type 0} → ℕ → Row P → Row P
lose_row now r = record r {
  status = IntentStatus.failed;
  error = some lost_error;
  updated_at = now;
}

abbrev pub orphan : {P : Type 0} → List Delivery → Row P → Bool
orphan ds r =
    status_is r.status IntentStatus.pending
    && mode_is r.approval_mode ApprovalMode.manual
    && not (any (delivery_of r.id) ds)

-- The rows of the SELECT: identifier, kind and creation.
abbrev pub orphaned : Store → List (Text × Kind × ℕ)
orphaned s =
    map (λ r. (r.id, open_kind, r.created_at)) (select (orphan s.deliveries) s.intents)
    ++ map (λ r. (r.id, action_kind, r.created_at)) (select (orphan s.deliveries) s.actions)

abbrev pub lose : ℕ → Text → Kind → Store → Store
lose now id open_kind s = record s { intents = update (has_id id) (lose_row now) s.intents }
lose now id action_kind s = record s { actions = update (has_id id) (lose_row now) s.actions }

-- The plain INSERT of a row; its key may be taken.
abbrev pub requeue : Text → Kind → Store → Result StoreError Store
requeue id kind s = do
  raise_if (any (delivery_of id) s.deliveries) delivery_exists
  ok (record s { deliveries = s.deliveries ++ new_delivery id kind ∷ [] })

-- The loop of `reconcile_manual_deliveries`, with its counts of requeued and failed records.
unfoldable pub reconcile_each :
    ℕ → ℕ → List (Text × Kind × ℕ) → ℕ → ℕ → Store → Result StoreError ((ℕ × ℕ) × Store)
reconcile_each now stale [] requeued failed s = ok ((requeued, failed), s)
reconcile_each now stale ((id, kind, created) ∷ rest) requeued failed s =
    if ltb (created + stale) now
    then reconcile_each now stale rest requeued (suc failed) (lose now id kind s)
    else (requeue id kind s >>= reconcile_each now stale rest (suc requeued) failed)

-- `reconcile_manual_deliveries`
unfoldable pub reconcile_manual_deliveries : ℕ → ℕ → Store → Result StoreError ((ℕ × ℕ) × Store)
reconcile_manual_deliveries now stale s = do
  raise_if (stale == 0) bad_stale_age
  reconcile_each now stale (orphaned s) 0 0 s

abbrev pub auto_open : {P : Type 0} → Text → Row P → Bool
auto_open id r =
    has_id id r
    && mode_is r.approval_mode ApprovalMode.auto
    && (status_is r.status IntentStatus.pending || status_is r.status IntentStatus.executing)

abbrev pub has_auto_open : Text → Kind → Store → Bool
has_auto_open id open_kind s = any (auto_open id) s.intents
has_auto_open id action_kind s = any (auto_open id) s.actions

-- `ensure_auto_outcome_delivery`
unfoldable pub ensure_auto_outcome_delivery : Text → Kind → Store → Store
ensure_auto_outcome_delivery id kind s =
    if has_auto_open id kind s
    then record s { deliveries = reserve_delivery id kind s.deliveries }
    else s
