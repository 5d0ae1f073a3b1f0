-- ===== src/Supervisor/Expiry.antt =====
-- position_supervisor.py: entry orders that are older than their time to live are cancelled.
use cautious_crypto_bro.Prelude.{
  ℕ, ◌+◌, ◌*◌, ◌==◌, ltb, Bool, true, false, not, ◌&&◌, ◌||◌, Option, none, some, List, [], ◌∷◌,
  map, select, if◌then◌else◌,
}
use cautious_crypto_bro.Text.{Text, same_text}
use cautious_crypto_bro.Program.{return, ◌>>=◌, ◌>>◌, ask, check}
use cautious_crypto_bro.Domain.Enums.{closing, manual_override, uncertain, strategy_is}
use cautious_crypto_bro.Domain.Plan.Defs.{PlannedOrder, ExecutionPlan}
use cautious_crypto_bro.Domain.Strategy.{PositionStrategy}
use cautious_crypto_bro.Domain.Account.{AccountPosition, AccountOrder, AccountStateSummary}
use cautious_crypto_bro.Supervisor.Ports.{Task, Settings, clock, account_state}
use cautious_crypto_bro.Supervisor.Orders.{find_position, pending_entries, entry_links, link_among}
use cautious_crypto_bro.Supervisor.Replacement.{cancel_all, is_nil}
use cautious_crypto_bro.Supervisor.Steps.{close_if_flat, freeze_entries}

-- `ttl_minutes`, with the configured one for a plan that has none.
unfoldable pub ttl_minutes : Settings → ExecutionPlan → ℕ
ttl_minutes settings plan =
    let own = plan.policy.strategy_v2.entry_order_ttl_minutes in
    if own == 0 then settings.legacy_entry_ttl_minutes else own

-- `timedelta(minutes=...)`
unfoldable pub micros : ℕ → ℕ
micros minutes = minutes * 60000000

abbrev is_stale_entry : PositionStrategy → List (Text × PlannedOrder) → AccountOrder → Bool
is_stale_entry s links o =
    same_text o.symbol s.symbol && not o.reduce_only && link_among o.order_link_id links

abbrev pub stale_entries :
    PositionStrategy → List (Text × PlannedOrder) → AccountStateSummary → List Text
stale_entries s links account =
    map (λ (o : AccountOrder). o.order_id) (select (is_stale_entry s links) account.open_orders)

abbrev pub keeps_entries : PositionStrategy → Bool
keeps_entries s =
    strategy_is s.status closing
    || strategy_is s.status manual_override
    || strategy_is s.status uncertain

-- `datetime.now(UTC) < expires_at`; the clock is read where there is a time to live.
abbrev pub entries_fresh : ExecutionPlan → ℕ → Task Bool
entries_fresh plan minutes =
    if minutes == 0
    then return true
    else do now ← ask clock; return (ltb now (plan.created_at + micros minutes))

abbrev pub cancel_stale_entries :
    PositionStrategy → AccountStateSummary → List Text → Task AccountStateSummary
cancel_stale_entries s account [] = return account
cancel_stale_entries s account (id ∷ ids) = cancel_all s (id ∷ ids) >> ask account_state

abbrev pub expire :
    PositionStrategy → ExecutionPlan → AccountStateSummary → Task (AccountStateSummary × Bool)
expire s plan account = do
  links ← check (entry_links s plan)
  account' ← cancel_stale_entries s account (stale_entries s links account)
  return (account', true)

-- `_expire_stale_entries`
unfoldable pub expire_stale_entries :
    Settings
    → PositionStrategy
    → ExecutionPlan
    → AccountStateSummary
    → Task (AccountStateSummary × Bool)
expire_stale_entries settings s plan account =
    if keeps_entries s then return (account, false) else do
      fresh ← entries_fresh plan (ttl_minutes settings plan)
      if fresh then return (account, false) else expire s plan account

abbrev pub handled : Task AccountStateSummary → Task (AccountStateSummary × Bool)
handled m = do account ← m; return (account, true)

abbrev pub after_expiry :
    PositionStrategy
    → ExecutionPlan
    → AccountStateSummary
    → Option AccountPosition
    → Task (AccountStateSummary × Bool)
after_expiry s plan account none =
    if is_nil (pending_entries s account)
    then handled (close_if_flat s)
    else return (account, false)
after_expiry s plan account (some p) =
    if s.entry_frozen then return (account, false) else handled (freeze_entries s plan false)

-- `_handle_expired_entries`
unfoldable pub handle_expired_entries :
    Settings
    → PositionStrategy
    → ExecutionPlan
    → AccountStateSummary
    → Task (AccountStateSummary × Bool)
handle_expired_entries settings s plan account = do
  before ← check (find_position s account)
  (account', expired) ← expire_stale_entries settings s plan account
  if expired
      then (do live ← check (find_position s account'); after_expiry s plan account' live)
      else return (account', false)
