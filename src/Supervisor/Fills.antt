-- ===== src/Supervisor/Fills.antt =====
-- position_management/fill_detector.py: drift of the owned exits, and their fills.
use cautious_crypto_bro.Prelude.{
  ℕ, ◌==◌, Bool, true, false, not, ◌&&◌, ◌||◌, Option, none, some, List, [], ◌∷◌, ◌++◌, any, first,
  ltb, if◌then◌else◌,
}
use cautious_crypto_bro.Text.{Text, text, same_text, starts_with, after_last, decimal_value}
use cautious_crypto_bro.Decimal.{Decimal, is_positive}
use cautious_crypto_bro.Program.{return, ◌>>=◌, ask}
use cautious_crypto_bro.Domain.Strategy.{PositionStrategy}
use cautious_crypto_bro.Domain.Account.{AccountOrder, AccountStateSummary}
use cautious_crypto_bro.Supervisor.Ports.{
  Task, strategy_order, Reason, legacy_exits, unexpected_exit, exit_missing, exit_altered,
}
use cautious_crypto_bro.Supervisor.Orders.{matches_exit, owned_prefix, exit_link_id}

-- The dict of the expected exits: link, quantity and price.
abbrev pub Exits : Type 0
Exits = List (Text × Decimal × Decimal)

abbrev pub has_link : Text → Exits → Bool
has_link link = any (λ (e : Text × Decimal × Decimal). same_text e.0 link)

abbrev pub exits_of : PositionStrategy → Exits
exits_of s = elim s.expected_exits [ none ↦ [] | some exits ↦ exits ]

-- An exit of an older revision, while exits are being installed.
abbrev older : Option ℕ → ℕ → Bool
older none revision = false
older (some n) revision = ltb n revision

abbrev unexpected : PositionStrategy → AccountOrder → Bool
unexpected s o =
    same_text o.symbol s.symbol
    && starts_with o.order_link_id (owned_prefix s ++ text "t")
    && not (has_link o.order_link_id (exits_of s))
    && not (
        s.installing_exits
        && older (decimal_value (after_last 114 o.order_link_id)) s.exit_revision)

-- `_has_unexpected_exit`
unfoldable pub has_unexpected_exit : PositionStrategy → AccountStateSummary → Bool
has_unexpected_exit s account = any (unexpected s) account.open_orders

abbrev pub open_order : PositionStrategy → Text → AccountStateSummary → Option AccountOrder
open_order s link account =
    first (λ (o : AccountOrder). same_text o.symbol s.symbol && same_text o.order_link_id link)
      account.open_orders

-- The order of the open ones, or of the exchange's records.
abbrev pub open_or_asked :
    PositionStrategy → Text → Option AccountOrder → Task (Option AccountOrder)
open_or_asked s link none = ask (strategy_order s.symbol link)
open_or_asked s link (some o) = return (some o)

unfoldable pub find_order :
    PositionStrategy → Text → AccountStateSummary → Task (Option AccountOrder)
find_order s link account = open_or_asked s link (open_order s link account)

-- `done` of the exits: the links in `completed`.
abbrev pub is_completed : PositionStrategy → Text → Bool
is_completed s link =
    s.tp1_done && same_text (exit_link_id s 1) link
    || s.tp2_done && same_text (exit_link_id s 2) link
    || s.tp3_done && same_text (exit_link_id s 3) link

-- What one exit that was found, or not, says; `none` goes on with the loop.
abbrev pub exit_reason :
    PositionStrategy → Text → Decimal → Decimal → Option AccountOrder → Option Reason
exit_reason s link quantity price none =
    if s.installing_exits then none else some (exit_missing link)
exit_reason s link quantity price (some o) =
    if matches_exit o s.side quantity price
    then none
    else some (exit_altered link o.status quantity price o.quantity o.price)

abbrev pub or_next : Option Reason → Task (Option Reason) → Task (Option Reason)
or_next none rest = rest
or_next (some reason) rest = return (some reason)

-- The loop of `drift_reason`.
unfoldable pub exits_drift : PositionStrategy → AccountStateSummary → Exits → Task (Option Reason)
exits_drift s account [] = return none
exits_drift s account ((link, quantity, price) ∷ exits) =
    let rest = exits_drift s account exits in
    if is_completed s link
    then rest
    else (find_order s link account >>= λ found.
        or_next (exit_reason s link quantity price found) rest)

abbrev pub saved_drift :
    PositionStrategy → AccountStateSummary → Option Exits → Task (Option Reason)
saved_drift s account none = return (some legacy_exits)
saved_drift s account (some exits) =
    if has_unexpected_exit s account
    then return (some unexpected_exit)
    else exits_drift s account exits

-- `drift_reason`
unfoldable pub drift_reason : PositionStrategy → AccountStateSummary → Task (Option Reason)
drift_reason s account =
    if s.exit_revision == 0 || s.rebalance_needed && not s.installing_exits
    then return none
    else saved_drift s account s.expected_exits

abbrev filled_now : Option AccountOrder → Bool
filled_now none = false
filled_now (some o) = is_positive o.executed_quantity

abbrev done_now : Option AccountOrder → Bool
done_now none = false
done_now (some o) = is_positive o.executed_quantity && same_text o.status (text "Filled")

-- One round of the loop of `detect`: whether the exit is done, and whether it has a fill.
unfoldable pub detect_exit : PositionStrategy → AccountStateSummary → ℕ → Bool → Task (Bool × Bool)
detect_exit s account index true = return (true, false)
detect_exit s account index false = do
  found ← find_order s (exit_link_id s index) account
  return (done_now found, filled_now found)

-- `detect`
unfoldable pub detect : PositionStrategy → AccountStateSummary → Task (PositionStrategy × Bool)
detect s account = if s.exit_revision == 0 then return (s, false) else do
  (done1, filled1) ← detect_exit s account 1 s.tp1_done
  (done2, filled2) ← detect_exit s account 2 s.tp2_done
  (done3, filled3) ← detect_exit s account 3 s.tp3_done
  return (
    record s { tp1_done = done1; tp2_done = done2; tp3_done = done3 },
    s.tp1_done || s.tp2_done || s.tp3_done || filled1 || filled2 || filled3,
  )
