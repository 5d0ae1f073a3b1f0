-- ===== src/Supervisor/Replacement.antt =====
-- position_management/exit_installer.py: older exits are cancelled, and fills explain a smaller position.
use cautious_crypto_bro.Prelude.{
  ℕ, zero, suc, Bool, true, false, not, ◌&&◌, ◌||◌, Option, none, some, List, [], ◌∷◌, ◌++◌, any,
  select, map, if◌then◌else◌,
}
use cautious_crypto_bro.Prelude.Int.{pos, ltb_ℤ, eqb_ℤ}
use cautious_crypto_bro.Prelude.Result.{raise_if}
use cautious_crypto_bro.Text.{Text, text, same_text, starts_with, ends_with, number_text}
use cautious_crypto_bro.Decimal.{Decimal, add, sub}
use cautious_crypto_bro.Program.{return, ◌>>=◌, ◌>>◌, ask, check}
use cautious_crypto_bro.Domain.Enums.{Side, side_is}
use cautious_crypto_bro.Domain.Strategy.{PositionStrategy}
use cautious_crypto_bro.Domain.Account.{AccountPosition, AccountOrder, AccountStateSummary}
use cautious_crypto_bro.Supervisor.Ports.{
  Task, account_state, strategy_order, cancel_order, position_changed,
  exit_cancellation_unconfirmed,
}
use cautious_crypto_bro.Supervisor.Orders.{find_position, owned_prefix, matches_exit}
use cautious_crypto_bro.Supervisor.Fills.{Exits, exits_of}
use cautious_crypto_bro.Supervisor.Handoff.{one_of_texts}

-- `_find_existing_exit`
abbrev pub open_or_recorded : PositionStrategy → Text → List AccountOrder → Task (List AccountOrder)
open_or_recorded s link [] = do
  historical ← ask (strategy_order s.symbol link)
  return (elim historical [ none ↦ [] | some o ↦ o ∷ [] ])
open_or_recorded s link (o ∷ os) = return (o ∷ os)

abbrev pub open_exits : PositionStrategy → Text → AccountStateSummary → List AccountOrder
open_exits s link account =
    select (λ (o : AccountOrder). same_text o.symbol s.symbol && same_text o.order_link_id link)
      account.open_orders

unfoldable pub find_existing_exit :
    PositionStrategy → Text → AccountStateSummary → Task (List AccountOrder)
find_existing_exit s link account = open_or_recorded s link (open_exits s link account)

-- `len(existing) == 1 and _matches_exit(existing[0], side, quantity, price)`
abbrev pub is_the_exit : List AccountOrder → Side → Decimal → Decimal → Bool
is_the_exit (o ∷ []) side quantity price = matches_exit o side quantity price
is_the_exit _ side quantity price = false

abbrev pub executed : List AccountOrder → Decimal → Decimal
executed (o ∷ os) total = add total o.executed_quantity
executed [] total = total

abbrev pub is_none : List AccountOrder → Bool
is_none [] = true
is_none _ = false

-- Orders with the link that are not the one exit.
abbrev pub conflicts : List AccountOrder → Side → Decimal → Decimal → Bool
conflicts existing side quantity price =
    not (is_none existing) && not (is_the_exit existing side quantity price)

-- The inner loop of `_replacement_fill_matches`; `none` is its `return False`.
unfoldable pub executed_exits :
    PositionStrategy → AccountStateSummary → Decimal → Exits → Task (Option Decimal)
executed_exits s account total [] = return (some total)
executed_exits s account total ((link, quantity, price) ∷ exits) = do
  existing ← find_existing_exit s link account
  if conflicts existing s.side quantity price
      then return none
      else executed_exits s account (executed existing total) exits

-- A live position that got smaller and is otherwise the same.
abbrev shrank : AccountPosition → AccountPosition → Bool
shrank live snapshot =
    side_is live.side snapshot.side
    && eqb_ℤ live.avg_price snapshot.avg_price
    && ltb_ℤ live.size snapshot.size

abbrev pub shrunk : Option AccountPosition → AccountPosition → Option AccountPosition
shrunk none snapshot = none
shrunk (some live) snapshot = if shrank live snapshot then some live else none

abbrev pub explains : Option Decimal → AccountPosition → AccountPosition → Option Bool
explains none live snapshot = some false
explains (some total) live snapshot =
    if eqb_ℤ total (sub snapshot.size live.size) then some true else none

-- A round of the loop: the answer, or what is done for the next one.
abbrev pub explained :
    PositionStrategy
    → AccountPosition
    → AccountStateSummary
    → Task Bool
    → Option AccountPosition
    → Task Bool
explained s snapshot account rest none = return false
explained s snapshot account rest (some live) = do
  total ← executed_exits s account (pos 0) (exits_of s)
  elim (explains total live snapshot) [ none ↦ rest | some matched ↦ return matched ]

unfoldable pub fill_rounds :
    PositionStrategy → AccountPosition → ℕ → AccountStateSummary → Task Bool
fill_rounds s snapshot zero account = do
  live ← check (find_position s account)
  explained s snapshot account (return false) (shrunk live snapshot)
fill_rounds s snapshot (suc more) account = do
  live ← check (find_position s account)
  explained s snapshot account (ask account_state >>= fill_rounds s snapshot more)
      (shrunk live snapshot)

-- `_replacement_fill_matches`
unfoldable pub replacement_fill_matches :
    PositionStrategy → AccountStateSummary → AccountPosition → Task Bool
replacement_fill_matches s account snapshot = fill_rounds s snapshot 1 account

abbrev pub is_stale : PositionStrategy → AccountOrder → Bool
is_stale s o =
    same_text o.symbol s.symbol
    && o.reduce_only
    && starts_with o.order_link_id (owned_prefix s ++ text "t")
    && not (ends_with o.order_link_id (text "r" ++ number_text s.exit_revision))

abbrev pub stale_ids : PositionStrategy → AccountStateSummary → List Text
stale_ids s account =
    map (λ (o : AccountOrder). o.order_id) (select (is_stale s) account.open_orders)

-- Orders are cancelled one after the other.
unfoldable pub cancel_all : PositionStrategy → List Text → Task (Unit {0})
cancel_all s [] = return tt
cancel_all s (id ∷ ids) = ask (cancel_order s.symbol id) >> cancel_all s ids

abbrev pub unchanged : Option AccountPosition → AccountPosition → Bool
unchanged none snapshot = false
unchanged (some live) snapshot =
    side_is live.side snapshot.side
    && eqb_ℤ live.size snapshot.size
    && eqb_ℤ live.avg_price snapshot.avg_price

abbrev pub is_nil : List Text → Bool
is_nil [] = true
is_nil _ = false

abbrev pub fills_explain :
    PositionStrategy → AccountStateSummary → AccountPosition → List Text → Task Bool
fills_explain s account snapshot [] = replacement_fill_matches s account snapshot
fills_explain s account snapshot _ = return false

abbrev pub confirm_cancelled : PositionStrategy → AccountPosition → List Text → Task (Unit {0})
confirm_cancelled s snapshot ids = do
  account ← ask account_state
  check (
      raise_if (any (λ (o : AccountOrder). one_of_texts o.order_id ids) account.open_orders)
        exit_cancellation_unconfirmed)
  live ← check (find_position s account)
  if unchanged live snapshot then return tt else (do
    matched ← fills_explain s account snapshot ids
    check (raise_if (not matched) position_changed))

-- `_cancel_stale_exits`
unfoldable pub cancel_stale_exits :
    PositionStrategy → AccountStateSummary → AccountPosition → Task (Unit {0})
cancel_stale_exits s account snapshot =
    cancel_all s (stale_ids s account)
    >> (if not (is_nil (stale_ids s account)) || s.installing_exits
        then confirm_cancelled s snapshot (stale_ids s account)
        else return tt)
