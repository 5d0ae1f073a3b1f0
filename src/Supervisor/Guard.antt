-- ===== src/Supervisor/Guard.antt =====
-- What the supervision of one strategy may ask for, by what it has seen and saved before.
mod Reads
mod Stops
mod Exits
mod Structure
mod Handlers
mod Freeze
mod Moves
mod Rounds
pub mod Claims
use cautious_crypto_bro.Prelude.{
  ℕ, ◌≤◌, Bool, true, false, not, ◌&&◌, ◌||◌, ◌≡◌, refl, Option, none, some, is_some, List, [], ◌∷◌,
  if◌then◌else◌, arith,
}
use mathlib.Core.List.{Memᴰ}
use cautious_crypto_bro.Prelude.Result.{Result, ok, err}
use cautious_crypto_bro.Text.{Text}
use cautious_crypto_bro.Decimal.{Decimal}
use cautious_crypto_bro.Program.{Program, ◌>>=◌, ask, check}
use cautious_crypto_bro.Program.Safe.{Safe, Safe-then, Safe-ask, Safe-check}
use cautious_crypto_bro.Domain.Enums.{closed, strategy_is}
use cautious_crypto_bro.Domain.Strategy.{PositionStrategy}
use cautious_crypto_bro.Domain.Account.{AccountPosition, AccountStateSummary}
use cautious_crypto_bro.Supervisor.Ports.{
  Call, clock, account_state, get_active_position_strategies, record_zone_executions,
  strategy_order, cancel_order, cancel_pending_entries, market_context, set_position_protection,
  place_reduce_only_exit, save_position_strategy, pause_conflicting_strategies, Answer, Fault, Task,
}
use cautious_crypto_bro.Supervisor.Orders.{find_position, pending_entries}
use cautious_crypto_bro.Supervisor.Fills.{exits_of}
use cautious_crypto_bro.Supervisor.Replacement.{is_nil}

abbrev pub kept : Bool → Bool → Bool
kept before now = not before || now

-- What the saves of a pass keep of the strategy.
abbrev pub IsProgress : PositionStrategy → PositionStrategy → Type 0
IsProgress s s' =
    (s'.strategy_id ≡ s.strategy_id)
    × (s'.symbol ≡ s.symbol)
    × (s'.side ≡ s.side)
    × (kept s.entry_frozen s'.entry_frozen ≡ true)
    × (kept s.tp1_done s'.tp1_done ≡ true)
    × (kept s.tp2_done s'.tp2_done ≡ true)
    × (kept s.tp3_done s'.tp3_done ≡ true)
    × (s.exit_revision ≤ s'.exit_revision)

-- The last snapshot of the account since the last change on the exchange, and the last saved state.
pub record Seen : Type 0 where
  pub account : Option AccountStateSummary
  pub saved : Option PositionStrategy

-- Nothing seen and nothing saved.
abbrev pub unseen : Seen
unseen = record { account = none; saved = none }

abbrev pub is_mutation : Call → Bool
is_mutation (cancel_order _ _) = true
is_mutation (cancel_pending_entries _) = true
is_mutation (set_position_protection _ _ _) = true
is_mutation (place_reduce_only_exit _ _ _ _ _) = true
is_mutation _ = false

abbrev pub after : Seen → (c : Call) → Result Fault (Answer c) → Seen
after g account_state (ok a) = record g { account = some a }
after g (save_position_strategy s) (ok a) = record g { saved = some s }
after g c r = if is_mutation c then record g { account = none } else g

-- A snapshot without the position and without pending entries.
abbrev shows_nothing : Result Fault (Option AccountPosition) → Bool
shows_nothing (ok found) = not (is_some found)
shows_nothing (err e) = false

abbrev pub is_flat : PositionStrategy → Option AccountStateSummary → Bool
is_flat s none = false
is_flat s (some account) =
    shows_nothing (find_position s account) && is_nil (pending_entries s account)

-- The exit is one of a saved state that says it is installing exits.
abbrev pub IsRecorded : Option PositionStrategy → Text × Decimal × Decimal → Type 0
IsRecorded none e = ⊥
IsRecorded (some s) e = (s.installing_exits ≡ true) × Memᴰ e (exits_of s)

-- The rule of a pass over the strategy `s`.
abbrev pub Rule : PositionStrategy → Seen → Call → Type 0
Rule s g (save_position_strategy s') =
    IsProgress s s' × (kept (strategy_is s'.status closed) (is_flat s' g.account) ≡ true)
Rule s g (place_reduce_only_exit symbol side quantity price link) =
    (symbol ≡ s.symbol) × IsRecorded g.saved (link, quantity, price)
Rule s g (strategy_order symbol link) = symbol ≡ s.symbol
Rule s g (cancel_order symbol id) = symbol ≡ s.symbol
Rule s g (cancel_pending_entries symbol) = symbol ≡ s.symbol
Rule s g (market_context symbol) = symbol ≡ s.symbol
Rule s g (set_position_protection symbol stop trailing) = symbol ≡ s.symbol
Rule s g clock = Unit
Rule s g account_state = Unit
Rule s g _ = ⊥

abbrev pub Guarded : {A : Type 0} → PositionStrategy → (Seen → A → Type 0) → Seen → Task A → Type 0
Guarded s Post = Safe (Rule s) after Post (λ g e. Unit)

-- The last saved state is the given one.
abbrev pub Still : {A : Type 0} → Option PositionStrategy → Seen → A → Type 0
Still v g a = g.saved ≡ v

abbrev pub Any : {A : Type 0} → Seen → A → Type 0
Any g a = Unit

-- A state that is worked on, from the one that the pass began with.
abbrev pub IsWorking : PositionStrategy → PositionStrategy → Type 0
IsWorking s s' = IsProgress s s' × (strategy_is s'.status closed ≡ false)

module _ (s : PositionStrategy) where
  pub guard-ask :
      {B : Type 0} (Post : Seen → B → Type 0) (g : Seen) (c : Call) (f : Answer c → Task B)
      → Rule s g c
      → ((a : Answer c) → Guarded s Post (after g c (ok a)) (f a))
      → Guarded s Post g (ask c >>= f)
  guard-ask P g c f h k = Safe-ask (Rule s) after P (λ g e. Unit) g c f h k (λ e. tt)

  pub guard-check :
      {A B : Type 0} (Post : Seen → B → Type 0) (g : Seen) (r : Result Fault A) (f : A → Task B)
      → ((a : A) → r ≡ ok a → Guarded s Post g (f a))
      → Guarded s Post g (check r >>= f)
  guard-check P g r f k = Safe-check (Rule s) after P (λ g e. Unit) g r f k (λ e. tt)

  pub guard-call :
      (Post : (c : Call) → Seen → Answer c → Type 0) (g : Seen) (c : Call)
      → Rule s g c
      → ((a : Answer c) → Post c (after g c (ok a)) a)
      → Guarded s (Post c) g (ask c)
  guard-call P g c h k = (h, answered)
    where
      answered : (r : Result Fault (Answer c)) → Guarded s (P c) (after g c r) (check r)
      answered (ok a) = k a
      answered (err e) = tt

  pub guard-result :
      {A : Type 0} (Post : Seen → A → Type 0) (g : Seen) (r : Result Fault A)
      → ((a : A) → r ≡ ok a → Post g a)
      → Guarded s Post g (check r)
  guard-result P g (ok a) k = k a refl
  guard-result P g (err e) k = tt

  pub guard-if :
      {A : Type 0} (Post : Seen → A → Type 0) (g : Seen) (c : Bool) (m n : Task A)
      → (c ≡ true → Guarded s Post g m)
      → (c ≡ false → Guarded s Post g n)
      → Guarded s Post g (if c then m else n)
  guard-if P g true m n h k = h refl
  guard-if P g false m n h k = k refl

  pub guard-option :
      {A B : Type 0} (Post : Seen → B → Type 0) (g : Seen) (o : Option A) (m : Task B)
      (f : A → Task B)
      → (o ≡ none → Guarded s Post g m)
      → ((a : A) → o ≡ some a → Guarded s Post g (f a))
      → Guarded s Post g (elim o [ none ↦ m | some a ↦ f a ])
  guard-option P g none m f h k = h refl
  guard-option P g (some a) m f h k = k a refl

  pub guard-then :
      {A B : Type 0} (Middle : Seen → A → Type 0) (Post : Seen → B → Type 0) (g : Seen) (m : Task A)
      (f : A → Task B)
      → Guarded s Middle g m
      → ((h : Seen) (a : A) → Middle h a → Guarded s Post h (f a))
      → Guarded s Post g (m >>= f)
  guard-then Q P g m f h k = Safe-then (Rule s) after Q P (λ g e. Unit) g m f h k

pub IsWorking-refl : (s : PositionStrategy) → strategy_is s.status closed ≡ false → IsWorking s s
IsWorking-refl s h =
    ((refl, refl, refl, ground arith, ground arith, ground arith, ground arith, omega arith), h)
