-- ===== src/Coordinator/Ledger.antt =====
-- What the coordinator may ask for, by the claim, the order and the records that came before.
use cautious_crypto_bro.Prelude.{
  Bool, true, false, not, ◌||◌, ◌≡◌, refl, Option, none, some, is_some, if◌then◌else◌,
}
use cautious_crypto_bro.Prelude.Result.{Result, ok, err}
use cautious_crypto_bro.Program.{return, ◌>>=◌, ask, attempt, try_else, check}
use cautious_crypto_bro.Program.Safe.{
  Safe, Safe-then, Safe-ask, Safe-check, Safe-attempt, Safe-try_else,
}
use cautious_crypto_bro.Domain.Enums.{StrategyStatus, closed, strategy_is}
use cautious_crypto_bro.Coordinator.Ports.{
  Failure, Request, claim_for_execution, claim_position_action, mark_failed,
  mark_position_action_failed, mark_executed, record_entry_failure, ensure_position_strategy,
  prepare_entry_plan, prepare_market_primary, prepare_remaining_entries, execute,
  execute_remaining_entries, execute_market_primary, execute_prepared_market_primary, cancel_order,
  execute_position_action, complete_position_action, mark_position_action_uncertain,
  record_entry_cancellation, Reply, Job,
}

-- The claim, the record of an outcome, the market order of an action, the durable strategy, whether the
-- first entry was sent (however that was answered), its fill, and whether the other legs were sent.
pub record Ledger : Type 0 where
  pub claimed : Bool
  pub settled : Bool
  pub acted : Bool
  pub strategy : Bool
  pub sent : Bool
  pub filled : Bool
  pub rest : Bool

abbrev pub untouched : Ledger
untouched = record {
  claimed = false;
  settled = false;
  acted = false;
  strategy = false;
  sent = false;
  filled = false;
  rest = false;
}

abbrev pub after : Ledger → (c : Request) → Result Failure (Reply c) → Ledger
after g (claim_for_execution _ _ _) (ok claimed) = record g { claimed = claimed }
after g (claim_position_action _ _ _) (ok claimed) = record g { claimed = claimed }
after g (ensure_position_strategy _) (ok _) = record g { strategy = true }
after g (execute_market_primary _) (ok _) = record g { sent = true; filled = true }
after g (execute_market_primary _) (err _) = record g { sent = true }
after g (execute_prepared_market_primary _) (ok _) = record g { sent = true; filled = true }
after g (execute_prepared_market_primary _) (err _) = record g { sent = true }
after g (execute_remaining_entries _) (ok _) = record g { rest = true }
after g (execute_remaining_entries _) (err _) = record g { rest = true }
after g (execute _) (ok _) = record g { sent = true; rest = true }
after g (execute _) (err _) = record g { sent = true; rest = true }
after g (execute_position_action _) (ok _) = record g { acted = true }
after g (execute_position_action _) (err _) = record g { acted = true }
after g (mark_failed _ _) (ok _) = record g { settled = true }
after g (mark_position_action_failed _ _) (ok _) = record g { settled = true }
after g (mark_executed _ _) (ok _) = record g { settled = true }
after g (record_entry_failure _ _ _) (ok _) = record g { settled = true }
after g (complete_position_action _ _) (ok _) = record g { settled = true }
after g (mark_position_action_uncertain _ _ _ _) (ok _) = record g { settled = true }
after g (record_entry_cancellation _ _ complete _ error) (ok _) = record g {
  settled = complete || is_some error || g.settled;
}
after g _ _ = g

abbrev pub kept : Bool → Bool → Bool
kept before now = not before || now

abbrev pub is_closed : Option StrategyStatus → Bool
is_closed none = false
is_closed (some status) = strategy_is status closed

abbrev pub Rule : Ledger → Request → Type 0
Rule g (claim_for_execution _ _ _) = g.claimed ≡ false
Rule g (claim_position_action _ _ _) = g.claimed ≡ false
Rule g (prepare_entry_plan _) = g.claimed ≡ true
Rule g (prepare_market_primary _) = g.claimed ≡ true
Rule g (prepare_remaining_entries _) = g.claimed ≡ true
Rule g (execute _) = (g.claimed ≡ true) × (g.strategy ≡ true) × (g.sent ≡ false) × (g.rest ≡ false)
Rule g (execute_remaining_entries _) =
    (g.claimed ≡ true) × (g.strategy ≡ true) × (g.filled ≡ true) × (g.rest ≡ false)
Rule g (execute_market_primary _) = (g.claimed ≡ true) × (g.strategy ≡ true) × (g.sent ≡ false)
Rule g (execute_prepared_market_primary _) =
    (g.claimed ≡ true) × (g.strategy ≡ true) × (g.sent ≡ false)
Rule g (record_entry_failure _ _ status) =
    (g.claimed ≡ true) × (kept (is_closed status) (not g.filled) ≡ true)
Rule g (execute_position_action _) = (g.claimed ≡ true) × (g.acted ≡ false)
Rule g (cancel_order _ _) = g.claimed ≡ true
Rule g (mark_executed _ _) = g.claimed ≡ true
Rule g (mark_failed _ _) = g.claimed ≡ true
Rule g (mark_position_action_failed _ _) = g.claimed ≡ true
Rule g (complete_position_action _ _) = g.claimed ≡ true
Rule g (mark_position_action_uncertain _ _ _ _) = g.claimed ≡ true
Rule g (record_entry_cancellation _ _ _ _ _) = g.claimed ≡ true
Rule g _ = Unit

abbrev pub Ruled :
    {A : Type 0} → (Ledger → A → Type 0) → (Ledger → Failure → Type 0) → Ledger → Job A → Type 0
Ruled = Safe Rule after

-- `m` keeps the history in `I`, whether it returns or raises.
abbrev pub Steady : {A : Type 0} → (Ledger → Type 0) → Ledger → Job A → Type 0
Steady I = Ruled (λ g a. I g) (λ g e. I g)

pub Ruled-if :
    {A : Type 0} (Post : Ledger → A → Type 0) (Raised : Ledger → Failure → Type 0) (g : Ledger)
    (c : Bool) (m n : Job A)
    → (c ≡ true → Ruled Post Raised g m)
    → (c ≡ false → Ruled Post Raised g n)
    → Ruled Post Raised g (if c then m else n)
Ruled-if P X g true m n h k = h refl
Ruled-if P X g false m n h k = k refl

-- A call that may raise, and what follows.
pub Ruled-ask :
    {B : Type 0} (Post : Ledger → B → Type 0) (Raised : Ledger → Failure → Type 0) (g : Ledger)
    (c : Request) (f : Reply c → Job B)
    → Rule g c
    → ((a : Reply c) → Ruled Post Raised (after g c (ok a)) (f a))
    → ((e : Failure) → Raised (after g c (err e)) e)
    → Ruled Post Raised g (ask c >>= f)
Ruled-ask P X g c f h k x = Safe-ask Rule after P X g c f h k x

pub Ruled-call :
    (Post : (c : Request) → Ledger → Reply c → Type 0) (Raised : Ledger → Failure → Type 0)
    (g : Ledger) (c : Request)
    → Rule g c
    → ((a : Reply c) → Post c (after g c (ok a)) a)
    → ((e : Failure) → Raised (after g c (err e)) e)
    → Ruled (Post c) Raised g (ask c)
Ruled-call P X g c h k x = (h, answered)
  where
    answered : (r : Result Failure (Reply c)) → Ruled (P c) X (after g c r) (check r)
    answered (ok a) = k a
    answered (err e) = x e

pub Ruled-check :
    {A B : Type 0} (Post : Ledger → B → Type 0) (Raised : Ledger → Failure → Type 0) (g : Ledger)
    (r : Result Failure A) (f : A → Job B)
    → ((a : A) → r ≡ ok a → Ruled Post Raised g (f a))
    → ((e : Failure) → Raised g e)
    → Ruled Post Raised g (check r >>= f)
Ruled-check P X g r f k x = Safe-check Rule after P X g r f k x

pub Ruled-result :
    {A : Type 0} (Post : Ledger → A → Type 0) (Raised : Ledger → Failure → Type 0) (g : Ledger)
    (r : Result Failure A)
    → ((a : A) → Post g a)
    → ((e : Failure) → Raised g e)
    → Ruled Post Raised g (check r)
Ruled-result P X g (ok a) k x = k a
Ruled-result P X g (err e) k x = x e

pub Ruled-then :
    {A B : Type 0} (Middle : Ledger → A → Type 0) (Post : Ledger → B → Type 0)
    (Raised : Ledger → Failure → Type 0) (g : Ledger) (m : Job A) (f : A → Job B)
    → Ruled Middle Raised g m
    → ((h : Ledger) (a : A) → Middle h a → Ruled Post Raised h (f a))
    → Ruled Post Raised g (m >>= f)
Ruled-then Q P X g m f h k = Safe-then Rule after Q P X g m f h k

-- `try` that swallows every exception.
pub Ruled-swallow :
    (I : Ledger → Type 0) (Raised : Ledger → Failure → Type 0) (g : Ledger) (m : Job (Unit {0}))
    → Steady I g m
    → Ruled (λ h a. I h) Raised g (attempt m (λ e. return tt))
Ruled-swallow I X g m h = Safe-attempt Rule after (λ g a. I g) X g m (λ e. return tt) h

pub Ruled-try :
    {A B : Type 0} (Middle : Ledger → A → Type 0) (Post : Ledger → B → Type 0)
    (Failed Raised : Ledger → Failure → Type 0) (g : Ledger) (m : Job A) (handle : Failure → Job B)
    (k : A → Job B)
    → Ruled Middle Failed g m
    → ((h : Ledger) (a : A) → Middle h a → Ruled Post Raised h (k a))
    → ((h : Ledger) (e : Failure) → Failed h e → Ruled Post Raised h (handle e))
    → Ruled Post Raised g (try_else m handle k)
Ruled-try Q P F X g m handle k h u v = Safe-try_else Rule after Q P F X g m handle k h u v
