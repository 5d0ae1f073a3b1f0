-- ===== src/Supervisor/FullStop.antt =====
-- A partial stop is cancelled only while a snapshot confirms the full stop.
use cautious_crypto_bro.Prelude.{
  ℕ, zero, suc, Bool, true, false, not, ◌≡◌, refl, Option, none, some, is_some, List, [], ◌∷◌,
  if◌then◌else◌, arith,
}
use mathlib.Core.Path.{subst}
use cautious_crypto_bro.Prelude.Result.{Result, ok, err, raise_if, past}
use cautious_crypto_bro.Text.{Text}
use cautious_crypto_bro.Decimal.{Decimal}
use cautious_crypto_bro.Program.{◌>>=◌, ask, check}
use cautious_crypto_bro.Program.Safe.{Safe, Safe-then, Safe-ask, Safe-check}
use cautious_crypto_bro.Domain.Plan.Defs.{ExecutionPlan}
use cautious_crypto_bro.Domain.Strategy.{PositionStrategy}
use cautious_crypto_bro.Domain.Account.{AccountPosition, AccountStateSummary}
use cautious_crypto_bro.Supervisor.Ports.{
  Call, account_state, cancel_order, set_position_protection, Answer, Fault, Task, stop_differs,
  position_gone,
}
use cautious_crypto_bro.Supervisor.Orders.{is_value, or_value, find_position, partial_stops}
use cautious_crypto_bro.Supervisor.Trailing.{verify_protection}
use cautious_crypto_bro.Supervisor.Handoff.{
  trailing_of, other_stop, one_of_texts, stop_at_last, stop_in_round, ensure_rounds,
  ensure_full_stop, next_stop, cancel_partial_stops, hand_off, handoff_partial_stops,
}
use cautious_crypto_bro.Supervisor.Guard.{Seen, unseen, after, Any}

-- What a snapshot shows of the position: none, or one whose stop is the expected one.
abbrev confirmed : Decimal → Result Fault (Option AccountPosition) → Bool
confirmed stop (ok none) = true
confirmed stop (ok (some p)) = is_value p.stop_loss stop
confirmed stop (err e) = false

abbrev pub shows_stop : Decimal → Result Fault (Option AccountPosition) → Bool
shows_stop stop (ok (some p)) = is_value p.stop_loss stop
shows_stop stop _ = false

-- A snapshot since the last change on the exchange shows the position with the expected stop.
abbrev pub stop_seen : PositionStrategy → Decimal → Option AccountStateSummary → Bool
stop_seen s stop none = false
stop_seen s stop (some account) = shows_stop stop (find_position s account)

abbrev pub HandoffRule : PositionStrategy → Decimal → Seen → Call → Type 0
HandoffRule s stop g (cancel_order symbol id) = stop_seen s stop g.account ≡ true
HandoffRule s stop g (set_position_protection symbol stop' trailing) = stop' ≡ stop
HandoffRule s stop g account_state = Unit
HandoffRule s stop g _ = ⊥

verified-stop :
    (p : AccountPosition) (stop : Decimal) (trailing : Option Decimal) {u : Unit {0}}
    → verify_protection p stop trailing ≡ ok u
    → is_value p.stop_loss stop ≡ true
unfolding verify_protection
verified-stop p stop trailing h = past (not (is_value p.stop_loss stop)) _ _ h (λ c k. ground arith)

module _ (s : PositionStrategy) (stop : Decimal) where
  abbrev Handing : {A : Type 0} → (Seen → A → Type 0) → Seen → Task A → Type 0
  Handing Post = Safe (HandoffRule s stop) after Post (λ g e. Unit)

  -- The account that is returned is the last one seen, and confirms the stop.
  abbrev Confirms : Seen → AccountStateSummary → Type 0
  Confirms g account =
      (g.account ≡ some account) × (confirmed stop (find_position s account) ≡ true)

  hand-check :
      {A B : Type 0} (Post : Seen → B → Type 0) (g : Seen) (r : Result Fault A) (f : A → Task B)
      → ((a : A) → r ≡ ok a → Handing Post g (f a))
      → Handing Post g (check r >>= f)
  hand-check P g r f k = Safe-check (HandoffRule s stop) after P (λ g e. Unit) g r f k (λ e. tt)

  hand-if :
      {A : Type 0} (Post : Seen → A → Type 0) (g : Seen) (c : Bool) (m n : Task A)
      → (c ≡ true → Handing Post g m)
      → (c ≡ false → Handing Post g n)
      → Handing Post g (if c then m else n)
  hand-if P g true m n h k = h refl
  hand-if P g false m n h k = k refl

  hand-ask :
      {B : Type 0} (Post : Seen → B → Type 0) (g : Seen) (c : Call) (f : Answer c → Task B)
      → HandoffRule s stop g c
      → ((a : Answer c) → Handing Post (after g c (ok a)) (f a))
      → Handing Post g (ask c >>= f)
  hand-ask P g c f h k = Safe-ask (HandoffRule s stop) after P (λ g e. Unit) g c f h k (λ e. tt)

  stop_at_last-Confirms :
      (account : AccountStateSummary) (live : Option AccountPosition) (g : Seen)
      → g.account ≡ some account
      → find_position s account ≡ ok live
      → Handing Confirms g (stop_at_last s stop account live)
  stop_at_last-Confirms account none g e f = (e, rw f refl)
  stop_at_last-Confirms account (some p) g e f =
      hand-check Confirms g (raise_if (other_stop p stop) stop_differs) _ (λ x c.
        hand-check Confirms g (verify_protection p stop (trailing_of s)) _
          (λ x' c'. (e, rw f (verified-stop p stop (trailing_of s) c'))))

  stop_in_round-Confirms :
      (account : AccountStateSummary) (rest : Task AccountStateSummary)
      (live : Option AccountPosition) (g : Seen)
      → g.account ≡ some account
      → find_position s account ≡ ok live
      → ((h : Seen) → Handing Confirms h rest)
      → Handing Confirms g (stop_in_round s stop account rest live)
  stop_in_round-Confirms account rest none g e f k = (e, rw f refl)
  stop_in_round-Confirms account rest (some p) g e f k =
      hand-if Confirms g (is_value p.stop_loss stop) _ _
        (λ c.
          hand-check Confirms g (verify_protection p stop (trailing_of s)) _ (λ x c'. (e, rw f c)))
        (λ c. hand-check Confirms g (raise_if (is_some p.stop_loss) stop_differs) _ (λ x c'.
          hand-ask Confirms g (set_position_protection s.symbol stop (trailing_of s)) _ refl
            (λ a. k (record g { account = none }))))

  ensure_rounds-Confirms :
      (rounds : ℕ) (g : Seen) → Handing Confirms g (ensure_rounds s stop rounds)
  unfolding ensure_rounds
  ensure_rounds-Confirms zero g = hand-ask Confirms g account_state _ tt (λ account.
      hand-check Confirms (record g { account = some account }) (find_position s account) _
        (λ live f. stop_at_last-Confirms account live (record g { account = some account }) refl f))
  ensure_rounds-Confirms (suc rounds) g = hand-ask Confirms g account_state _ tt (λ account.
      hand-check Confirms (record g { account = some account }) (find_position s account) _
        (λ live f.
          stop_in_round-Confirms account (ensure_rounds s stop rounds) live
            (record g { account = some account }) refl f (ensure_rounds-Confirms rounds)))

  seen-stop :
      (account : AccountStateSummary) (p : AccountPosition) (g : Seen)
      → Confirms g account
      → find_position s account ≡ ok (some p)
      → stop_seen s stop g.account ≡ true
  seen-stop account p g (e, c) f =
      let shown : confirmed stop (ok (some p)) ≡ true = subst (λ r. confirmed stop r ≡ true) f c in
      rw (e, f) shown

  module _ (plan : ExecutionPlan) where
    next_stop-Handing :
        (account : AccountStateSummary) (rest : Task AccountStateSummary)
        (live : Option AccountPosition) (g : Seen)
        → Confirms g account
        → find_position s account ≡ ok live
        → (stop_seen s stop g.account ≡ true → Handing Any g rest)
        → Handing Any g (next_stop account rest live)
    next_stop-Handing account rest none g c f k = tt
    next_stop-Handing account rest (some p) g c f k = k (seen-stop account p g c f)

    cancel_partial_stops-Handing :
        (account : AccountStateSummary) (ids : List Text) (g : Seen)
        → stop_seen s stop g.account ≡ true
        → Handing Any g (cancel_partial_stops s plan stop account ids)
    unfolding cancel_partial_stops ensure_full_stop
    cancel_partial_stops-Handing account [] g e = tt
    cancel_partial_stops-Handing account (id ∷ ids) g e =
        hand-check Any g (partial_stops s plan account) _ (λ present c.
          hand-if Any g (one_of_texts id present) _ (cancel_partial_stops s plan stop account ids)
            (λ c'. hand-ask Any g (cancel_order s.symbol id) _ e (λ a.
              Safe-then (HandoffRule s stop) after Confirms Any (λ g e. Unit)
                (record g { account = none }) (ensure_rounds s stop 2) _
                (ensure_rounds-Confirms 2 (record g { account = none }))
                (λ h account' e'. hand-check Any h (find_position s account') _ (λ live f.
                  next_stop-Handing account' (cancel_partial_stops s plan stop account' ids) live h
                    e' f (cancel_partial_stops-Handing account' ids h)))))
            (λ c'. cancel_partial_stops-Handing account ids g e))

    present-Handing :
        (account : AccountStateSummary) (ids : List Text) (live : Option AccountPosition) (g : Seen)
        → Confirms g account
        → find_position s account ≡ ok live
        → Handing Any g (
            check (raise_if (not (is_some live)) position_gone) >>= λ x.
            cancel_partial_stops s plan stop account ids)
    present-Handing account ids none g c f = tt
    present-Handing account ids (some p) g c f =
        cancel_partial_stops-Handing account ids g (seen-stop account p g c f)

    hand_off-Handing :
        (p : AccountPosition) (account : AccountStateSummary) (ids : List Text) (g : Seen)
        → Handing Any g (hand_off s plan p account stop ids)
    unfolding ensure_full_stop
    hand_off-Handing p account [] g = tt
    hand_off-Handing p account (id ∷ ids) g =
        hand-check Any g (raise_if (other_stop p stop) stop_differs) _ (λ x c.
          Safe-then (HandoffRule s stop) after Confirms Any (λ g e. Unit) g (ensure_rounds s stop 2)
            _ (ensure_rounds-Confirms 2 g)
            (λ h account' e.
              hand-check Any h (find_position s account') _
                (λ live f. present-Handing account' (id ∷ ids) live h e f)))

-- Whatever is answered, `handoff_partial_stops` cancels a partial stop only if it has read the account
-- since its last change on the exchange, and the last such snapshot shows the position with the
-- expected full stop. Its other changes set this stop, and it asks for nothing else but snapshots.
pub handoff-IsCovered :
    (s : PositionStrategy) (plan : ExecutionPlan) (p : AccountPosition)
    (account : AccountStateSummary)
    → Safe
        (HandoffRule s (or_value s.protected_stop_loss plan.stop_loss))
        after
        Any
        (λ g e. Unit)
        unseen
        (handoff_partial_stops s plan p account)
unfolding handoff_partial_stops
handoff-IsCovered s plan p account =
    let stop = or_value s.protected_stop_loss plan.stop_loss in
    hand-check s stop Any unseen (partial_stops s plan account) _
      (λ ids c. hand_off-Handing s stop plan p account ids unseen)
