-- ===== src/Coordinator/Exposure.antt =====
-- Which exposure lets an intent open automatically.
use cautious_crypto_bro.Prelude.{
  Bool, true, false, not, ◌&&◌, ◌||◌, ◌≡◌, refl, Option, none, some, List, [], ◌∷◌, ◌++◌, any, all,
  map, select, length, ltb, arith,
}
use cautious_crypto_bro.Prelude.Int.{pos, ltb_ℤ}
use cautious_crypto_bro.Text.{Text, same_text}
use cautious_crypto_bro.Domain.Enums.{Side, side_is, OpenRelation}
use cautious_crypto_bro.Domain.Signal.{TradingIntent}
use cautious_crypto_bro.Domain.Account.{
  AccountPosition, AccountOrder, AccountStateSummary, is_protective,
}
use cautious_crypto_bro.Coordinator.Ports.{SafetyReason}
use cautious_crypto_bro.Coordinator.Preflight.{
  is_open_entry, open_positions, open_entries, more_than_one, is_nonempty, auto_open_safety_reason,
}

-- A position of the symbol.
abbrev pub is_held : Text → AccountPosition → Bool
is_held symbol p = same_text p.symbol symbol

-- An order of the symbol that would enter: it has a quantity left and neither reduces, closes nor
-- protects a position.
abbrev pub would_enter : Text → AccountOrder → Bool
would_enter symbol o =
    same_text o.symbol symbol
    && ltb_ℤ (pos 0) o.remaining_quantity
    && not (o.reduce_only || o.close_on_trigger || is_protective o)

-- Whether an exposure of that side, where it is one, is compatible with an intent: NEW tolerates none,
-- ADD_OR_REENTRY tolerates its own side.
abbrev pub is_compatible : OpenRelation → Side → Bool → Side → Bool
is_compatible relation side false other = true
is_compatible OpenRelation.add_or_reentry side true other = side_is other side
is_compatible _ side true other = false

abbrev pub is_opening : OpenRelation → Bool
is_opening OpenRelation.new = true
is_opening OpenRelation.add_or_reentry = true
is_opening OpenRelation.update_existing = false
is_opening OpenRelation.unclassified = false

abbrev pub is_admissible : TradingIntent → AccountStateSummary → Bool
is_admissible i state =
    is_opening i.relation
    && not (ltb 1 (length (select (is_held i.symbol) state.positions)))
    && all (λ (p : AccountPosition). is_compatible i.relation i.side (is_held i.symbol p) p.side)
        state.positions
    && all (λ (o : AccountOrder). is_compatible i.relation i.side (would_enter i.symbol o) o.side)
        state.open_orders

abbrev pub has_no_reason : Option SafetyReason → Bool
has_no_reason none = true
has_no_reason (some reason) = false

module _ {ℓ} {A : Type ℓ} where
  is_nonempty-++ : (xs ys : List A) → is_nonempty (xs ++ ys) ≡ is_nonempty xs || is_nonempty ys
  is_nonempty-++ [] ys = refl
  is_nonempty-++ (x ∷ xs) ys = refl

  any-++ : (p : A → Bool) (xs ys : List A) → any p (xs ++ ys) ≡ any p xs || any p ys
  any-++ p [] ys = refl
  any-++ p (x ∷ xs) ys = ground (arith, any-++ p xs ys)

  -- The exposures that a test selects, against the test in the specification.
  module _ (side : Side) (test exposed : A → Bool) (side_of : A → Side)
      (same : (x : A) → test x ≡ exposed x) where
    none_selected :
        (xs : List A)
        → is_nonempty (map side_of (select test xs))
          ≡ not (all (λ x. is_compatible OpenRelation.new side (exposed x) (side_of x)) xs)
    none_selected [] = refl
    none_selected (x ∷ xs) = ground (arith, same x, none_selected xs)

    same_selected :
        (xs : List A)
        → any (λ other. not (side_is other side)) (map side_of (select test xs))
          ≡ not
              (all (λ x. is_compatible OpenRelation.add_or_reentry side (exposed x) (side_of x)) xs)
    same_selected [] = refl
    same_selected (x ∷ xs) = ground (arith, same x, same_selected xs)

several : (ps : List AccountPosition) → more_than_one ps ≡ ltb 1 (length ps)
several [] = refl
several (p ∷ []) = refl
several (p ∷ q ∷ ps) = ground arith

enters : (i : TradingIntent) (o : AccountOrder) → is_open_entry i o ≡ would_enter i.symbol o
enters i o = ground arith

-- `auto_open_safety_reason` has no objection exactly when the intent is NEW or ADD_OR_REENTRY, the
-- account has at most one position of the symbol, and every position of the symbol and every order of
-- it that would enter (some quantity left, not reducing, closing or protective) is compatible: there is
-- none for NEW, and each is on the side of the intent for ADD_OR_REENTRY.
pub auto_open-MayOpen :
    (i : TradingIntent) (state : AccountStateSummary)
    → has_no_reason (auto_open_safety_reason i state) ≡ is_admissible i state
unfolding auto_open_safety_reason
auto_open-MayOpen i state = by_relation i.relation refl
  where
    by_relation :
        (relation : OpenRelation)
        → i.relation ≡ relation
        → has_no_reason (auto_open_safety_reason i state) ≡ is_admissible i state
    by_relation OpenRelation.new e = ground (
      arith,
      several (open_positions i state),
      is_nonempty-++ (map (λ (p : AccountPosition). p.side) (open_positions i state))
          (map (λ (o : AccountOrder). o.side) (open_entries i state)),
      none_selected i.side (is_held i.symbol) (is_held i.symbol) (λ (p : AccountPosition). p.side)
          (λ p. refl) state.positions,
      none_selected i.side (is_open_entry i) (would_enter i.symbol) (λ (o : AccountOrder). o.side)
          (enters i) state.open_orders,
    )
    by_relation OpenRelation.add_or_reentry e = ground (
      arith,
      several (open_positions i state),
      any-++ (λ other. not (side_is other i.side))
          (map (λ (p : AccountPosition). p.side) (open_positions i state))
          (map (λ (o : AccountOrder). o.side) (open_entries i state)),
      same_selected i.side (is_held i.symbol) (is_held i.symbol) (λ (p : AccountPosition). p.side)
          (λ p. refl) state.positions,
      same_selected i.side (is_open_entry i) (would_enter i.symbol) (λ (o : AccountOrder). o.side)
          (enters i) state.open_orders,
    )
    by_relation OpenRelation.update_existing e = ground arith
    by_relation OpenRelation.unclassified e = ground arith
