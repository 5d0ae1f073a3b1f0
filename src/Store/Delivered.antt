-- ===== src/Store/Delivered.antt =====
-- storage/manual_delivery.py: what was delivered stays delivered, whatever calls follow.
use cautious_crypto_bro.Prelude.{
  ◌≡◌, refl, ap, Bool, true, false, not, ◌&&◌, ◌||◌, if_both, ◌≤◌, is_some, List, [], ◌∷◌, ◌++◌,
  any, arith,
}
use mathlib.Core.Path.{subst}
use cautious_crypto_bro.Text.{Text, same_text, same_text-true}
use cautious_crypto_bro.Store.Table.{update, affected}
use cautious_crypto_bro.Store.Tables.{Kind, Delivery}
use cautious_crypto_bro.Store.Recovery.{delivery_of, new_delivery, reserve_delivery, reserve_all}

-- A row of the record that is not delivered, or that a sender still holds.
abbrev pub is_open : Text → Delivery → Bool
is_open id d = delivery_of id d && (not (is_some d.delivered_at) || is_some d.claim_token)

-- The record has a row, and every row of it is delivered and held by nobody.
unfoldable pub IsDelivered : Text → List Delivery → Type 0
IsDelivered id ds = (1 ≤ affected (delivery_of id) ds) × (affected (is_open id) ds ≡ 0)

-- An UPDATE of rows that are not delivered, or are held, finds none of the record's.
pub IsDelivered-update :
    (id : Text) (matches : Delivery → Bool) (change : Delivery → Delivery)
    → ((d : Delivery) → (change d).record_id ≡ d.record_id)
    → ((d : Delivery) → is_open id d ≡ false → delivery_of id d ≡ true → matches d ≡ false)
    → (ds : List Delivery) → IsDelivered id ds
    → IsDelivered id (update matches change ds)
unfolding IsDelivered
IsDelivered-update id matches change same apart ds h = (omega (arith, count ds, h.0), closed ds h.1)
  where
    kept : (d : Delivery) → delivery_of id (change d) ≡ delivery_of id d
    kept d = ap (λ x. same_text x id) (same d)

    count :
        (ds : List Delivery)
        → affected (delivery_of id) (update matches change ds) ≡ affected (delivery_of id) ds
    count [] = refl
    count (d ∷ ds) = ground (arith, kept d, count ds)

    closed :
        (ds : List Delivery)
        → affected (is_open id) ds ≡ 0
        → affected (is_open id) (update matches change ds) ≡ 0
    closed [] h = refl
    closed (d ∷ ds) h = ground (arith, kept d, apart d, closed ds)

-- An INSERT for a record that has no row leaves the rows of the others.
pub IsDelivered-insert :
    (id record_id : Text) (kind : Kind) (ds : List Delivery)
    → any (delivery_of record_id) ds ≡ false
    → IsDelivered id ds
    → IsDelivered id (ds ++ new_delivery record_id kind ∷ [])
unfolding IsDelivered
IsDelivered-insert id rid kind ds absent (some_row, closed) =
    (count ds some_row, none_open ds closed)
  where
    count :
        (ds : List Delivery)
        → 1 ≤ affected (delivery_of id) ds
        → 1 ≤ affected (delivery_of id) (ds ++ new_delivery rid kind ∷ [])
    count [] h = absurd (omega (arith, h))
    count (d ∷ ds) h = ground (arith, count ds)

    unknown :
        (ds : List Delivery) → any (delivery_of id) ds ≡ false → affected (delivery_of id) ds ≡ 0
    unknown [] h = refl
    unknown (d ∷ ds) h = ground (arith, unknown ds)

    other : same_text rid id ≡ true → affected (delivery_of id) ds ≡ 0
    other e =
        unknown ds (subst (λ x. any (delivery_of x) ds ≡ false) (same_text-true rid id e) absent)

    none_open :
        (ds' : List Delivery)
        → affected (is_open id) ds' ≡ 0
        → affected (is_open id) (ds' ++ new_delivery rid kind ∷ []) ≡ 0
    none_open [] h = ground (arith, other, some_row)
    none_open (d ∷ ds') h = ground (arith, none_open ds')

pub IsDelivered-reserve :
    (id record_id : Text) (kind : Kind) (ds : List Delivery)
    → IsDelivered id ds
    → IsDelivered id (reserve_delivery record_id kind ds)
IsDelivered-reserve id rid kind ds h =
    if_both (IsDelivered id) (any (delivery_of rid) ds) (λ _. h)
      (λ absent. IsDelivered-insert id rid kind ds absent h)

pub IsDelivered-reserve_all :
    (id : Text) (kind : Kind) (ids : List Text) (ds : List Delivery)
    → IsDelivered id ds
    → IsDelivered id (reserve_all kind ids ds)
unfolding reserve_all
IsDelivered-reserve_all id kind [] ds h = h
IsDelivered-reserve_all id kind (t ∷ ids) ds h =
    IsDelivered-reserve_all id kind ids _ (IsDelivered-reserve id t kind ds h)
