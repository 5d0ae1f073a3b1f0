-- ===== src/Store/Reported.antt =====
-- storage/recovery.py: what the insertions and updates of the quarantine keep.
use cautious_crypto_bro.Prelude.{
  ℕ, ◌≡◌, refl, ◌==◌, Bool, true, not, ◌||◌, List, [], ◌∷◌, ◌++◌, arith, any, all, select, map,
  both_true,
}
use cautious_crypto_bro.Text.{Text, same_text_refl}
use cautious_crypto_bro.Domain.Enums.{StrategyStatus}
use cautious_crypto_bro.Domain.Strategy.{PositionStrategy}
use cautious_crypto_bro.Store.Table.{update, affected, affected-update, affected_still}
use cautious_crypto_bro.Store.Tables.{Row, Kind, open_kind, action_kind, Delivery, Notice}
use cautious_crypto_bro.Store.Shared.{is_executing, interrupt_row}
use cautious_crypto_bro.Store.Intents.{set_strategy}
use cautious_crypto_bro.Store.Actions.{managed_for}
use cautious_crypto_bro.Store.Recovery.{
  quarantine_symbols, add_notices, notice_of, kind_is, reserve_all, delivery_of, new_delivery,
}

pub kind_is_refl : (k : Kind) → kind_is k k ≡ true
kind_is_refl open_kind = refl
kind_is_refl action_kind = refl

pub any-append {ℓ} :
    {A : Type ℓ} (p : A → Bool) (xs : List A) (y : A) → any p (xs ++ y ∷ []) ≡ any p xs || p y
any-append p [] y = ground arith
any-append p (x ∷ xs) y = ground (arith, any-append p xs y)

-- Notices are only added.
pub notices_kept :
    (p : Notice → Bool) (kind : Kind) (ids : List Text) (ns : List Notice)
    → any p ns ≡ true
    → any p (add_notices kind ids ns) ≡ true
unfolding add_notices
notices_kept p kind [] ns h = h
notices_kept p kind (id ∷ ids) ns h =
    notices_kept p kind ids _
      (ground (arith, any-append p ns (record { kind = kind; record_id = id })))

pub noticed :
    (kind : Kind) (id : Text) (ids : List Text) (ns : List Notice)
    → any (notice_of kind id) (add_notices kind (id ∷ ids) ns) ≡ true
unfolding add_notices
noticed kind id ids ns = notices_kept (notice_of kind id) kind ids _ (
    ground (
      arith,
      any-append (notice_of kind id) ns (record { kind = kind; record_id = id }),
      kind_is_refl kind,
      same_text_refl id,
    ))

pub reservations_kept :
    (p : Delivery → Bool) (kind : Kind) (ids : List Text) (ds : List Delivery)
    → any p ds ≡ true
    → any p (reserve_all kind ids ds) ≡ true
unfolding reserve_all
reservations_kept p kind [] ds h = h
reservations_kept p kind (id ∷ ids) ds h =
    reservations_kept p kind ids _ (ground (arith, any-append p ds (new_delivery id kind)))

pub reserved :
    (kind : Kind) (id : Text) (ids : List Text) (ds : List Delivery)
    → any (delivery_of id) (reserve_all kind (id ∷ ids) ds) ≡ true
unfolding reserve_all
reserved kind id ids ds =
    reservations_kept (delivery_of id) kind ids _
      (ground (arith, any-append (delivery_of id) ds (new_delivery id kind), same_text_refl id))

-- Every identifier that is noticed has a notice afterwards, and every reserved one a delivery.
pub each_noticed :
    (kind : Kind) (ids : List Text) (ns : List Notice)
    → all (λ id. any (notice_of kind id) (add_notices kind ids ns)) ids ≡ true
unfolding add_notices
each_noticed kind [] ns = refl
each_noticed kind (id ∷ ids) ns = both_true (noticed kind id ids ns) (each_noticed kind ids _)

pub each_reserved :
    (kind : Kind) (ids : List Text) (ds : List Delivery)
    → all (λ id. any (delivery_of id) (reserve_all kind ids ds)) ids ≡ true
unfolding reserve_all
each_reserved kind [] ds = refl
each_reserved kind (id ∷ ids) ds = both_true (reserved kind id ids ds) (each_reserved kind ids _)

-- What holds of the images of the selected items.
pub all_selected {ℓ κ} :
    {A : Type ℓ} {B : Type κ} (p : A → Bool) (f : A → B) (q : B → Bool) (xs : List A)
    → all q (map f (select p xs)) ≡ true
    → all (λ x. not (p x) || q (f x)) xs ≡ true
all_selected p f q [] h = refl
all_selected p f q (x ∷ xs) h = ground (arith, all_selected p f q xs)

-- The UPDATE of a symbol leaves none of its strategies managed, and later ones keep it so.
pub released :
    (now : ℕ) (symbol : Text) (symbols : List Text) (ps : List PositionStrategy)
    → affected (managed_for symbol) ps ≡ 0
    → affected (managed_for symbol) (quarantine_symbols now symbols ps) ≡ 0
unfolding quarantine_symbols
released now symbol [] ps h = h
released now symbol (t ∷ symbols) ps h = released now symbol symbols _ (
    affected_still (managed_for symbol) (managed_for t) (set_strategy now StrategyStatus.uncertain)
      (λ p e. ground arith) ps h)

pub all_released :
    (now : ℕ) (symbols : List Text) (ps : List PositionStrategy)
    → all (λ t. affected (managed_for t) (quarantine_symbols now symbols ps) == 0) symbols ≡ true
unfolding quarantine_symbols
all_released now [] ps = refl
all_released now (t ∷ symbols) ps =
    both_true
      (ground (
        arith,
        released now t symbols
            (update (managed_for t) (set_strategy now StrategyStatus.uncertain) ps)
            (affected-update (managed_for t) (set_strategy now StrategyStatus.uncertain)
              (managed_for t) (λ p e. ground arith) (λ p e. e) ps),
      ))
      (all_released now symbols _)

module _ {P : Type 0} where
  pub none_executing :
      (now : ℕ) (error : Text) (rows : List (Row P))
      → affected is_executing (update is_executing (interrupt_row now error) rows) ≡ 0
  none_executing now error =
      affected-update is_executing (interrupt_row now error) is_executing (λ r e. ground arith)
        (λ r e. e)

pub all_kept {ℓ} :
    {A : Type ℓ} (p q : A → Bool)
    → ((x : A) → p x ≡ true → q x ≡ true)
    → (xs : List A) → all p xs ≡ true
    → all q xs ≡ true
all_kept p q keep [] h = refl
all_kept p q keep (x ∷ xs) h = ground (arith, keep x, all_kept p q keep xs)

pub still_noticed :
    (kind other : Kind) (ids later : List Text) (ns : List Notice)
    → all (λ id. any (notice_of kind id) (add_notices other later (add_notices kind ids ns))) ids
      ≡ true
still_noticed kind other ids later ns =
    all_kept (λ id. any (notice_of kind id) (add_notices kind ids ns))
      (λ id. any (notice_of kind id) (add_notices other later (add_notices kind ids ns)))
      (λ id h. notices_kept (notice_of kind id) other later (add_notices kind ids ns) h) ids
      (each_noticed kind ids ns)

pub still_reserved :
    (kind other : Kind) (ids later : List Text) (ds : List Delivery)
    → all (λ id. any (delivery_of id) (reserve_all other later (reserve_all kind ids ds))) ids
      ≡ true
still_reserved kind other ids later ds =
    all_kept (λ id. any (delivery_of id) (reserve_all kind ids ds))
      (λ id. any (delivery_of id) (reserve_all other later (reserve_all kind ids ds)))
      (λ id h. reservations_kept (delivery_of id) other later (reserve_all kind ids ds) h) ids
      (each_reserved kind ids ds)

pub select_none {ℓ} :
    {A : Type ℓ} (p : A → Bool) (xs : List A) → affected p xs ≡ 0 → select p xs ≡ []
select_none p [] h = refl
select_none p (x ∷ xs) h = ground (arith, select_none p xs)
