-- ===== src/Contracts/Resolved.antt =====
-- A resolved contract is the intent's own, or its alias in the same units.
use cautious_crypto_bro.Prelude.{
  Bool, true, false, ◌≡◌, refl, ◌⊎◌, inl, inr, Option, none, some, any, if◌then◌else◌,
}
use cautious_crypto_bro.Prelude.Result.{Result, ok, err, raise_if, or_raise}
use cautious_crypto_bro.Text.{Text}
use cautious_crypto_bro.Decimal.{Decimal, is_positive, mul, div, dec}
use cautious_crypto_bro.Program.{return, raise, try_else, check}
use cautious_crypto_bro.Program.Safe.{Safe, Safe-ask, Safe-check}
use cautious_crypto_bro.Domain.Signal.{TradingIntent}
use cautious_crypto_bro.Domain.Policy.{InstrumentContext}
use cautious_crypto_bro.Contracts.Defs.{
  contract_alias, ContractCall, market_context, ContractAnswer, ContractFault, no_market_price,
  arithmetic, prices_of, outside, in_envelope, ambiguous_units, check_prices, check_quote_units,
  is_invalid_symbol, Resolution, resolve_alias, resolve_listed, resolve_open_contract,
}

-- The contexts that the exchange has answered.
pub data Quotes : Type 0 where
  no_quotes : Quotes
  quoted : Text → InstrumentContext → Quotes

abbrev pub after : Quotes → (c : ContractCall) → Result ContractFault (ContractAnswer c) → Quotes
after g (market_context symbol) (ok c) = quoted symbol c
after g (market_context symbol) (err e) = g

-- The exchange is asked about the symbol of the intent and its alias only.
abbrev pub AsksAbout : TradingIntent → Quotes → ContractCall → Type 0
AsksAbout i g (market_context symbol) =
    (symbol ≡ i.symbol) ⊎ (contract_alias i.symbol ≡ some symbol)

-- The market price is positive, and every price of the intent is within a factor of ten of it.
abbrev pub InUnits : TradingIntent → InstrumentContext → Type 0
InUnits i c =
    (low : Decimal) × (div c.market_price (dec 10) ≡ some low)
    × (is_positive c.market_price ≡ true)
    × (any (outside low (mul c.market_price (dec 10))) (prices_of i) ≡ false)

abbrev pub IsResolved : TradingIntent → Quotes → Resolution → Type 0
IsResolved i g (i', none) = (i' ≡ i) × (contract_alias i.symbol ≡ none)
IsResolved i g (i', some c) =
    (g ≡ quoted i'.symbol c)
    × ((i' ≡ i)
        ⊎ ((contract_alias i.symbol ≡ some i'.symbol)
            × (i' ≡ record i { symbol = i'.symbol })
            × InUnits i c))

checked-InUnits :
    (i : TradingIntent) (c : InstrumentContext) {u : Unit {0}}
    → check_quote_units i c ≡ ok u
    → InUnits i c
unfolding check_quote_units check_prices
checked-InUnits i c h =
    by_price (is_positive c.market_price) refl (div c.market_price (dec 10)) refl h
  where
    accepted :
        (b : Bool) (low : Decimal) {u : Unit {0}}
        → any (outside low (mul c.market_price (dec 10))) (prices_of i) ≡ b
        → is_positive c.market_price ≡ true
        → div c.market_price (dec 10) ≡ some low
        → raise_if b ambiguous_units ≡ ok u
        → InUnits i c
    accepted true low e p q h = absurd (cc)
    accepted false low e p q h = (low, q, p, e)

    by_price :
        (b : Bool)
        → is_positive c.market_price ≡ b
        → (o : Option Decimal) → div c.market_price (dec 10) ≡ o
        → {u : Unit {0}}
        → (if b then in_envelope i c (or_raise o arithmetic) else err no_market_price) ≡ ok u
        → InUnits i c
    by_price false p o q h = absurd (cc)
    by_price true p none q h = absurd (cc)
    by_price true p (some low) q h =
        accepted (any (outside low (mul c.market_price (dec 10))) (prices_of i)) low refl p q h

-- Whatever the exchange answers, `resolve_open_contract` asks it only about the symbol of the intent and
-- the symbol's reviewed alias. If it returns a context, that is the last answer, for the symbol of the
-- returned intent; and the returned intent is the given one, or only its symbol is replaced by the alias
-- and all its prices are within a factor of ten of a positive market price. Without a context the
-- intent is as given, and the symbol has no alias.
pub resolve_open_contract-IsResolved :
    (i : TradingIntent)
    → Safe (AsksAbout i) after (IsResolved i) (λ g e. Unit) no_quotes (resolve_open_contract i)
unfolding resolve_open_contract resolve_alias
resolve_open_contract-IsResolved i = listed (contract_alias i.symbol) refl
  where
    aliased :
        (target : Text) (g : Quotes)
        → contract_alias i.symbol ≡ some target
        → Safe (AsksAbout i) after (IsResolved i) (λ g e. Unit) g (resolve_alias i target)
    aliased target g e =
        Safe-ask (AsksAbout i) after (IsResolved i) (λ g e. Unit) g (market_context target) _
          (inr e)
          (λ c.
            Safe-check (AsksAbout i) after (IsResolved i) (λ g e. Unit) (quoted target c)
              (check_quote_units i c) _ (λ x h. (refl, inr (e, refl, checked-InUnits i c h)))
              (λ e. tt))
          (λ e. tt)

    listed :
        (o : Option Text)
        → contract_alias i.symbol ≡ o
        → Safe (AsksAbout i) after (IsResolved i) (λ g e. Unit) no_quotes (resolve_listed i o)
    listed none e = (refl, e)
    listed (some target) e = (inl refl, answered)
      where
        refused :
            (b : Bool) (f : ContractFault)
            → Safe
                (AsksAbout i)
                after
                (IsResolved i)
                (λ g e. Unit)
                no_quotes
                (if b then resolve_alias i target else raise f)
        refused true f = aliased target no_quotes e
        refused false f = tt

        answered :
            (r : Result ContractFault InstrumentContext)
            → Safe
                (AsksAbout i)
                after
                (IsResolved i)
                (λ g e. Unit)
                (after no_quotes (market_context i.symbol) r)
                (try_else
                  (check r)
                  (λ f. if is_invalid_symbol f then resolve_alias i target else raise f)
                  (λ c. return (i, some c)))
        answered (ok c) = (refl, inl refl)
        answered (err f) = refused (is_invalid_symbol f) f
