-- ===== src/Contracts/Defs.antt =====
-- contract_symbols.py: a symbol that the exchange lists under another name.
use cautious_crypto_bro.Prelude.{
  Bool, false, not, ◌&&◌, ◌||◌, Option, none, some, List, [], ◌∷◌, any, if◌then◌else◌,
}
use cautious_crypto_bro.Prelude.Int.{leb_ℤ}
use cautious_crypto_bro.Prelude.Result.{Result, ok, err, raise_if, or_raise}
use cautious_crypto_bro.Text.{Text, text, same_text, starts_with, contains, lower, upper}
use cautious_crypto_bro.Decimal.{Decimal, is_positive, mul, div, dec}
use cautious_crypto_bro.Program.{Program, return, raise, ◌>>=◌, ◌>>◌, ask, try_else, check}
use cautious_crypto_bro.Domain.Signal.{TradingIntent}
use cautious_crypto_bro.Domain.Policy.{InstrumentContext}

-- `BYBIT_CONTRACT_ALIASES`
unfoldable pub contract_alias : Text → Option Text
contract_alias symbol =
    if same_text symbol (text "PEPEUSDT") then some (text "1000PEPEUSDT") else none

-- `contract_evidence_aliases`
unfoldable pub contract_evidence_aliases : Text → List Text
contract_evidence_aliases symbol =
    if same_text (text "1000PEPEUSDT") (upper symbol) then text "PEPEUSDT" ∷ [] else []

abbrev known : Text → List Text → Bool
known symbol = any (same_text symbol)

-- `owned_action_symbol`, with the symbols of the history.
unfoldable pub owned_action_symbol : Text → List Text → Text
owned_action_symbol symbol history = elim (contract_alias symbol) [
  | none ↦ symbol
  | some target ↦ if not (known symbol history) && known target history then target else symbol
]

-- The only call, of the exchange, and the exceptions: TradeExecutionError with its message.
pub data ContractCall : Type 0 where
  market_context : Text → ContractCall

abbrev pub ContractAnswer : ContractCall → Type 0
ContractAnswer (market_context _) = InstrumentContext

pub data ContractFault : Type 0 where
  trade_execution : Text → ContractFault
  no_market_price ambiguous_units arithmetic other_error : ContractFault

abbrev pub ContractTask : Type 0 → Type 0
ContractTask A = Program ContractCall ContractAnswer ContractFault A

-- The prices of the intent, those that are there.
abbrev pub quoted_prices : List (Option Decimal) → List Decimal
quoted_prices [] = []
quoted_prices (none ∷ rest) = quoted_prices rest
quoted_prices (some price ∷ rest) = price ∷ quoted_prices rest

abbrev pub prices_of : TradingIntent → List Decimal
prices_of i =
    quoted_prices
      (i.entry.price ∷ i.entry.range_low ∷ i.entry.range_high ∷ i.stop_loss ∷ i.take_profit ∷ [])

abbrev pub outside : Decimal → Decimal → Decimal → Bool
outside low high price = not (leb_ℤ low price && leb_ℤ price high)

unfoldable pub check_prices : Decimal → Decimal → List Decimal → Result ContractFault (Unit {0})
check_prices low high prices = raise_if (any (outside low high) prices) ambiguous_units

abbrev pub in_envelope :
    TradingIntent
    → InstrumentContext
    → Result ContractFault Decimal
    → Result ContractFault (Unit {0})
in_envelope i c (err e) = err e
in_envelope i c (ok low) = check_prices low (mul c.market_price (dec 10)) (prices_of i)

-- `_check_quote_units`
unfoldable pub check_quote_units :
    TradingIntent → InstrumentContext → Result ContractFault (Unit {0})
check_quote_units i c =
    if is_positive c.market_price
    then in_envelope i c (or_raise (div c.market_price (dec 10)) arithmetic)
    else err no_market_price

-- The message of an unknown symbol.
abbrev says_invalid : Text → Bool
says_invalid message =
    starts_with message (text "bybit rejected request: 10001 ")
    && (contains message (text "symbol invalid") || contains message (text "invalid symbol"))

unfoldable pub is_invalid_symbol : ContractFault → Bool
is_invalid_symbol (trade_execution message) = says_invalid (lower message)
is_invalid_symbol _ = false

abbrev pub Resolution : Type 0
Resolution = TradingIntent × Option InstrumentContext

unfoldable pub resolve_alias : TradingIntent → Text → ContractTask Resolution
resolve_alias i target = do
  c ← ask (market_context target)
  check (check_quote_units i c)
  return (record i { symbol = target }, some c)

-- `resolve_open_contract`, with the entry of the table for the symbol.
abbrev pub resolve_listed : TradingIntent → Option Text → ContractTask Resolution
resolve_listed i none = return (i, none)
resolve_listed i (some target) =
    try_else (ask (market_context i.symbol))
      (λ e. if is_invalid_symbol e then resolve_alias i target else raise e)
      (λ c. return (i, some c))

unfoldable pub resolve_open_contract : TradingIntent → ContractTask Resolution
resolve_open_contract i = resolve_listed i (contract_alias i.symbol)
