-- ===== src/Domain/Signal.antt =====
-- domain.py: source messages, entries and the trading intents made from them.
use cautious_crypto_bro.Prelude.{
  ℕ, ◌==◌, Bool, true, not, ◌&&◌, ◌||◌, Option, none, some, is_some, [], ◌∷◌, length, ltb,
}
use cautious_crypto_bro.Prelude.Int.{ℤ, ltb_ℤ, leb_ℤ}
use cautious_crypto_bro.Prelude.Result.{Result, ok, err, ◌>>=◌, ◌>>◌, raise_if}
use cautious_crypto_bro.Text.{Text, text, ends_with, upper, strip, without, is_alnum}
use mathlib.Core.List.{reverse}
use cautious_crypto_bro.Decimal.{Decimal, is_positive, min, max, dec}
use cautious_crypto_bro.Domain.Invalid.{
  Invalid, out_of_bounds, not_usdt, bad_base_asset, market_with_price, limit_without_price,
  limit_with_range, range_with_price, range_incomplete, range_not_increasing, long_stop_not_below,
  long_target_not_above, short_stop_not_above, short_target_not_below, long_targets_crossed,
  short_targets_crossed, reduce_without_pct, pct_without_reduce,
}
use cautious_crypto_bro.Domain.Enums.{
  Side, long, short, EntryType, OpenRelation, ApprovalMode, IntentStatus, PositionActionType,
}

abbrev drop_four : Text → Text
drop_four (a ∷ b ∷ c ∷ d ∷ s) = s
drop_four _ = []

-- `_normalize_usdt_symbol`; `normalized[:-4]` is what follows the last four when read backwards.
unfoldable pub normalize_usdt_symbol : Text → Result Invalid Text
normalize_usdt_symbol symbol = do
  let normalized = without 45 (without 47 (upper (strip symbol)))
  raise_if (not (ends_with normalized (text "USDT"))) not_usdt
  let base_asset = reverse (drop_four (reverse normalized))
  raise_if (not (is_alnum base_asset)) bad_base_asset
  ok normalized

pub record SourceMessage : Type 0 where
  pub channel_id : ℤ
  pub channel_title : Text
  pub channel_username : Option Text
  pub message_id : ℤ
  pub published_at : ℕ
  pub received_at : ℕ
  pub text : Text
  pub recovery_review_reason : Option Text

-- A `float` is the decimal that `Decimal(str(x))` makes of it.
pub record Entry : Type 0 where
  pub type : EntryType
  pub price : Option Decimal
  pub range_low : Option Decimal
  pub range_high : Option Decimal

-- `Field(default=None, gt=0)`
abbrev pub none_or_positive : Option Decimal → Bool
none_or_positive none = true
none_or_positive (some d) = is_positive d

unfoldable pub validate_range : Option Decimal → Option Decimal → Result Invalid (Unit {0})
validate_range (some low) (some high) = raise_if (leb_ℤ high low) range_not_increasing
validate_range _ _ = err range_incomplete

-- `Entry.validate_shape`, after the constraints of the fields.
unfoldable pub validate_shape : EntryType → Entry → Result Invalid (Unit {0})
validate_shape EntryType.market e =
    raise_if (is_some e.price || is_some e.range_low || is_some e.range_high) market_with_price
validate_shape EntryType.limit e = do
  raise_if (not (is_some e.price)) limit_without_price
  raise_if (is_some e.range_low || is_some e.range_high) limit_with_range
validate_shape EntryType.range e = do
  raise_if (is_some e.price) range_with_price
  validate_range e.range_low e.range_high

unfoldable pub validate_entry : Entry → Result Invalid (Unit {0})
validate_entry e = do
  raise_if
      (not
        (none_or_positive e.price && none_or_positive e.range_low && none_or_positive e.range_high))
      out_of_bounds
  validate_shape e.type e

pub record TradingIntent : Type 0 where
  pub intent_id : Text
  pub source : SourceMessage
  pub symbol : Text
  pub side : Side
  pub entry : Entry
  pub stop_loss : Option Decimal
  pub take_profit : Option Decimal
  pub leverage : Option Decimal
  pub summary : Text
  pub confidence : Decimal
  pub relation : OpenRelation
  pub relation_evidence : Option Text
  pub approval_mode : ApprovalMode
  pub created_at : ℕ
  pub status : IntentStatus

abbrev pub below? : Option Decimal → Option Decimal → Bool
below? (some a) (some b) = ltb_ℤ a b
below? _ _ = true

-- `_validate_market_targets`
unfoldable pub validate_market_targets :
    Side → Option Decimal → Option Decimal → Result Invalid (Unit {0})
validate_market_targets long stop target = raise_if (not (below? stop target)) long_targets_crossed
validate_market_targets short stop target =
    raise_if (not (below? target stop)) short_targets_crossed

-- The bounds that stop and target are held against.
unfoldable pub validate_targets :
    Side → Decimal → Decimal → Option Decimal → Option Decimal → Result Invalid (Unit {0})
validate_targets long low high stop target = do
  raise_if (not (below? stop (some low))) long_stop_not_below
  raise_if (not (below? (some high) target)) long_target_not_above
validate_targets short low high stop target = do
  raise_if (not (below? (some high) stop)) short_stop_not_above
  raise_if (not (below? target (some low))) short_target_not_below

-- `min` and `max` of the references that are not `None`; an empty list is a ValueError there too.
unfoldable pub reference_bounds :
    Option Decimal → Option Decimal → Result Invalid (Decimal × Decimal)
reference_bounds none none = err out_of_bounds
reference_bounds (some a) none = ok (a, a)
reference_bounds none (some b) = ok (b, b)
reference_bounds (some a) (some b) = ok (min a b, max a b)

unfoldable pub validate_geometry : EntryType → TradingIntent → Result Invalid (Unit {0})
validate_geometry EntryType.market i = validate_market_targets i.side i.stop_loss i.take_profit
validate_geometry EntryType.limit i = do
  (low, high) ← reference_bounds i.entry.price none
  validate_targets i.side low high i.stop_loss i.take_profit
validate_geometry EntryType.range i = do
  (low, high) ← reference_bounds i.entry.range_low i.entry.range_high
  validate_targets i.side low high i.stop_loss i.take_profit

abbrev pub at_least : Decimal → Option Decimal → Bool
at_least low none = true
at_least low (some d) = leb_ℤ low d

abbrev pub sized : ℕ → Text → Bool
sized most s = not (length s == 0) && not (ltb most (length s))

abbrev pub sized? : Option Text → Bool
sized? none = true
sized? (some s) = not (ltb 300 (length s))

-- The constraints of the fields and `TradingIntent.validate_trade_geometry`.
unfoldable pub validate_intent : TradingIntent → Result Invalid TradingIntent
validate_intent i = do
  validate_entry i.entry
  raise_if
      (not (
        none_or_positive i.stop_loss
        && none_or_positive i.take_profit
        && at_least (dec 1) i.leverage
        && sized 500 i.summary
        && leb_ℤ (dec 0) i.confidence
        && leb_ℤ i.confidence (dec 1)
        && sized? i.relation_evidence))
      out_of_bounds
  symbol ← normalize_usdt_symbol i.symbol
  validate_geometry i.entry.type i
  ok (record i { symbol = symbol })

pub record PositionActionIntent : Type 0 where
  pub action_id : Text
  pub source : SourceMessage
  pub symbol : Text
  pub action : PositionActionType
  pub close_pct : Option Decimal
  pub expected_side : Option Side
  pub summary : Text
  pub confidence : Decimal
  pub approval_mode : ApprovalMode
  pub created_at : ℕ
  pub status : IntentStatus
  pub contract_review_reason : Option Text

abbrev pub inside_pct : Option Decimal → Bool
inside_pct none = true
inside_pct (some d) = is_positive d && ltb_ℤ d (dec 100)

-- The two tests of `validate_position_action` on `close_pct`.
unfoldable pub validate_close_pct : PositionActionType → Option Decimal → Result Invalid (Unit {0})
validate_close_pct PositionActionType.reduce pct = raise_if (not (is_some pct)) reduce_without_pct
validate_close_pct _ pct = raise_if (is_some pct) pct_without_reduce

unfoldable pub validate_position_action : PositionActionIntent → Result Invalid PositionActionIntent
validate_position_action a = do
  raise_if
      (not (
        inside_pct a.close_pct
        && sized 500 a.summary
        && leb_ℤ (dec 0) a.confidence
        && leb_ℤ a.confidence (dec 1)))
      out_of_bounds
  symbol ← normalize_usdt_symbol a.symbol
  validate_close_pct a.action a.close_pct
  ok (record a { symbol = symbol })
