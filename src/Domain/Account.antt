-- ===== src/Domain/Account.antt =====
-- domain.py: the snapshot of the exchange account.
use cautious_crypto_bro.Prelude.{
  ℕ, Bool, true, false, ◌&&◌, ◌||◌, Option, List, if◌then◌else◌, any, [], ◌∷◌,
}
use cautious_crypto_bro.Text.{Text, text, same_text, starts_with, contains}
use cautious_crypto_bro.Decimal.{Decimal}
use cautious_crypto_bro.Domain.Enums.{Side}

pub record AccountPosition : Type 0 where
  pub symbol : Text
  pub side : Side
  pub size : Decimal
  pub avg_price : Decimal
  pub mark_price : Decimal
  pub unrealised_pnl : Decimal
  pub status : Text
  pub take_profit : Option Decimal
  pub stop_loss : Option Decimal
  pub break_even_price : Option Decimal
  pub trailing_stop : Option Decimal

pub record AccountOrder : Type 0 where
  pub symbol : Text
  pub side : Side
  pub order_type : Text
  pub status : Text
  pub quantity : Decimal
  pub remaining_quantity : Decimal
  pub price : Option Decimal
  pub avg_price : Option Decimal
  pub order_id : Text
  pub order_link_id : Text
  pub reduce_only : Bool
  pub updated_at : ℕ
  pub stop_order_type : Text
  pub create_type : Text
  pub trigger_price : Option Decimal
  pub close_on_trigger : Bool
  pub parent_order_link_id : Text
  pub executed_quantity : Decimal

pub record AccountStateSummary : Type 0 where
  pub as_of : ℕ
  pub positions : List AccountPosition
  pub open_orders : List AccountOrder

-- The texts of `AccountOrder.kind`.
pub data OrderKind : Type 0 where
  tp sl trailing reduce conditional entry : OrderKind

abbrev one_of : Text → List Text → Bool
one_of s names = any (same_text s) names

-- `AccountOrder.kind`
unfoldable pub kind : AccountOrder → OrderKind
kind o =
    let stop_type = o.stop_order_type in
    if one_of stop_type (text "TakeProfit" ∷ text "PartialTakeProfit" ∷ [])
    then tp
    else if one_of stop_type (text "StopLoss" ∷ text "PartialStopLoss" ∷ [])
    then sl
    else if same_text stop_type (text "TrailingStop")
    then trailing
    else if o.reduce_only || o.close_on_trigger
    then OrderKind.reduce
    else if same_text stop_type (text "Stop")
    then conditional
    else entry

abbrev protects : OrderKind → Bool
protects tp = true
protects sl = true
protects trailing = true
protects _ = false

-- `AccountOrder.is_protective`
unfoldable pub is_protective : AccountOrder → Bool
is_protective o = protects (kind o)

-- `AccountOrder.is_v2_take_profit`
unfoldable pub is_v2_take_profit : AccountOrder → Bool
is_v2_take_profit o =
    o.reduce_only
    && same_text o.order_type (text "Limit")
    && starts_with o.order_link_id (text "ccb-v2-")
    && contains o.order_link_id (text "-t")
