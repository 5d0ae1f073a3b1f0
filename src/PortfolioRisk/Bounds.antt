-- ===== src/PortfolioRisk/Bounds.antt =====
-- portfolio_risk.py: the signs of what is added up.
use cautious_crypto_bro.Prelude.{
  ℕ, ◌+◌, ◌≡◌, refl, Bool, true, false, List, [], ◌∷◌, arith, All, if_both,
}
use mathlib.Core.Path.{subst}
use cautious_crypto_bro.Prelude.Int.{pos, negsuc, ◌≤ℤ◌, ◌+ℤ◌, sub_ℕ, leb_ℤ, leb_ℤ-false}
use cautious_crypto_bro.Prelude.Result.{ok, through, past, or_raise, ok_injective}
use cautious_crypto_bro.Decimal.{Decimal, add, sub, mul, abs, dec, round}
use cautious_crypto_bro.Domain.Enums.{Side, long, short, side_is}
use cautious_crypto_bro.Text.{same_text}
use cautious_crypto_bro.Domain.Plan.Defs.{ExecutionPlan}
use cautious_crypto_bro.Domain.Plan.Rules.{entry_orders}
use cautious_crypto_bro.Prelude.{first, not, ◌||◌}
use cautious_crypto_bro.Domain.Account.{
  AccountPosition, AccountOrder, AccountStateSummary, is_protective,
}
use cautious_crypto_bro.PortfolioRisk.Defs.{
  verified_position_stop_loss, position_risk, order_risk, entry_risk, open_stop_risk_usdt,
  is_passive, owns, loss_per_unit, no_exchange_stop, unknown_plan, slice_without_order,
}

unfoldable pub IsNonneg : Decimal → Type 0
IsNonneg a = pos 0 ≤ℤ a

sum_pos : (a b : ℕ) → sub_ℕ (a + b) 0 ≡ pos (a + b)
sum_pos a b = ground arith

dec-IsNonneg : IsNonneg (dec 0)
unfolding IsNonneg dec
dec-IsNonneg = omega arith

add-IsNonneg : (a b : Decimal) → IsNonneg a → IsNonneg b → IsNonneg (add a b)
unfolding IsNonneg add round ◌+ℤ◌
add-IsNonneg (pos a) (pos b) h k = rw (sum_pos a b) (omega arith)
add-IsNonneg (pos a) (negsuc b) h k = absurd (omega arith)
add-IsNonneg (negsuc a) b h k = absurd (omega arith)

mul-IsNonneg : (a b : Decimal) → IsNonneg a → IsNonneg b → IsNonneg (mul a b)
unfolding IsNonneg mul
mul-IsNonneg (pos a) (pos b) h k = omega arith
mul-IsNonneg (pos a) (negsuc b) h k = absurd (omega arith)
mul-IsNonneg (negsuc a) b h k = absurd (omega arith)

abs-IsNonneg : (a : Decimal) → IsNonneg (abs a)
unfolding IsNonneg abs round
abs-IsNonneg (pos n) = omega arith
abs-IsNonneg (negsuc n) = omega arith

loss-IsNonneg : (side : Side) (price stop : Decimal) → IsNonneg (loss_per_unit side price stop)
unfolding IsNonneg
loss-IsNonneg long price stop = ground arith
loss-IsNonneg short price stop = ground arith

-- The sizes of the positions are not negative.
unfoldable pub HasSize : AccountPosition → Type 0
HasSize p = IsNonneg p.size

positions-IsNonneg :
    (state : AccountStateSummary) (plans : List ExecutionPlan) (ps : List AccountPosition)
    (total : Decimal) {result : Decimal}
    → All HasSize ps
    → IsNonneg total
    → position_risk state plans ps total ≡ ok result
    → IsNonneg result
unfolding position_risk HasSize
positions-IsNonneg state plans [] total sizes start h = subst IsNonneg (ok_injective h) start
positions-IsNonneg state plans (p ∷ ps) total (size, sizes) start h =
    through (verified_position_stop_loss p state plans) _ h λ found e h'.
      through (or_raise found no_exchange_stop) _ h' λ stop e' h''.
        positions-IsNonneg state plans ps _ sizes
          (add-IsNonneg total _ start (
            mul-IsNonneg p.size (loss_per_unit p.side p.avg_price stop) size
              (loss-IsNonneg p.side p.avg_price stop)))
          h''

left_false : (a b : Bool) → a || b ≡ false → a ≡ false
left_false true b h = h
left_false false b h = refl

remaining-IsNonneg : (o : AccountOrder) → is_passive o ≡ false → IsNonneg o.remaining_quantity
unfolding IsNonneg
remaining-IsNonneg o live = omega (
  arith,
  leb_ℤ-false o.remaining_quantity (pos 0) (
      left_false (leb_ℤ o.remaining_quantity (pos 0)) o.reduce_only (
        left_false (leb_ℤ o.remaining_quantity (pos 0) || o.reduce_only) o.close_on_trigger (
          left_false (leb_ℤ o.remaining_quantity (pos 0) || o.reduce_only || o.close_on_trigger)
            (is_protective o) live))),
)

entry-IsNonneg :
    (o : AccountOrder) (plans : List ExecutionPlan) {risk : Decimal}
    → is_passive o ≡ false
    → entry_risk o plans ≡ ok risk
    → IsNonneg risk
unfolding entry_risk
entry-IsNonneg o plans live h =
    through (or_raise (first (owns o) plans) unknown_plan) _ h λ plan e h'.
      past (not (same_text o.symbol plan.symbol) || not (side_is o.side plan.side)) _ _ h' λ c h''.
        through (or_raise (entry_orders plan) slice_without_order) _ h'' λ orders e' h3.
          through _ _ h3 λ price e'' h4. subst IsNonneg (ok_injective h4) (
            mul-IsNonneg o.remaining_quantity _ (remaining-IsNonneg o live)
              (abs-IsNonneg (sub price plan.stop_loss)))

orders-IsNonneg :
    (plans : List ExecutionPlan) (orders : List AccountOrder) (total result : Decimal)
    → IsNonneg total
    → order_risk plans orders total ≡ ok result
    → IsNonneg result
unfolding order_risk
orders-IsNonneg plans [] total result start h = subst IsNonneg (ok_injective h) start
orders-IsNonneg plans (o ∷ orders) total result start h =
    if_both (λ r. r ≡ ok result → IsNonneg result) (is_passive o)
      (λ _ k. orders-IsNonneg plans orders total result start k)
      (λ live k. through (entry_risk o plans) _ k λ risk e k'.
        orders-IsNonneg plans orders (add total risk) result
          (add-IsNonneg total risk start (entry-IsNonneg o plans live e)) k')
      h

-- Open risk is never negative, so it never adds capacity: where no position has a negative size, the
-- number that `open_stop_risk_usdt` returns is at least zero, whatever the orders are.
pub open_stop_risk-IsNonneg :
    (state : AccountStateSummary) (plans : List ExecutionPlan) (total : Decimal)
    → All HasSize state.positions
    → open_stop_risk_usdt state plans ≡ ok total
    → IsNonneg total
unfolding open_stop_risk_usdt
open_stop_risk-IsNonneg state plans total sizes h =
    through (position_risk state plans state.positions (dec 0)) _ h λ held e h'.
      orders-IsNonneg plans state.open_orders held total
        (positions-IsNonneg state plans state.positions (dec 0) sizes dec-IsNonneg e) h'
