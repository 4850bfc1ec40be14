-- ===== src/Pricing/Totals.antt =====
-- packages/core/src/pricing.ts: the subtotal, the multipliers, the tax and the total.
use booking_lumin_checkout.Base.{ℕ, String, not, none, some, List, [], ◌∷◌, ◌++◌, if◌then◌else◌}
use Prim.Native.String
use booking_lumin_checkout.Base.Int.{ℤ, pos, ltb_ℤ, eq_ℤ, ◌+ℤ◌, ◌-ℤ◌, ◌*ℤ◌, is_safe}
use booking_lumin_checkout.Base.Result.{Result, ok, err, ◌>>=◌, ◌>>◌, throw_if}
use booking_lumin_checkout.Contracts.Money.{money}
use booking_lumin_checkout.Contracts.Service.{Service, PriceLine, PriceBreakdown}
use booking_lumin_checkout.Pricing.Rounding.{Doubles}
use booking_lumin_checkout.Pricing.Lines.{line}
use booking_lumin_checkout.Pricing.Questions.{Multiplier}
use booking_lumin_checkout.Pricing.Refusals.{
  Reason, unsafe_amount, negative_subtotal, negative_total,
}

unfoldable pub assert_safe : ℤ → Result Reason (Unit {0})
assert_safe n = throw_if (not (is_safe n)) unsafe_amount

-- The loop over the lines, from a running subtotal.
unfoldable pub sum_lines : ℤ → List PriceLine → Result Reason ℤ
sum_lines subtotal [] = ok subtotal
sum_lines subtotal (l ∷ ls) = do
  let product = l.amount.amount *ℤ l.quantity
  assert_safe product
  assert_safe (subtotal +ℤ product)
  sum_lines (subtotal +ℤ product) ls

module _ (doubles : Doubles) where
  -- A rounded product that passes `assertSafe`.
  unfoldable pub scaled : ℤ → ℕ → Result Reason ℤ
  scaled n bp = elim (doubles.scale n bp) [
    | none ↦ err unsafe_amount
    | some next ↦ assert_safe next >> ok next
  ]

  -- The loop over the multipliers: the lines that it adds, and the subtotal after it.
  unfoldable pub apply_multipliers :
      String → ℤ → List Multiplier → Result Reason (List PriceLine × ℤ)
  apply_multipliers currency subtotal [] = ok ([], subtotal)
  apply_multipliers currency subtotal (m ∷ ms) = do
    next ← scaled subtotal m.bp
    let delta = next -ℤ subtotal
    (lines, final) ← apply_multipliers currency next ms
    ok (
      (if eq_ℤ delta (pos 0)
          then lines
          else line
              (String.◌++◌ "multiplier:" (String.◌++◌ m.question (String.◌++◌ ":" m.choice_id)))
              m.label delta currency (pos 1)
            ∷ lines),
      final,
    )

  -- From the subtotal of the additive lines to the breakdown.
  unfoldable pub finish :
      Service → List PriceLine → List Multiplier → ℤ → ℤ → Result Reason PriceBreakdown
  finish service lines multipliers deposit start = do
    (extra, subtotal) ← apply_multipliers service.currency start multipliers
    throw_if (ltb_ℤ subtotal (pos 0)) negative_subtotal
    tax ← scaled subtotal service.tax_rate_bp
    assert_safe (subtotal +ℤ tax)
    throw_if (ltb_ℤ (subtotal +ℤ tax) (pos 0)) negative_total
    ok (record {
      lines = lines ++ extra;
      subtotal = money subtotal service.currency;
      tax = money tax service.currency;
      deposit = money deposit service.currency;
      total = money (subtotal +ℤ tax) service.currency;
    })
