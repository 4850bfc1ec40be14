-- ===== src/Pricing.antt =====
-- packages/core/src/pricing.ts: `price` and the steps that it runs one after the other. A thrown
-- `PricingError("INVALID_SELECTION", reason)` is `err reason`.
pub mod Rounding
pub mod Refusals
pub mod Lines
pub mod Questions
pub mod Totals
pub mod Consistency
pub mod Acceptance
pub mod Order
pub mod Permuted
pub mod Reordered
pub mod Tests
use booking_lumin_checkout.Base.{Bool, not, ◌==◌, Option, none, some, List, [], ◌∷◌, ◌++◌}
use booking_lumin_checkout.Base.Int.{ℤ, pos}
use booking_lumin_checkout.Base.Dict.{keys}
use booking_lumin_checkout.Base.Result.{Result, ok, err, ◌>>=◌, ◌>>◌, throw_if}
use booking_lumin_checkout.Contracts.Service.{Service, Selection, PriceLine, PriceBreakdown}
use Rounding.{Doubles}
use Refusals.{Reason, service_mismatch}
use Lines.{rental_terms, base_lines, check_items, item_lines, addon_lines, rental_effect}
use Questions.{Multiplier, check_answers, question_effects}
use Totals.{sum_lines, finish}

pub record Additive : Type 0 where
  pub lines : List PriceLine
  pub multipliers : List Multiplier
  pub deposit : ℤ

-- All lines but those of the multipliers, with the multipliers and the deposit.
unfoldable pub additive : Service → Selection → Result Reason Additive
additive service selection = do
  throw_if (not (selection.service_id == service.id)) service_mismatch
  terms ← rental_terms service selection
  check_items service.items (keys selection.item_quantities)
  items ← item_lines service.currency selection.item_quantities service.items
  addons ← addon_lines service.currency service.addons [] selection.addon_ids
  check_answers service.questions (keys selection.answers)
  (questions, multipliers) ← question_effects service.currency selection.answers service.questions
  (rental, deposit) ← rental_effect service terms
  ok (record {
    lines = base_lines service ++ (items ++ (addons ++ (questions ++ rental)));
    multipliers = multipliers;
    deposit = deposit;
  })

module _ (doubles : Doubles) where
  unfoldable pub price : Service → Selection → Result Reason PriceBreakdown
  price service selection = do
    parts ← additive service selection
    subtotal ← sum_lines (pos 0) parts.lines
    finish doubles service parts.lines parts.multipliers parts.deposit subtotal
