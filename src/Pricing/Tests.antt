-- ===== src/Pricing/Tests.antt =====
-- Runs of `price`, and the properties of prices at concrete services.
use mathlib.Core.List.{Permᴰ}
use booking_lumin_checkout.Base.{
  ◌↔◌, Bool-cases, inl, inr, ◌==◌, String, ◌+◌, ◌*◌, ◌≤◌, ◌<◌, ◌≡◌, refl, true, none, List, [], ◌∷◌,
  arith,
}
use booking_lumin_checkout.Base.Int.{pos, negsuc, ◌+ℤ◌, ◌*ℤ◌, ◌-ℤ◌, floor_div}
use booking_lumin_checkout.Base.Dict.{get}
use booking_lumin_checkout.Base.Result.{ok, err, is_ok}
use booking_lumin_checkout.Contracts.Money.{money}
use booking_lumin_checkout.Contracts.Service.{
  configurable, multi_choice, Service, Selection, PriceBreakdown,
}
use booking_lumin_checkout.Pricing.{additive, price}
use booking_lumin_checkout.Pricing.Rounding.{exact, round_bp}
use booking_lumin_checkout.Pricing.Refusals.{unknown_addon, missing_answer}
use booking_lumin_checkout.Pricing.Lines.{
  line, rental_terms, base_lines, check_items, item_lines, addon_by_id, addon_lines, rental_effect,
}
use booking_lumin_checkout.Pricing.Questions.{
  check_answers, quantity_effect, check_choices, choice_lines, choice_effect, question_effect,
  question_effects,
}
use booking_lumin_checkout.Pricing.Totals.{
  assert_safe, sum_lines, scaled, apply_multipliers, finish,
}
use booking_lumin_checkout.Pricing.Consistency.{IsConsistent, price-IsConsistent, price-tax_nearest}
use booking_lumin_checkout.Pricing.Acceptance.{accepts, additive-accepts}
use booking_lumin_checkout.Pricing.Reordered.{ReorderedSelection, ReorderedAnswer, price-same}

-- All that `price` computes with.
unfoldable pub pricing : Unit {0}
unfolding price additive rental_terms base_lines check_items item_lines addon_by_id addon_lines
    rental_effect check_answers quantity_effect check_choices choice_lines choice_effect
    question_effect question_effects assert_safe sum_lines scaled apply_multipliers finish round_bp
    floor_div get ◌+ℤ◌ ◌*ℤ◌ ◌-ℤ◌
pricing = tt

-- A house cleaning: a base price, an addon, a discount and a surcharge of half as much again.
abbrev pub cleaning : Service
cleaning = record {
  id = "clean";
  tenant_id = "t1";
  archetype = configurable;
  name = "Cleaning";
  currency = "USD";
  base_price = pos 10_000;
  duration_minutes = 60;
  items = [];
  addons = record { id = "oven"; name = "Oven"; price = pos 2500 } ∷ [];
  questions =
      record {
        id = "extras";
        prompt = "Extras";
        kind = multi_choice;
        required = true;
        choices =
            record {
              id = "plan";
              label = "Plan";
              price_delta = negsuc 999;
              price_multiplier_bp = 10_000;
            }
            ∷ record {
              id = "pets";
              label = "Pets";
              price_delta = pos 0;
              price_multiplier_bp = 15_000;
            }
            ∷ [];
        unit_price = none;
        min_qty = none;
        max_qty = none;
      }
      ∷ [];
  rental = none;
  tax_rate_bp = 825;
  active = true;
}

abbrev pub choose : List String → List String → Selection
choose addons choices = record {
  service_id = "clean";
  item_quantities = [];
  addon_ids = addons;
  answers = ("extras", record { choice_ids = choices; quantity = none }) ∷ [];
  rental_periods = none;
}

abbrev pub cleaning_price : PriceBreakdown
cleaning_price = record {
  lines =
      line "base" "Cleaning" (pos 10_000) "USD" (pos 1)
      ∷ line "addon:oven" "Oven" (pos 2500) "USD" (pos 1)
      ∷ line "question:extras:plan" "Extras: Plan" (negsuc 999) "USD" (pos 1)
      ∷ line "multiplier:extras:pets" "Extras: Pets" (pos 5750) "USD" (pos 1)
      ∷ [];
  subtotal = money (pos 17_250) "USD";
  tax = money (pos 1423) "USD";
  deposit = money (pos 0) "USD";
  total = money (pos 18_673) "USD";
}

price_tests :
    (price exact cleaning (choose ("oven" ∷ []) ("pets" ∷ "plan" ∷ [])) ≡ ok cleaning_price)
    × (price exact cleaning (choose ("oven" ∷ []) ("plan" ∷ "pets" ∷ [])) ≡ ok cleaning_price)
    × (price exact cleaning (choose ("pool" ∷ []) ("pets" ∷ [])) ≡ err (unknown_addon "pool"))
    × (price exact cleaning (choose [] []) ≡ err (missing_answer "extras"))
unfolding pricing
price_tests = (refl, refl, refl, refl)

price-IsConsistent_example : IsConsistent exact cleaning cleaning_price
price-IsConsistent_example = price-IsConsistent exact cleaning _ price_tests.0

price-tax_nearest_example :
    (pos 1423 ≡ pos 1423)
    × (1423 * 10_000 ≤ 17_250 * 825 + 5000)
    × (17_250 * 825 < 1423 * 10_000 + 5000)
unfolding ◌*ℤ◌
price-tax_nearest_example = price-tax_nearest exact cleaning _ price_tests.0 (omega arith)

reordered_answer :
    (id : String)
    → ReorderedAnswer
        (get (choose [] ("pets" ∷ "plan" ∷ [])).answers id)
        (get (choose [] ("plan" ∷ "pets" ∷ [])).answers id)
unfolding get
reordered_answer id = elim (Bool-cases ("extras" == id)) [
  | inl e ↦ rw e (refl, Permᴰ.swap refl refl)
  | inr e ↦ rw e tt
]

reordered :
    ReorderedSelection
      (choose ("oven" ∷ []) ("pets" ∷ "plan" ∷ []))
      (choose ("oven" ∷ []) ("plan" ∷ "pets" ∷ []))
unfolding get
reordered = record {
  service_id = refl;
  item_quantities = refl;
  addon_ids = refl;
  rental_periods = refl;
  answered = refl;
  answers = reordered_answer;
}

price-same_example :
    (price exact cleaning (choose ("oven" ∷ []) ("pets" ∷ "plan" ∷ [])) ≡ ok cleaning_price)
    ↔ (price exact cleaning (choose ("oven" ∷ []) ("plan" ∷ "pets" ∷ [])) ≡ ok cleaning_price)
price-same_example = price-same exact cleaning _ _ reordered cleaning_price

additive-accepts_example :
    is_ok (additive cleaning (choose ("oven" ∷ []) ("plan" ∷ [])))
    ≡ accepts cleaning (choose ("oven" ∷ []) ("plan" ∷ []))
additive-accepts_example = additive-accepts cleaning (choose ("oven" ∷ []) ("plan" ∷ []))
