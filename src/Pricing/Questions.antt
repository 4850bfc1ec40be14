-- ===== src/Pricing/Questions.antt =====
-- packages/core/src/pricing.ts: the answers to the questions of a service, their lines and the
-- multipliers that are applied to the subtotal later.
use booking_lumin_checkout.Base.{
  ℕ, String, Bool, true, false, not, ◌&&◌, ◌||◌, ◌==◌, Option, none, some, List, [], ◌∷◌, ◌++◌, any,
  is_empty, or_else, if◌then◌else◌, nat_eq,
}
use Prim.Native.String
use booking_lumin_checkout.Base.Int.{ℤ, pos, ltb_ℤ, eq_ℤ}
use booking_lumin_checkout.Base.Dict.{Dict, get}
use booking_lumin_checkout.Base.Result.{Result, ok, ◌>>=◌, ◌>>◌, throw_if}
use booking_lumin_checkout.Contracts.Service.{
  QuestionChoice, QuestionKind, single_choice, quantity, ServiceQuestion, Answer, PriceLine,
}
use booking_lumin_checkout.Pricing.Lines.{line}
use booking_lumin_checkout.Pricing.Refusals.{
  Reason, unknown_question, takes_quantity, takes_choices, missing_answer,
  invalid_question_quantity, question_out_of_range, not_exactly_one, duplicate_choice,
  unknown_choice,
}

abbrev pub default_quantity_max : ℤ
default_quantity_max = pos 10_000

pub record Multiplier : Type 0 where
  pub question : String
  pub choice_id : String
  pub bp : ℕ
  pub label : String

abbrev pub Effects : Type 0
Effects = List PriceLine × List Multiplier

unfoldable pub check_answers : List ServiceQuestion → List String → Result Reason (Unit {0})
check_answers questions [] = ok tt
check_answers questions (id ∷ ids) = do
  throw_if (not (any (λ q. q.id == id) questions)) (unknown_question id)
  check_answers questions ids

-- A question that was not answered.
abbrev pub unanswered : ServiceQuestion → Result Reason Effects
unanswered q = throw_if q.required (missing_answer q.id) >> ok ([], [])

answered_quantity : String → ServiceQuestion → ℤ → Result Reason Effects
answered_quantity currency q qty = do
  throw_if (ltb_ℤ qty (pos 0)) (invalid_question_quantity q.id)
  throw_if
      (ltb_ℤ qty (or_else q.min_qty (pos 0)) || ltb_ℤ (or_else q.max_qty default_quantity_max) qty)
      (question_out_of_range q.id)
  let unit_price = or_else q.unit_price (pos 0)
  ok (
    (if ltb_ℤ (pos 0) qty && not (eq_ℤ unit_price (pos 0))
        then line (String.◌++◌ "question:" q.id) q.prompt unit_price currency qty ∷ []
        else []),
    [],
  )

abbrev pub choice_ids_of : Option Answer → List String
choice_ids_of none = []
choice_ids_of (some a) = a.choice_ids

abbrev pub quantity_of : Option Answer → Option ℤ
quantity_of none = none
quantity_of (some a) = a.quantity

unfoldable pub quantity_effect : String → ServiceQuestion → Option Answer → Result Reason Effects
unfolding answered_quantity
quantity_effect currency q answer = do
  throw_if (not (is_empty (choice_ids_of answer))) (takes_quantity q.id)
  elim (quantity_of answer) [ none ↦ unanswered q | some qty ↦ answered_quantity currency q qty ]

-- The set `seenChoices` after the loop over the chosen ids.
unfoldable pub check_choices :
    ServiceQuestion → List String → List String → Result Reason (List String)
check_choices q seen [] = ok seen
check_choices q seen (c ∷ cs) = do
  throw_if (any (λ s. s == c) seen) (duplicate_choice c q.id)
  throw_if (not (any (λ ch. ch.id == c) q.choices)) (unknown_choice c q.id)
  check_choices q (c ∷ seen) cs

abbrev choice_label : ServiceQuestion → QuestionChoice → String
choice_label q c = String.◌++◌ q.prompt (String.◌++◌ ": " c.label)

-- The lines and the multipliers of the chosen ones among `choices`, in the order of `choices`.
unfoldable pub choice_lines : String → ServiceQuestion → List String → List QuestionChoice → Effects
choice_lines currency q seen [] = ([], [])
choice_lines currency q seen (c ∷ cs) =
    let (lines, multipliers) = choice_lines currency q seen cs in
    if not (any (λ s. s == c.id) seen) then (lines, multipliers) else (
      (if eq_ℤ c.price_delta (pos 0)
          then lines
          else line (String.◌++◌ "question:" (String.◌++◌ q.id (String.◌++◌ ":" c.id)))
              (choice_label q c) c.price_delta currency (pos 1)
            ∷ lines),
      (if nat_eq c.price_multiplier_bp 10_000
          then multipliers
          else record {
            question = q.id;
            choice_id = c.id;
            bp = c.price_multiplier_bp;
            label = choice_label q c;
          }
            ∷ multipliers),
    )

abbrev pub is_single : QuestionKind → Bool
is_single single_choice = true
is_single _ = false

abbrev pub is_some_quantity : Option ℤ → Bool
is_some_quantity none = false
is_some_quantity (some n) = true

unfoldable pub chosen_effect : String → ServiceQuestion → List String → Result Reason Effects
chosen_effect currency q [] = unanswered q
chosen_effect currency q (c ∷ cs) = do
  throw_if (is_single q.kind && not (is_empty cs)) (not_exactly_one q.id)
  seen ← check_choices q [] (c ∷ cs)
  ok (choice_lines currency q seen q.choices)

unfoldable pub choice_effect : String → ServiceQuestion → Option Answer → Result Reason Effects
unfolding chosen_effect
choice_effect currency q answer = do
  throw_if (is_some_quantity (quantity_of answer)) (takes_choices q.id)
  chosen_effect currency q (choice_ids_of answer)

unfoldable pub effect_by_kind :
    QuestionKind → String → ServiceQuestion → Option Answer → Result Reason Effects
effect_by_kind quantity = quantity_effect
effect_by_kind _ = choice_effect

-- One round of the loop over the questions.
unfoldable pub question_effect : String → ServiceQuestion → Option Answer → Result Reason Effects
unfolding effect_by_kind
question_effect currency q answer = effect_by_kind q.kind currency q answer

unfoldable pub question_effects :
    String → Dict Answer → List ServiceQuestion → Result Reason Effects
question_effects currency answers [] = ok ([], [])
question_effects currency answers (q ∷ qs) = do
  here ← question_effect currency q (get answers q.id)
  later ← question_effects currency answers qs
  ok (here.0 ++ later.0, here.1 ++ later.1)
