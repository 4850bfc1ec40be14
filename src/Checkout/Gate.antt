-- ===== src/Checkout/Gate.antt =====
-- apps/checkout/src/state/validation.ts against packages/core/src/pricing.ts: the wizard's check of a
-- selection and the pricing engine's.
use booking_lumin_checkout.Base.{
  String, true, false, not, ◌&&◌, ◌≡◌, refl, sym, ◌∙◌, Option, none, some, List, [], ◌∷◌, is_empty,
  all, and-cases, arith, if◌then◌else◌,
}
use booking_lumin_checkout.Base.Int.{ℤ, pos, eq_ℤ}
use booking_lumin_checkout.Base.Dict.{Dict, get}
use booking_lumin_checkout.Base.Result.{is_ok}
use booking_lumin_checkout.Contracts.Service.{
  ServiceItem, QuestionKind, single_choice, multi_choice, quantity, ServiceQuestion, Answer,
  Service, Selection,
}
use booking_lumin_checkout.Pricing.{additive}
use booking_lumin_checkout.Pricing.Acceptance.{
  item_accepted, answer_accepted, items_accepted, answers_accepted, accepts, additive-accepts,
}
use booking_lumin_checkout.Checkout.{
  item_issues, total_quantity, cart_issues, is_unanswered, question_issues, validate_selection,
}

accepted_items :
    (quantities : Dict ℤ) (items : List ServiceItem)
    → all (item_accepted quantities) items ≡ true
    → item_issues quantities items ≡ []
unfolding item_issues
accepted_items quantities [] h = refl
accepted_items quantities (item ∷ items) h =
    let (here, later) =
      and-cases (item_accepted quantities item) (all (item_accepted quantities) items) h in
    let rest = accepted_items quantities items later in ground arith

accepted_answer :
    (kind : QuestionKind) (q : ServiceQuestion) (answer : Option Answer)
    → answer_accepted kind q answer ≡ true
    → is_unanswered kind q answer ≡ false
unfolding is_unanswered
accepted_answer quantity q none h = ground arith
accepted_answer quantity q (some a) h = ground arith
accepted_answer single_choice q none h = ground arith
accepted_answer single_choice q (some a) h = ground arith
accepted_answer multi_choice q none h = ground arith
accepted_answer multi_choice q (some a) h = ground arith

accepted_answers :
    (hidden : List String) (answers : Dict Answer) (questions : List ServiceQuestion)
    → all (λ q. answer_accepted q.kind q (get answers q.id)) questions ≡ true
    → question_issues hidden answers questions ≡ []
unfolding question_issues
accepted_answers hidden answers [] h = refl
accepted_answers hidden answers (q ∷ questions) h =
    let (here, later) =
      and-cases (answer_accepted q.kind q (get answers q.id))
        (all (λ q. answer_accepted q.kind q (get answers q.id)) questions) h in
    let rest = accepted_answers hidden answers questions later in
    let answered = accepted_answer q.kind q (get answers q.id) here in ground arith

accepts-parts :
    (s : Service) (selection : Selection)
    → accepts s selection ≡ true
    → (items_accepted s selection ≡ true) × (answers_accepted s selection ≡ true)
accepts-parts s selection h = (ground arith, ground arith)

-- What the wizard reports of a selection for which the pricing engine builds its lines: one issue, on
-- the items, if the service has items and the quantities chosen of them add up to 0, and otherwise
-- nothing, whatever questions the flow hides.
pub validate_selection-accepted :
    (s : Service) (selection : Selection) (hidden : List String)
    → is_ok (additive s selection) ≡ true
    → validate_selection s selection hidden ≡ (
        if not (is_empty s.items) && eq_ℤ (total_quantity selection.item_quantities s.items) (pos 0)
        then "items" ∷ []
        else [])
unfolding validate_selection cart_issues
validate_selection-accepted s selection hidden h =
    let (items, answers) = accepts-parts s selection (sym (additive-accepts s selection) ∙ h) in
    rw
      (
        accepted_items selection.item_quantities s.items items,
        accepted_answers hidden selection.answers s.questions answers,
      )
      (ground arith)
