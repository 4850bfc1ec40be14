-- ===== src/Pricing/Acceptance.antt =====
-- Which selections packages/core/src/pricing.ts accepts, apart from amounts that grow too large or
-- negative: an independent description, as one Boolean test for each part of a selection.
use booking_lumin_checkout.Base.{
  ◌≡◌, refl, ap, ap₂, ◌∙◌, String, Bool, true, false, not, ◌&&◌, ◌||◌, ◌==◌, Option, none, some,
  List, [], ◌∷◌, arith, any, all, is_empty, or_else, is_some,
}
use booking_lumin_checkout.Base.Int.{ℤ, pos, leb_ℤ, ltb_ℤ}
use booking_lumin_checkout.Pricing.Refusals.{Reason}
use booking_lumin_checkout.Base.Dict.{Dict, get, keys}
use booking_lumin_checkout.Base.Result.{
  Result, ok, ◌>>=◌, ◌>>◌, throw_if, is_ok, is_ok-bind, ok-injective,
}
use booking_lumin_checkout.Contracts.Service.{
  ServiceItem, ServiceAddon, RentalConfig, QuestionKind, single_choice, multi_choice, quantity,
  ServiceQuestion, Answer, Service, Selection,
}
use booking_lumin_checkout.Pricing.{additive}
use booking_lumin_checkout.Pricing.Lines.{
  is_rental, terms_of, rental_terms, check_items, item_lines, addon_by_id, addon_lines,
  rental_effect,
}
use booking_lumin_checkout.Pricing.Questions.{
  default_quantity_max, check_answers, quantity_effect, check_choices, chosen_effect,
  effect_by_kind, choice_effect, question_effect, is_some_quantity, question_effects, is_single,
}

abbrev pub within : ℤ → ℤ → ℤ → Bool
within lo n hi = leb_ℤ lo n && leb_ℤ n hi

abbrev pub distinct : List String → List String → Bool
distinct seen [] = true
distinct seen (id ∷ ids) = not (any (λ s. s == id) seen) && distinct (id ∷ seen) ids

-- An item asks for none or more, within its range.
abbrev pub item_accepted : Dict ℤ → ServiceItem → Bool
item_accepted quantities item =
    let qty = or_else (get quantities item.id) (pos 0) in
    leb_ℤ (pos 0) qty && within item.min_qty qty item.max_qty

abbrev pub amount_accepted : ServiceQuestion → Option ℤ → Bool
amount_accepted q none = not q.required
amount_accepted q (some n) =
    leb_ℤ (pos 0) n && within (or_else q.min_qty (pos 0)) n (or_else q.max_qty default_quantity_max)

abbrev pub choices_accepted : ServiceQuestion → List String → Bool
choices_accepted q [] = not q.required
choices_accepted q (c ∷ cs) =
    not (is_single q.kind && not (is_empty cs))
    && (all (λ id. any (λ ch. ch.id == id) q.choices) (c ∷ cs) && distinct [] (c ∷ cs))

abbrev pub answer_accepted : QuestionKind → ServiceQuestion → Option Answer → Bool
answer_accepted quantity q none = not q.required
answer_accepted quantity q (some a) = is_empty a.choice_ids && amount_accepted q a.quantity
answer_accepted _ q none = not q.required
answer_accepted _ q (some a) = not (is_some a.quantity) && choices_accepted q a.choice_ids

abbrev pub rental_accepted : Bool → Option RentalConfig → Option ℤ → Bool
rental_accepted true (some config) (some n) = within config.min_periods n config.max_periods
rental_accepted true _ _ = false
rental_accepted false config periods = not (is_some periods)

module _ (service : Service) (selection : Selection) where
  abbrev pub items_known : Bool
  items_known = all (λ id. any (λ i. i.id == id) service.items) (keys selection.item_quantities)

  abbrev pub items_accepted : Bool
  items_accepted = all (item_accepted selection.item_quantities) service.items

  abbrev pub addons_accepted : Bool
  addons_accepted =
      all (λ id. any (λ a. a.id == id) service.addons) selection.addon_ids
      && distinct [] selection.addon_ids

  abbrev pub answers_known : Bool
  answers_known = all (λ id. any (λ q. q.id == id) service.questions) (keys selection.answers)

  abbrev pub answers_accepted : Bool
  answers_accepted =
      all (λ q. answer_accepted q.kind q (get selection.answers q.id)) service.questions

  abbrev pub accepts : Bool
  accepts =
      (selection.service_id == service.id)
      && (rental_accepted (is_rental service.archetype) service.rental selection.rental_periods
          && (items_known
              && (items_accepted && (addons_accepted && (answers_known && answers_accepted)))))

not-not : (b : Bool) → not (not b) ≡ b
not-not b = ground arith

and_true : (b : Bool) → (b && true) ≡ b
and_true b = ground arith

check_items-accepted :
    (items : List ServiceItem) (ids : List String)
    → is_ok (check_items items ids) ≡ all (λ id. any (λ i. i.id == id) items) ids
unfolding check_items
check_items-accepted items [] = refl
check_items-accepted items (id ∷ ids) = ground (arith, check_items-accepted items ids)

-- The two guards on a quantity, whatever follows them.
quantity_guards :
    (n lo hi : ℤ) (e e' : Reason) {A : Type 0} (m : Result Reason A)
    → is_ok (throw_if (ltb_ℤ n (pos 0)) e >> (throw_if (ltb_ℤ n lo || ltb_ℤ hi n) e' >> m))
      ≡ ((leb_ℤ (pos 0) n && within lo n hi) && is_ok m)
quantity_guards n lo hi e e' m = ground arith

item_lines-accepted :
    (currency : String) (quantities : Dict ℤ) (items : List ServiceItem)
    → is_ok (item_lines currency quantities items) ≡ all (item_accepted quantities) items
unfolding item_lines
item_lines-accepted currency quantities [] = refl
item_lines-accepted currency quantities (item ∷ items) =
    quantity_guards (or_else (get quantities item.id) (pos 0)) item.min_qty item.max_qty _ _ _
    ∙ ap (λ b. item_accepted quantities item && b)
        (is_ok-bind (item_lines currency quantities items) _ true (λ _ _. refl)
          ∙ and_true _
          ∙ item_lines-accepted currency quantities items)

addon_by_id-known :
    (addons : List ServiceAddon) (id : String)
    → is_some (addon_by_id addons id) ≡ any (λ a. a.id == id) addons
unfolding addon_by_id
addon_by_id-known [] id = refl
addon_by_id-known (a ∷ addons) id = ground (arith, addon_by_id-known addons id)

addon_lines-accepted :
    (currency : String) (addons : List ServiceAddon) (seen ids : List String)
    → is_ok (addon_lines currency addons seen ids)
      ≡ (all (λ id. any (λ a. a.id == id) addons) ids && distinct seen ids)
unfolding addon_lines
addon_lines-accepted currency addons seen [] = refl
addon_lines-accepted currency addons seen (id ∷ ids) =
    ground
      (arith, addon_by_id-known addons id, addon_lines-accepted currency addons (id ∷ seen) ids)

check_answers-accepted :
    (questions : List ServiceQuestion) (ids : List String)
    → is_ok (check_answers questions ids) ≡ all (λ id. any (λ q. q.id == id) questions) ids
unfolding check_answers
check_answers-accepted questions [] = refl
check_answers-accepted questions (id ∷ ids) = ground (arith, check_answers-accepted questions ids)

check_choices-accepted :
    (q : ServiceQuestion) (seen ids : List String)
    → is_ok (check_choices q seen ids)
      ≡ (all (λ id. any (λ ch. ch.id == id) q.choices) ids && distinct seen ids)
unfolding check_choices
check_choices-accepted q seen [] = refl
check_choices-accepted q seen (id ∷ ids) = ground (arith, check_choices-accepted q (id ∷ seen) ids)

quantity_effect-accepted :
    (currency : String) (q : ServiceQuestion) (answer : Option Answer)
    → is_ok (quantity_effect currency q answer) ≡ answer_accepted quantity q answer
unfolding quantity_effect
quantity_effect-accepted currency q answer = ground arith

throw_accepted :
    (test test' : Bool) (e : Reason) {A : Type 0} (m : Result Reason A)
    → test ≡ test'
    → is_ok (throw_if test e >> m) ≡ (not test' && is_ok m)
throw_accepted true test' e m h = rw (← h)
throw_accepted false test' e m h = rw (← h)

chosen_effect-accepted :
    (currency : String) (q : ServiceQuestion) (ids : List String)
    → is_ok (chosen_effect currency q ids) ≡ choices_accepted q ids
unfolding chosen_effect
chosen_effect-accepted currency q [] = ground arith
chosen_effect-accepted currency q (c ∷ cs) =
    throw_accepted (is_single q.kind && not (is_empty cs)) _ _ _ refl
    ∙ ap (λ b. not (is_single q.kind && not (is_empty cs)) && b)
        (is_ok-bind (check_choices q [] (c ∷ cs)) _ true (λ _ _. refl)
          ∙ and_true _
          ∙ check_choices-accepted q [] (c ∷ cs))

choice_effect-accepted :
    (currency : String) (q : ServiceQuestion) (answer : Option Answer)
    → is_ok (choice_effect currency q answer) ≡ answer_accepted single_choice q answer
unfolding choice_effect
choice_effect-accepted currency q none = ground arith
choice_effect-accepted currency q (some a) =
    throw_accepted (is_some_quantity a.quantity) (is_some a.quantity) _ _ (ground arith)
    ∙ ap (λ b. not (is_some a.quantity) && b) (chosen_effect-accepted currency q a.choice_ids)

question_effect-accepted :
    (currency : String) (q : ServiceQuestion) (answer : Option Answer)
    → is_ok (question_effect currency q answer) ≡ answer_accepted q.kind q answer
unfolding question_effect
question_effect-accepted currency q answer = go q.kind
  where
    go :
        (k : QuestionKind) → is_ok (effect_by_kind k currency q answer) ≡ answer_accepted k q answer
    go quantity = quantity_effect-accepted currency q answer
    go single_choice = choice_effect-accepted currency q answer
    go multi_choice = choice_effect-accepted currency q answer

question_effects-accepted :
    (currency : String) (answers : Dict Answer) (questions : List ServiceQuestion)
    → is_ok (question_effects currency answers questions)
      ≡ all (λ q. answer_accepted q.kind q (get answers q.id)) questions
unfolding question_effects
question_effects-accepted currency answers [] = refl
question_effects-accepted currency answers (q ∷ qs) =
    is_ok-bind (question_effect currency q (get answers q.id)) _ _ (λ here _.
      is_ok-bind (question_effects currency answers qs) _ true (λ _ _. refl)
      ∙ and_true _
      ∙ question_effects-accepted currency answers qs)
    ∙ ap (λ b. b && all (λ q'. answer_accepted q'.kind q' (get answers q'.id)) qs)
        (question_effect-accepted currency q (get answers q.id))

rental_effect-accepted :
    (service : Service) (r : Bool) (config : Option RentalConfig) (periods : Option ℤ)
    (terms : Option (RentalConfig × ℤ))
    → terms_of r config periods ≡ ok terms
    → is_ok (rental_effect service terms) ≡ rental_accepted r config periods
unfolding terms_of rental_effect
rental_effect-accepted service true none periods terms h = absurd (cc)
rental_effect-accepted service true (some config) none terms h = absurd (cc)
rental_effect-accepted service true (some config) (some n) terms h =
    rw (← ok-injective h) (ground arith)
rental_effect-accepted service false config none terms h = rw (← ok-injective h)
rental_effect-accepted service false config (some n) terms h = absurd (cc)

terms_of-accepted :
    (r : Bool) (config : Option RentalConfig) (periods : Option ℤ)
    → (is_ok (terms_of r config periods) && rental_accepted r config periods)
      ≡ rental_accepted r config periods
unfolding terms_of
terms_of-accepted true none periods = refl
terms_of-accepted true (some config) none = refl
terms_of-accepted true (some config) (some n) = refl
terms_of-accepted false config none = refl
terms_of-accepted false config (some n) = refl

-- `is_ok` of a chain, each step with its own test.
step :
    {A B : Type 0} (m : Result Reason A) (f : A → Result Reason B) (c d : Bool)
    → is_ok m ≡ c
    → ((a : A) → m ≡ ok a → is_ok (f a) ≡ d)
    → is_ok (m >>= f) ≡ (c && d)
step m f c d h k = rw (← h) (is_ok-bind m f d k)

swap_tests :
    (a b c d e f g : Bool)
    → (a && b) ≡ b
    → (a && (c && (d && (e && (f && (g && (b && true))))))) ≡ (b && (c && (d && (e && (f && g)))))
swap_tests a b c d e f g h = ground arith

-- The lines of a price are built exactly for the selections that the description accepts: the
-- service's own, with known items, addons, questions and choices, none repeated, every quantity in
-- its range, every required question answered in its own way, and rental periods in range for a
-- rental service and absent for any other.
pub additive-accepts :
    (service : Service) (selection : Selection)
    → is_ok (additive service selection) ≡ accepts service selection
unfolding additive rental_terms
additive-accepts service selection =
    let rental =
      rental_accepted (is_rental service.archetype) service.rental selection.rental_periods in
    throw_accepted (not (selection.service_id == service.id)) _ _ _ refl
    ∙ ap₂ (λ a b. a && b) (not-not _)
        (step (terms_of (is_rental service.archetype) service.rental selection.rental_periods) _ _ _
            refl
            (λ terms termed.
              step (check_items service.items (keys selection.item_quantities)) _ _ _
                (check_items-accepted _ _)
                (λ _ _.
                  step (item_lines service.currency selection.item_quantities service.items) _ _ _
                    (item_lines-accepted _ _ _)
                    (λ _ _.
                      step (addon_lines service.currency service.addons [] selection.addon_ids) _ _
                        _ (addon_lines-accepted _ _ _ _)
                        (λ _ _.
                          step (check_answers service.questions (keys selection.answers)) _ _ _
                            (check_answers-accepted _ _)
                            (λ _ _.
                              step
                                (question_effects service.currency selection.answers
                                  service.questions)
                                _ _ _ (question_effects-accepted _ _ _)
                                (λ _ _.
                                  step (rental_effect service terms) _ _ true
                                    (rental_effect-accepted service _ _ _ terms termed)
                                    (λ _ _. refl)))))))
          ∙ swap_tests _ rental (items_known service selection) (items_accepted service selection)
              (addons_accepted service selection) (answers_known service selection)
              (answers_accepted service selection)
              (terms_of-accepted _ service.rental selection.rental_periods))
