-- ===== src/Pricing/Order.antt =====
-- packages/core/src/pricing.ts: the price does not depend on the order in which a customer's choices
-- arrive, since the lines follow the order of the service configuration.
use booking_lumin_checkout.Base.{
  ◌≡◌, refl, sym, ap, ◌∙◌, String, Bool, false, ◌||◌, ◌==◌, Option, List, [], ◌∷◌, arith, any, not,
  is_empty, ◌&&◌, ◌++◌, ap₂, eq_iff,
}
use booking_lumin_checkout.Base.Dict.{Dict, get, keys}
use booking_lumin_checkout.Base.Result.{Result, ok, >>=-elim, throw_if-elim, ok-injective}
use booking_lumin_checkout.Contracts.Service.{
  QuestionChoice, QuestionKind, single_choice, multi_choice, quantity, ServiceQuestion, Answer,
  Selection, Service,
}
use booking_lumin_checkout.Pricing.{Additive, additive}
use booking_lumin_checkout.Pricing.Refusals.{Reason}
use booking_lumin_checkout.Pricing.Lines.{
  rental_terms, base_lines, check_items, item_lines, addon_lines, rental_effect,
}
use booking_lumin_checkout.Pricing.Questions.{
  check_answers, Effects, quantity_of, choice_ids_of, is_single, is_some_quantity, quantity_effect,
  effect_by_kind, question_effect, question_effects, check_choices, choice_lines, chosen_effect,
  choice_effect,
}

abbrev pub among : List String → String → Bool
among ids id = any (λ s. s == id) ids

-- The same choices, in any order and as often.
abbrev pub SameChoices : List String → List String → Type 0
SameChoices xs ys = (id : String) → among xs id ≡ among ys id

choice_lines-same :
    (currency : String) (q : ServiceQuestion) (seen seen' : List String)
    (choices : List QuestionChoice)
    → SameChoices seen seen'
    → choice_lines currency q seen choices ≡ choice_lines currency q seen' choices
unfolding choice_lines
choice_lines-same currency q seen seen' [] h = refl
choice_lines-same currency q seen seen' (c ∷ cs) h =
    rw (h c.id, choice_lines-same currency q seen seen' cs h)

-- What the loop has seen at its end: what it had seen before, and the ids.
check_choices-among :
    (q : ServiceQuestion) (seen ids : List String) {r : List String} (id : String)
    → check_choices q seen ids ≡ ok r
    → among r id ≡ (among ids id || among seen id)
unfolding check_choices
check_choices-among q seen [] id h = rw (← ok-injective h)
check_choices-among q seen (c ∷ cs) {r} id h = throw_if-elim (any (λ s. s == c) seen) _ _ h λ _ h1.
    throw_if-elim (not (any (λ ch. ch.id == c) q.choices)) _ _ h1 λ _ h2.
      check_choices-among q (c ∷ seen) cs id h2 ∙ swap_or (c == id) (among cs id) (among seen id)
  where
    swap_or : (a b d : Bool) → (b || (a || d)) ≡ ((a || b) || d)
    swap_or a b d = ground arith

chosen_effect-same :
    (currency : String) (q : ServiceQuestion) (ids ids' : List String) {e e' : Effects}
    → SameChoices ids ids'
    → chosen_effect currency q ids ≡ ok e
    → chosen_effect currency q ids' ≡ ok e'
    → e ≡ e'
unfolding chosen_effect
chosen_effect-same currency q [] [] same h h' = ok-injective (sym h ∙ h')
chosen_effect-same currency q [] (c ∷ cs) same h h' = absurd (ground (arith, same c, eq_iff c c))
chosen_effect-same currency q (c ∷ cs) [] same h h' = absurd (ground (arith, same c, eq_iff c c))
chosen_effect-same currency q (c ∷ cs) (d ∷ ds) same h h' =
    throw_if-elim (is_single q.kind && not (is_empty cs)) _ _ h λ _ h1.
      throw_if-elim (is_single q.kind && not (is_empty ds)) _ _ h' λ _ h1'.
        >>=-elim (check_choices q [] (c ∷ cs)) _ h1 λ seen checked h2.
          >>=-elim (check_choices q [] (d ∷ ds)) _ h1' λ seen' checked' h2'.
            sym (ok-injective h2)
            ∙ choice_lines-same currency q seen seen' q.choices (λ id.
              check_choices-among q [] (c ∷ cs) id checked
              ∙ ap (λ b. b || false) (same id)
              ∙ sym (check_choices-among q [] (d ∷ ds) id checked'))
            ∙ ok-injective h2'

-- Two answers with the same quantity and the same choices.
abbrev pub SameAnswer : Option Answer → Option Answer → Type 0
SameAnswer a a' =
    (quantity_of a ≡ quantity_of a') × SameChoices (choice_ids_of a) (choice_ids_of a')

quantity_effect-same :
    (currency : String) (q : ServiceQuestion) (a a' : Option Answer) {e e' : Effects}
    → SameAnswer a a'
    → quantity_effect currency q a ≡ ok e
    → quantity_effect currency q a' ≡ ok e'
    → e ≡ e'
unfolding quantity_effect
quantity_effect-same currency q a a' same h h' =
    throw_if-elim (not (is_empty (choice_ids_of a))) _ _ h λ _ h1.
      throw_if-elim (not (is_empty (choice_ids_of a'))) _ _ h'
        λ _ h1'. ok-injective (sym (rw same.0 at h1) ∙ h1')

choice_effect-same :
    (currency : String) (q : ServiceQuestion) (a a' : Option Answer) {e e' : Effects}
    → SameAnswer a a'
    → choice_effect currency q a ≡ ok e
    → choice_effect currency q a' ≡ ok e'
    → e ≡ e'
unfolding choice_effect
choice_effect-same currency q a a' same h h' =
    throw_if-elim (is_some_quantity (quantity_of a)) _ _ h λ _ h1.
      throw_if-elim (is_some_quantity (quantity_of a')) _ _ h'
        λ _ h1'. chosen_effect-same currency q (choice_ids_of a) (choice_ids_of a') same.1 h1 h1'

question_effect-same :
    (k : QuestionKind) (currency : String) (q : ServiceQuestion) (a a' : Option Answer)
    {e e' : Effects}
    → SameAnswer a a'
    → effect_by_kind k currency q a ≡ ok e
    → effect_by_kind k currency q a' ≡ ok e'
    → e ≡ e'
unfolding effect_by_kind
question_effect-same quantity = quantity_effect-same
question_effect-same single_choice = choice_effect-same
question_effect-same multi_choice = choice_effect-same

question_effects-same :
    (currency : String) (answers answers' : Dict Answer) (qs : List ServiceQuestion)
    {e e' : Effects}
    → ((id : String) → SameAnswer (get answers id) (get answers' id))
    → question_effects currency answers qs ≡ ok e
    → question_effects currency answers' qs ≡ ok e'
    → e ≡ e'
unfolding question_effects question_effect
question_effects-same currency answers answers' [] same h h' = ok-injective (sym h ∙ h')
question_effects-same currency answers answers' (q ∷ qs) same h h' =
    >>=-elim (question_effect currency q (get answers q.id)) _ h λ x hx h1.
      >>=-elim (question_effect currency q (get answers' q.id)) _ h' λ x' hx' h1'.
        >>=-elim (question_effects currency answers qs) _ h1 λ y hy h2.
          >>=-elim (question_effects currency answers' qs) _ h1' λ y' hy' h2'.
            let here = question_effect-same q.kind currency q _ _ (same q.id) hx hx' in
            let later = question_effects-same currency answers answers' qs same hy hy' in
            sym (ok-injective h2)
            ∙ ap₂ (λ (u v : Effects). (u.0 ++ v.0, u.1 ++ v.1)) here later
            ∙ ok-injective h2'

-- Two selections that differ only in the order of choices and answers.
pub record SameSelection (s s' : Selection) : Type 0 where
  pub service_id : s.service_id ≡ s'.service_id
  pub item_quantities : s.item_quantities ≡ s'.item_quantities
  pub addon_ids : s.addon_ids ≡ s'.addon_ids
  pub rental_periods : s.rental_periods ≡ s'.rental_periods
  pub answers : (id : String) → SameAnswer (get s.answers id) (get s'.answers id)

-- Two returns of equal computations are equal.
returns-same {ℓ} :
    {A : Type ℓ} {m m' : Result Reason A} {a a' : A} → m ≡ m' → m ≡ ok a → m' ≡ ok a' → a ≡ a'
returns-same e h h' = ok-injective (sym h ∙ e ∙ h')

module _ (service : Service) (s s' : Selection) (same : SameSelection s s') where
  pub additive-same :
      {p p' : Additive} → additive service s ≡ ok p → additive service s' ≡ ok p' → p ≡ p'
  unfolding additive rental_terms
  additive-same h h' = throw_if-elim (not (s.service_id == service.id)) _ _ h λ _ h1.
      throw_if-elim (not (s'.service_id == service.id)) _ _ h' λ _ h1'.
        >>=-elim (rental_terms service s) _ h1 λ t ht h2.
          >>=-elim (rental_terms service s') _ h1' λ t' ht' h2'.
            >>=-elim (check_items service.items (keys s.item_quantities)) _ h2 λ _ _ h3.
              >>=-elim (check_items service.items (keys s'.item_quantities)) _ h2' λ _ _ h3'.
                >>=-elim (item_lines service.currency s.item_quantities service.items) _ h3
                  λ i hi h4.
                    >>=-elim (item_lines service.currency s'.item_quantities service.items) _ h3'
                      λ i' hi' h4'.
                        >>=-elim (addon_lines service.currency service.addons [] s.addon_ids) _ h4
                          λ a ha h5.
                            >>=-elim (addon_lines service.currency service.addons [] s'.addon_ids) _
                              h4'
                              λ a' ha' h5'.
                                >>=-elim (check_answers service.questions (keys s.answers)) _ h5
                                  λ _ _ h6.
                                    >>=-elim (check_answers service.questions (keys s'.answers)) _
                                      h5'
                                      λ _ _ h6'.
                                        >>=-elim
                                          (question_effects service.currency s.answers
                                            service.questions)
                                          _ h6
                                          λ q hq h7.
                                            >>=-elim
                                              (question_effects service.currency s'.answers
                                                service.questions)
                                              _ h6'
                                              λ q' hq' h7'.
                                                >>=-elim (rental_effect service t) _ h7 λ r hr h8.
                                                  >>=-elim (rental_effect service t') _ h7'
                                                    λ r' hr' h8'.
                                                      let terms : t ≡ t' =
                                                        returns-same (rw same.rental_periods) ht
                                                          ht' in
                                                      let items : i ≡ i' =
                                                        returns-same (rw same.item_quantities) hi
                                                          hi' in
                                                      let addons : a ≡ a' =
                                                        returns-same (rw same.addon_ids) ha ha' in
                                                      let questions : q ≡ q' =
                                                        question_effects-same service.currency
                                                          s.answers s'.answers service.questions
                                                          same.answers hq hq' in
                                                      let rentals : r ≡ r' =
                                                        returns-same (rw terms) hr hr' in
                                                      sym (ok-injective h8)
                                                      ∙ (λ j. record {
                                                        lines =
                                                            base_lines service
                                                            ++ (items j
                                                            ++ (addons j
                                                            ++ ((questions j).0 ++ (rentals j).0)));
                                                        multipliers = (questions j).1;
                                                        deposit = (rentals j).1;
                                                      })
                                                      ∙ ok-injective h8'
