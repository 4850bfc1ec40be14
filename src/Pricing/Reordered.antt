-- ===== src/Pricing/Reordered.antt =====
-- packages/core/src/pricing.ts: neither the price of a selection nor its refusal depends on the order in
-- which the choices of its answers are listed.
use booking_lumin_checkout.Base.{
  ◌≡◌, refl, sym, ap, ap₂, ◌∙◌, String, Bool, true, false, not, ◌&&◌, ◌==◌, Option, none, some,
  List, [], ◌∷◌, any, all, is_empty, inl, inr, ◌↔◌, if◌then◌else◌,
}
use mathlib.Core.List.{Permᴰ}
use mathlib.Core.List.Permᴰ
use booking_lumin_checkout.Pricing.Permuted.{all_Perm, any_Perm, distinct_Perm}
use booking_lumin_checkout.Base.Dict.{Dict, get, keys}
use booking_lumin_checkout.Contracts.Service.{
  QuestionKind, single_choice, multi_choice, quantity, ServiceQuestion, Answer, Service, Selection,
  PriceBreakdown,
}
use booking_lumin_checkout.Pricing.Questions.{is_single}
use booking_lumin_checkout.Pricing.Acceptance.{
  distinct, choices_accepted, answer_accepted, accepts, additive-accepts,
}
use booking_lumin_checkout.Pricing.Order.{SameAnswer, SameSelection, additive-same}
use booking_lumin_checkout.Pricing.{additive, price}
use booking_lumin_checkout.Pricing.Rounding.{Doubles}
use booking_lumin_checkout.Base.Result.{ok, is_ok, >>=-elim, Result-cases}

is_empty_Perm : {xs ys : List String} → Permᴰ xs ys → is_empty xs ≡ is_empty ys
is_empty_Perm Permᴰ.nil = refl
is_empty_Perm (Permᴰ.cons e d) = refl
is_empty_Perm (Permᴰ.swap e f) = refl
is_empty_Perm (Permᴰ.trans d e) = is_empty_Perm d ∙ is_empty_Perm e

abbrev several : List String → Bool
several [] = false
several (x ∷ xs) = not (is_empty xs)

several_Perm : {xs ys : List String} → Permᴰ xs ys → several xs ≡ several ys
several_Perm Permᴰ.nil = refl
several_Perm (Permᴰ.cons e d) = ap not (is_empty_Perm d)
several_Perm (Permᴰ.swap e f) = refl
several_Perm (Permᴰ.trans d e) = several_Perm d ∙ several_Perm e

choices_by_test :
    (q : ServiceQuestion) (ids : List String)
    → choices_accepted q ids ≡ (
        if is_empty ids
        then not q.required
        else not (is_single q.kind && several ids)
          && (all (λ id. any (λ ch. ch.id == id) q.choices) ids && distinct [] ids))
choices_by_test q [] = refl
choices_by_test q (c ∷ cs) = refl

choices_Perm :
    (q : ServiceQuestion) {xs ys : List String}
    → Permᴰ xs ys
    → choices_accepted q xs ≡ choices_accepted q ys
choices_Perm q {xs} {ys} d =
    choices_by_test q xs
    ∙ rw
        (
          is_empty_Perm d,
          several_Perm d,
          all_Perm (λ id. any (λ ch. ch.id == id) q.choices) d,
          distinct_Perm d [],
        )
        (sym (choices_by_test q ys))

-- The same answer, with its choices in another order.
abbrev pub ReorderedAnswer : Option Answer → Option Answer → Type 0
ReorderedAnswer none none = Unit
ReorderedAnswer (some a) (some a') = (a.quantity ≡ a'.quantity) × Permᴰ a.choice_ids a'.choice_ids
ReorderedAnswer _ _ = ⊥

answer-Reordered :
    (k : QuestionKind) (q : ServiceQuestion) (a a' : Option Answer)
    → ReorderedAnswer a a'
    → answer_accepted k q a ≡ answer_accepted k q a'
answer-Reordered k q none (some a) h = absurd h
answer-Reordered k q (some a) none h = absurd h
answer-Reordered quantity q none none h = refl
answer-Reordered single_choice q none none h = refl
answer-Reordered multi_choice q none none h = refl
answer-Reordered quantity q (some a) (some a') (e, d) = rw (e, is_empty_Perm d) refl
answer-Reordered single_choice q (some a) (some a') (e, d) = rw (e, choices_Perm q d) refl
answer-Reordered multi_choice q (some a) (some a') (e, d) = rw (e, choices_Perm q d) refl

-- Two selections that differ only in the order in which the choices of their answers are listed.
pub record ReorderedSelection (s s' : Selection) : Type 0 where
  pub service_id : s.service_id ≡ s'.service_id
  pub item_quantities : s.item_quantities ≡ s'.item_quantities
  pub addon_ids : s.addon_ids ≡ s'.addon_ids
  pub rental_periods : s.rental_periods ≡ s'.rental_periods
  pub answered : keys s.answers ≡ keys s'.answers
  pub answers : (id : String) → ReorderedAnswer (get s.answers id) (get s'.answers id)

answers-Reordered :
    (answers answers' : Dict Answer) (qs : List ServiceQuestion)
    → ((id : String) → ReorderedAnswer (get answers id) (get answers' id))
    → all (λ q. answer_accepted q.kind q (get answers q.id)) qs
      ≡ all (λ q. answer_accepted q.kind q (get answers' q.id)) qs
answers-Reordered answers answers' [] h = refl
answers-Reordered answers answers' (q ∷ qs) h =
    ap₂ (λ a b. a && b) (answer-Reordered q.kind q _ _ (h q.id))
      (answers-Reordered answers answers' qs h)

accepts-Reordered :
    (service : Service) (s s' : Selection)
    → ReorderedSelection s s'
    → accepts service s ≡ accepts service s'
accepts-Reordered service s s' h =
    rw
      (
        h.service_id,
        h.item_quantities,
        h.addon_ids,
        h.rental_periods,
        h.answered,
        answers-Reordered s.answers s'.answers service.questions h.answers,
      )
      refl

Reordered-SameAnswer : (a a' : Option Answer) → ReorderedAnswer a a' → SameAnswer a a'
Reordered-SameAnswer none none h = (refl, λ id. refl)
Reordered-SameAnswer none (some a) h = absurd h
Reordered-SameAnswer (some a) none h = absurd h
Reordered-SameAnswer (some a) (some a') (e, d) = (e, λ id. any_Perm (λ s. s == id) d)

Reordered-SameSelection : (s s' : Selection) → ReorderedSelection s s' → SameSelection s s'
Reordered-SameSelection s s' h = record {
  service_id = h.service_id;
  item_quantities = h.item_quantities;
  addon_ids = h.addon_ids;
  rental_periods = h.rental_periods;
  answers = λ id. Reordered-SameAnswer _ _ (h.answers id);
}

Reordered-back : (a a' : Option Answer) → ReorderedAnswer a a' → ReorderedAnswer a' a
Reordered-back none none h = tt
Reordered-back none (some a) h = absurd h
Reordered-back (some a) none h = absurd h
Reordered-back (some a) (some a') (e, d) = (sym e, Permᴰ.symm d)

ReorderedSelection-back : (s s' : Selection) → ReorderedSelection s s' → ReorderedSelection s' s
ReorderedSelection-back s s' h = record {
  service_id = sym h.service_id;
  item_quantities = sym h.item_quantities;
  addon_ids = sym h.addon_ids;
  rental_periods = sym h.rental_periods;
  answered = sym h.answered;
  answers = λ id. Reordered-back _ _ (h.answers id);
}

price_on :
    (doubles : Doubles) (service : Service) (s s' : Selection)
    → ReorderedSelection s s'
    → (b : PriceBreakdown) → price doubles service s ≡ ok b
    → price doubles service s' ≡ ok b
unfolding price
price_on doubles service s s' same b h = >>=-elim (additive service s) _ h λ p hp h1.
    elim (Result-cases (additive service s')) [
      | inl (p', hp') ↦
          let alike : p ≡ p' =
            additive-same service s s' (Reordered-SameSelection s s' same) hp hp' in
          rw hp' (rw alike at h1)
      | inr (e, bad) ↦
          let refused : is_ok (additive service s') ≡ false = rw bad refl in
          let taken : is_ok (additive service s) ≡ true = rw hp refl in
          let fair =
            additive-accepts service s
            ∙ accepts-Reordered service s s' same
            ∙ sym (additive-accepts service s') in
          absurd (cc)
    ]

-- Two selections that differ only in the order in which the choices of their answers are listed have
-- the same prices: where one has a price, so has the other, and it is the same one; where one is
-- refused, so is the other.
pub price-same :
    (doubles : Doubles) (service : Service) (s s' : Selection)
    → ReorderedSelection s s'
    → (b : PriceBreakdown) → (price doubles service s ≡ ok b) ↔ (price doubles service s' ≡ ok b)
price-same doubles service s s' same b = (
  price_on doubles service s s' same b,
  price_on doubles service s' s (ReorderedSelection-back s s' same) b,
)
