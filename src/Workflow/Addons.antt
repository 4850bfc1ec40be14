-- ===== src/Workflow/Addons.antt =====
-- packages/workflow/src/pricingEffects.ts: which add-ons a flow puts into the selection.
use booking_lumin_checkout.Base.{
  String, Bool, true, false, ◌||◌, ◌&&◌, ◌==◌, ◌≡◌, refl, sym, ap, inl, inr, Option, none, some,
  List, [], ◌∷◌, ◌++◌, any, arith, Bool-cases, eq_iff,
}
use booking_lumin_checkout.Base.Result.{Result, ok, err, >>=-elim, ok-injective}
use booking_lumin_checkout.Contracts.Service.{Selection}
use booking_lumin_checkout.Workflow.Conditions.{Answers, Fault}
use booking_lumin_checkout.Workflow.Steps.{
  WorkflowStep, WorkflowConfig, WorkflowPricingEffect, EffectTarget,
}
use booking_lumin_checkout.Workflow.Engine.{holds_or}
use booking_lumin_checkout.Workflow.Validate.{has, add}
use booking_lumin_checkout.Workflow.Effects.{
  FlowPricingEffects, add_all, fire, compute_step, compute_steps, compute_pricing_effects,
  apply_to_selection,
}

abbrev is_true : Result Fault Bool → Bool
is_true (ok b) = b
is_true (err e) = false

abbrev targets : String → EffectTarget → Bool
targets id (EffectTarget.addon k) = k == id
targets id _ = false

abbrev offers_by : String → Answers → Option WorkflowPricingEffect → Bool
offers_by id answers none = false
offers_by id answers (some eff) = is_true (holds_or true eff.when answers) && targets id eff.target

-- Whether the step has an effect that fires and whose target is the add-on.
abbrev pub offers : String → Answers → WorkflowStep → Bool
offers id answers step = offers_by id answers step.pricing_effect

has-append : (xs ys : List String) (y : String) → has (xs ++ ys) y ≡ (has xs y || has ys y)
has-append [] ys y = refl
has-append (x ∷ xs) ys y = ground (arith, has-append xs ys y)

eq-has : (xs : List String) (x y : String) → (x == y) ≡ true → has xs x ≡ has xs y
eq-has xs x y e = ap (λ z. has xs z) ((eq_iff x y).0 e)

has-add : (xs : List String) (x y : String) → has (add xs x) y ≡ (has xs y || (x == y))
unfolding add
has-add xs x y = elim (Bool-cases (has xs x)) [
  | inl e ↦ elim (Bool-cases (x == y)) [
    | inl f ↦ let g = eq-has xs x y f in ground arith
    | inr f ↦ ground arith
  ]
  | inr e ↦ let g = has-append xs (x ∷ []) y in ground arith
]

has-add_all : (xs ys : List String) (y : String) → has (add_all xs ys) y ≡ (has xs y || has ys y)
unfolding add_all
has-add_all xs [] y = ground arith
has-add_all xs (z ∷ ys) y =
    let e = has-add xs z y in let f = has-add_all (add xs z) ys y in ground arith

has-fire :
    (t : EffectTarget) (p : FlowPricingEffects) (id : String)
    → has (fire t p).addon_ids id ≡ (has p.addon_ids id || targets id t)
unfolding fire
has-fire (EffectTarget.addon k) p id = has-add p.addon_ids k id
has-fire (EffectTarget.item k q) p id = ground arith
has-fire (EffectTarget.choice k ids) p id = ground arith

has-compute_step :
    (step : WorkflowStep) (eff : Option WorkflowPricingEffect) (answers : Answers)
    (p : FlowPricingEffects) (id : String) {q : FlowPricingEffects}
    → compute_step step eff answers p ≡ ok q
    → has q.addon_ids id ≡ (has p.addon_ids id || offers_by id answers eff)
unfolding compute_step
has-compute_step step none answers p id h = rw (sym (ok-injective h)) (ground arith)
has-compute_step step (some eff) answers p id h =
    >>=-elim (holds_or true eff.when answers) _ h λ b e f. elim (Bool-cases b) [
      | inl t ↦ let g = ok-injective (rw t at f) in rw (sym g, e, t) (has-fire eff.target p id)
      | inr n ↦ let g = ok-injective (rw n at f) in rw (sym g, e, n) (ground arith)
    ]

has-compute_steps :
    (steps : List WorkflowStep) (answers : Answers) (p : FlowPricingEffects) (id : String)
    {q : FlowPricingEffects}
    → compute_steps steps answers p ≡ ok q
    → has q.addon_ids id ≡ (has p.addon_ids id || any (offers id answers) steps)
unfolding compute_steps
has-compute_steps [] answers p id h = rw (sym (ok-injective h)) (ground arith)
has-compute_steps (step ∷ steps) answers p id h =
    >>=-elim (compute_step step step.pricing_effect answers p) _ h λ next e f.
      let g = has-compute_step step step.pricing_effect answers p id e in
      let k = has-compute_steps steps answers next id f in ground arith

-- Where the effects of a flow are computed and applied to a selection, an add-on is in the selection
-- that is priced exactly if the customer had chosen it or a step of the flow has an effect on it that
-- has no condition or one that holds of the answers.
pub apply_to_selection-has :
    (config : WorkflowConfig) (answers : Answers) (base : Selection) (id : String)
    {patch : FlowPricingEffects}
    → compute_pricing_effects config answers ≡ ok patch
    → has (apply_to_selection base patch).addon_ids id
      ≡ (has base.addon_ids id || any (offers id answers) config.steps)
unfolding compute_pricing_effects apply_to_selection
apply_to_selection-has config answers base id {patch} h =
    let e = has-add_all base.addon_ids patch.addon_ids id in
    let f = has-compute_steps config.steps answers _ id h in ground arith
