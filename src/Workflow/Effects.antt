-- ===== src/Workflow/Effects.antt =====
-- packages/workflow/src/engine.ts and pricingEffects.ts: the answers that conditions read from a
-- selection, and what a flow adds to the selection that is priced.
use booking_lumin_checkout.Base.{
  String, Bool, true, false, ◌==◌, Option, none, some, List, [], ◌∷◌, ◌++◌, any, or_else,
  if◌then◌else◌,
}
use booking_lumin_checkout.Base.Int.{ℤ}
use booking_lumin_checkout.Base.Dict.{Dict, get, put}
use booking_lumin_checkout.Base.Result.{Result, ok, ◌>>=◌}
use booking_lumin_checkout.Contracts.Service.{Selection, Answer}
use booking_lumin_checkout.Workflow.Conditions.{Scalar, Value, Answers, Fault}
use booking_lumin_checkout.Workflow.Steps.{
  WorkflowStep, WorkflowConfig, WorkflowPricingEffect, EffectTarget,
}
use booking_lumin_checkout.Workflow.Engine.{holds_or}
use booking_lumin_checkout.Workflow.Validate.{add}

abbrev pub answer_value : Answer → Value
answer_value a = elim (a.quantity) [
  | some n ↦ Value.scalar (Scalar.number n)
  | none ↦ chosen a.choice_ids
]
  where
    chosen : List String → Value
    chosen (id ∷ []) = Value.scalar (Scalar.text id)
    chosen ids = Value.many (booking_lumin_checkout.Base.map (λ id. Scalar.text id) ids)

unfoldable pub answers_from_selection : Dict Answer → Answers
answers_from_selection [] = []
answers_from_selection ((key, a) ∷ rest) = (key, answer_value a) ∷ answers_from_selection rest

pub record AppliedEffect : Type 0 where
  pub step_key : String
  pub target : EffectTarget

pub record FlowPricingEffects : Type 0 where
  pub effects : List AppliedEffect
  pub addon_ids : List String
  pub item_quantities : Dict ℤ
  pub answers : Dict Answer

abbrev pub no_effects : FlowPricingEffects
no_effects = record { effects = []; addon_ids = []; item_quantities = []; answers = [] }

-- Each id that is not there yet is pushed.
unfoldable pub add_all : List String → List String → List String
unfolding add
add_all xs [] = xs
add_all xs (y ∷ ys) = add_all (add xs y) ys

abbrev pub choices_at : Dict Answer → String → List String
choices_at answers key = elim (get answers key) [ none ↦ [] | some a ↦ a.choice_ids ]

unfoldable pub fire : EffectTarget → FlowPricingEffects → FlowPricingEffects
unfolding add_all
fire (EffectTarget.addon id) p = record p { addon_ids = add p.addon_ids id }
fire (EffectTarget.item id quantity) p = record p {
  item_quantities = put p.item_quantities id quantity;
}
fire (EffectTarget.choice key ids) p = record p {
  answers =
      put p.answers key
        (record { choice_ids = add_all (choices_at p.answers key) ids; quantity = none });
}

abbrev pub traced : AppliedEffect → FlowPricingEffects → FlowPricingEffects
traced e p = record p { effects = p.effects ++ (e ∷ []) }

unfoldable pub compute_step :
    WorkflowStep
    → Option WorkflowPricingEffect
    → Answers
    → FlowPricingEffects
    → Result Fault FlowPricingEffects
unfolding fire
compute_step step none answers p = ok p
compute_step step (some eff) answers p = do
  fires ← holds_or true eff.when answers
  ok (
      if fires
      then traced (record { step_key = step.key; target = eff.target }) (fire eff.target p)
      else p)

unfoldable pub compute_steps :
    List WorkflowStep → Answers → FlowPricingEffects → Result Fault FlowPricingEffects
unfolding compute_step
compute_steps [] answers p = ok p
compute_steps (step ∷ steps) answers p = do
  next ← compute_step step step.pricing_effect answers p
  compute_steps steps answers next

unfoldable pub compute_pricing_effects : WorkflowConfig → Answers → Result Fault FlowPricingEffects
unfolding compute_steps
compute_pricing_effects config answers = compute_steps config.steps answers no_effects

-- `{ ...base, ...patch }`.
unfoldable pub spread {ℓ} : {V : Type ℓ} → Dict V → Dict V → Dict V
spread base [] = base
spread base ((k, v) ∷ patch) = spread (put base k v) patch

abbrev pub merged : Option Answer → List String → Answer
merged none ids = record { choice_ids = add_all [] ids; quantity = none }
merged (some a) ids = record { choice_ids = add_all a.choice_ids ids; quantity = a.quantity }

unfoldable pub merge_answers : Dict Answer → Dict Answer → Dict Answer
unfolding add_all
merge_answers base [] = base
merge_answers base ((k, v) ∷ patch) =
    merge_answers (put base k (merged (get base k) v.choice_ids)) patch

unfoldable pub apply_to_selection : Selection → FlowPricingEffects → Selection
unfolding add_all spread merge_answers
apply_to_selection base patch = record base {
  addon_ids = add_all base.addon_ids patch.addon_ids;
  item_quantities = spread base.item_quantities patch.item_quantities;
  answers = merge_answers base.answers patch.answers;
}
