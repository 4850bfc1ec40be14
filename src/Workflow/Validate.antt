-- ===== src/Workflow/Validate.antt =====
-- packages/workflow/src/engine.ts: `validate`. A `Set` of texts is the list of its members in the
-- order in which they came.
use booking_lumin_checkout.Base.{
  ℕ, suc, String, Bool, false, ◌||◌, ◌==◌, Option, none, some, List, [], ◌∷◌, ◌++◌, any, is_some,
  leb, if◌then◌else◌,
}
use booking_lumin_checkout.Base.Dict.{Dict, get, put, has_key}
use booking_lumin_checkout.Workflow.Conditions.{Condition, Conditions}
use booking_lumin_checkout.Workflow.Steps.{
  WorkflowStep, WorkflowConfig, WorkflowPricingEffect, MessagedRule, RecommendRule, IssueCode,
  ValidationIssue, truthy,
}

abbrev pub has : List String → String → Bool
has xs x = any (λ y. y == x) xs

-- `set.add(x)`.
unfoldable pub add : List String → String → List String
add xs x = if has xs x then xs else xs ++ (x ∷ [])

unfoldable mutual
  unfolding add

  pub collect_fields : Condition → List String → List String
  collect_fields (Condition.compare cmp) into = add into cmp.field
  collect_fields (Condition.all_of cs) into = collect_each cs into
  collect_fields (Condition.any_of cs) into = collect_each cs into
  collect_fields (Condition.negate c) into = collect_fields c into

  pub collect_each : Conditions → List String → List String
  collect_each Conditions.nil into = into
  collect_each (Conditions.cons c cs) into = collect_each cs (collect_fields c into)

abbrev pub to_list : Option Condition → List Condition
to_list none = []
to_list (some c) = c ∷ []

abbrev pub when_some {ℓ} : {A : Type ℓ} → Option A → (A → Option Condition) → List Condition
when_some none f = []
when_some (some a) f = to_list (f a)

unfoldable pub conditions_of : WorkflowStep → List Condition
conditions_of step =
    to_list step.visible_when
    ++ (to_list step.required_when
        ++ (when_some step.disqualify (λ (r : MessagedRule). some r.when)
            ++ (when_some step.warn (λ (r : MessagedRule). some r.when)
                ++ (when_some step.recommend (λ (r : RecommendRule). some r.when)
                    ++ when_some step.pricing_effect (λ (e : WorkflowPricingEffect). e.when)))))

unfoldable pub duplicate_steps : List String → List WorkflowStep → List ValidationIssue
unfolding add
duplicate_steps seen [] = []
duplicate_steps seen (step ∷ steps) =
    let rest = duplicate_steps (add seen step.key) steps in
    if has seen step.key
    then record { code = IssueCode.duplicate_step_key; step_key = step.key; field = none } ∷ rest
    else rest

abbrev pub index_question : Option String → ℕ → Dict ℕ → Dict ℕ
index_question none i m = m
index_question (some q) i m = if has_key m q then m else put m q i

-- The index of the first step that asks each question.
unfoldable pub question_step_index : ℕ → List WorkflowStep → Dict ℕ → Dict ℕ
question_step_index i [] m = m
question_step_index i (step ∷ steps) m =
    question_step_index (suc i) steps (index_question (truthy step.question_key) i m)

abbrev pub asked : Option String → List String
asked none = []
asked (some q) = q ∷ []

-- The questions that the steps ask.
unfoldable pub question_keys : List WorkflowStep → List String
question_keys [] = []
question_keys (step ∷ steps) = asked (truthy step.question_key) ++ question_keys steps

unfoldable pub duplicate_questions : List String → List WorkflowStep → List ValidationIssue
unfolding add
duplicate_questions seen [] = []
duplicate_questions seen (step ∷ steps) = elim (truthy step.question_key) [
  | none ↦ duplicate_questions seen steps
  | some q ↦
      let rest = duplicate_questions (add seen q) steps in
      if has seen q
      then record { code = IssueCode.duplicate_question_key; step_key = step.key; field = some q }
        ∷ rest
      else rest
]

unfoldable pub collect_all : List Condition → List String → List String
unfolding collect_fields
collect_all [] into = into
collect_all (c ∷ cs) into = collect_all cs (collect_fields c into)

unfoldable pub unknown_fields : WorkflowStep → Dict ℕ → List String → List ValidationIssue
unknown_fields step index [] = []
unknown_fields step index (f ∷ fs) =
    let rest = unknown_fields step index fs in
    if has_key index f
    then rest
    else record { code = IssueCode.unknown_field_ref; step_key = step.key; field = some f } ∷ rest

abbrev pub is_potentially_required : WorkflowStep → Bool
is_potentially_required step = step.required || is_some step.required_when

abbrev pub is_at_or_after : ℕ → Option ℕ → Bool
is_at_or_after i none = false
is_at_or_after i (some j) = leb i j

unfoldable pub hidden_fields : WorkflowStep → ℕ → Dict ℕ → List String → List ValidationIssue
hidden_fields step i index [] = []
hidden_fields step i index (f ∷ fs) =
    let rest = hidden_fields step i index fs in
    if is_at_or_after i (get index f)
    then record { code = IssueCode.forward_hidden_required; step_key = step.key; field = some f }
      ∷ rest
    else rest

unfoldable pub forward_hidden : WorkflowStep → ℕ → Dict ℕ → List ValidationIssue
unfolding collect_fields hidden_fields
forward_hidden step i index = elim (step.visible_when) [
  | none ↦ []
  | some c ↦
      if is_potentially_required step then hidden_fields step i index (collect_fields c []) else []
]

unfoldable pub check_steps : ℕ → Dict ℕ → List WorkflowStep → List ValidationIssue
unfolding collect_all conditions_of unknown_fields forward_hidden
check_steps i index [] = []
check_steps i index (step ∷ steps) =
    unknown_fields step index (collect_all (conditions_of step) [])
    ++ (forward_hidden step i index ++ check_steps (suc i) index steps)

unfoldable pub validate : WorkflowConfig → List ValidationIssue
unfolding duplicate_steps question_step_index duplicate_questions check_steps
validate config =
    duplicate_steps [] config.steps
    ++ (duplicate_questions [] config.steps
        ++ check_steps 0 (question_step_index 0 config.steps []) config.steps)
