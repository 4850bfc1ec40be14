-- ===== src/Workflow/Strict.antt =====
-- packages/workflow/src/publication.ts: the strict schema of a configuration, on parsed values.
use booking_lumin_checkout.Base.{
  ℕ, zero, suc, String, Bool, true, false, not, ◌&&◌, ◌||◌, ◌==◌, leb, Option, none, some, length,
  is_empty, is_some, all,
}
use booking_lumin_checkout.Base.Int.{pos, leb_ℤ, max_safe}
use booking_lumin_checkout.Workflow.Conditions.{Scalar, Value, ConditionOp, Condition, Conditions}
use booking_lumin_checkout.Workflow.Steps.{
  WorkflowStep, WorkflowConfig, WorkflowPricingEffect, EffectTarget, StepKind, MessagedRule,
  RecommendRule,
}
use booking_lumin_checkout.Workflow.Validate.{validate}

abbrev pub is_number : Option Value → Bool
is_number (some (Value.scalar (Scalar.number n))) = true
is_number _ = false

abbrev pub is_array : Option Value → Bool
is_array (some (Value.many vs)) = true
is_array _ = false

abbrev pub is_string : Option Value → Bool
is_string (some (Value.scalar (Scalar.text s))) = true
is_string _ = false

-- The operand that an operator takes.
abbrev pub operand_fits : ConditionOp → Option Value → Bool
operand_fits ConditionOp.answered value = not (is_some value)
operand_fits ConditionOp.eq value = is_some value
operand_fits ConditionOp.ne value = is_some value
operand_fits ConditionOp.in_list value = is_array value
operand_fits ConditionOp.includes value = is_string value
operand_fits (ConditionOp.unknown op) value = false
operand_fits _ value = is_number value

abbrev pub is_named : String → Bool
is_named s = not (s == "")

abbrev pub count_conditions : Conditions → ℕ
count_conditions Conditions.nil = 0
count_conditions (Conditions.cons c cs) = suc (count_conditions cs)

abbrev pub is_branching : Conditions → Bool
is_branching cs = leb 1 (count_conditions cs) && leb (count_conditions cs) 20

-- `conditionAt(depth)`.
unfoldable mutual
  pub condition_at : Condition → ℕ → Bool
  condition_at (Condition.compare cmp) depth = is_named cmp.field && operand_fits cmp.op cmp.value
  condition_at (Condition.all_of cs) zero = false
  condition_at (Condition.all_of cs) (suc depth) = is_branching cs && conditions_at cs depth
  condition_at (Condition.any_of cs) zero = false
  condition_at (Condition.any_of cs) (suc depth) = is_branching cs && conditions_at cs depth
  condition_at (Condition.negate c) zero = false
  condition_at (Condition.negate c) (suc depth) = condition_at c depth

  pub conditions_at : Conditions → ℕ → Bool
  conditions_at Conditions.nil depth = true
  conditions_at (Conditions.cons c cs) depth = condition_at c depth && conditions_at cs depth

abbrev pub condition_fits : Option Condition → Bool
condition_fits none = true
condition_fits (some c) = condition_at c 4

abbrev pub target_fits : EffectTarget → Bool
target_fits (EffectTarget.addon id) = is_named id
target_fits (EffectTarget.item id quantity) =
    is_named id && (leb_ℤ (pos 1) quantity && leb_ℤ quantity (pos max_safe))
target_fits (EffectTarget.choice key ids) = is_named key && (not (is_empty ids) && all is_named ids)

abbrev pub effect_fits : Option WorkflowPricingEffect → Bool
effect_fits none = true
effect_fits (some e) = condition_fits e.when && target_fits e.target

abbrev pub rule_fits : Option MessagedRule → Bool
rule_fits none = true
rule_fits (some r) = condition_at r.when 4 && is_named r.message

abbrev pub is_absent_or_named : Option String → Bool
is_absent_or_named none = true
is_absent_or_named (some s) = is_named s

abbrev pub recommend_fits : Option RecommendRule → Bool
recommend_fits none = true
recommend_fits (some r) =
    condition_at r.when 4 && (is_named r.advice && is_absent_or_named r.addon_key)

-- Question steps have a question, and only they ask for answers.
abbrev pub kind_fits : WorkflowStep → Bool
kind_fits s = elim (s.kind) [
  | StepKind.question ↦ is_some s.question_key
  | _ ↦ not (is_some s.question_key || (s.required || is_some s.required_when))
]

unfoldable pub step_fits : WorkflowStep → Bool
unfolding condition_at
step_fits s =
    is_absent_or_named s.question_key
    && (is_named s.key
        && (condition_fits s.visible_when
            && (condition_fits s.required_when
                && (rule_fits s.disqualify
                    && (rule_fits s.warn
                        && (recommend_fits s.recommend
                            && (effect_fits s.pricing_effect && kind_fits s)))))))

unfoldable pub config_fits : WorkflowConfig → Bool
unfolding step_fits validate
config_fits config =
    all step_fits config.steps
    && (is_named config.key
        && (leb 1 (length config.steps)
            && (leb (length config.steps) 100 && is_empty (validate config))))
