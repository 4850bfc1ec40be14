-- ===== src/Workflow/Steps.antt =====
-- packages/workflow/src/types.ts: the steps of a flow and what the engine answers. A field with a
-- schema default holds the default where the source may omit it.
use booking_lumin_checkout.Base.{String, Bool, Option, none, some, List, ◌==◌, if◌then◌else◌}
use booking_lumin_checkout.Base.Int.{ℤ}
use booking_lumin_checkout.Workflow.Conditions.{Condition}

pub data EffectTarget : Type 0 where
  addon : (addon_id : String) → EffectTarget
  item : (item_id : String) → (quantity : ℤ) → EffectTarget
  choice : (question_key : String) → (choice_ids : List String) → EffectTarget

pub record WorkflowPricingEffect : Type 0 where
  pub when : Option Condition
  pub target : EffectTarget

pub data StepKind : Type 0 where
  question info warning : StepKind

pub record MessagedRule : Type 0 where
  pub when : Condition
  pub message : String

pub record RecommendRule : Type 0 where
  pub when : Condition
  pub advice : String
  pub addon_key : Option String

pub record WorkflowStep : Type 0 where
  pub key : String
  pub question_key : Option String
  pub kind : StepKind
  pub title : Option String
  pub visible_when : Option Condition
  pub required : Bool
  pub required_when : Option Condition
  pub disqualify : Option MessagedRule
  pub warn : Option MessagedRule
  pub recommend : Option RecommendRule
  pub pricing_effect : Option WorkflowPricingEffect

pub record WorkflowConfig : Type 0 where
  pub key : String
  pub steps : List WorkflowStep

-- A disqualification or a warning.
pub record Notice : Type 0 where
  pub step_key : String
  pub message : String

pub record Recommendation : Type 0 where
  pub step_key : String
  pub advice : String
  pub addon_key : Option String

pub record WorkflowState : Type 0 where
  pub visible_steps : List String
  pub required_unanswered : List String
  pub disqualified : List Notice
  pub warnings : List Notice
  pub recommendations : List Recommendation
  pub complete : Bool

pub data IssueCode : Type 0 where
  duplicate_step_key duplicate_question_key unknown_field_ref forward_hidden_required : IssueCode

-- Without the text of its message.
pub record ValidationIssue : Type 0 where
  pub code : IssueCode
  pub step_key : String
  pub field : Option String

-- An optional key, where the source tests it for truth: an empty one counts as absent.
abbrev pub truthy : Option String → Option String
truthy none = none
truthy (some s) = if s == "" then none else some s
