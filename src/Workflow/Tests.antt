-- ===== src/Workflow/Tests.antt =====
-- Runs of a flow with two questions.
use booking_lumin_checkout.Base.{
  String, true, false, ◌≡◌, ◌↔◌, refl, none, some, [], ◌∷◌, ◌||◌, any, All,
}
use booking_lumin_checkout.Base.Dict.{get, put}
use booking_lumin_checkout.Base.Result.{ok, err}
use booking_lumin_checkout.Contracts.Service.{Selection}
use booking_lumin_checkout.Workflow.Conditions.{
  Scalar, Value, Answers, Condition, ConditionOp, Fault, evaluate,
}
use booking_lumin_checkout.Workflow.Steps.{
  WorkflowStep, WorkflowConfig, WorkflowState, StepKind, EffectTarget, IssueCode,
}
use booking_lumin_checkout.Workflow.Engine.{next_state, holds_or, is_step_required}
use booking_lumin_checkout.Workflow.Validate.{has, question_keys, validate}
use booking_lumin_checkout.Workflow.Effects.{
  FlowPricingEffects, compute_pricing_effects, apply_to_selection,
}
use booking_lumin_checkout.Base.{not, ◌==◌}
use booking_lumin_checkout.Workflow.Conditions.{is_answered}
use booking_lumin_checkout.Workflow.Publication.{
  Flow, FlowStatus, FlowDraft, PublishedFlowVersion, FlowInstallation, FlowSessionBinding, Schemas,
  PublicationFault, snapshot_flow_publication, validate_flow_session_binding,
}
use booking_lumin_checkout.Workflow.Published.{snapshot_flow_publication-answered}
use booking_lumin_checkout.Workflow.Agreement.{next_state-agree}
use booking_lumin_checkout.Workflow.Completion.{Passes, next_state-complete}
use booking_lumin_checkout.Workflow.Addons.{offers, apply_to_selection-has}

workflow : Unit {0}
unfolding evaluate holds_or is_step_required next_state validate compute_pricing_effects
    apply_to_selection get put question_keys snapshot_flow_publication validate_flow_session_binding
    is_answered
workflow = tt

abbrev plain : String → String → WorkflowStep
plain key question = record {
  key = key;
  question_key = some question;
  kind = StepKind.question;
  title = none;
  visible_when = none;
  required = true;
  required_when = none;
  disqualify = none;
  warn = none;
  recommend = none;
  pricing_effect = none;
}

abbrev has_pets : Condition
has_pets = Condition.compare (record {
  field = "pets";
  op = ConditionOp.eq;
  value = some (Value.scalar (Scalar.text "yes"));
})

abbrev pet_kind : WorkflowStep
pet_kind = record (plain "pet_kind" "pet_kind") {
  visible_when = some has_pets;
  disqualify = some (record {
    when = Condition.compare (record {
      field = "pet_kind";
      op = ConditionOp.eq;
      value = some (Value.scalar (Scalar.text "tiger"));
    });
    message = "No tigers";
  });
  pricing_effect = some (record { when = some has_pets; target = EffectTarget.addon "pet_hair" });
}

abbrev flow : WorkflowConfig
flow = record { key = "cleaning"; steps = plain "pets" "pets" ∷ (pet_kind ∷ []) }

abbrev said : String → String → String × Value
said key answer = (key, Value.scalar (Scalar.text answer))

abbrev with_cat : Answers
with_cat = said "pets" "yes" ∷ (said "pet_kind" "cat" ∷ [])

abbrev with_more : Answers
with_more = said "other" "x" ∷ (said "pet_kind" "cat" ∷ (said "pets" "yes" ∷ []))

abbrev done : WorkflowState
done = record {
  visible_steps = "pets" ∷ ("pet_kind" ∷ []);
  required_unanswered = [];
  disqualified = [];
  warnings = [];
  recommendations = [];
  complete = true;
}

abbrev with_hair : FlowPricingEffects
with_hair = record {
  effects = record { step_key = "pet_kind"; target = EffectTarget.addon "pet_hair" } ∷ [];
  addon_ids = "pet_hair" ∷ [];
  item_quantities = [];
  answers = [];
}

shows : next_state flow with_cat ≡ ok done
unfolding workflow
shows = refl

prices : compute_pricing_effects flow with_cat ≡ ok with_hair
unfolding workflow
prices = refl

flow_valid : validate flow ≡ []
unfolding workflow
flow_valid = refl

agreed : All (λ q. get with_cat q ≡ get with_more q) (question_keys flow.steps)
unfolding workflow
agreed = (refl, (refl, tt))

next_state-agree_example :
    (next_state flow with_cat ≡ next_state flow with_more)
    × (compute_pricing_effects flow with_cat ≡ compute_pricing_effects flow with_more)
next_state-agree_example = next_state-agree flow with_cat with_more flow_valid agreed

next_state-complete_example : (true ≡ true) ↔ All (Passes with_cat) flow.steps
next_state-complete_example = next_state-complete flow with_cat shows

abbrev base : Selection
base = record {
  service_id = "s";
  item_quantities = [];
  addon_ids = "oven" ∷ [];
  answers = [];
  rental_periods = none;
}

apply_to_selection-has_example :
    has (apply_to_selection base with_hair).addon_ids "pet_hair"
    ≡ (has base.addon_ids "pet_hair" || any (offers "pet_hair" with_cat) flow.steps)
apply_to_selection-has_example = apply_to_selection-has flow with_cat base "pet_hair" prices

-- A required step that a later question hides is reported, and is shown all the same while that
-- question is not answered.
abbrev hidden_later : WorkflowConfig
hidden_later = record {
  key = "k";
  steps =
      record (plain "a" "a") {
        visible_when = some (
            Condition.negate (
              Condition.compare (record { field = "b"; op = ConditionOp.answered; value = none })));
      }
      ∷ (plain "b" "b" ∷ []);
}

forward_hidden_shown :
    (validate hidden_later
      ≡ record { code = IssueCode.forward_hidden_required; step_key = "a"; field = some "b" } ∷ [])
    × (next_state hidden_later []
        ≡ ok (record done {
          visible_steps = "a" ∷ ("b" ∷ []);
          required_unanswered = "a" ∷ ("b" ∷ []);
          complete = false;
        }))
unfolding workflow
forward_hidden_shown = (refl, refl)

unknown_operator_throws :
    evaluate
      (Condition.compare (record { field = "a"; op = ConditionOp.unknown "near"; value = none }))
      []
    ≡ err (Fault.unknown_operator "near")
unfolding workflow
unknown_operator_throws = refl

abbrev schemas : Schemas
schemas = record {
  is_uuid = λ s. not (s == "");
  is_origin = λ s. not (s == "");
  text_length = λ s. 8;
  is_bounded = λ c. true;
}

abbrev pets_flow : Flow
pets_flow = record {
  tenant_id = "t1";
  flow_id = "f1";
  name = "Cleaning";
  status = FlowStatus.draft;
  published_version_id = none;
}

abbrev pets_draft : FlowDraft
pets_draft = record { tenant_id = "t1"; flow_id = "f1"; revision = 3; config = flow }

abbrev published : PublishedFlowVersion
published = record {
  tenant_id = "t1";
  flow_id = "f1";
  version_id = "v1";
  source_revision = 3;
  config = flow;
}

publishes :
    snapshot_flow_publication schemas pets_flow pets_draft 3 "v1" ("pets" ∷ []) ≡ ok published
unfolding workflow
publishes = refl

skipped :
    snapshot_flow_publication schemas pets_flow pets_draft 3 "v1" ("pet_kind" ∷ [])
    ≡ err PublicationFault.required_question_skipped
unfolding workflow
skipped = refl

snapshot_flow_publication-answered_example :
    All (λ key. is_answered (get with_cat key) ≡ true) ("pets" ∷ [])
snapshot_flow_publication-answered_example =
    snapshot_flow_publication-answered schemas pets_flow pets_draft 3 "v1" ("pets" ∷ []) publishes
      with_cat shows refl

abbrev installed : FlowInstallation
installed = record {
  tenant_id = "t1";
  flow_id = "f1";
  installation_id = "i1";
  version_id = "v1";
  allowed_origins = "https://example.test" ∷ [];
}

abbrev session : FlowSessionBinding
session = record {
  tenant_id = "t1";
  flow_id = "f1";
  installation_id = "i1";
  version_id = "v1";
  session_id = "s1";
}

bound :
    (validate_flow_session_binding schemas published installed session ≡ ok session)
    × (validate_flow_session_binding schemas published installed
          (record session { tenant_id = "t2" })
        ≡ err PublicationFault.invalid_session_binding)
unfolding workflow
bound = (refl, refl)
