-- ===== src/Workflow/Engine.antt =====
-- packages/workflow/src/engine.ts: `nextState`.
use booking_lumin_checkout.Base.{
  String, Bool, true, false, not, ◌&&◌, Option, none, some, List, [], ◌∷◌, ◌++◌, is_empty,
  if◌then◌else◌,
}
use booking_lumin_checkout.Base.Dict.{get}
use booking_lumin_checkout.Base.Result.{Result, ok, ◌>>=◌}
use booking_lumin_checkout.Workflow.Conditions.{Answers, Condition, Fault, evaluate, is_answered}
use booking_lumin_checkout.Workflow.Steps.{
  WorkflowStep, WorkflowConfig, WorkflowState, MessagedRule, RecommendRule, Notice, Recommendation,
  truthy,
}

-- A condition that may be missing: `d` stands for a missing one.
unfoldable pub holds_or : Bool → Option Condition → Answers → Result Fault Bool
holds_or d none answers = ok d
holds_or d (some c) answers = evaluate c answers

abbrev pub is_visible : WorkflowStep → Answers → Result Fault Bool
is_visible step answers = holds_or true step.visible_when answers

unfoldable pub is_step_required : WorkflowStep → Answers → Result Fault Bool
is_step_required step answers =
    if step.required then ok true else holds_or false step.required_when answers

-- Whether the step has a question, is required and is not answered.
unfoldable pub is_missing : WorkflowStep → Option String → Answers → Result Fault Bool
is_missing step none answers = ok false
is_missing step (some question) answers = do
  required ← is_step_required step answers
  ok (required && not (is_answered (get answers question)))

unfoldable pub noticed : WorkflowStep → Option MessagedRule → Answers → Result Fault (List Notice)
noticed step none answers = ok []
noticed step (some rule) answers = do
  b ← evaluate rule.when answers
  ok (if b then record { step_key = step.key; message = rule.message } ∷ [] else [])

unfoldable pub recommended :
    WorkflowStep → Option RecommendRule → Answers → Result Fault (List Recommendation)
recommended step none answers = ok []
recommended step (some rule) answers = do
  b ← evaluate rule.when answers
  ok (
      if b
      then record { step_key = step.key; advice = rule.advice; addon_key = truthy rule.addon_key }
        ∷ []
      else [])

-- What the loop pushes to its five arrays.
pub record Shown : Type 0 where
  pub visible_steps : List String
  pub required_unanswered : List String
  pub disqualified : List Notice
  pub warnings : List Notice
  pub recommendations : List Recommendation

abbrev pub nothing_shown : Shown
nothing_shown = record {
  visible_steps = [];
  required_unanswered = [];
  disqualified = [];
  warnings = [];
  recommendations = [];
}

-- The body of the loop at a step that is visible.
unfoldable pub show : WorkflowStep → Answers → Result Fault Shown
unfolding is_missing noticed recommended
show step answers = do
  missing ← is_missing step (truthy step.question_key) answers
  disqualified ← noticed step step.disqualify answers
  warnings ← noticed step step.warn answers
  recommendations ← recommended step step.recommend answers
  ok (record {
    visible_steps = step.key ∷ [];
    required_unanswered = if missing then step.key ∷ [] else [];
    disqualified = disqualified;
    warnings = warnings;
    recommendations = recommendations;
  })

unfoldable pub visit : WorkflowStep → Answers → Result Fault Shown
unfolding show
visit step answers = do
  visible ← is_visible step answers
  if visible then show step answers else ok nothing_shown

unfoldable pub joined : Shown → Shown → Shown
joined a b = record {
  visible_steps = a.visible_steps ++ b.visible_steps;
  required_unanswered = a.required_unanswered ++ b.required_unanswered;
  disqualified = a.disqualified ++ b.disqualified;
  warnings = a.warnings ++ b.warnings;
  recommendations = a.recommendations ++ b.recommendations;
}

unfoldable pub visit_all : List WorkflowStep → Answers → Result Fault Shown
unfolding visit joined
visit_all [] answers = ok nothing_shown
visit_all (step ∷ steps) answers = do
  a ← visit step answers
  rest ← visit_all steps answers
  ok (joined a rest)

unfoldable pub with_complete : Shown → WorkflowState
with_complete s = record {
  visible_steps = s.visible_steps;
  required_unanswered = s.required_unanswered;
  disqualified = s.disqualified;
  warnings = s.warnings;
  recommendations = s.recommendations;
  complete = is_empty s.required_unanswered && is_empty s.disqualified;
}

unfoldable pub next_state : WorkflowConfig → Answers → Result Fault WorkflowState
unfolding visit_all with_complete
next_state config answers = do s ← visit_all config.steps answers; ok (with_complete s)
