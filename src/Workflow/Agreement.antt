-- ===== src/Workflow/Agreement.antt =====
-- packages/workflow/src: what a valid flow reads of the answers.
use booking_lumin_checkout.Base.{
  ℕ, suc, String, Bool, true, false, ◌==◌, ◌≡◌, inl, inr, refl, ap, ap₂, Option, none, some, List,
  [], ◌∷◌, All, All-split, All-imp, append_empty, All-Memᴰ, any_sound, subst, Bool-cases, eq_iff,
}
use mathlib.Core.Path.{fun_ext}
use booking_lumin_checkout.Base.Dict.{Dict, get, has_key, get-put}
use booking_lumin_checkout.Base.Result.{Result, ok, ◌>>=◌}
use booking_lumin_checkout.Workflow.Conditions.{
  Answers, Condition, Conditions, Fault, evaluate, evaluate_all, evaluate_any, eval_comparison,
  compare_by, and_then, or_then,
}
use booking_lumin_checkout.Workflow.Steps.{
  WorkflowStep, WorkflowConfig, MessagedRule, RecommendRule, WorkflowPricingEffect, truthy,
}
use booking_lumin_checkout.Workflow.Validate.{
  asked, index_question, duplicate_steps, duplicate_questions, forward_hidden, question_step_index,
  question_keys, unknown_fields, check_steps, validate, has, add, collect_fields, collect_each,
  collect_all, when_some, to_list, conditions_of,
}
use booking_lumin_checkout.Workflow.Engine.{
  with_complete, holds_or, noticed, recommended, is_missing, is_step_required, show, visit,
  visit_all, next_state, joined,
}
use booking_lumin_checkout.Workflow.Effects.{
  no_effects, FlowPricingEffects, compute_step, compute_steps, compute_pricing_effects,
}

module _ (P : String → Type 0) where
  All-add : (xs : List String) (x : String) → All P (add xs x) → P x × All P xs
  unfolding add
  All-add xs x h = elim (Bool-cases (has xs x)) [
    | inl e ↦
        let all = rw e at h in
        let (y, m, q) = any_sound (λ y. y == x) xs e in
        (subst P ((eq_iff y x).0 q) (All-Memᴰ P xs all m), all)
    | inr e ↦ let (all, p) = All-split P xs (x ∷ []) (rw e at h) in (p.0, all)
  ]

module _ (a b : Answers) where
  abbrev Agree : String → Type 0
  Agree k = get a k ≡ get b k

  mutual
    unfolding collect_fields evaluate eval_comparison

    evaluate-Agree :
        (c : Condition) (into : List String)
        → All Agree (collect_fields c into)
        → (evaluate c a ≡ evaluate c b) × All Agree into
    evaluate-Agree (Condition.compare cmp) into h =
        let (p, q) = All-add Agree into cmp.field h in
        (ap (λ v. compare_by cmp.op v cmp.value) p, q)
    evaluate-Agree (Condition.all_of cs) into h = let ((p, _), q) = each-Agree cs into h in (p, q)
    evaluate-Agree (Condition.any_of cs) into h = let ((_, p), q) = each-Agree cs into h in (p, q)
    evaluate-Agree (Condition.negate c) into h =
        let (p, q) = evaluate-Agree c into h in (rw p refl, q)

    each-Agree :
        (cs : Conditions) (into : List String)
        → All Agree (collect_each cs into)
        → ((evaluate_all cs a ≡ evaluate_all cs b) × (evaluate_any cs a ≡ evaluate_any cs b))
          × All Agree into
    each-Agree Conditions.nil into h = ((refl, refl), h)
    each-Agree (Conditions.cons c cs) into h =
        let ((p, q), r) = each-Agree cs (collect_fields c into) h in
        let (e, s) = evaluate-Agree c into r in ((ap₂ and_then e p, ap₂ or_then e q), s)

  collect_all-Agree :
      (cs : List Condition) (into : List String)
      → All Agree (collect_all cs into)
      → All (λ c. evaluate c a ≡ evaluate c b) cs × All Agree into
  unfolding collect_all
  collect_all-Agree [] into h = (tt, h)
  collect_all-Agree (c ∷ cs) into h =
      let (p, q) = collect_all-Agree cs (collect_fields c into) h in
      let (e, r) = evaluate-Agree c into q in ((e, p), r)

  holds_or-agree :
      (d : Bool) (c : Option Condition)
      → All (λ c. evaluate c a ≡ evaluate c b) (to_list c)
      → holds_or d c a ≡ holds_or d c b
  unfolding holds_or
  holds_or-agree d none h = refl
  holds_or-agree d (some c) (p, _) = p

  noticed-agree :
      (step : WorkflowStep) (rule : Option MessagedRule)
      → All (λ c. evaluate c a ≡ evaluate c b) (when_some rule (λ (r : MessagedRule). some r.when))
      → noticed step rule a ≡ noticed step rule b
  unfolding noticed
  noticed-agree step none h = refl
  noticed-agree step (some rule) (p, _) = rw p refl

  recommended-agree :
      (step : WorkflowStep) (rule : Option RecommendRule)
      → All (λ c. evaluate c a ≡ evaluate c b) (when_some rule (λ (r : RecommendRule). some r.when))
      → recommended step rule a ≡ recommended step rule b
  unfolding recommended
  recommended-agree step none h = refl
  recommended-agree step (some rule) (p, _) = rw p refl

  is_missing-Agree :
      (step : WorkflowStep) (question : Option String)
      → ((q : String) → question ≡ some q → Agree q)
      → All (λ c. evaluate c a ≡ evaluate c b) (to_list step.required_when)
      → is_missing step question a ≡ is_missing step question b
  unfolding is_missing is_step_required
  is_missing-Agree step none asked h = refl
  is_missing-Agree step (some q) asked h =
      rw (asked q refl, holds_or-agree false step.required_when h) refl

  compute_step-agree :
      (step : WorkflowStep) (eff : Option WorkflowPricingEffect)
      → All
          (λ c. evaluate c a ≡ evaluate c b)
          (when_some eff (λ (e : WorkflowPricingEffect). e.when))
      → (p : FlowPricingEffects) → compute_step step eff a p ≡ compute_step step eff b p
  unfolding compute_step
  compute_step-agree step none h p = refl
  compute_step-agree step (some eff) h p = rw (holds_or-agree true eff.when h) refl

  Same : Condition → Type 0
  Same c = evaluate c a ≡ evaluate c b

  -- A step whose conditions and question read what the two maps agree on.
  step-Agree :
      (step : WorkflowStep)
      → All (λ c. evaluate c a ≡ evaluate c b) (conditions_of step)
      → ((q : String) → truthy step.question_key ≡ some q → Agree q)
      → (visit step a ≡ visit step b)
        × ((p : FlowPricingEffects)
            → compute_step step step.pricing_effect a p ≡ compute_step step step.pricing_effect b p)
  unfolding Same visit show conditions_of is_step_required
  step-Agree step h asked =
      let (v, h1) = All-split Same (to_list step.visible_when) _ h in
      let (r, h2) = All-split Same (to_list step.required_when) _ h1 in
      let (d, h3) =
        All-split Same (when_some step.disqualify (λ (m : MessagedRule). some m.when)) _ h2 in
      let (w, h4) = All-split Same (when_some step.warn (λ (m : MessagedRule). some m.when)) _ h3 in
      let (c, e) =
        All-split Same (when_some step.recommend (λ (m : RecommendRule). some m.when)) _ h4 in
      let missing = is_missing-Agree step (truthy step.question_key) asked r in
      let shown : show step a ≡ show step b =
        rw
          (
            missing,
            noticed-agree step step.disqualify d,
            noticed-agree step step.warn w,
            recommended-agree step step.recommend c,
          )
          refl in
      (
        rw (holds_or-agree true step.visible_when v, shown) refl,
        compute_step-agree step step.pricing_effect e,
      )

  steps-Agree :
      (steps : List WorkflowStep)
      → All
          (λ step.
            All (λ c. evaluate c a ≡ evaluate c b) (conditions_of step)
            × ((q : String) → truthy step.question_key ≡ some q → Agree q))
          steps
      → (visit_all steps a ≡ visit_all steps b)
        × ((p : FlowPricingEffects) → compute_steps steps a p ≡ compute_steps steps b p)
  unfolding visit_all compute_steps
  steps-Agree [] h = (refl, λ p. refl)
  steps-Agree (step ∷ steps) ((h, asked), hs) =
      let (e, f) = step-Agree step h asked in
      let (es, fs) = steps-Agree steps hs in
      (
        ap₂ (λ m k. m >>= λ x. k >>= λ rest. ok (joined x rest)) e es,
        λ p.
            ap₂ (λ m (k : FlowPricingEffects → Result Fault FlowPricingEffects). m >>= k) (f p)
              (fun_ext fs),
      )

  index_question-Agree :
      (q : Option String) (i : ℕ) (m : Dict ℕ)
      → All Agree (asked q)
      → ((f : String) → has_key m f ≡ true → Agree f)
      → (f : String) → has_key (index_question q i m) f ≡ true
      → Agree f
  index_question-Agree none i m hq hm f h = hm f h
  index_question-Agree (some q) i m (p, _) hm f h = elim (Bool-cases (has_key m q)) [
    | inl e ↦ hm f (rw e at h)
    | inr e ↦ elim (Bool-cases (q == f)) [
      | inl same ↦ subst Agree ((eq_iff q f).0 same) p
      | inr other ↦ hm f (rw (get-put m q f i, other) at (rw e at h))
    ]
  ]

  -- A key of the index is the question of a step.
  index-Agree :
      (i : ℕ) (steps : List WorkflowStep) (m : Dict ℕ)
      → All Agree (question_keys steps)
      → ((f : String) → has_key m f ≡ true → Agree f)
      → (f : String) → has_key (question_step_index i steps m) f ≡ true
      → Agree f
  unfolding question_step_index question_keys
  index-Agree i [] m hq hm f h = hm f h
  index-Agree i (step ∷ steps) m hq hm f h =
      let (q, qs) = All-split Agree (asked (truthy step.question_key)) _ hq in
      index-Agree (suc i) steps _ qs (index_question-Agree (truthy step.question_key) i m q hm) f h

  asked-Agree : (o : Option String) → All Agree (asked o) → (q : String) → o ≡ some q → Agree q
  asked-Agree none h q e = absurd (cc)
  asked-Agree (some k) (p, _) q e = (let same : k ≡ q = cc in subst Agree same p)

  -- No unknown field is reported: all fields are keys of the index.
  unknown_fields-none :
      (step : WorkflowStep) (index : Dict ℕ) (fs : List String)
      → unknown_fields step index fs ≡ []
      → All (λ f. has_key index f ≡ true) fs
  unfolding unknown_fields
  unknown_fields-none step index [] h = tt
  unknown_fields-none step index (f ∷ fs) h = elim (Bool-cases (has_key index f)) [
    | inl e ↦ (e, unknown_fields-none step index fs (rw e at h))
    | inr e ↦ absurd (let k = rw e at h in cc)
  ]

  check_steps-Agree :
      (i : ℕ) (index : Dict ℕ) (steps : List WorkflowStep)
      → ((f : String) → has_key index f ≡ true → Agree f)
      → All Agree (question_keys steps)
      → check_steps i index steps ≡ []
      → All
          (λ step.
            All (λ c. evaluate c a ≡ evaluate c b) (conditions_of step)
            × ((q : String) → truthy step.question_key ≡ some q → Agree q))
          steps
  unfolding check_steps question_keys
  check_steps-Agree i index [] known hq h = tt
  check_steps-Agree i index (step ∷ steps) known hq h =
      let (q, qs) = All-split Agree (asked (truthy step.question_key)) _ hq in
      let (u, h1) =
        append_empty (unknown_fields step index (collect_all (conditions_of step) [])) _ h in
      let fields = All-imp _ Agree _ known (unknown_fields-none step index _ u) in
      (
        ((collect_all-Agree (conditions_of step) [] fields).0, asked-Agree _ q),
        check_steps-Agree (suc i) index steps known qs
            (append_empty (forward_hidden step i index) _ h1).1,
      )

no_key : (f : String) → has_key {V = ℕ} [] f ≡ true → ⊥
unfolding get
no_key f e = cc

-- A configuration that `validate` finds no issue in is answered by its own questions alone: two maps
-- of answers that agree on the questions that the steps ask give the same state of the flow and the
-- same pricing effects (or the same fault), whatever else the maps hold.
pub next_state-agree :
    (config : WorkflowConfig) (a b : Answers)
    → validate config ≡ []
    → All (λ q. get a q ≡ get b q) (question_keys config.steps)
    → (next_state config a ≡ next_state config b)
      × (compute_pricing_effects config a ≡ compute_pricing_effects config b)
unfolding validate next_state compute_pricing_effects
next_state-agree config a b valid agree =
    let (_, h) = append_empty (duplicate_steps [] config.steps) _ valid in
    let (_, k) = append_empty (duplicate_questions [] config.steps) _ h in
    let known = index-Agree a b 0 config.steps [] agree (λ f e. absurd (no_key f e)) in
    let (e, f) =
      steps-Agree a b config.steps (check_steps-Agree a b 0 _ config.steps known agree k) in
    (ap (λ m. m >>= λ s. ok (with_complete s)) e, f no_effects)
