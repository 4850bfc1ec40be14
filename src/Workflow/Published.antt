-- ===== src/Workflow/Published.antt =====
-- packages/workflow/src/publication.ts with engine.ts: what a published flow asks of every visitor.
use booking_lumin_checkout.Base.{
  ℕ, String, Bool, true, false, not, ◌&&◌, ◌||◌, ◌==◌, nat_eq, ◌≡◌, refl, sym, subst, ap, inl, inr,
  Option, none, some, List, [], ◌∷◌, is_some, all, find, same_some, All, arith, Bool-cases,
  Option-cases, eq_iff, if◌then◌else◌,
}
use booking_lumin_checkout.Base.Dict.{get}
use booking_lumin_checkout.Base.Result.{ok, ok-injective, >>=-elim, throw_if-elim}
use booking_lumin_checkout.Workflow.Conditions.{Answers, is_answered}
use booking_lumin_checkout.Workflow.Steps.{WorkflowStep, WorkflowConfig, WorkflowState, truthy}
use booking_lumin_checkout.Workflow.Engine.{is_visible, is_step_required, holds_or, next_state}
use booking_lumin_checkout.Workflow.Completion.{Passes, next_state-complete}
use booking_lumin_checkout.Workflow.Strict.{is_absent_or_named, step_fits, config_fits}
use booking_lumin_checkout.Workflow.Publication.{
  Flow, FlowDraft, PublishedFlowVersion, Schemas, asks, cannot_skip, check_required, is_archived,
  parses_flow, parses_draft, parses_version, snapshot_flow_publication,
}

-- What holds of all steps holds of one that is found, and the test does too.
find-All :
    (p : WorkflowStep → Bool) (P : WorkflowStep → Type 0) (steps : List WorkflowStep)
    {s : WorkflowStep}
    → All P steps
    → find p steps ≡ some s
    → (p s ≡ true) × P s
find-All p P [] h e = absurd (cc)
find-All p P (x ∷ xs) {s} (q, h) e = elim (Bool-cases (p x)) [
  | inl t ↦ subst (λ s. (p s ≡ true) × P s) (same_some (rw t at e)) (t, q)
  | inr f ↦ find-All p P xs h (rw f at e)
]

All-all :
    (p : WorkflowStep → Bool) (P : WorkflowStep → Type 0) (xs : List WorkflowStep)
    → ((s : WorkflowStep) → p s ≡ true → P s)
    → all p xs ≡ true
    → All P xs
All-all p P [] f h = tt
All-all p P (x ∷ xs) f h = (f x (ground arith), All-all p P xs f (ground arith))

asks-truthy :
    (key : String) (question : Option String)
    → is_absent_or_named question ≡ true
    → (elim question [ none ↦ false | some q ↦ q == key ]) ≡ true
    → truthy question ≡ some key
asks-truthy key none named h = absurd (cc)
asks-truthy key (some q) named h =
    let same : q ≡ key = (eq_iff q key).0 h in
    let e : (q == "") ≡ false = ground arith in rw e (ap (λ k. some k) same)

left : (a b : Bool) → (a && b) ≡ true → a ≡ true
left a b h = ground arith

step_fits-named : (s : WorkflowStep) → step_fits s ≡ true → is_absent_or_named s.question_key ≡ true
unfolding step_fits
step_fits-named s h = left _ _ h

-- A step that is passed, asks the question and cannot be skipped has its answer.
Passes-answered :
    (answers : Answers) (key : String) (s : WorkflowStep)
    → is_absent_or_named s.question_key ≡ true
    → Passes answers s
    → asks key s ≡ true
    → (s.required && not (is_some s.visible_when)) ≡ true
    → is_answered (get answers key) ≡ true
unfolding is_step_required holds_or
Passes-answered answers key s named passes asked firm =
    let shown : is_visible s answers ≡ ok true = always s.visible_when (ground arith) in
    let needed : is_step_required s answers ≡ ok true =
      let r : s.required ≡ true = ground arith in required s.required r in
    (passes shown).0 key (asks-truthy key s.question_key named asked) needed
  where
    always :
        (c : Option booking_lumin_checkout.Workflow.Conditions.Condition)
        → is_some c ≡ false
        → holds_or true c answers ≡ ok true
    always none h = refl
    always (some c) h = absurd (cc)

    required :
        (b : Bool)
        → b ≡ true
        → (if b then ok true else holds_or false s.required_when answers) ≡ ok true
    required b h = rw h refl

check_required-answered :
    (answers : Answers) (steps : List WorkflowStep) (keys : List String)
    → All (λ s. (is_absent_or_named s.question_key ≡ true) × Passes answers s) steps
    → check_required steps keys ≡ ok tt
    → All (λ key. is_answered (get answers key) ≡ true) keys
unfolding check_required
check_required-answered answers steps [] h e = tt
check_required-answered answers steps (key ∷ keys) h e =
    throw_if-elim (not (cannot_skip (find (asks key) steps))) _ _ e λ firm rest. (
      elim (Option-cases (find (asks key) steps)) [
        | inl n ↦ absurd (let k = rw n at firm in cc)
        | inr (s, found) ↦
            let (asked, (named, passes)) = find-All (asks key) _ steps h found in
            let k = rw found at firm in
            Passes-answered answers key s named passes asked (ground arith)
      ],
      check_required-answered answers steps keys h rest,
    )

All-both :
    (P Q : WorkflowStep → Type 0) (xs : List WorkflowStep)
    → All P xs
    → All Q xs
    → All (λ s. P s × Q s) xs
All-both P Q [] h k = tt
All-both P Q (x ∷ xs) (p, h) (q, k) = ((p, q), All-both P Q xs h k)

config_fits-named :
    (config : WorkflowConfig)
    → config_fits config ≡ true
    → All (λ s. is_absent_or_named s.question_key ≡ true) config.steps
unfolding config_fits
config_fits-named config h = All-all step_fits _ config.steps step_fits-named (left _ _ h)

parses_draft-fits :
    (z : Schemas) (d : FlowDraft) → not (parses_draft z d) ≡ false → config_fits d.config ≡ true
unfolding parses_draft
parses_draft-fits z d h = ground arith

snapshot-parts :
    (z : Schemas) (flow : Flow) (d : FlowDraft) (expected : ℕ) (version_id : String)
    (required : List String) {v : PublishedFlowVersion}
    → snapshot_flow_publication z flow d expected version_id required ≡ ok v
    → (d.config ≡ v.config)
      × (check_required d.config.steps required ≡ ok tt)
      × (config_fits d.config ≡ true)
unfolding snapshot_flow_publication
snapshot-parts z flow d expected version_id required h =
    throw_if-elim (not (parses_flow z flow)) _ _ h λ _ h1.
      throw_if-elim (not (parses_draft z d)) _ _ h1 λ parsed h2.
        throw_if-elim
          (is_archived flow.status
            || (not (flow.tenant_id == d.tenant_id) || not (flow.flow_id == d.flow_id)))
          _ _ h2
          λ _ h3. throw_if-elim (not (nat_eq expected d.revision)) _ _ h3 λ _ h4.
            >>=-elim (check_required d.config.steps required) _ h4 λ u checked h5.
              throw_if-elim
                (not (
                  parses_version z (record {
                    tenant_id = flow.tenant_id;
                    flow_id = flow.flow_id;
                    version_id = version_id;
                    source_revision = d.revision;
                    config = d.config;
                  })))
                _ _ h5
                λ _ h6. (
                  ap (λ (v : PublishedFlowVersion). v.config) (ok-injective h6),
                  checked,
                  parses_draft-fits z d parsed,
                )

-- A configuration that `snapshotFlowPublication` published cannot be completed without the questions
-- that the server requires: whatever is answered, if the state of the flow is complete, every one of
-- those questions has an answer (not an empty text or array).
pub snapshot_flow_publication-answered :
    (z : Schemas) (flow : Flow) (d : FlowDraft) (expected : ℕ) (version_id : String)
    (required : List String) {v : PublishedFlowVersion}
    → snapshot_flow_publication z flow d expected version_id required ≡ ok v
    → (answers : Answers) {state : WorkflowState} → next_state v.config answers ≡ ok state
    → state.complete ≡ true
    → All (λ key. is_answered (get answers key) ≡ true) required
snapshot_flow_publication-answered z flow d expected version_id required {v} h answers n complete =
    let (same, checked, fits) = snapshot-parts z flow d expected version_id required h in
    let passes = (next_state-complete v.config answers n).0 complete in
    check_required-answered answers d.config.steps required
      (All-both _ _ d.config.steps (config_fits-named d.config fits)
        (subst (λ (c : WorkflowConfig). All (Passes answers) c.steps) (sym same) passes))
      checked
