-- ===== src/Workflow/Completion.antt =====
-- packages/workflow/src/engine.ts: when `nextState` answers that a flow is complete.
use booking_lumin_checkout.Base.{
  String, Bool, true, false, not, ◌&&◌, ◌≡◌, ◌↔◌, inl, inr, refl, sym, subst, ◌∙◌, Option, none,
  some, List, [], ◌∷◌, ◌++◌, is_empty, All, arith, Bool-cases,
}
use booking_lumin_checkout.Base.Dict.{get}
use booking_lumin_checkout.Base.Result.{ok, >>=-elim, ok-injective}
use booking_lumin_checkout.Workflow.Conditions.{Answers, evaluate, is_answered}
use booking_lumin_checkout.Workflow.Steps.{
  WorkflowStep, WorkflowConfig, WorkflowState, MessagedRule, Notice, truthy,
}
use booking_lumin_checkout.Workflow.Engine.{
  Shown, is_visible, is_step_required, is_missing, noticed, recommended, show, visit, visit_all,
  joined, with_complete, next_state,
}

module _ (answers : Answers) where
  -- The step's question, if it has one and the step is required, is answered.
  abbrev HasAnswer : WorkflowStep → Option String → Type 0
  HasAnswer step question =
      (q : String)
      → question ≡ some q
      → is_step_required step answers ≡ ok true
      → is_answered (get answers q) ≡ true

  abbrev IsQuiet : Option MessagedRule → Type 0
  IsQuiet rule = (r : MessagedRule) → rule ≡ some r → evaluate r.when answers ≡ ok false

  -- A step that does not stand in the way: it is hidden, or it has its answer and disqualifies
  -- nobody.
  abbrev pub Passes : WorkflowStep → Type 0
  Passes step =
      is_visible step answers ≡ ok true
      → HasAnswer step (truthy step.question_key) × IsQuiet step.disqualify

  is_missing-HasAnswer :
      (step : WorkflowStep) (question : Option String) {m : Bool}
      → is_missing step question answers ≡ ok m
      → (not m ≡ true) ↔ HasAnswer step question
  unfolding is_missing
  is_missing-HasAnswer step none {m} h =
      let e : m ≡ false = cc in (λ _ q f. absurd (cc), λ _. ground arith)
  is_missing-HasAnswer step (some question) {m} h =
      >>=-elim (is_step_required step answers) _ h λ required e f.
        let e' : (required && not (is_answered (get answers question))) ≡ m = ok-injective f in
        (
          λ n q same r.
              let req : required ≡ true = cc in
              let question' : question ≡ q = cc in
              subst (λ k. is_answered (get answers k) ≡ true) question' (ground arith),
          λ p. elim (Bool-cases required) [
            | inl t ↦ let a = p question refl (rw t at e) in ground arith
            | inr n ↦ ground arith
          ],
        )

  noticed-IsQuiet :
      (step : WorkflowStep) (rule : Option MessagedRule) {ns : List Notice}
      → noticed step rule answers ≡ ok ns
      → (is_empty ns ≡ true) ↔ IsQuiet rule
  unfolding noticed
  noticed-IsQuiet step none {ns} h =
      let e : [] ≡ ns = cc in (λ _ r f. absurd (cc), λ _. subst (λ ns. is_empty ns ≡ true) e refl)
  noticed-IsQuiet step (some rule) {ns} h = >>=-elim (evaluate rule.when answers) _ h λ b e f.
      let e' = ok-injective f in
      let quiet : (is_empty ns ≡ true) ↔ (b ≡ false) = elim (Bool-cases b) [
        | inl t ↦
            let g = rw t at e' in (λ n. absurd (let k = rw (sym g) at n in cc), λ n. absurd (cc))
        | inr t ↦ (λ _. t, λ _. let g = rw t at e' in rw (sym g) refl)
      ] in
      (
        λ n r same.
            let r' : rule ≡ r = cc in
            subst (λ (r : MessagedRule). evaluate r.when answers ≡ ok false) r'
              (rw (quiet.0 n) at e),
        λ q. quiet.1 (ok-injective (sym e ∙ q rule refl)),
      )

  abbrev clear : Shown → Bool
  clear s = is_empty s.required_unanswered && is_empty s.disqualified

  is_empty-append {ℓ} :
      {A : Type ℓ} (xs ys : List A) → is_empty (xs ++ ys) ≡ (is_empty xs && is_empty ys)
  is_empty-append [] ys = refl
  is_empty-append (x ∷ xs) ys = refl

  clear-joined : (a b : Shown) → clear (joined a b) ≡ (clear a && clear b)
  unfolding joined
  clear-joined a b =
      let e = is_empty-append a.required_unanswered b.required_unanswered in
      let f = is_empty-append a.disqualified b.disqualified in ground arith

  show-Passes :
      (step : WorkflowStep) {s : Shown}
      → show step answers ≡ ok s
      → (clear s ≡ true) ↔ (HasAnswer step (truthy step.question_key) × IsQuiet step.disqualify)
  unfolding show
  show-Passes step {s} h =
      >>=-elim (is_missing step (truthy step.question_key) answers) _ h λ m em h1.
        >>=-elim (noticed step step.disqualify answers) _ h1 λ d ed h2.
          >>=-elim (noticed step step.warn answers) _ h2 λ w ew h3.
            >>=-elim (recommended step step.recommend answers) _ h3 λ r er h4.
              let e = ok-injective h4 in
              let (p, q) = is_missing-HasAnswer step (truthy step.question_key) em in
              let (u, v) = noticed-IsQuiet step step.disqualify ed in
              subst
                (λ (s : Shown).
                  (clear s ≡ true)
                  ↔ (HasAnswer step (truthy step.question_key) × IsQuiet step.disqualify))
                e
                (
                  λ c. (p (ground arith), u (ground arith)),
                  λ (x, y). let l = q x in let k = v y in ground arith,
                )

  visit-Passes :
      (step : WorkflowStep) {s : Shown} → visit step answers ≡ ok s → (clear s ≡ true) ↔ Passes step
  unfolding visit
  visit-Passes step {s} h = >>=-elim (is_visible step answers) _ h λ b e f. elim (Bool-cases b) [
    | inl t ↦ let (p, q) = show-Passes step (rw t at f) in (λ c _. p c, λ k. q (k (rw t at e)))
    | inr n ↦
        let g = ok-injective (rw n at f) in
        (λ _ v. let w = rw (v, n) at e in absurd (cc), λ _. rw (sym g) refl)
  ]

  visit_all-Passes :
      (steps : List WorkflowStep) {s : Shown}
      → visit_all steps answers ≡ ok s
      → (clear s ≡ true) ↔ All Passes steps
  unfolding visit_all
  visit_all-Passes [] {s} h = let e = ok-injective h in (λ _. tt, λ _. rw (sym e) refl)
  visit_all-Passes (step ∷ steps) {s} h = >>=-elim (visit step answers) _ h λ a ea h1.
      >>=-elim (visit_all steps answers) _ h1 λ b eb h2.
        let (p, q) = visit-Passes step ea in
        let (u, v) = visit_all-Passes steps eb in
        let e = clear-joined a b in
        subst (λ (s : Shown). (clear s ≡ true) ↔ (Passes step × All Passes steps)) (ok-injective h2)
          (
            λ c. (p (ground arith), u (ground arith)),
            λ (x, y). let l = q x in let r = v y in ground arith,
          )

-- When `nextState` returns, the state is complete exactly if every step that is visible and asks a
-- required question has an answer to it (not an empty text or array), and no step that is visible
-- disqualifies.
pub next_state-complete :
    (config : WorkflowConfig) (answers : Answers) {state : WorkflowState}
    → next_state config answers ≡ ok state
    → (state.complete ≡ true) ↔ All (Passes answers) config.steps
unfolding next_state with_complete
next_state-complete config answers h = >>=-elim (visit_all config.steps answers) _ h λ s e f.
    subst (λ (st : WorkflowState). (st.complete ≡ true) ↔ All (Passes answers) config.steps)
      (ok-injective f) (visit_all-Passes answers config.steps e)
