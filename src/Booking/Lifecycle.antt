-- ===== src/Booking/Lifecycle.antt =====
-- packages/core/src/booking.ts: what no sequence of events can do to the records and the history of
-- the engine.
use booking_lumin_checkout.Base.{
  ℕ, ◌≡◌, refl, sym, subst, ◌∙◌, inl, inr, String, Bool, true, false, ◌||◌, Option, none, some,
  List, [], ◌∷◌, arith, get_elem?, set, All, All-append, get_elem?-append_left, get_elem?-set,
  get_elem?-set_ne, Bool-cases, nat_eq,
}
use mathlib.Core.Option.{some-injective}
use booking_lumin_checkout.Contracts.Booking.{
  BookingState, state_eq, allowed, BookingRecord, BookingStateChange, PaymentIntentRef,
}
use booking_lumin_checkout.Booking.Engine.{Options, State}
use booking_lumin_checkout.Booking.Confirm.{is_failed, confirm_paid, intent_verified}
use booking_lumin_checkout.Booking.Steps.{
  Keeps, IsApplied, Keeps-bind, Keeps-then, Keeps-if, Keeps-throw, Keeps-done, Keeps-guard,
  Keeps-lift_result, Keeps-deref, Keeps-apply_transition,
}
use booking_lumin_checkout.Booking.Stable.{
  IsStable, Keeps-create_booking, Keeps-intent_answered, Keeps-release_key, Keeps-transition,
  Keeps-confirm_from_payment, Keeps-payment_failure,
}
use booking_lumin_checkout.Booking.Payments.{Event, after}

abbrev Anything : BookingState → Type 0
Anything to = Unit

unfoldable pub run : Options → List Event → State → State
unfolding after
run opts [] s = s
run opts (e ∷ es) s = run opts es (after opts e s)

module _ {ℓ} (P : State → Type ℓ) (stable : IsStable P Anything) (opts : Options) where
  Keeps-intent_verified :
      (id : String) (ref : ℕ) (intent : Option PaymentIntentRef)
      → Keeps P (intent_verified opts id ref intent)
  unfolding intent_verified confirm_paid
  Keeps-intent_verified id ref none = Keeps-throw P _
  Keeps-intent_verified id ref (some intent) = Keeps-bind P (Keeps-deref P ref) λ r.
      Keeps-if P (is_failed intent.state)
        (Keeps-payment_failure P Anything stable opts tt tt ref r.state)
        (Keeps-then P (Keeps-guard P _ _) (
          Keeps-bind P (Keeps-deref P ref) λ b. Keeps-bind P (Keeps-lift_result P _ _) λ charge.
            Keeps-then P (Keeps-guard P _ _) (
              Keeps-then P (Keeps-guard P _ _) (
                Keeps-then P
                  (Keeps-apply_transition opts P ref BookingState.confirmed _
                    (λ s s'. stable.change ref BookingState.confirmed s s' tt))
                  (Keeps-done P _)))))

  after-stable : (e : Event) (s : State) → P s → P (after opts e s)
  unfolding after
  after-stable (Event.create req) s = (Keeps-create_booking P Anything stable opts tt tt req).run s
  after-stable (Event.answered ref intent) s =
      (Keeps-intent_answered P Anything stable opts tt tt ref intent).run s
  after-stable (Event.release key) s = (Keeps-release_key P Anything stable opts tt tt key).run s
  after-stable (Event.change id to reason) s =
      (Keeps-transition P Anything stable opts id to reason (λ _. tt)).run s
  after-stable (Event.confirm intent) s =
      (Keeps-confirm_from_payment P Anything stable opts tt tt intent).run s
  after-stable (Event.verified id ref intent) s = (Keeps-intent_verified id ref intent).run s

  run-stable : (es : List Event) (s : State) → P s → P (run opts es s)
  unfolding run
  run-stable [] s p = p
  run-stable (e ∷ es) s p = run-stable es (after opts e s) (after-stable e s p)

-- Every change of the history is one of the table of transitions.
abbrev pub LegalHistory : State → Type 0
LegalHistory s = All (λ (h : BookingStateChange). allowed h.from h.to ≡ true) s.history

LegalHistory-IsStable : IsStable LegalHistory Anything
LegalHistory-IsStable = record {
  frame = λ s s' _ e p. subst Legal (sym e) p;
  change = λ ref to s s' _ a p.
      subst LegalHistory (sym a.effect)
        (All-append _ s.history (a.change ∷ []) p (rw (a.change_from, a.change_to) a.legal, tt));
  draft = λ s s' r _ _ e p. subst Legal (sym e) p;
}
  where
    Legal : List BookingStateChange → Type 0
    Legal = All (λ h. allowed h.from h.to ≡ true)

-- The states that a booking can come to, by the table of transitions.
pub data Leads : BookingState → BookingState → Type 0 where
  here : {a : BookingState} → Leads a a
  step : {a b c : BookingState} → Leads a b → allowed b c ≡ true → Leads a c

-- What stays of a record: its identity, its key and its price; its state moves by the table.
pub record Continues (old new : BookingRecord) : Type 0 where
  pub same_id : new.id ≡ old.id
  pub same_tenant : new.tenant_id ≡ old.tenant_id
  pub same_key : new.idempotency_key ≡ old.idempotency_key
  pub same_pricing : new.pricing ≡ old.pricing
  pub leads : Leads old.state new.state

abbrev pub Evolves : State → State → Type 0
Evolves s s' =
    (ref : ℕ) (old : BookingRecord)
    → get_elem? s.records ref ≡ some old
    → (new : BookingRecord) × (get_elem? s'.records ref ≡ some new) × Continues old new

Continues-refl : (r : BookingRecord) → Continues r r
Continues-refl r = record {
  same_id = refl;
  same_tenant = refl;
  same_key = refl;
  same_pricing = refl;
  leads = here;
}

Continues-change :
    {s s' : State} {ref : ℕ} {to : BookingState} {old mid : BookingRecord}
    → (a : IsApplied ref to s s') → mid ≡ a.old
    → Continues old mid
    → Continues old a.new
Continues-change {to} {old} a same c =
    let c' : Continues old a.old = subst (Continues old) same c in
    record {
      same_id = a.same_id ∙ c'.same_id;
      same_tenant = a.same_tenant ∙ c'.same_tenant;
      same_key = a.same_key ∙ c'.same_key;
      same_pricing = a.same_pricing ∙ c'.same_pricing;
      leads = subst (Leads old.state) (sym a.new_state) (step c'.leads a.legal);
    }

Evolves-change :
    (s s1 s2 : State) (ref : ℕ) (to : BookingState)
    → IsApplied ref to s1 s2
    → Evolves s s1
    → Evolves s s2
Evolves-change s s1 s2 ref to a p i old found =
    let (mid, there, c) = p i old found in
    let after_change = λ (n : BookingRecord) (e : get_elem? (set s1.records ref a.new) i ≡ some n).
      subst (λ (u : State). get_elem? u.records i ≡ some n) (sym a.effect) e in
    elim (Bool-cases (nat_eq ref i)) [
      | inl e ↦
          let same : ref ≡ i = ground arith in
          let here' : get_elem? s1.records i ≡ some a.old =
            subst (λ n. get_elem? s1.records n ≡ some a.old) same a.found in
          (
            a.new,
            after_change a.new (
                subst (λ n. get_elem? (set s1.records ref a.new) n ≡ some a.new) same
                  (get_elem?-set s1.records ref a.new a.found)),
            Continues-change a (some-injective _ _ (sym there ∙ here')) c,
          )
      | inr e ↦ (
        mid,
        after_change mid (
            get_elem?-set_ne s1.records ref i a.new (λ (h : ref ≡ i). absurd (ground arith))
            ∙ there),
        c,
      )
    ]

Evolves-IsStable : (s : State) → IsStable (Evolves s) Anything
Evolves-IsStable s = record {
  frame =
      λ s1 s2 e _ p ref old found. let (new, there, c) = p ref old found in (new, rw e there, c);
  change = λ ref to s1 s2 _ a p. Evolves-change s s1 s2 ref to a p;
  draft = λ s1 s2 r _ e _ p ref old found.
      let (new, there, c) = p ref old found in
      (new, rw e (get_elem?-append_left s1.records (r ∷ []) ref there), c);
}

module _ (opts : Options) where
  -- Whatever happens, in whatever order, the history has legal changes of state only, if it had.
  pub run-LegalHistory :
      (es : List Event) (s : State) → LegalHistory s → LegalHistory (run opts es s)
  run-LegalHistory es s = run-stable LegalHistory LegalHistory-IsStable opts es s

  -- Over any events, in any order: a record that there is keeps its id, tenant, idempotency
  -- key and price, and its state only moves along the table of transitions. This is about the record
  -- as an object, whether or not the engine's maps still name it.
  pub run-Evolves : (es : List Event) (s : State) → Evolves s (run opts es s)
  run-Evolves es s =
      run-stable (Evolves s) (Evolves-IsStable s) opts es s
        (λ ref old found. (old, found, Continues-refl old))

-- Nothing leads away from a state without transitions.
Leads-terminal :
    {a b : BookingState} → Leads a b → ((c : BookingState) → allowed a c ≡ false) → b ≡ a
Leads-terminal here h = refl
Leads-terminal {a} {b} (step {b = m} l e) h =
    let same : m ≡ a = Leads-terminal l h in absurd (cc (h b))

-- A booking that is refunded or has failed.
abbrev pub is_over : BookingState → Bool
is_over state = state_eq state BookingState.refunded || state_eq state BookingState.failed

is_over_lem : (a b : BookingState) → is_over a ≡ true → allowed a b ≡ false
is_over_lem BookingState.refunded b h = refl
is_over_lem BookingState.failed b h = refl
is_over_lem _ b h = absurd (cc)

module _ (opts : Options) where
  -- A booking that is refunded or has failed stays in its state, whatever happens.
  pub run_over :
      (es : List Event) (s : State) (ref : ℕ) (old : BookingRecord)
      → get_elem? s.records ref ≡ some old
      → is_over old.state ≡ true
      → (new : BookingRecord) × (get_elem? (run opts es s).records ref ≡ some new)
        × (new.state ≡ old.state)
  run_over es s ref old found over =
      let (new, there, c) = run-Evolves opts es s ref old found in
      (new, there, Leads-terminal c.leads (λ b. is_over_lem old.state b over))
