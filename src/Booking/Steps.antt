-- ===== src/Booking/Steps.antt =====
-- packages/core/src/booking.ts: how the operations of the engine change its state, step by step.
use booking_lumin_checkout.Base.{
  ℕ, ◌+◌, ◌≡◌, refl, subst, ◌⊎◌, inl, inr, String, Bool, true, false, Option, none, some, [], ◌∷◌,
  ◌++◌, if◌then◌else◌, get_elem?, set, Bool-cases, Option-cases, ◌≢◌, set-cases,
}
use booking_lumin_checkout.Base.Result.{Result, ok, err}
use booking_lumin_checkout.Contracts.Booking.{
  BookingState, allowed, BookingRecord, BookingStateChange,
}
use booking_lumin_checkout.Booking.Engine.{
  Fault, Options, State, M, continue, ◌>>=◌, ◌>>◌, throw, done, guard, lift, read, deref, monad,
  tick, payment_id_for, apply_transition, lift_result,
}

-- An operation keeps a property of the state, whether it returns or throws.
pub record Keeps {ℓ} {A : Type 0} (P : State → Type ℓ) (m : M A) : Type ℓ where
  pub run : (s : State) → P s → P (m s).1

module _ {ℓ} (P : State → Type ℓ) where
  continue-keeps :
      {A B : Type 0} (r : Result Fault A × State) (f : A → M B)
      → P r.1
      → ((a : A) → Keeps P (f a))
      → P (continue r f).1
  continue-keeps (ok a, s) f h k = (k a).run s h
  continue-keeps (err e, s) f h k = h

  pub Keeps-bind :
      {A B : Type 0} {m : M A} {f : A → M B}
      → Keeps P m
      → ((a : A) → Keeps P (f a))
      → Keeps P (m >>= f)
  unfolding ◌>>=◌
  Keeps-bind {m} {f} h k = record { run = λ s p. continue-keeps (m s) f (h.run s p) k }

  pub Keeps-then :
      {B : Type 0} {m : M (Unit {0})} {n : M B} → Keeps P m → Keeps P n → Keeps P (m >> n)
  unfolding ◌>>◌
  Keeps-then h k = Keeps-bind h (λ _. k)

  pub Keeps-done : {A : Type 0} (a : A) → Keeps P (done a)
  unfolding done
  Keeps-done a = record { run = λ s p. p }

  pub Keeps-throw : {A : Type 0} (e : Fault) → Keeps {A = A} P (throw e)
  unfolding throw
  Keeps-throw e = record { run = λ s p. p }

  pub Keeps-guard : (test : Bool) (e : Fault) → Keeps P (guard test e)
  unfolding guard
  Keeps-guard true e = record { run = λ s p. p }
  Keeps-guard false e = record { run = λ s p. p }

  pub Keeps-read : Keeps P read
  unfolding read
  Keeps-read = record { run = λ s p. p }

  pub Keeps-lift : {A : Type 0} (o : Option A) (e : Fault) → Keeps P (lift o e)
  unfolding lift
  Keeps-lift none e = record { run = λ s p. p }
  Keeps-lift (some a) e = record { run = λ s p. p }

  pub Keeps-lift_result :
      {A E : Type 0} (r : Result E A) (f : E → Fault) → Keeps P (lift_result r f)
  unfolding lift_result
  Keeps-lift_result (ok a) f = record { run = λ s p. p }
  Keeps-lift_result (err e) f = record { run = λ s p. p }

  pub Keeps-deref : (ref : ℕ) → Keeps P (deref ref)
  unfolding deref
  Keeps-deref ref = record {
    run = λ s p. (Keeps-lift (get_elem? s.records ref) Fault.dangling).run s p;
  }

  pub Keeps-refused : {B : Type 0} (e : Fault) (n : M B) → Keeps P (guard true e >> n)
  unfolding monad
  Keeps-refused e n = record { run = λ s p. p }

  pub Keeps-if :
      {A : Type 0} (test : Bool) {m n : M A}
      → Keeps P m
      → Keeps P n
      → Keeps P (if test then m else n)
  Keeps-if true h k = h
  Keeps-if false h k = k

-- What `applyTransition` does: nothing, where it throws, and otherwise one allowed change of one
-- record, with one entry of the history. The clock and the id factory may have been asked.
pub record IsApplied (ref : ℕ) (to : BookingState) (s s' : State) : Type 0 where
  pub old : BookingRecord
  pub new : BookingRecord
  pub change : BookingStateChange
  pub ticks : ℕ
  pub minted : ℕ
  pub found : get_elem? s.records ref ≡ some old
  pub legal : allowed old.state to ≡ true
  pub new_state : new.state ≡ to
  pub same_id : new.id ≡ old.id
  pub same_tenant : new.tenant_id ≡ old.tenant_id
  pub same_key : new.idempotency_key ≡ old.idempotency_key
  pub same_pricing : new.pricing ≡ old.pricing
  pub change_from : change.from ≡ old.state
  pub change_to : change.to ≡ to
  pub change_id : change.booking_id ≡ old.id
  pub effect : s' ≡ record s {
    records = set s.records ref new;
    history = s.history ++ (change ∷ []);
    ticks = ticks;
    minted = minted;
  }

-- One change of a record leaves the others as they were.
pub IsApplied-cases :
    {s s' : State} {ref : ℕ} {to : BookingState} {i : ℕ} {r : BookingRecord}
    → (a : IsApplied ref to s s') → get_elem? s'.records i ≡ some r
    → ((ref ≡ i) × (r ≡ a.new)) ⊎ ((ref ≢ i) × (get_elem? s.records i ≡ some r))
IsApplied-cases {s} {ref} {i} {r} a h =
    set-cases s.records ref i a.new
      (subst (λ (u : State). get_elem? u.records i ≡ some r) a.effect h)

abbrev pub Outcome : ℕ → BookingState → State → Result Fault (Unit {0}) × State → Type 0
Outcome ref to s out =
    ((e : Fault) × (out ≡ (err e, s))) ⊎ ((out.0 ≡ ok tt) × IsApplied ref to s out.1)

module _ (opts : Options) where
  payment_id_for_lem :
      (to : BookingState) (old : Option String) (s : State)
      → (id : Option String) × (n : ℕ) × (payment_id_for opts to old s
          ≡ (ok id, record s { minted = n }))
  unfolding payment_id_for monad
  payment_id_for_lem BookingState.confirmed none s =
      (some (opts.id_factory s.minted), s.minted + 1, refl)
  payment_id_for_lem BookingState.confirmed (some id) s = (some id, s.minted, refl)
  payment_id_for_lem _ old s = (old, s.minted, refl)

  -- An allowed change is made.
  pub apply_transition_runs :
      (ref : ℕ) (to : BookingState) (reason : Option String) (s : State) (r : BookingRecord)
      → get_elem? s.records ref ≡ some r
      → allowed r.state to ≡ true
      → ((apply_transition opts ref to reason s).0 ≡ ok tt)
        × IsApplied ref to s (apply_transition opts ref to reason s).1
  unfolding apply_transition tick monad
  apply_transition_runs ref to reason s r e g =
      let (id, n, paid) = payment_id_for_lem to r.payment_id (record s { ticks = s.ticks + 1 }) in
      rw (e, apply_transition)
        (rw (g, paid)
          ((
            refl,
            record {
              old = r;
              new = record r { state = to; updated_at = opts.now s.ticks; payment_id = id };
              change = record {
                booking_id = r.id;
                from = r.state;
                to = to;
                at = opts.now s.ticks;
                reason = reason;
              };
              ticks = s.ticks + 1;
              minted = n;
              found = e;
              legal = g;
              new_state = refl;
              same_id = refl;
              same_tenant = refl;
              same_key = refl;
              same_pricing = refl;
              change_from = refl;
              change_to = refl;
              change_id = refl;
              effect = refl;
            },
          )))

  pub apply_transition_lem :
      (ref : ℕ) (to : BookingState) (reason : Option String) (s : State)
      → Outcome ref to s (apply_transition opts ref to reason s)
  unfolding apply_transition tick monad
  apply_transition_lem ref to reason s = elim (Option-cases (get_elem? s.records ref)) [
    | inl e ↦ inl (Fault.dangling, rw (e, apply_transition))
    | inr (r, e) ↦ elim (Bool-cases (allowed r.state to)) [
      | inr g ↦ inl (Fault.illegal_transition, rw (e, apply_transition) (rw g))
      | inl g ↦ inr (apply_transition_runs ref to reason s r e g)
    ]
  ]

  -- A property that one allowed change of a record keeps is kept by `applyTransition`.
  pub Keeps-apply_transition {ℓ} :
      (P : State → Type ℓ) (ref : ℕ) (to : BookingState) (reason : Option String)
      → ((s s' : State) → IsApplied ref to s s' → P s → P s')
      → Keeps P (apply_transition opts ref to reason)
  Keeps-apply_transition P ref to reason k = record {
    run = λ s p. elim (apply_transition_lem ref to reason s) [
      | inl (e, same) ↦ rw same p
      | inr (_, applied) ↦ k s _ applied p
    ];
  }
