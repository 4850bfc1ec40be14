-- ===== src/Booking/Confirmed.antt =====
-- packages/core/src/booking.ts: a payment that has succeeded confirms its booking, and once only.
use booking_lumin_checkout.Base.{
  ℕ, ◌≡◌, refl, sym, subst, ◌∙◌, String, false, not, ◌||◌, ◌==◌, Option, none, some, eq_iff,
}
use booking_lumin_checkout.Base.Int.{eq_ℤ, eq_ℤ_iff}
use booking_lumin_checkout.Base.Result.{Result, ok, err, is_ok, ok-injective}
use mathlib.Core.Option.{some-injective}
use booking_lumin_checkout.Booking.Cases.{on_result, on_guard, on_if, on_deref}
use booking_lumin_checkout.Contracts.Money.{Money}
use booking_lumin_checkout.Contracts.Booking.{
  BookingState, state_eq, BookingRecord, PaymentIntentRef,
}
use booking_lumin_checkout.Booking.Engine.{
  Fault, Options, State, M, ◌>>◌, throw, done, continue, apply_transition, charge_of,
}
use booking_lumin_checkout.Booking.Confirm.{
  confirm_paid, is_failed, payment_failure, intent_verified,
}
use booking_lumin_checkout.Booking.Steps.{IsApplied, apply_transition_runs}
use booking_lumin_checkout.Booking.Payments.{IsPaid, IsIn}

module _ (opts : Options) where
  abbrev Confirmed : ℕ → State → Result Fault ℕ × State → Type 0
  Confirmed ref s out = (out.0 ≡ ok ref) × IsApplied ref BookingState.confirmed s out.1

  IsApplied-then :
      (m : M (Unit {0})) (ref : ℕ) (to : BookingState) (s : State)
      → ((m s).0 ≡ ok tt) × IsApplied ref to s (m s).1
      → (((m >> done ref) s).0 ≡ ok ref) × IsApplied ref to s ((m >> done ref) s).1
  unfolding ◌>>◌ done
  IsApplied-then m ref to s h = go (m s) h
    where
      go :
          (out : Result Fault (Unit {0}) × State)
          → (out.0 ≡ ok tt) × IsApplied ref to s out.1
          → ((continue out (λ _. done ref)).0 ≡ ok ref)
            × IsApplied ref to s (continue out (λ _. done ref)).1
      go (ok a, t) (_, applied) = (refl, applied)
      go (err e, t) (h, _) = absurd (cc)

  charged_test :
      (intent : PaymentIntentRef) (charge : Money)
      → intent.amount.amount ≡ charge.amount
      → intent.amount.currency ≡ charge.currency
      → (not (eq_ℤ intent.amount.amount charge.amount)
          || not (intent.amount.currency == charge.currency))
        ≡ false
  charged_test intent charge a c = rw ((eq_ℤ_iff _ _).1 a, (eq_iff _ _).1 c) refl

  -- A payment that has succeeded, for what a pending booking charges, confirms the booking: the call
  -- returns its record, which is changed to confirmed and entered into the history.
  pub paid-confirms :
      (id : String) (ref : ℕ) (intent : PaymentIntentRef) (s : State)
      → IsPaid s ref intent
      → let out = intent_verified opts id ref (some intent) s in
        (out.0 ≡ ok ref) × IsApplied ref BookingState.confirmed s out.1
  unfolding intent_verified confirm_paid
  paid-confirms id ref intent s p =
      let Q = Confirmed ref s in
      on_deref Q ref _ s (λ e. absurd (cc (p.found)))
        λ r found.
          on_if Q (is_failed intent.state) _ _ s (λ f. absurd (cc (p.succeeded)))
            λ _.
              on_guard Q _ _ _ s (λ f. absurd (cc (p.succeeded)))
                λ _.
                  on_deref Q ref _ s (λ e. absurd (cc (p.found)))
                    λ b found'.
                      let same : p.booking ≡ b = some-injective _ _ (sym p.found ∙ found') in
                      let charged : charge_of b.pricing ≡ ok p.charge =
                        subst (λ (w : BookingRecord). charge_of w.pricing ≡ ok p.charge) same
                          p.charged in
                      let pending : b.state ≡ BookingState.pending_payment =
                        subst (λ (w : BookingRecord). w.state ≡ BookingState.pending_payment) same
                          p.pending in
                      on_result Q _ _ _ s (λ m e. absurd (cc))
                        λ c e.
                          let same_charge : c ≡ p.charge = ok-injective (sym e ∙ charged) in
                          on_guard Q _ _ _ s
                            (λ f. absurd (
                              cc (
                                same_charge,
                                charged_test intent p.charge p.same_amount p.same_currency,
                              )))
                            λ _.
                              on_guard Q _ _ _ s (λ f. absurd (cc (pending)))
                                λ _.
                                  IsApplied-then
                                    (apply_transition opts ref BookingState.confirmed _) ref
                                    BookingState.confirmed s
                                    (apply_transition_runs opts ref BookingState.confirmed _ s b
                                      found' (rw pending refl))

  abbrev Unchanged : State → Result Fault ℕ × State → Type 0
  Unchanged s out = (is_ok out.0 ≡ false) × (out.1 ≡ s)

  -- A booking that is confirmed is not confirmed again: whatever the provider answers to a call that
  -- was waiting when another one confirmed it, that call throws and changes nothing.
  pub confirmed_once :
      (id : String) (ref : ℕ) (intent : Option PaymentIntentRef) (s : State)
      → IsIn s ref BookingState.confirmed
      → let out = intent_verified opts id ref intent s in (is_ok out.0 ≡ false) × (out.1 ≡ s)
  unfolding intent_verified confirm_paid payment_failure throw
  confirmed_once id ref none s c = (refl, refl)
  confirmed_once id ref (some intent) s (w, there, confirmed) =
      let Q = Unchanged s in
      on_deref Q ref _ s (λ e. (refl, refl))
        λ r found.
          let state : r.state ≡ BookingState.confirmed =
            subst (λ (b : BookingRecord). b.state ≡ BookingState.confirmed)
              (some-injective _ _ (sym there ∙ found)) confirmed in
          on_if Q (is_failed intent.state) _ _ s
            (λ _.
              on_if Q (state_eq r.state BookingState.pending_payment) _ _ s
                (λ f. absurd (cc (state))) λ _. (refl, refl))
            λ _.
              on_guard Q _ _ _ s (λ _. (refl, refl))
                λ _.
                  on_deref Q ref _ s (λ e. (refl, refl))
                    λ b found'.
                      let state' : b.state ≡ BookingState.confirmed =
                        subst (λ (x : BookingRecord). x.state ≡ BookingState.confirmed)
                          (some-injective _ _ (sym there ∙ found')) confirmed in
                      on_result Q _ _ _ s (λ m e. (refl, refl))
                        λ c e.
                          on_guard Q _ _ _ s (λ _. (refl, refl))
                            λ _.
                              on_guard Q _ _ _ s (λ _. (refl, refl)) λ pending. absurd (cc (state'))
