-- ===== src/Booking/Payments.antt =====
-- packages/core/src/booking.ts: only a payment that the provider reports as succeeded, for the amount
-- that the booking charges, makes a booking confirmed.
use booking_lumin_checkout.Base.{
  ℕ, ◌≡◌, refl, ap, subst, ◌⊎◌, inl, inr, String, Bool, true, false, not, ◌||◌, ◌==◌, Option, none,
  some, arith, get_elem?, Bool-cases, Option-cases, get_elem?-append, eq_iff,
}
use booking_lumin_checkout.Base.Int.{eq_ℤ, eq_ℤ_iff}
use booking_lumin_checkout.Base.Result.{Result, ok, err, Result-cases}
use booking_lumin_checkout.Contracts.Money.{Money}
use booking_lumin_checkout.Contracts.Booking.{
  BookingState, state_eq, state_eq_iff, CreateBookingRequest, BookingRecord, PaymentState,
  PaymentIntentRef,
}
use booking_lumin_checkout.Booking.Engine.{
  Fault, Options, State, M, ◌>>◌, monad, continue, done, charge_of, transition,
}
use booking_lumin_checkout.Booking.Create.{create_booking, intent_answered, release_key}
use booking_lumin_checkout.Booking.Confirm.{
  confirm_from_payment, payment_failure, confirm_paid, is_succeeded, is_failed, intent_verified,
}
use booking_lumin_checkout.Booking.Steps.{IsApplied, IsApplied-cases, Outcome, apply_transition_lem}
use booking_lumin_checkout.Booking.Stable.{
  IsStable, Keeps-create_booking, Keeps-intent_answered, Keeps-release_key, Keeps-transition,
  Keeps-confirm_from_payment, Keeps-payment_failure,
}

-- What happens to the engine, one event at a time: a request, an answer of the payment provider that
-- an operation has waited for, the end of a call, or a change asked for by a portal.
pub data Event : Type 0 where
  create : CreateBookingRequest → Event
  answered : (ref : ℕ) (intent : Option String) → Event
  release : (key : String) → Event
  change : (id : String) (to : BookingState) (reason : Option String) → Event
  confirm : (intent : String) → Event
  verified : (id : String) (ref : ℕ) (intent : Option PaymentIntentRef) → Event

unfoldable pub after : Options → Event → State → State
after opts (create req) s = (create_booking opts req s).1
after opts (answered ref intent) s = (intent_answered opts ref intent s).1
after opts (release key) s = (release_key opts key s).1
after opts (change id to reason) s = (transition opts id to reason s).1
after opts (confirm intent) s = (confirm_from_payment opts intent s).1
after opts (verified id ref intent) s = (intent_verified opts id ref intent s).1

-- A record is in a state.
abbrev pub IsIn : State → ℕ → BookingState → Type 0
IsIn s ref state = (r : BookingRecord) × (get_elem? s.records ref ≡ some r) × (r.state ≡ state)

abbrev pub ConfirmedOnly : (ℕ → Type 0) → State → Type 0
ConfirmedOnly T s = (ref : ℕ) → IsIn s ref BookingState.confirmed → T ref

abbrev NotConfirmed : BookingState → Type 0
NotConfirmed to = state_eq to BookingState.confirmed ≡ false

ConfirmedOnly-IsStable : (T : ℕ → Type 0) → IsStable (ConfirmedOnly T) NotConfirmed
ConfirmedOnly-IsStable T = record {
  frame = λ s s' e _ p ref (r, found, c). p ref (r, rw (← e) found, c);
  change = λ ref to s s' n a p i (r, found, c). elim (IsApplied-cases a found) [
    | inl (_, new) ↦ absurd (ground (arith, a.new_state))
    | inr (_, old) ↦ p i (r, old, c)
  ];
  draft = λ s s' d is_draft e _ p ref (r, found, c).
      elim (get_elem?-append s.records d ref (rw e at found)) [
        | inl old ↦ p ref (r, old, c)
        | inr new ↦ absurd (cc)
      ];
}

-- The provider's answer confirms a booking: its payment has succeeded, for what the booking charges,
-- and the booking is pending.
pub record IsPaid (s : State) (ref : ℕ) (intent : PaymentIntentRef) : Type 0 where
  pub booking : BookingRecord
  pub charge : Money
  pub succeeded : intent.state ≡ PaymentState.succeeded
  pub found : get_elem? s.records ref ≡ some booking
  pub pending : booking.state ≡ BookingState.pending_payment
  pub charged : charge_of booking.pricing ≡ ok charge
  pub same_amount : intent.amount.amount ≡ charge.amount
  pub same_currency : intent.amount.currency ≡ charge.currency

pub is_succeeded_lem : (p : PaymentState) → is_succeeded p ≡ true → p ≡ PaymentState.succeeded
is_succeeded_lem PaymentState.succeeded h = refl
is_succeeded_lem _ h = absurd (cc)

both_hold : (a b : Bool) → (not a || not b) ≡ false → (a ≡ true) × (b ≡ true)
both_hold a b h = ground arith

continue_state :
    (out : Result Fault (Unit {0}) × State) (ref : ℕ) → (continue out (λ _. done ref)).1 ≡ out.1
unfolding done
continue_state (ok a, s) ref = refl
continue_state (err e, s) ref = refl

pub then_state : (m : M (Unit {0})) (ref : ℕ) (s : State) → ((m >> done ref) s).1 ≡ (m s).1
unfolding ◌>>◌
then_state m ref s = continue_state (m s) ref

module _ (opts : Options) where
  -- Either the state stays, or the booking is paid and its record changes.
  abbrev PaidOr : State → ℕ → PaymentIntentRef → State → Type 0
  PaidOr s ref intent s' =
      (s' ≡ s) ⊎ (IsPaid s ref intent × IsApplied ref BookingState.confirmed s s')

  PaidOr-apply :
      {s : State} {ref : ℕ} {intent : PaymentIntentRef} {out : Result Fault (Unit {0}) × State}
      → IsPaid s ref intent
      → Outcome ref BookingState.confirmed s out
      → PaidOr s ref intent out.1
  PaidOr-apply p (inl (e, same)) = inl (ap (λ (o : Result Fault (Unit {0}) × State). o.1) same)
  PaidOr-apply p (inr (_, applied)) = inr (p, applied)

  confirm_paid_lem :
      (id : String) (ref : ℕ) (intent : PaymentIntentRef) (s : State)
      → PaidOr s ref intent (confirm_paid opts id ref intent s).1
  unfolding confirm_paid monad
  confirm_paid_lem id ref intent s = elim (Bool-cases (is_succeeded intent.state)) [
    | inr e ↦ inl (rw (e, confirm_paid))
    | inl paid ↦ elim (Option-cases (get_elem? s.records ref)) [
      | inl e ↦ inl (rw (paid, confirm_paid) (rw e))
      | inr (r, found) ↦ elim (Result-cases (charge_of r.pricing)) [
        | inr (e, bad) ↦ inl (rw (paid, confirm_paid) (rw (found, bad)))
        | inl (charge, charged) ↦
            elim (Bool-cases (
              not (eq_ℤ intent.amount.amount charge.amount)
              || not (intent.amount.currency == charge.currency))) [
                | inl e ↦ inl (rw (paid, confirm_paid) (rw (found, charged, e)))
                | inr same ↦ elim (Bool-cases (state_eq r.state BookingState.pending_payment)) [
                  | inr e ↦ inl (rw (paid, confirm_paid) (rw (found, charged, same, e)))
                  | inl pending ↦
                      rw (paid, confirm_paid)
                        (rw (found, charged, same, pending)
                          (rw (then_state _ ref s) (
                            PaidOr-apply
                              (record {
                                booking = r;
                                charge = charge;
                                succeeded = is_succeeded_lem intent.state paid;
                                found = found;
                                pending = state_eq_iff _ _ pending;
                                charged = charged;
                                same_amount =
                                    (eq_ℤ_iff _ _).0
                                      (both_hold _ (intent.amount.currency == charge.currency)
                                        same).0;
                                same_currency =
                                    (eq_iff _ _).0
                                      (both_hold (eq_ℤ intent.amount.amount charge.amount) _
                                        same).1;
                              })
                              (apply_transition_lem opts ref BookingState.confirmed _ s))))
                ]
              ]
      ]
    ]
  ]

  -- The answer of the provider changes nothing, or fails a booking, or is paid.
  intent_verified_lem :
      (id : String) (ref : ℕ) (intent : PaymentIntentRef) (s : State)
      → let s' = (intent_verified opts id ref (some intent) s).1 in
        ((state : BookingState) × (s' ≡ (payment_failure opts ref state s).1))
        ⊎ PaidOr s ref intent s'
  unfolding intent_verified monad
  intent_verified_lem id ref intent s = elim (Option-cases (get_elem? s.records ref)) [
    | inl e ↦ inr (inl (rw (e, intent_verified)))
    | inr (r, found) ↦ elim (Bool-cases (is_failed intent.state)) [
      | inl f ↦ inl (r.state, rw (found, intent_verified) (rw f))
      | inr f ↦ inr (rw (found, intent_verified) (rw f (confirm_paid_lem id ref intent s)))
    ]
  ]

  abbrev pub Was : State → State → Type 0
  Was s = ConfirmedOnly (λ i. IsIn s i BookingState.confirmed)

  Was-IsStable : (s : State) → IsStable (Was s) NotConfirmed
  Was-IsStable s = ConfirmedOnly-IsStable (λ i. IsIn s i BookingState.confirmed)

  abbrev pub Confirms : Event → State → ℕ → Type 0
  Confirms e s ref =
      (id : String) × (intent : PaymentIntentRef) × (e ≡ verified id ref (some intent))
      × IsPaid s ref intent

  verified-confirmed :
      (id : String) (r : ℕ) (intent : PaymentIntentRef) (s : State) (ref : ℕ)
      → IsIn (intent_verified opts id r (some intent) s).1 ref BookingState.confirmed
      → IsIn s ref BookingState.confirmed ⊎ Confirms (verified id r (some intent)) s ref
  verified-confirmed id r intent s ref c = elim (intent_verified_lem id r intent s) [
    | inl (state, e) ↦ inl (
        (Keeps-payment_failure _ _ (Was-IsStable s) opts refl refl r state).run s (λ i h. h) ref
          (subst (λ u. IsIn u ref BookingState.confirmed) e c))
    | inr (inl e) ↦ inl (subst (λ u. IsIn u ref BookingState.confirmed) e c)
    | inr (inr (paid, applied)) ↦ elim (IsApplied-cases applied c.1) [
      | inr (_, old) ↦ inl (c.0, old, c.2)
      | inl (same, _) ↦ inr (
        id,
        intent,
        ap (λ n. verified id n (some intent)) same,
        subst (λ n. IsPaid s n intent) same paid,
      )
    ]
  ]

  verified_none :
      (id : String) (r : ℕ) (s : State) (ref : ℕ)
      → IsIn (intent_verified opts id r none s).1 ref BookingState.confirmed
      → IsIn s ref BookingState.confirmed
  unfolding intent_verified monad
  verified_none id r s ref c = c

  -- A record that is confirmed after an event was so before it, or the event is the provider's answer
  -- that the payment of this very record, then pending, has succeeded, for the total and the deposit
  -- that the record charges and in its currency.
  pub after-confirmed :
      (e : Event) (s : State) (ref : ℕ)
      → IsIn (after opts e s) ref BookingState.confirmed
      → IsIn s ref BookingState.confirmed ⊎ Confirms e s ref
  unfolding after
  after-confirmed (create req) s ref c =
      inl ((Keeps-create_booking _ _ (Was-IsStable s) opts refl refl req).run s (λ i h. h) ref c)
  after-confirmed (answered r intent) s ref c =
      inl (
        (Keeps-intent_answered _ _ (Was-IsStable s) opts refl refl r intent).run s (λ i h. h) ref c)
  after-confirmed (release key) s ref c =
      inl ((Keeps-release_key _ _ (Was-IsStable s) opts refl refl key).run s (λ i h. h) ref c)
  after-confirmed (change id to reason) s ref c =
      inl
        ((Keeps-transition _ _ (Was-IsStable s) opts id to reason (λ n. n)).run s (λ i h. h) ref c)
  after-confirmed (confirm intent) s ref c = inl (
      (Keeps-confirm_from_payment _ _ (Was-IsStable s) opts refl refl intent).run s (λ i h. h) ref
        c)
  after-confirmed (verified id r none) s ref c = inl (verified_none id r s ref c)
  after-confirmed (verified id r (some intent)) s ref c = verified-confirmed id r intent s ref c
