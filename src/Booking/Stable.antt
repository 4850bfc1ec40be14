-- ===== src/Booking/Stable.antt =====
-- packages/core/src/booking.ts: a property of the records and the history is kept by every operation
-- if it is kept by the changes of state that the operation makes and by a new draft.
use booking_lumin_checkout.Base.{
  ℕ, ◌≡◌, refl, String, Bool, true, false, Option, none, some, [], ◌∷◌, ◌++◌,
}
use booking_lumin_checkout.Base.Dict.{get}
use booking_lumin_checkout.Contracts.Booking.{
  BookingState, state_eq, CreateBookingRequest, BookingRecord,
}
use booking_lumin_checkout.Booking.Engine.{
  Fault, Options, State, ◌>>◌, done, guard, write, tick, mint, apply_transition, transition,
}
use booking_lumin_checkout.Booking.Create.{
  Quote, quote, verify_available, insert_booking, create_sync, start_booking, settle_or_start,
  create_by_key, create_booking, intent_answered, release_key,
}
use booking_lumin_checkout.Booking.Confirm.{confirm_from_payment, payment_failure}
use booking_lumin_checkout.Booking.Steps.{
  Keeps, Keeps-bind, Keeps-then, Keeps-refused, Keeps-if, Keeps-read, Keeps-throw, Keeps-done,
  Keeps-guard, Keeps-lift, Keeps-lift_result, Keeps-deref, IsApplied, Keeps-apply_transition,
}

pub record IsStable {ℓ} (P : State → Type ℓ) (Target : BookingState → Type 0) : Type ℓ where
  pub frame : (s s' : State) → s'.records ≡ s.records → s'.history ≡ s.history → P s → P s'
  pub change :
      (ref : ℕ) (to : BookingState) (s s' : State) → Target to → IsApplied ref to s s' → P s → P s'
  pub draft :
      (s s' : State) (r : BookingRecord)
      → r.state ≡ BookingState.draft
      → s'.records ≡ s.records ++ (r ∷ [])
      → s'.history ≡ s.history
      → P s
      → P s'

module _ {ℓ} (P : State → Type ℓ) (Target : BookingState → Type 0) (stable : IsStable P Target)
    (opts : Options) where
  Keeps-write :
      (f : State → State)
      → ((s : State) → (f s).records ≡ s.records)
      → ((s : State) → (f s).history ≡ s.history)
      → Keeps P (write f)
  unfolding write
  Keeps-write f r h = record { run = λ s p. stable.frame s (f s) (r s) (h s) p }

  Keeps-append :
      (f : State → State) (r : BookingRecord)
      → r.state ≡ BookingState.draft
      → ((s : State) → (f s).records ≡ s.records ++ (r ∷ []))
      → ((s : State) → (f s).history ≡ s.history)
      → Keeps P (write f)
  unfolding write
  Keeps-append f r d a h = record { run = λ s p. stable.draft s (f s) r d (a s) (h s) p }

  Keeps-tick : Keeps P (tick opts)
  unfolding tick
  Keeps-tick = record { run = λ s p. stable.frame s _ refl refl p }

  Keeps-mint : Keeps P (mint opts)
  unfolding mint
  Keeps-mint = record { run = λ s p. stable.frame s _ refl refl p }

  Keeps-to :
      (ref : ℕ) (to : BookingState) (reason : Option String)
      → Target to
      → Keeps P (apply_transition opts ref to reason)
  Keeps-to ref to reason target =
      Keeps-apply_transition opts P ref to reason (λ s s'. stable.change ref to s s' target)

  Keeps-quote : (req : CreateBookingRequest) → Keeps P (quote opts req)
  unfolding quote
  Keeps-quote req = Keeps-bind P (Keeps-lift P _ _) λ service. Keeps-then P (Keeps-guard P _ _) (
      Keeps-bind P (Keeps-lift_result P _ _) λ priced.
        Keeps-bind P (Keeps-lift_result P _ _) λ charge.
          Keeps-then P (Keeps-guard P _ _) (Keeps-bind P (Keeps-lift P _ _) λ _. Keeps-done P _))

  Keeps-verify_available :
      (req : CreateBookingRequest) (q : Quote opts) → Keeps P (verify_available opts req q)
  unfolding verify_available
  Keeps-verify_available req q = Keeps-then P (Keeps-guard P _ _) (
      Keeps-then P (Keeps-guard P _ _) (
        Keeps-bind P (Keeps-read P) λ s.
          Keeps-bind P Keeps-tick
            λ now. Keeps-bind P (Keeps-lift P _ _) λ available. Keeps-guard P _ _))

  -- Drafts become pending, and pending bookings may fail.
  module _ (pending : Target BookingState.pending_payment)
      (failed : Target BookingState.failed) where
    Keeps-insert_booking :
        (req : CreateBookingRequest) (q : Quote opts) → Keeps P (insert_booking opts req q)
    unfolding insert_booking
    Keeps-insert_booking req q = Keeps-bind P Keeps-mint λ id. Keeps-bind P Keeps-tick λ created_at.
        Keeps-bind P (Keeps-read P) λ s. Keeps-bind P (Keeps-lift P _ _) λ reference.
          Keeps-then P (Keeps-write _ (λ _. refl) (λ _. refl)) (
            Keeps-bind P (Keeps-lift P _ _) λ slot_start.
              Keeps-then P (Keeps-append _ _ refl (λ _. refl) (λ _. refl))
                (Keeps-then P (Keeps-to _ _ _ pending) (Keeps-done P _)))

    Keeps-create_sync : (req : CreateBookingRequest) → Keeps P (create_sync opts req)
    unfolding create_sync
    Keeps-create_sync req =
        Keeps-bind P (Keeps-quote req)
          λ q. Keeps-then P (Keeps-verify_available req q) (Keeps-insert_booking req q)

    Keeps-start_booking :
        (req : CreateBookingRequest) (key : String) → Keeps P (start_booking opts req key)
    unfolding start_booking
    Keeps-start_booking req key = Keeps-bind P (Keeps-read P) λ s.
        Keeps-then P (Keeps-write _ (λ _. refl) (λ _. refl)) (
          Keeps-bind P (Keeps-create_sync req)
            λ ref. Keeps-then P (Keeps-write _ (λ _. refl) (λ _. refl)) (Keeps-done P _))

    Keeps-settle_or_start :
        (req : CreateBookingRequest) (key : String) (ref : ℕ)
        → Keeps P (settle_or_start opts req key ref)
    unfolding settle_or_start
    Keeps-settle_or_start req key ref = Keeps-bind P (Keeps-deref P ref) λ r.
        Keeps-if P (state_eq r.state BookingState.failed)
          (Keeps-then P (Keeps-write _ (λ _. refl) (λ _. refl)) (Keeps-start_booking req key))
          (Keeps-done P _)

    pub Keeps-create_booking : (req : CreateBookingRequest) → Keeps P (create_booking opts req)
    unfolding create_booking
    Keeps-create_booking req =
        Keeps-then P (Keeps-guard P _ _)
          (Keeps-bind P (Keeps-read P) λ s. by_pending s (get s.pending_by_key _) (get s.by_key _))
      where
        by_pending : (s : State) (o o' : Option ℕ) → Keeps P (create_by_key opts req o o')
        by_pending s (some ref) o' = Keeps-done P _
        by_pending s none (some ref) = Keeps-settle_or_start req _ ref
        by_pending s none none = Keeps-start_booking req _

    pub Keeps-intent_answered :
        (ref : ℕ) (answer : Option String) → Keeps P (intent_answered opts ref answer)
    unfolding intent_answered
    Keeps-intent_answered ref none = Keeps-then P (Keeps-to _ _ _ failed) (Keeps-done P _)
    Keeps-intent_answered ref (some intent) =
        Keeps-bind P (Keeps-deref P ref)
          λ r. Keeps-then P (Keeps-write _ (λ _. refl) (λ _. refl)) (Keeps-done P _)

    pub Keeps-release_key : (key : String) → Keeps P (release_key opts key)
    unfolding release_key
    Keeps-release_key key = Keeps-write _ (λ _. refl) (λ _. refl)

    pub Keeps-confirm_from_payment : (intent : String) → Keeps P (confirm_from_payment opts intent)
    unfolding confirm_from_payment
    Keeps-confirm_from_payment intent = Keeps-bind P (Keeps-read P) λ s.
        Keeps-bind P (Keeps-lift P _ _) λ id.
          Keeps-bind P (Keeps-lift P _ _)
            λ ref. Keeps-bind P (Keeps-deref P ref) λ r. Keeps-done P _

    pub Keeps-payment_failure :
        (ref : ℕ) (state : BookingState) → Keeps P (payment_failure opts ref state)
    unfolding payment_failure
    Keeps-payment_failure ref state =
        Keeps-if P (state_eq state BookingState.pending_payment)
          (Keeps-then P (Keeps-to _ _ _ failed) (Keeps-throw P _)) (Keeps-throw P _)

  -- Any target but `confirmed` may be asked of `transition`.
  pub Keeps-transition :
      (id : String) (to : BookingState) (reason : Option String)
      → (state_eq to BookingState.confirmed ≡ false → Target to)
      → Keeps P (transition opts id to reason)
  unfolding transition
  Keeps-transition id to reason target = Keeps-bind P (Keeps-read P) λ s.
      Keeps-bind P (Keeps-lift P _ _) λ ref. by_test (state_eq to BookingState.confirmed) refl ref
    where
      by_test :
          (b : Bool)
          → state_eq to BookingState.confirmed ≡ b
          → (ref : ℕ)
          → Keeps P (
              guard b Fault.illegal_transition >> (apply_transition opts ref to reason >> done ref))
      by_test true e ref = Keeps-refused P _ _
      by_test false e ref =
          Keeps-then P (Keeps-guard P _ _)
            (Keeps-then P (Keeps-to _ _ _ (target e)) (Keeps-done P _))
