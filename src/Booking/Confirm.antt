-- ===== src/Booking/Confirm.antt =====
-- packages/core/src/booking.ts: `confirmFromPayment`, cut in two at its `await`.
use booking_lumin_checkout.Base.{
  ℕ, String, Bool, true, false, not, ◌||◌, ◌==◌, Option, none, some, if◌then◌else◌,
}
use Prim.Native.String
use booking_lumin_checkout.Base.Int.{eq_ℤ}
use booking_lumin_checkout.Base.Dict.{get}
use booking_lumin_checkout.Contracts.Booking.{
  BookingState, state_eq, PaymentState, PaymentIntentRef,
}
use booking_lumin_checkout.Booking.Engine.{
  Fault, Options, M, ◌>>=◌, ◌>>◌, throw, done, guard, lift, read, deref, apply_transition,
  lift_result, charge_of,
}

abbrev pub is_failed : PaymentState → Bool
is_failed PaymentState.failed = true
is_failed _ = false

abbrev pub is_succeeded : PaymentState → Bool
is_succeeded PaymentState.succeeded = true
is_succeeded _ = false

module _ (opts : Options) where
  -- What `confirmFromPayment` returns at once, or waits for: a call of the provider's `getIntent`.
  pub data Confirming : Type 0 where
    already asking : ℕ → Confirming

  unfoldable pub confirm_from_payment : String → M Confirming
  confirm_from_payment intent = do
    s ← read
    id ← lift (get s.booking_by_intent intent) Fault.invalid_request
    ref ← lift (get s.bookings id) Fault.invalid_request
    r ← deref ref
    done (if state_eq r.state BookingState.confirmed then already ref else asking ref)

  -- A failed payment fails a pending booking; the caller is told in any case.
  unfoldable pub payment_failure : ℕ → BookingState → M ℕ
  payment_failure ref state =
      if state_eq state BookingState.pending_payment
      then apply_transition opts ref BookingState.failed (some "PAYMENT_FAILED")
        >> throw Fault.payment_failed
      else throw Fault.payment_failed

  unfoldable pub confirm_paid : String → ℕ → PaymentIntentRef → M ℕ
  confirm_paid id ref intent = do
    guard (not (is_succeeded intent.state)) Fault.payment_failed
    r ← deref ref
    charge ← lift_result (charge_of r.pricing) Fault.currency_mismatch
    guard
        (not (eq_ℤ intent.amount.amount charge.amount)
          || not (intent.amount.currency == charge.currency))
        Fault.payment_amount_mismatch
    guard (not (state_eq r.state BookingState.pending_payment)) Fault.illegal_transition
    apply_transition opts ref BookingState.confirmed (some (String.◌++◌ "payment_succeeded:" id))
    done ref

  -- `confirmFromPayment` once the provider has answered about the intent `id`.
  unfoldable pub intent_verified : String → ℕ → Option PaymentIntentRef → M ℕ
  intent_verified id ref none = throw Fault.invalid_request
  intent_verified id ref (some intent) = do
    r ← deref ref
    if is_failed intent.state then payment_failure ref r.state else confirm_paid id ref intent
