-- ===== src/Booking/Asking.antt =====
-- packages/core/src/booking.ts: the calls of `confirmFromPayment`, each from its question to the payment
-- provider to the answer, among everything else that happens to the engine.
use booking_lumin_checkout.Base.{ℕ, ◌≡◌, String, false, Option, some, List, [], ◌∷◌, get_elem?}
use mathlib.Core.List.{Memᴰ}
use booking_lumin_checkout.Base.Dict.{get}
use booking_lumin_checkout.Base.Result.{Result, ok}
use booking_lumin_checkout.Contracts.Booking.{
  BookingState, state_eq, BookingRecord, PaymentIntentRef,
}
use booking_lumin_checkout.Booking.Engine.{Options, State}
use booking_lumin_checkout.Booking.Confirm.{Confirming, confirm_from_payment}
use booking_lumin_checkout.Booking.Payments.{Event, after, IsPaid}

-- A call that waits for the provider's `getIntent`: the intent that it was called with, the record
-- that it goes on with, and the state that it was called in.
pub record Asked : Type 0 where
  pub intent : String
  pub ref : ℕ
  pub at : State

-- The maps named the record for the intent, and it was not confirmed.
pub record IsNamed (asked : Asked) : Type 0 where
  pub id : String
  pub booking : BookingRecord
  pub by_intent : get asked.at.booking_by_intent asked.intent ≡ some id
  pub by_id : get asked.at.bookings id ≡ some asked.ref
  pub there : get_elem? asked.at.records asked.ref ≡ some booking
  pub unpaid : state_eq booking.state BookingState.confirmed ≡ false

-- Everything but an answer of `getIntent`.
abbrev IsOther : Event → Type 0
IsOther (Event.verified id ref intent) = ⊥
IsOther _ = Unit

module _ (opts : Options) where
  -- What the engine reaches from a state, with the calls that have asked the provider: any events in
  -- any order, but an answer of `getIntent` only to a call that has asked, and for its intent and its
  -- record.
  pub data Serving (first : State) : State → List Asked → Type 0 where
    start : Serving first first []
    event :
        {s : State} {calls : List Asked}
        → Serving first s calls
        → (e : Event) → IsOther e
        → Serving first (after opts e s) calls
    ask :
        {s : State} {calls : List Asked}
        → Serving first s calls
        → (intent : String) {ref : ℕ}
        → (confirm_from_payment opts intent s).0 ≡ ok (Confirming.asking ref)
        → Serving first
            (after opts (Event.confirm intent) s)
            (record { intent = intent; ref = ref; at = s } ∷ calls)
    answer :
        {s : State} {calls : List Asked}
        → Serving first s calls
        → (call : Asked) → Memᴰ call calls
        → (intent : Option PaymentIntentRef)
        → Serving first (after opts (Event.verified call.intent call.ref intent) s) calls

  -- The provider has answered a call that asked about the record: its payment has succeeded, for what
  -- the record charges, and the record was pending then.
  pub record WasPaid (first : State) (ref : ℕ) : Type 0 where
    pub calls : List Asked
    pub later : State
    pub served : Serving first later calls
    pub call : Asked
    pub asked : Memᴰ call calls
    pub named : IsNamed call
    pub same : call.ref ≡ ref
    pub intent : PaymentIntentRef
    pub paid : IsPaid later ref intent
