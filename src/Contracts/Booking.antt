-- ===== src/Contracts/Booking.antt =====
-- packages/contracts/src/booking.ts and payment.ts: the states of a booking and of a payment, and
-- the records of the booking engine.
use booking_lumin_checkout.Base.{
  ℕ, String, Bool, true, false, ◌≡◌, refl, Option, List, [], ◌∷◌, any, arith,
}
use booking_lumin_checkout.Contracts.Money.{Money}
use booking_lumin_checkout.Contracts.Service.{Selection, PriceBreakdown}

pub data BookingState : Type 0 where
  draft pending_payment confirmed completed cancelled refunded failed : BookingState

abbrev pub booking_transitions : BookingState → List BookingState
booking_transitions BookingState.draft = BookingState.pending_payment ∷ BookingState.failed ∷ []
booking_transitions BookingState.pending_payment = BookingState.confirmed ∷ BookingState.failed ∷ []
booking_transitions BookingState.confirmed =
    BookingState.completed ∷ BookingState.cancelled ∷ BookingState.refunded ∷ []
booking_transitions BookingState.completed = BookingState.refunded ∷ []
booking_transitions BookingState.cancelled = BookingState.refunded ∷ []
booking_transitions BookingState.refunded = []
booking_transitions BookingState.failed = []

abbrev number : BookingState → ℕ
number BookingState.draft = 0
number BookingState.pending_payment = 1
number BookingState.confirmed = 2
number BookingState.completed = 3
number BookingState.cancelled = 4
number BookingState.refunded = 5
number BookingState.failed = 6

-- `===` on states.
abbrev pub state_eq : BookingState → BookingState → Bool
state_eq a b = booking_lumin_checkout.Base.nat_eq (number a) (number b)

abbrev pub allowed : BookingState → BookingState → Bool
allowed from to = any (λ s. state_eq s to) (booking_transitions from)

pub data PaymentState : Type 0 where
  requires_payment processing succeeded failed refunded partially_refunded : PaymentState

pub record PaymentIntentRef : Type 0 where
  pub intent_id : String
  pub client_token : String
  pub state : PaymentState
  pub amount : Money

pub record CustomerDetails : Type 0 where
  pub name : String
  pub email : String
  pub phone : Option String

pub record Address : Type 0 where
  pub line1 : String
  pub line2 : Option String
  pub city : String
  pub region : Option String
  pub postal_code : Option String
  pub country : String

pub record CreateBookingRequest : Type 0 where
  pub tenant_id : String
  pub idempotency_key : String
  pub selection : Selection
  pub slot_start : String
  pub customer : CustomerDetails
  pub address : Option Address
  pub notes : Option String

pub record BookingRecord : Type 0 where
  pub id : String
  pub tenant_id : String
  pub reference : String
  pub state : BookingState
  pub selection : Selection
  pub pricing : PriceBreakdown
  pub slot_start : String
  pub slot_end : String
  pub customer : CustomerDetails
  pub address : Option Address
  pub payment_id : Option String
  pub idempotency_key : String
  pub created_at : String
  pub updated_at : String

pub record BookingStateChange : Type 0 where
  pub booking_id : String
  pub from : BookingState
  pub to : BookingState
  pub at : String
  pub reason : Option String

pub state_eq_iff : (a b : BookingState) → state_eq a b ≡ true → a ≡ b
state_eq_iff a b h = ground arith
