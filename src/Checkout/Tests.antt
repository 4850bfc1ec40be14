-- ===== src/Checkout/Tests.antt =====
-- Runs of the wizard's reducer and of its check of a selection.
use booking_lumin_checkout.Base.{
  String, Bool, true, false, ◌&&◌, ◌==◌, ◌≡◌, not, is_empty, if◌then◌else◌, ap, map, arith, eq_iff,
  and-cases, refl, Option, none, some, List, [], ◌∷◌,
}
use booking_lumin_checkout.Base.Int.{pos, eq_ℤ}
use booking_lumin_checkout.Base.Result.{is_ok}
use booking_lumin_checkout.Pricing.{additive}
use booking_lumin_checkout.Base.Dict.{get}
use booking_lumin_checkout.Contracts.Availability.{Slot}
use booking_lumin_checkout.Contracts.Booking.{
  BookingState, CustomerDetails, Address, BookingRecord, CreateBookingRequest,
}
use booking_lumin_checkout.Pricing.Tests.{pricing, cleaning, choose, cleaning_price}
use booking_lumin_checkout.Checkout.{
  CheckoutState, CheckoutAction, select_service, set_selection, set_slot, confirm_customer,
  booking_created, create_fresh_state, choose_service, invalidate_booking, has_configuration,
  checkout_reducer, validate_selection, total_quantity,
}
use booking_lumin_checkout.Checkout.Keys.{logged, Log, IsConsistent, Session, Session-IsConsistent}
use booking_lumin_checkout.Checkout.Gate.{validate_selection-accepted}

abbrev customer : CustomerDetails
customer = record { name = "Ann"; email = "ann@example.org"; phone = none }

abbrev slot_at : String → Slot
slot_at start = record { start = start; end = "later"; remaining_capacity = 1 }

-- Equality field by field.
abbrev same_optional : Option String → Option String → Bool
same_optional none none = true
same_optional (some a) (some b) = a == b
same_optional _ _ = false

abbrev same_customer : Option CustomerDetails → Option CustomerDetails → Bool
same_customer none none = true
same_customer (some c) (some d) =
    c.name == d.name && (c.email == d.email && same_optional c.phone d.phone)
same_customer _ _ = false

abbrev same_address : Option Address → Option Address → Bool
same_address none none = true
same_address (some a) (some b) =
    a.line1 == b.line1
    && (same_optional a.line2 b.line2
        && (a.city == b.city
            && (same_optional a.region b.region
                && (same_optional a.postal_code b.postal_code && a.country == b.country))))
same_address _ _ = false

abbrev same_json :
    Option CustomerDetails → Option Address → Option CustomerDetails → Option Address → Bool
same_json c a d b = same_customer c d && same_address a b

same_text_sound : (a b : Option String) → same_optional a b ≡ true → a ≡ b
same_text_sound none none h = refl
same_text_sound (some a) (some b) h = ap (λ x. some x) ((eq_iff a b).0 h)
same_text_sound none (some b) h = absurd (cc)
same_text_sound (some a) none h = absurd (cc)

same_customer_sound : (c d : Option CustomerDetails) → same_customer c d ≡ true → c ≡ d
same_customer_sound none none h = refl
same_customer_sound (some c) (some d) h =
    ground (arith, eq_iff c.name d.name, eq_iff c.email d.email, same_text_sound c.phone d.phone)
same_customer_sound none (some d) h = absurd (cc)
same_customer_sound (some c) none h = absurd (cc)

same_address_sound : (a b : Option Address) → same_address a b ≡ true → a ≡ b
same_address_sound none none h = refl
same_address_sound (some a) (some b) h = ground (
  arith,
  eq_iff a.line1 b.line1,
  same_text_sound a.line2 b.line2,
  eq_iff a.city b.city,
  same_text_sound a.region b.region,
  same_text_sound a.postal_code b.postal_code,
  eq_iff a.country b.country,
)
same_address_sound none (some b) h = absurd (cc)
same_address_sound (some a) none h = absurd (cc)

same_json-sound :
    (c : Option CustomerDetails) (a : Option Address) (d : Option CustomerDetails)
    (b : Option Address)
    → same_json c a d b ≡ true
    → (c ≡ d) × (a ≡ b)
same_json-sound c a d b h =
    let (e, f) = and-cases (same_customer c d) (same_address a b) h in
    (same_customer_sound c d e, same_address_sound a b f)

abbrev booked : BookingRecord
booked = record {
  id = "bkg_0";
  tenant_id = "t1";
  reference = "LMN-000000";
  state = BookingState.pending_payment;
  selection = choose [] ("plan" ∷ []);
  pricing = cleaning_price;
  slot_start = "ten";
  slot_end = "later";
  customer = customer;
  address = none;
  payment_id = none;
  idempotency_key = "k0";
  created_at = "now";
  updated_at = "now";
}

-- The actions of a session that books, moves to another slot and books again, each with the key that
-- would be made for it.
abbrev actions : List (String × CheckoutAction String)
actions =
    ("k1", select_service cleaning)
    ∷ ("k2", set_selection (choose [] ("plan" ∷ [])))
    ∷ ("k3", set_slot (slot_at "ten"))
    ∷ ("k4", confirm_customer customer none)
    ∷ ("k5", booking_created booked)
    ∷ ("k6", set_slot (slot_at "noon"))
    ∷ ("k7", booking_created booked)
    ∷ []

abbrev run :
    CheckoutState String → Log → List (String × CheckoutAction String) → CheckoutState String × Log
run state log [] = (state, log)
run state log ((fresh, action) ∷ rest) =
    run (checkout_reducer same_json fresh state action)
      (logged "t1" (λ s. s) same_json same_json-sound state action log) rest

reducer : Unit {0}
unfolding checkout_reducer choose_service invalidate_booking create_fresh_state has_configuration
reducer = tt

abbrev finished : CheckoutState String × Log
finished = run (create_fresh_state "k0") [] actions

-- The second request has a key of its own.
keys_test : map (λ (r : CreateBookingRequest). r.idempotency_key) finished.1 ≡ "k6" ∷ "k0" ∷ []
unfolding reducer
keys_test = refl

-- The session above.
finished-Session : Session "t1" (λ s. s) same_json same_json-sound finished.0 finished.1
unfolding reducer
finished-Session =
    Session.act
      (Session.act
        (Session.act
          (Session.act
            (Session.act
              (Session.act (Session.act (Session.start "k0") "k1" (select_service cleaning) tt) "k2"
                (set_selection (choose [] ("plan" ∷ []))) tt)
              "k3" (set_slot (slot_at "ten")) tt)
            "k4" (confirm_customer customer none) tt)
          "k5" (booking_created booked) tt)
        "k6" (set_slot (slot_at "noon")) (refl, tt))
      "k7" (booking_created booked) (refl, tt)

Session-IsConsistent_example : IsConsistent finished.1
Session-IsConsistent_example =
    Session-IsConsistent "t1" (λ s. s) same_json same_json-sound finished-Session

validate_test : validate_selection cleaning (choose [] []) [] ≡ "extras" ∷ []
unfolding validate_selection get
validate_test = refl

accepted_selection : is_ok (additive cleaning (choose ("oven" ∷ []) ("plan" ∷ []))) ≡ true
unfolding pricing
accepted_selection = refl

validate_selection-accepted_example :
    validate_selection cleaning (choose ("oven" ∷ []) ("plan" ∷ [])) [] ≡ (
      if not (is_empty cleaning.items) && eq_ℤ (total_quantity [] cleaning.items) (pos 0)
      then "items" ∷ []
      else [])
validate_selection-accepted_example =
    validate_selection-accepted cleaning (choose ("oven" ∷ []) ("plan" ∷ [])) [] accepted_selection
