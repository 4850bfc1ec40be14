-- ===== src/Booking/Tests.antt =====
-- Runs of the booking engine, and its properties at a concrete engine with one booking.
use Prim.Native.String
use booking_lumin_checkout.Base.{
  ℕ, ◌+◌, ◌≡◌, refl, true, false, ◌⊎◌, none, some, List, [], ◌∷◌, get_elem?, nat_eq, if◌then◌else◌,
  arith,
}
use booking_lumin_checkout.Base.Int.{pos, ◌+ℤ◌}
use booking_lumin_checkout.Base.Dict.{get, put, delete}
use booking_lumin_checkout.Base.Result.{ok, err, is_ok}
use booking_lumin_checkout.Contracts.Money.{money, add_money}
use booking_lumin_checkout.Contracts.Booking.{
  BookingState, CreateBookingRequest, BookingRecord, PaymentState, PaymentIntentRef,
}
use booking_lumin_checkout.Pricing.Tests.{cleaning, choose, cleaning_price}
use booking_lumin_checkout.Booking.Engine.{
  Fault, Options, State, monad, tick, mint, payment_id_for, apply_transition, transition,
  active_holds,
}
use booking_lumin_checkout.Base.Decimal.{decimal, decimal_from}
use booking_lumin_checkout.Booking.References.{
  new_reference, reference_at, crockford6, tiny_hash, hash_from, crockford_digits,
  new_reference_total, IsFirstFree,
}
use booking_lumin_checkout.Booking.Create.{
  slot_minutes, service_of, quote, verify_available, insert_booking, create_sync, Created,
  start_booking, settle_or_start, create_booking, intent_answered, release_key,
}
use booking_lumin_checkout.Booking.Confirm.{
  confirm_from_payment, payment_failure, confirm_paid, intent_verified,
}
use booking_lumin_checkout.Booking.Steps.{IsApplied}
use booking_lumin_checkout.Booking.Payments.{Event, after, IsIn, IsPaid}
use booking_lumin_checkout.Booking.Asking.{Asked}
use booking_lumin_checkout.Booking.Confirmed.{paid-confirms, confirmed_once}
use booking_lumin_checkout.Booking.Lifecycle.{
  run, LegalHistory, run-LegalHistory, Evolves, run-Evolves, run_over,
}
use booking_lumin_checkout.Booking.Reserve.{Same}
use booking_lumin_checkout.Booking.Reservation.{
  IsReserved, create_sync-IsReserved, create_sync_throws,
}
use booking_lumin_checkout.Booking.Requests.{create_booking_joins, create_booking_settled}

-- All that the engine computes with.
engine : Unit {0}
unfolding monad tick mint payment_id_for apply_transition transition active_holds slot_minutes
    service_of quote verify_available insert_booking create_sync start_booking settle_or_start
    create_booking intent_answered release_key confirm_from_payment payment_failure confirm_paid
    intent_verified new_reference reference_at crockford6 tiny_hash hash_from crockford_digits
    decimal decimal_from get put delete add_money ◌+ℤ◌ after run
engine = tt

-- An engine whose slots are free as long as no booking is active.
abbrev options : Options
options = record {
  services = cleaning ∷ [];
  rules =
      record {
        service_id = none;
        weekday = 1;
        start_minute = 540;
        end_minute = 1020;
        capacity = 1;
        effective_from = none;
        effective_to = none;
      }
      ∷ [];
  overrides = [];
  policy = record { lead_time_minutes = 0; horizon_days = 30; slot_interval_minutes = 30 };
  tenant_timezone = "UTC";
  price = λ service selection. ok cleaning_price;
  is_slot_available = λ query start. elim query.existing [ [] ↦ some true | _ ∷ _ ↦ some false ];
  now = λ n. "2026-03-01T09:00:00.000Z";
  id_factory = λ n. if nat_eq n 0 then "bkg_0" else "bkg_1";
  well_formed = λ req. true;
  zone_valid = λ zone. true;
  end_of = λ start minutes. some "2026-03-02T11:00:00.000Z";
  to_iso = λ start. some start;
  idem_key = λ tenant key. String.◌++◌ tenant (String.◌++◌ ":" key);
  search_fuel = 3;
}

abbrev request : CreateBookingRequest
request = record {
  tenant_id = "t1";
  idempotency_key = "key_1";
  selection = choose ("oven" ∷ []) ("plan" ∷ []);
  slot_start = "2026-03-02T10:00:00.000Z";
  customer = record { name = "Ada"; email = "ada@example.com"; phone = none };
  address = none;
  notes = none;
}

abbrev empty : State
empty = record {
  records = [];
  bookings = [];
  by_key = [];
  pending_by_key = [];
  history = [];
  booking_by_intent = [];
  intent_by_booking = [];
  attempt_by_key = [];
  references = [];
  ticks = 0;
  minted = 0;
}

made : create_sync options request empty ≡ (ok 0, (create_sync options request empty).1)
unfolding engine
made = refl

create_sync-IsReserved_example :
    IsReserved options request empty 0 (create_sync options request empty).1
create_sync-IsReserved_example = create_sync-IsReserved options request empty made

abbrev booking : BookingRecord
booking = record {
  id = "bkg_0";
  tenant_id = "t1";
  reference = "LMN-000000";
  state = BookingState.pending_payment;
  selection = request.selection;
  pricing = cleaning_price;
  slot_start = "2026-03-02T10:00:00.000Z";
  slot_end = "2026-03-02T11:00:00.000Z";
  customer = request.customer;
  address = none;
  payment_id = none;
  idempotency_key = "key_0";
  created_at = "2026-03-01T09:00:00.000Z";
  updated_at = "2026-03-01T09:00:00.000Z";
}

-- The slot of the request is taken.
abbrev held : State
held = record empty {
  records = booking ∷ [];
  bookings = ("bkg_0", 0) ∷ [];
  by_key = ("t1:key_0", 0) ∷ [];
  booking_by_intent = ("pi_0", "bkg_0") ∷ [];
}

refused : create_sync options request held ≡ (err Fault.slot_unavailable, record held { ticks = 1 })
unfolding engine
refused = refl

create_sync_throws_example : Same held (record held { ticks = 1 })
create_sync_throws_example = create_sync_throws options request held refused

abbrev in_flight : State
in_flight = (create_booking options request empty).1

started : create_booking options request empty ≡ (ok (Created.started 0 "key_1"), in_flight)
unfolding engine
started = refl

-- Another slot under the same key, and what happens before it is asked for.
abbrev other_slot : CreateBookingRequest
other_slot = record request { slot_start = "2026-03-02T11:00:00.000Z" }

abbrev waiting : List Event
waiting = Event.answered 0 (some "pi_1") ∷ Event.create request ∷ []

create_booking_joins_example :
    create_booking options other_slot (run options waiting in_flight)
    ≡ (ok (Created.joined 0), run options waiting in_flight)
unfolding engine
create_booking_joins_example =
    create_booking_joins options request other_slot empty started waiting (refl, (refl, tt)) refl
      refl

-- The provider answers, the call ends, and the payment is asked for.
abbrev settling : List Event
settling = Event.answered 0 (some "pi_1") ∷ Event.release "t1:key_1" ∷ Event.confirm "pi_1" ∷ []

abbrev settled_booking : BookingRecord
settled_booking = record booking { reference = "LMN-JJ8Z9Y"; idempotency_key = "key_1" }

create_booking_settled_example :
    (create_booking options other_slot (run options settling in_flight)
      ≡ (ok (Created.joined 0), run options settling in_flight))
    ⊎ (create_booking options other_slot (run options settling in_flight)
        ≡ (ok (Created.settled 0), run options settling in_flight))
unfolding engine
create_booking_settled_example =
    create_booking_settled options request other_slot empty started settling settled_booking refl
      refl refl refl

abbrev intent : PaymentIntentRef
intent = record {
  intent_id = "pi_0";
  client_token = "secret";
  state = PaymentState.succeeded;
  amount = money (pos 18_673) "USD";
}

paid : IsPaid held 0 intent
unfolding engine
paid = record {
  booking = booking;
  charge = money (pos 18_673) "USD";
  succeeded = refl;
  found = refl;
  pending = refl;
  charged = refl;
  same_amount = refl;
  same_currency = refl;
}

abbrev after_payment : State
after_payment = (intent_verified options "pi_0" 0 (some intent) held).1

paid-confirms_example :
    ((intent_verified options "pi_0" 0 (some intent) held).0 ≡ ok 0)
    × IsApplied 0 BookingState.confirmed held after_payment
paid-confirms_example = paid-confirms options "pi_0" 0 intent held paid

-- The record that the payment confirms.
abbrev confirmed_booking : BookingRecord
confirmed_booking = record booking { state = BookingState.confirmed; payment_id = some "bkg_0" }

now_confirmed : IsIn after_payment 0 BookingState.confirmed
unfolding engine
now_confirmed = (confirmed_booking, refl, refl)

abbrev answer : Event
answer = Event.verified "pi_0" 0 (some intent)

abbrev call : Asked
call = record { intent = "pi_0"; ref = 0; at = held }

confirmed_once_example :
    (is_ok (intent_verified options "pi_0" 0 (some intent) after_payment).0 ≡ false)
    × ((intent_verified options "pi_0" 0 (some intent) after_payment).1 ≡ after_payment)
confirmed_once_example = confirmed_once options "pi_0" 0 (some intent) after_payment now_confirmed

-- A second request, the payment, and a refund.
abbrev events : List Event
events =
    Event.create request ∷ answer ∷ Event.change "bkg_0" BookingState.refunded (some "rain") ∷ []

run-LegalHistory_example : LegalHistory (run options events held)
run-LegalHistory_example = run-LegalHistory options events held tt

run-Evolves_example : Evolves held (run options events held)
run-Evolves_example = run-Evolves options events held

abbrev refunded : BookingRecord
refunded = record booking { state = BookingState.refunded }

run_over_example :
    (new : BookingRecord) × (get_elem?
        (run options events (record held { records = refunded ∷ [] })).records
        0
      ≡ some new)
    × (new.state ≡ BookingState.refunded)
run_over_example =
    run_over options events (record held { records = refunded ∷ [] }) 0 refunded refl refl

new_reference_total_example :
    (n : ℕ) × (new_reference 2 ("LMN-000000" ∷ []) "bkg_0" 0 ≡ some (reference_at "bkg_0" (0 + n)))
    × IsFirstFree ("LMN-000000" ∷ []) "bkg_0" 0 n
unfolding engine
new_reference_total_example =
    new_reference_total 2 ("LMN-000000" ∷ []) "bkg_0" 0 0 (omega arith) refl
