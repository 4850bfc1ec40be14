-- ===== src/Booking/Create.antt =====
-- packages/core/src/booking.ts: `createBooking`. A number refers to a record on the engine's heap.
use booking_lumin_checkout.Base.{
  ℕ, zero, suc, ◌+◌, ◌*◌, String, not, ◌&&◌, ◌||◌, ◌==◌, Option, none, some, List, [], ◌∷◌, ◌++◌,
  length, find, is_empty, or_else, if◌then◌else◌,
}
use Prim.Native.String
use booking_lumin_checkout.Base.Int.{ℤ, pos, pos_part, leb_ℤ, is_safe}
use booking_lumin_checkout.Base.Dict.{get, put, delete}
use booking_lumin_checkout.Contracts.Service.{Service, PriceBreakdown}
use booking_lumin_checkout.Contracts.Availability.{CapacityHold, AvailabilityQuery}
use booking_lumin_checkout.Contracts.Booking.{BookingState, state_eq, CreateBookingRequest}
use booking_lumin_checkout.Pricing.Lines.{is_rental}
use booking_lumin_checkout.Booking.References.{new_reference}
use booking_lumin_checkout.Base.Decimal.{decimal}
use booking_lumin_checkout.Booking.Engine.{
  Fault, Options, M, ◌>>=◌, ◌>>◌, done, guard, lift, read, write, deref, active_holds, tick, mint,
  apply_transition, lift_result, charge_of,
}

module _ (opts : Options) where
  -- The minutes of a booking.
  unfoldable pub slot_minutes : Service → Option ℤ → ℕ
  slot_minutes service periods =
      if is_rental service.archetype
      then elim service.rental [
        | none ↦ service.duration_minutes
        | some r ↦ r.period_minutes * pos_part (or_else periods (pos 1))
      ]
      else service.duration_minutes

  -- The service of a request.
  unfoldable pub service_of : CreateBookingRequest → Option Service
  service_of req =
      find (λ (s : Service). s.id == req.selection.service_id && s.tenant_id == req.tenant_id)
        opts.services

  -- `createSync` up to the availability check: the price, the duration and the end of the slot.
  pub record Quote : Type 0 where
    pub service : Service
    pub priced : PriceBreakdown
    pub minutes : ℕ
    pub slot_end : String

  unfoldable pub quote : CreateBookingRequest → M Quote
  quote req = do
    service ← lift (service_of req) Fault.service_not_found
    guard (not service.active) Fault.service_inactive
    priced ← lift_result (opts.price service req.selection) Fault.invalid_selection
    charge ← lift_result (charge_of priced) Fault.currency_mismatch
    guard (not (is_safe charge.amount) || leb_ℤ charge.amount (pos 0)) Fault.payment_amount_mismatch
    let minutes = slot_minutes service req.selection.rental_periods
    slot_end ← lift (opts.end_of req.slot_start minutes) Fault.range_error
    done (record { service = service; priced = priced; minutes = minutes; slot_end = slot_end })

  abbrev pub query_of :
      CreateBookingRequest → Quote → List CapacityHold → String → AvailabilityQuery
  query_of req q holds now = record {
    tenant_timezone = opts.tenant_timezone;
    service_id = q.service.id;
    duration_minutes = q.minutes;
    policy = opts.policy;
    rules = opts.rules;
    overrides = opts.overrides;
    blackouts = [];
    existing = holds;
    now = now;
    from = req.slot_start;
    to = req.slot_start;
  }

  unfoldable pub verify_available : CreateBookingRequest → Quote → M (Unit {0})
  verify_available req q = do
    guard (not (opts.zone_valid opts.tenant_timezone)) Fault.availability_unverifiable
    guard (is_empty opts.rules) Fault.availability_unverifiable
    s ← read
    now ← tick opts
    available ←
        lift
          (opts.is_slot_available (query_of req q (active_holds s req.tenant_id) now)
            req.slot_start)
          Fault.availability_unverifiable
    guard (not available) Fault.slot_unavailable

  -- The rest of `createSync`: the draft enters the maps and becomes pending.
  unfoldable pub insert_booking : CreateBookingRequest → Quote → M ℕ
  insert_booking req q = do
    id ← mint opts
    created_at ← tick opts
    s ← read
    reference ← lift (new_reference opts.search_fuel s.references id 0) Fault.still_searching
    write λ s'. record s' { references = reference ∷ s'.references }
    slot_start ← lift (opts.to_iso req.slot_start) Fault.range_error
    let ref = length s.records
    write λ s'. record s' {
      records =
          s'.records
          ++ (record {
            id = id;
            tenant_id = req.tenant_id;
            reference = reference;
            state = BookingState.draft;
            selection = req.selection;
            pricing = q.priced;
            slot_start = slot_start;
            slot_end = q.slot_end;
            customer = req.customer;
            address = req.address;
            payment_id = none;
            idempotency_key = req.idempotency_key;
            created_at = created_at;
            updated_at = created_at;
          }
              ∷ []);
      bookings = put s'.bookings id ref;
      by_key = put s'.by_key (opts.idem_key req.tenant_id req.idempotency_key) ref;
    }
    apply_transition opts ref BookingState.pending_payment (some "availability verified")
    done ref

  unfoldable pub create_sync : CreateBookingRequest → M ℕ
  create_sync req = do q ← quote req; verify_available req q; insert_booking req q

  -- What `createBooking` returns at once, or waits for: the promise of an earlier call with the key,
  -- the booking that such a call made, or a call of the provider's `createIntent` with a payment key.
  pub data Created : Type 0 where
    joined settled : ℕ → Created
    started : (ref : ℕ) (payment_key : String) → Created

  abbrev pub payment_key : String → ℕ → String
  payment_key key zero = key
  payment_key key (suc n) = String.◌++◌ key (String.◌++◌ "#retry" (decimal (suc n)))

  -- A new booking under a key that holds none, or a failed one that was dropped.
  unfoldable pub start_booking : CreateBookingRequest → String → M Created
  start_booking req key = do
    s ← read
    let attempt = or_else (get s.attempt_by_key key) 0
    write λ s'. record s' { attempt_by_key = put s'.attempt_by_key key (attempt + 1) }
    ref ← create_sync req
    write λ s'. record s' { pending_by_key = put s'.pending_by_key key ref }
    done (started ref (payment_key req.idempotency_key attempt))

  -- The settled booking of a key is returned, unless it has failed.
  unfoldable pub settle_or_start : CreateBookingRequest → String → ℕ → M Created
  settle_or_start req key ref = do
    r ← deref ref
    if state_eq r.state BookingState.failed
        then (write
            λ s. record s { by_key = delete s.by_key key; bookings = delete s.bookings r.id })
          >> start_booking req key
        else done (settled ref)

  -- The checks of the key, in order: a call in flight, a settled booking, or none.
  abbrev pub create_by_key : CreateBookingRequest → Option ℕ → Option ℕ → M Created
  create_by_key req (some ref) settled_ref = done (joined ref)
  create_by_key req none (some ref) =
      settle_or_start req (opts.idem_key req.tenant_id req.idempotency_key) ref
  create_by_key req none none = start_booking req (opts.idem_key req.tenant_id req.idempotency_key)

  -- `createBooking` up to its `await`.
  unfoldable pub create_booking : CreateBookingRequest → M Created
  create_booking req = do
    guard (not (opts.well_formed req)) Fault.invalid_request
    s ← read
    let key = opts.idem_key req.tenant_id req.idempotency_key
    create_by_key req (get s.pending_by_key key) (get s.by_key key)

  -- `createWithPayment` once the provider has answered: with an intent, or by a failure.
  unfoldable pub intent_answered : ℕ → Option String → M ℕ
  intent_answered ref none = do
    apply_transition opts ref BookingState.failed (some "PAYMENT_FAILED")
    done ref
  intent_answered ref (some intent) = do
    r ← deref ref
    write λ s. record s {
      booking_by_intent = put s.booking_by_intent intent r.id;
      intent_by_booking = put s.intent_by_booking r.id intent;
    }
    done ref

  -- The `finally` of `createBooking`.
  unfoldable pub release_key : String → M (Unit {0})
  release_key key = write λ s. record s { pending_by_key = delete s.pending_by_key key }
