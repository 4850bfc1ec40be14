-- ===== src/Booking/Reservation.antt =====
-- packages/core/src/booking.ts: `createSync` as its callers see it, in its two outcomes.
use booking_lumin_checkout.Base.{
  ℕ, ◌+◌, ◌≡◌, refl, sym, ap, subst, ◌∙◌, inl, inr, String, true, false, none, some, List, [], ◌∷◌,
  ◌==◌, ◌&&◌, and-cases, ◌++◌, length, eq_iff,
}
use mathlib.Core.List.{Memᴰ}
use booking_lumin_checkout.Base.Members.{find_sound}
use booking_lumin_checkout.Contracts.Service.{Service}
use booking_lumin_checkout.Contracts.Availability.{CapacityHold}
use booking_lumin_checkout.Booking.Holds.{HoldsOf, active_holds-HoldsOf}
use booking_lumin_checkout.Base.Dict.{Dict, get, put, get-put}
use booking_lumin_checkout.Base.Result.{Result, ok, err, ok-injective}
use booking_lumin_checkout.Contracts.Booking.{BookingState, CreateBookingRequest, BookingRecord}
use booking_lumin_checkout.Booking.Engine.{Fault, Options, State, active_holds}
use booking_lumin_checkout.Booking.References.{taken, new_reference-fresh}
use booking_lumin_checkout.Booking.Create.{Quote, service_of, create_sync}
use booking_lumin_checkout.Booking.Reserve.{
  Same, IsQuoted, Reserving, booked, inserted, create_sync-cases,
}

pub get-put_same : (m : Dict ℕ) (k : String) (v : ℕ) → get (put m k v) k ≡ some v
get-put_same m k v = get-put m k k v ∙ rw ((eq_iff k k).1 refl) refl

module _ (opts : Options) where
  -- One booking more: the service is one that the engine was given, with the id that the request names
  -- and of its tenant, and active; the price is the computed one, what is charged is positive and safe;
  -- the availability engine has said, at the holds of the tenant's bookings so far, that the slot is
  -- free; and the record is pending, for the slot, selection and customer of the request, under a
  -- reference of its own, and found by its id and by the key of the request.
  pub record IsReserved (req : CreateBookingRequest) (s : State) (ref : ℕ) (s' : State)
      : Type 0 where
    pub q : Quote opts
    pub new : BookingRecord
    pub quoted : IsQuoted opts req q
    pub offered : Memᴰ q.service opts.services
    pub named : q.service.id ≡ req.selection.service_id
    pub served : q.service.tenant_id ≡ req.tenant_id
    pub holds : List CapacityHold
    pub held : HoldsOf s.records req.tenant_id s.bookings holds
    pub free :
        opts.is_slot_available
          (record {
            tenant_timezone = opts.tenant_timezone;
            service_id = q.service.id;
            duration_minutes = q.minutes;
            policy = opts.policy;
            rules = opts.rules;
            overrides = opts.overrides;
            blackouts = [];
            existing = holds;
            now = opts.now s.ticks;
            from = req.slot_start;
            to = req.slot_start;
          })
          req.slot_start
        ≡ some true
    pub at_end : ref ≡ length s.records
    pub one_more : s'.records ≡ s.records ++ (new ∷ [])
    pub pending : new.state ≡ BookingState.pending_payment
    pub of_tenant : new.tenant_id ≡ req.tenant_id
    pub of_key : new.idempotency_key ≡ req.idempotency_key
    pub chosen : new.selection ≡ req.selection
    pub for_customer : new.customer ≡ req.customer
    pub at_address : new.address ≡ req.address
    pub priced : new.pricing ≡ q.priced
    pub begins : opts.to_iso req.slot_start ≡ some new.slot_start
    pub ends : opts.end_of req.slot_start q.minutes ≡ some new.slot_end
    pub unpaid : new.payment_id ≡ none
    pub fresh : taken s.references new.reference ≡ false
    pub by_id : get s'.bookings new.id ≡ some ref
    pub by_key : get s'.by_key (opts.idem_key req.tenant_id req.idempotency_key) ≡ some ref

  -- The service that is found.
  service_of_found :
      (req : CreateBookingRequest) (v : Service)
      → service_of opts req ≡ some v
      → Memᴰ v opts.services × (v.id ≡ req.selection.service_id) × (v.tenant_id ≡ req.tenant_id)
  unfolding service_of
  service_of_found req v e =
      let (m, t) =
        find_sound
          (λ (s : Service). s.id == req.selection.service_id && s.tenant_id == req.tenant_id)
          opts.services e in
      let (i, o) = and-cases (v.id == req.selection.service_id) (v.tenant_id == req.tenant_id) t in
      (m, (eq_iff _ _).0 i, (eq_iff _ _).0 o)

  reserved :
      (req : CreateBookingRequest) (s : State) {ref : ℕ} {s' : State} {out : Result Fault ℕ × State}
      → Reserving opts req s out
      → out ≡ (ok ref, s')
      → IsReserved req s ref s'
  reserved req s (inl (e, t, o, _)) h = absurd (cc)
  reserved req s {s' = s'} (inr (q, reference, slot_start, o, quoted, free, fresh, shown)) h =
      let at_end = ok-injective (ap (λ p. p.0) (sym h ∙ o)) in
      let (offered, named, served) = service_of_found req q.service quoted.found in
      let same : s' ≡ inserted opts req q _ reference slot_start = ap (λ p. p.1) (sym h ∙ o) in
      record {
        q = q;
        new = booked opts req q (record s { ticks = s.ticks + 1 }) reference slot_start;
        quoted = quoted;
        offered = offered;
        named = named;
        served = served;
        holds = active_holds s req.tenant_id;
        held = active_holds-HoldsOf s req.tenant_id;
        free = free;
        at_end = at_end;
        one_more = ap (λ (u : State). u.records) same;
        pending = refl;
        of_tenant = refl;
        of_key = refl;
        priced = refl;
        chosen = refl;
        for_customer = refl;
        at_address = refl;
        begins = shown;
        ends = quoted.ends;
        unpaid = refl;
        fresh = new_reference-fresh opts.search_fuel s.references _ 0 fresh;
        by_id = rw at_end (
            ap (λ (u : State). get u.bookings (opts.id_factory s.minted)) same
            ∙ get-put_same s.bookings _ _);
        by_key = rw at_end (
            ap (λ (u : State). get u.by_key (opts.idem_key req.tenant_id req.idempotency_key)) same
            ∙ get-put_same s.by_key _ _);
      }

  unreserved :
      (req : CreateBookingRequest) (s : State) {e : Fault} {s' : State}
      {out : Result Fault ℕ × State}
      → Reserving opts req s out
      → out ≡ (err e, s')
      → Same s s'
  unreserved req s (inl (e, t, o, same)) h = subst (Same s) (ap (λ p. p.1) (sym o ∙ h)) same
  unreserved req s (inr (q, reference, slot_start, o, _, _, _, _)) h = absurd (cc)

  -- When `createSync` returns, it has added one booking: pending, of the active service of the tenant
  -- that the request names, for its selection, slot and customer, at the computed price, for a positive
  -- charge, in a slot that the availability engine calls free when it is given the slots of all the
  -- tenant's pending and confirmed bookings, with a new reference, and found by its id and by its
  -- idempotency key.
  pub create_sync-IsReserved :
      (req : CreateBookingRequest) (s : State) {ref : ℕ} {s' : State}
      → create_sync opts req s ≡ (ok ref, s')
      → IsReserved req s ref s'
  create_sync-IsReserved req s h = reserved req s (create_sync-cases opts req s) h

  -- When `createSync` throws, it reserves nothing: records, history and the maps by id, by key and by
  -- payment intent are as they were.
  pub create_sync_throws :
      (req : CreateBookingRequest) (s : State) {e : Fault} {s' : State}
      → create_sync opts req s ≡ (err e, s')
      → Same s s'
  create_sync_throws req s h = unreserved req s (create_sync-cases opts req s) h
