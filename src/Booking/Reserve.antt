-- ===== src/Booking/Reserve.antt =====
-- packages/core/src/booking.ts: what `createSync` reserves, and that it reserves nothing where it
-- throws.
use booking_lumin_checkout.Base.{
  ℕ, ◌+◌, ◌≡◌, refl, sym, subst, ◌⊎◌, inl, inr, String, true, Option, none, some, List, [], ◌∷◌,
  ◌++◌, arith, length, Option-cases, get_elem?-append_length, set-append_length,
}
use booking_lumin_checkout.Base.Int.{pos, is_safe, ◌<ℤ◌}
use booking_lumin_checkout.Base.Dict.{put}
use booking_lumin_checkout.Base.Result.{Result, ok, err}
use booking_lumin_checkout.Contracts.Money.{Money}
use booking_lumin_checkout.Contracts.Booking.{BookingState, CreateBookingRequest, BookingRecord}
use booking_lumin_checkout.Booking.Engine.{
  Fault, Options, State, monad, done, tick, mint, payment_id_for, apply_transition, charge_of,
  active_holds,
}
use booking_lumin_checkout.Booking.Cases.{on_lift, on_result, on_guard, on_read, on_last, on_tick}
use booking_lumin_checkout.Booking.References.{new_reference}
use booking_lumin_checkout.Booking.Create.{
  service_of, slot_minutes, Quote, quote, query_of, verify_available, insert_booking, create_sync,
}

-- What the engine holds for its callers is as it was; the clock, the ids and the references that
-- were given out may have moved on.
pub record Same (s s' : State) : Type 0 where
  pub records : s'.records ≡ s.records
  pub bookings : s'.bookings ≡ s.bookings
  pub by_key : s'.by_key ≡ s.by_key
  pub pending_by_key : s'.pending_by_key ≡ s.pending_by_key
  pub history : s'.history ≡ s.history
  pub booking_by_intent : s'.booking_by_intent ≡ s.booking_by_intent
  pub intent_by_booking : s'.intent_by_booking ≡ s.intent_by_booking

module _ (opts : Options) where
  abbrev draft_of : CreateBookingRequest → Quote opts → State → String → String → BookingRecord
  draft_of req q s reference slot_start = record {
    id = opts.id_factory s.minted;
    tenant_id = req.tenant_id;
    reference = reference;
    state = BookingState.draft;
    selection = req.selection;
    pricing = q.priced;
    slot_start = slot_start;
    slot_end = q.slot_end;
    customer = req.customer;
    address = req.address;
    payment_id = none;
    idempotency_key = req.idempotency_key;
    created_at = opts.now s.ticks;
    updated_at = opts.now s.ticks;
  }

  -- The record that a request leads to.
  abbrev pub booked : CreateBookingRequest → Quote opts → State → String → String → BookingRecord
  booked req q s reference slot_start = record (draft_of req q s reference slot_start) {
    state = BookingState.pending_payment;
    updated_at = opts.now (s.ticks + 1);
  }

  abbrev pub inserted : CreateBookingRequest → Quote opts → State → String → String → State
  inserted req q s reference slot_start = record s {
    records = s.records ++ (booked req q s reference slot_start ∷ []);
    bookings = put s.bookings (opts.id_factory s.minted) (length s.records);
    by_key = put s.by_key (opts.idem_key req.tenant_id req.idempotency_key) (length s.records);
    references = reference ∷ s.references;
    history =
        s.history
        ++ (record {
          booking_id = opts.id_factory s.minted;
          from = BookingState.draft;
          to = BookingState.pending_payment;
          at = opts.now (s.ticks + 1);
          reason = some "availability verified";
        }
            ∷ []);
    ticks = s.ticks + 1 + 1;
    minted = s.minted + 1;
  }

  abbrev reference_for : State → Option String
  reference_for s = new_reference opts.search_fuel s.references (opts.id_factory s.minted) 0

  insert_booking_lem :
      (req : CreateBookingRequest) (q : Quote opts) (s : State) (reference slot_start : String)
      → reference_for s ≡ some reference
      → opts.to_iso req.slot_start ≡ some slot_start
      → insert_booking opts req q s ≡ (ok (length s.records), inserted req q s reference slot_start)
  unfolding insert_booking apply_transition payment_id_for tick mint monad
  insert_booking_lem req q s reference slot_start h e =
      rw (h, insert_booking)
        (rw (e) (
          rw (get_elem?-append_length s.records (draft_of req q s reference slot_start))
            (rw (set-append_length s.records) refl)))

  Same-refl : (s : State) → Same s s
  Same-refl s = record {
    records = refl;
    bookings = refl;
    by_key = refl;
    pending_by_key = refl;
    history = refl;
    booking_by_intent = refl;
    intent_by_booking = refl;
  }

  Same-elsewhere :
      {s t : State} {references : List String} {ticks minted : ℕ}
      → t ≡ record s { references = references; ticks = ticks; minted = minted }
      → Same s t
  Same-elsewhere {s} e = subst (Same s) (sym e) (record {
    records = refl;
    bookings = refl;
    by_key = refl;
    pending_by_key = refl;
    history = refl;
    booking_by_intent = refl;
    intent_by_booking = refl;
  })

  -- A new booking: it either throws and reserves nothing, or enters every map.
  insert_booking-cases :
      (req : CreateBookingRequest) (q : Quote opts) (s : State)
      → ((e : Fault) × (t : State) × (insert_booking opts req q s ≡ (err e, t)) × Same s t)
        ⊎ ((reference : String) × (slot_start : String) × (reference_for s ≡ some reference)
            × (opts.to_iso req.slot_start ≡ some slot_start)
            × (insert_booking opts req q s
                ≡ (ok (length s.records), inserted req q s reference slot_start)))
  unfolding insert_booking tick mint monad
  insert_booking-cases req q s = elim (Option-cases (reference_for s)) [
    | inl h ↦ inl (
      Fault.still_searching,
      _,
      rw (h, insert_booking) refl,
      Same-elsewhere {references = s.references} {ticks = s.ticks + 1} {minted = s.minted + 1} refl,
    )
    | inr (reference, h) ↦ elim (Option-cases (opts.to_iso req.slot_start)) [
      | inl e ↦ inl (
        Fault.range_error,
        _,
        rw (h, insert_booking) (rw e refl),
        Same-elsewhere {references = reference ∷ s.references} {ticks = s.ticks + 1}
            {minted = s.minted + 1} refl,
      )
      | inr (slot_start, e) ↦
          inr (reference, slot_start, h, e, insert_booking_lem req q s reference slot_start h e)
    ]
  ]

  -- The checks before: they change no state, but ask the clock once.
  pub record IsQuoted (req : CreateBookingRequest) (q : Quote opts) : Type 0 where
    pub found : service_of opts req ≡ some q.service
    pub active : q.service.active ≡ true
    pub computed : opts.price q.service req.selection ≡ ok q.priced
    pub charge : Money
    pub charged : charge_of q.priced ≡ ok charge
    pub safe : is_safe charge.amount ≡ true
    pub positive : pos 0 <ℤ charge.amount
    pub lasts : q.minutes ≡ slot_minutes opts q.service req.selection.rental_periods
    pub ends : opts.end_of req.slot_start q.minutes ≡ some q.slot_end

  -- What is known of a quote: a fault and the same state, or all that was checked.
  abbrev Quoted : CreateBookingRequest → State → Result Fault (Quote opts) × State → Type 0
  Quoted req s out =
      ((e : Fault) × (out ≡ (err e, s))) ⊎ ((q : Quote opts) × (out ≡ (ok q, s)) × IsQuoted req q)

  quote-cases : (req : CreateBookingRequest) (s : State) → Quoted req s (quote opts req s)
  unfolding quote done
  quote-cases req s =
      let Q = Quoted req s in
      on_lift Q _ _ _ s (λ _. inl (Fault.service_not_found, refl))
        λ v found.
          on_guard Q _ _ _ s (λ _. inl (Fault.service_inactive, refl))
            λ active.
              on_result Q _ _ _ s (λ r _. inl (Fault.invalid_selection r, refl))
                λ p priced.
                  on_result Q _ _ _ s (λ m _. inl (Fault.currency_mismatch m, refl))
                    λ c charged.
                      on_guard Q _ _ _ s (λ _. inl (Fault.payment_amount_mismatch, refl))
                        λ good.
                          on_lift Q _ _ _ s (λ _. inl (Fault.range_error, refl))
                            λ end ends. inr (
                              _,
                              refl,
                              record {
                                found = found;
                                active = ground arith;
                                computed = priced;
                                charge = c;
                                charged = charged;
                                safe = ground arith;
                                positive = ground arith;
                                lasts = refl;
                                ends = ends;
                              },
                            )

  abbrev Verified :
      CreateBookingRequest → Quote opts → State → Result Fault (Unit {0}) × State → Type 0
  Verified req q s out =
      ((e : Fault) × (n : ℕ) × (out ≡ (err e, record s { ticks = n })))
      ⊎ ((out ≡ (ok tt, record s { ticks = s.ticks + 1 }))
          × (opts.is_slot_available
                (query_of opts req q (active_holds s req.tenant_id) (opts.now s.ticks))
                req.slot_start
              ≡ some true))

  verify_available-cases :
      (req : CreateBookingRequest) (q : Quote opts) (s : State)
      → Verified req q s (verify_available opts req q s)
  unfolding verify_available
  verify_available-cases req q s =
      let Q = Verified req q s in
      on_guard Q _ _ _ s (λ _. inl (_, s.ticks, refl))
        λ _.
          on_guard Q _ _ _ s (λ _. inl (_, s.ticks, refl))
            λ _. on_read Q _ s (
              on_tick opts Q _ s (
                on_lift Q _ _ _ _ (λ _. inl (_, s.ticks + 1, refl))
                  λ b e.
                    on_last Q _ _ _ (λ _. inl (_, s.ticks + 1, refl))
                      λ h. inr (refl, rw e (ground arith))))

  -- What is known of `createSync`.
  abbrev pub Reserving : CreateBookingRequest → State → Result Fault ℕ × State → Type 0
  Reserving req s out =
      ((e : Fault) × (t : State) × (out ≡ (err e, t)) × Same s t)
      ⊎ ((q : Quote opts) × (reference : String) × (slot_start : String) × (out ≡ (
        ok (length s.records),
        inserted req q (record s { ticks = s.ticks + 1 }) reference slot_start,
      ))
          × IsQuoted req q
          × (opts.is_slot_available
                (query_of opts req q (active_holds s req.tenant_id) (opts.now s.ticks))
                req.slot_start
              ≡ some true)
          × (reference_for s ≡ some reference)
          × (opts.to_iso req.slot_start ≡ some slot_start))

  pub create_sync-cases :
      (req : CreateBookingRequest) (s : State) → Reserving req s (create_sync opts req s)
  unfolding create_sync monad
  create_sync-cases req s = elim (quote-cases req s) [
    | inl (e, h) ↦ inl (e, s, rw (h, create_sync) refl, Same-refl s)
    | inr (q, h, quoted) ↦ elim (verify_available-cases req q s) [
      | inl (e, n, v) ↦ inl (
        e,
        record s { ticks = n },
        rw (h, create_sync) (rw v refl),
        Same-elsewhere {references = s.references} {ticks = n} {minted = s.minted} refl,
      )
      | inr (v, free) ↦ elim (insert_booking-cases req q (record s { ticks = s.ticks + 1 })) [
        | inl (e, t, i, same) ↦ inl (e, t, rw (h, create_sync) (rw v (rw i refl)), later same)
        | inr (reference, slot_start, fresh, shown, i) ↦ inr (
          q,
          reference,
          slot_start,
          rw (h, create_sync) (rw v (rw i refl)),
          quoted,
          free,
          fresh,
          shown,
        )
      ]
    ]
  ]
    where
      later : {n : ℕ} {t : State} → Same (record s { ticks = n }) t → Same s t
      later c = record {
        records = c.records;
        bookings = c.bookings;
        by_key = c.by_key;
        pending_by_key = c.pending_by_key;
        history = c.history;
        booking_by_intent = c.booking_by_intent;
        intent_by_booking = c.intent_by_booking;
      }
