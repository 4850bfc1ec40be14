-- ===== src/Booking/Started.antt =====
-- packages/core/src/booking.ts: a call of `createBooking` that has started a booking, and what a request
-- with its key is answered.
use booking_lumin_checkout.Base.{
  ℕ, ◌+◌, ◌≡◌, refl, sym, ap, ◌∙◌, ◌⊎◌, inl, inr, String, true, false, Option, none, some, arith,
  get_elem?, get_elem?-append_length, or_else,
}
use booking_lumin_checkout.Base.Dict.{get, put}
use booking_lumin_checkout.Base.Result.{Result, ok, err}
use booking_lumin_checkout.Contracts.Booking.{
  BookingState, state_eq, state_eq_iff, CreateBookingRequest, BookingRecord,
}
use booking_lumin_checkout.Booking.Engine.{
  Fault, Options, State, monad, ◌>>◌, write, done, continue,
}
use booking_lumin_checkout.Booking.Create.{
  create_sync, Created, start_booking, settle_or_start, create_by_key, create_booking, payment_key,
}
use booking_lumin_checkout.Booking.Cases.{on_guard, on_if, on_deref, on_read}
use booking_lumin_checkout.Booking.Payments.{IsIn}
use booking_lumin_checkout.Booking.Keys.{key_of}
use booking_lumin_checkout.Booking.Reservation.{create_sync-IsReserved, get-put_same}

module _ (opts : Options) where
  -- A booking that was started: `createSync` returned it, and then the call was put in flight.
  pub record IsStarted (req : CreateBookingRequest) (ref : ℕ) (s' : State) : Type 0 where
    pub base : State
    pub next : State
    pub valid : opts.well_formed req ≡ true
    pub made : create_sync opts req base ≡ (ok ref, next)
    pub in_flight :
        s' ≡ record next { pending_by_key = put next.pending_by_key (key_of opts req) ref }

  abbrev Starting : CreateBookingRequest → Result Fault (Created opts) × State → Type 0
  Starting req out =
      (ref : ℕ) (payment : String) (s' : State)
      → out ≡ (ok (Created.started ref payment), s')
      → IsStarted req ref s'

  start_booking-IsStarted :
      (req : CreateBookingRequest) (s : State)
      → opts.well_formed req ≡ true
      → Starting req (start_booking opts req (key_of opts req) s)
  unfolding start_booking monad
  start_booking-IsStarted req s valid ref payment s' h = go (create_sync opts req base) refl h
    where
      base : State
      base = record s {
        attempt_by_key =
            put s.attempt_by_key (key_of opts req)
              (or_else (get s.attempt_by_key (key_of opts req)) 0 + 1);
      }

      go :
          (out : Result Fault ℕ × State)
          → create_sync opts req base ≡ out
          → continue {B = Created opts} out (λ r.
            write (λ t. record t { pending_by_key = put t.pending_by_key (key_of opts req) r })
            >> done (
                Created.started r (
                  payment_key opts req.idempotency_key
                    (or_else (get s.attempt_by_key (key_of opts req)) 0))))
            ≡ (ok (Created.started ref payment), s')
          → IsStarted req ref s'
      go (ok r, t) made e =
          let same : r ≡ ref = cc in
          record {
            base = base;
            next = t;
            valid = valid;
            made = rw (← same) made;
            in_flight = ap (λ p. p.1) (sym e) ∙ rw same refl;
          }
      go (err f, t) made e = absurd (cc)

  create_by_key-IsStarted :
      (req : CreateBookingRequest) (pending settled : Option ℕ) (s : State)
      → opts.well_formed req ≡ true
      → Starting req (create_by_key opts req pending settled s)
  unfolding settle_or_start monad
  create_by_key-IsStarted req (some r) settled s valid = λ ref payment s' h. absurd (cc)
  create_by_key-IsStarted req none none s valid = start_booking-IsStarted req s valid
  create_by_key-IsStarted req none (some r) s valid =
      let Q = Starting req in
      on_deref Q r _ s (λ _ ref payment s' h. absurd (cc))
        λ b _.
          on_if Q (state_eq b.state BookingState.failed) _ _ s
            (λ _. start_booking-IsStarted req _ valid) (λ _ ref payment s' h. absurd (cc))

  pub create_booking-IsStarted :
      (req : CreateBookingRequest) (s : State) → Starting req (create_booking opts req s)
  unfolding create_booking
  create_booking-IsStarted req s =
      let Q = Starting req in
      on_guard Q _ _ _ s (λ _ ref payment s' h. absurd (cc))
        λ valid. on_read Q _ s (create_by_key-IsStarted req _ _ s (ground arith))

  -- What the key of a request holds.
  pub record IsSettled (req : CreateBookingRequest) (ref : ℕ) (s : State) : Type 0 where
    pub booking : BookingRecord
    pub settled : get s.by_key (key_of opts req) ≡ some ref
    pub there : get_elem? s.records ref ≡ some booking
    pub pending : booking.state ≡ BookingState.pending_payment

  pub IsStarted-IsSettled :
      (req : CreateBookingRequest) (ref : ℕ) (s : State) → IsStarted req ref s → IsSettled req ref s
  IsStarted-IsSettled req ref s started =
      let r = create_sync-IsReserved opts req started.base started.made in
      record {
        booking = r.new;
        settled = ap (λ (t : State). get t.by_key (key_of opts req)) started.in_flight ∙ r.by_key;
        there =
            ap (λ (t : State). get_elem? t.records ref) started.in_flight
            ∙ (rw (r.one_more, r.at_end) (get_elem?-append_length started.base.records r.new));
        pending = r.pending;
      }

  pub started_held :
      (req : CreateBookingRequest) (ref : ℕ) (s : State)
      → IsStarted req ref s
      → get s.pending_by_key (key_of opts req) ≡ some ref
  started_held req ref s started =
      ap (λ (t : State). get t.pending_by_key (key_of opts req)) started.in_flight
      ∙ get-put_same started.next.pending_by_key (key_of opts req) ref

  -- The answer to a request under the key of a booking that is in flight or is there.
  pub joins_lem :
      (req : CreateBookingRequest) (ref : ℕ) (s : State)
      → opts.well_formed req ≡ true
      → get s.pending_by_key (key_of opts req) ≡ some ref
      → create_booking opts req s ≡ (ok (Created.joined ref), s)
  unfolding create_booking monad
  joins_lem req ref s valid held = rw (valid, create_booking) (rw held refl)

  pub settles_lem :
      (req : CreateBookingRequest) (ref : ℕ) (s : State) (r : BookingRecord)
      → opts.well_formed req ≡ true
      → get s.pending_by_key (key_of opts req) ≡ none
      → get s.by_key (key_of opts req) ≡ some ref
      → get_elem? s.records ref ≡ some r
      → state_eq r.state BookingState.failed ≡ false
      → create_booking opts req s ≡ (ok (Created.settled ref), s)
  unfolding create_booking settle_or_start monad
  settles_lem req ref s r valid free settled there open_yet =
      rw (valid, create_booking) (rw free (rw settled (rw there (rw open_yet refl))))

  -- A request under the key changes nothing, unless the booking of the key has failed.
  pub again_state :
      (req : CreateBookingRequest) (ref : ℕ) (s : State)
      → get s.by_key (key_of opts req) ≡ some ref
      → (get s.pending_by_key (key_of opts req) ≡ some ref)
        ⊎ (get s.pending_by_key (key_of opts req) ≡ none)
      → IsIn s ref BookingState.failed ⊎ ((create_booking opts req s).1 ≡ s)
  unfolding create_booking settle_or_start done
  again_state req ref s settled pending =
      on_guard Q _ _ _ s (λ _. inr refl) (λ _. on_read Q _ s (by_pending pending))
    where
      Q : Result Fault (Created opts) × State → Type 0
      Q out = IsIn s ref BookingState.failed ⊎ (out.1 ≡ s)

      by_pending :
          (get s.pending_by_key (key_of opts req) ≡ some ref)
            ⊎ (get s.pending_by_key (key_of opts req) ≡ none)
          → Q (
              create_by_key opts req
                (get s.pending_by_key (key_of opts req))
                (get s.by_key (key_of opts req))
                s)
      by_pending (inl h) = rw h (inr refl)
      by_pending (inr h) =
          rw (h, settled)
            (on_deref Q ref _ s (λ _. inr refl)
              λ r there.
                on_if Q (state_eq r.state BookingState.failed) _ _ s
                  (λ e. inl (r, there, state_eq_iff _ _ e)) (λ _. inr refl))
