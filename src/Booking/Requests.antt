-- ===== src/Booking/Requests.antt =====
-- packages/core/src/booking.ts: `createBooking` called again with the idempotency key of an earlier
-- call.
use booking_lumin_checkout.Base.{
  ℕ, ◌≡◌, refl, sym, subst, ◌∙◌, ◌⊎◌, inl, inr, String, Bool, true, false, ◌==◌, List, [], ◌∷◌, All,
  Bool-cases, none, some, arith, get_elem?, eq_iff,
}
use booking_lumin_checkout.Base.Dict.{get, get-delete}
use booking_lumin_checkout.Base.Result.{Result, ok}
use booking_lumin_checkout.Contracts.Booking.{
  BookingState, state_eq, CreateBookingRequest, BookingRecord,
}
use booking_lumin_checkout.Booking.Engine.{Fault, Options, State, write, done}
use booking_lumin_checkout.Booking.Create.{Created, create_booking, release_key}
use booking_lumin_checkout.Booking.Cases.{on_guard, on_read}
use booking_lumin_checkout.Booking.Started.{
  create_booking-IsStarted, IsStarted-IsSettled, started_held, joins_lem, settles_lem, again_state,
}
use mathlib.Core.Option.{some-injective}
use booking_lumin_checkout.Booking.Payments.{Event, after, IsIn}
use booking_lumin_checkout.Booking.Lifecycle.{run, run_over}
use booking_lumin_checkout.Booking.Keys.{key_of, is_about, after-Holds}

module _ (opts : Options) where
  -- The end of a call with the key.
  abbrev pub is_release : String → Event → Bool
  is_release key (Event.release released) = released == key
  is_release key _ = false

  -- What the maps hold under the key of a booking, as long as no call with it ends.
  abbrev InFlight : String → ℕ → State → Type 0
  InFlight key ref s = (get s.by_key key ≡ some ref) × (get s.pending_by_key key ≡ some ref)

  in_flight_state :
      (req : CreateBookingRequest) (ref : ℕ) (s : State)
      → get s.pending_by_key (key_of opts req) ≡ some ref
      → (create_booking opts req s).1 ≡ s
  unfolding create_booking done
  in_flight_state req ref s held =
      on_guard Q _ _ _ s (λ _. refl) (λ _. on_read Q _ s (rw held refl))
    where
      Q : Result Fault (Created opts) × State → Type 0
      Q out = out.1 ≡ s

  after-InFlight :
      (key : String) (ref : ℕ) (e : Event) (s : State)
      → is_release key e ≡ false
      → InFlight key ref s
      → InFlight key ref (after opts e s)
  unfolding after
  after-InFlight key ref e s n h = elim (Bool-cases (is_about opts key e)) [
    | inr other ↦ after-Holds opts key (some ref) (some ref) e s other h
    | inl about ↦ by_event e n about
  ]
    where
      by_event :
          (e : Event)
          → is_release key e ≡ false
          → is_about opts key e ≡ true
          → InFlight key ref (after opts e s)
      by_event (Event.create req) n about =
          let same = (eq_iff (key_of opts req) key).0 about in
          let still =
            in_flight_state req ref s
              (subst (λ k. get s.pending_by_key k ≡ some ref) (sym same) h.1) in
          subst (InFlight key ref) (sym still) h
      by_event (Event.release released) n about = absurd (cc)
      by_event (Event.answered _ _) n about = absurd (cc)
      by_event (Event.change _ _ _) n about = absurd (cc)
      by_event (Event.confirm _) n about = absurd (cc)
      by_event (Event.verified _ _ _) n about = absurd (cc)

  run-InFlight :
      (key : String) (ref : ℕ) (es : List Event) (s : State)
      → All (λ e. is_release key e ≡ false) es
      → InFlight key ref s
      → InFlight key ref (run opts es s)
  unfolding run
  run-InFlight key ref [] s n h = h
  run-InFlight key ref (e ∷ es) s (n, later) h =
      run-InFlight key ref es (after opts e s) later (after-InFlight key ref e s n h)

  -- While the call that started a booking waits for the payment provider, that is until it releases
  -- its key, and whatever else happens: any valid request with the same key, of the same customer or
  -- not, for the same slot or not, joins that call, and changes nothing.
  pub create_booking_joins :
      (req req' : CreateBookingRequest) (s : State) {ref : ℕ} {payment : String} {s' : State}
      → create_booking opts req s ≡ (ok (Created.started ref payment), s')
      → (es : List Event) → All (λ e. is_release (key_of opts req) e ≡ false) es
      → key_of opts req' ≡ key_of opts req
      → opts.well_formed req' ≡ true
      → create_booking opts req' (run opts es s') ≡ (ok (Created.joined ref), run opts es s')
  create_booking_joins req req' s {ref} {payment} {s'} h es n same valid =
      let started = create_booking-IsStarted opts req s ref payment s' h in
      let x = IsStarted-IsSettled opts req ref s' started in
      let held =
        run-InFlight (key_of opts req) ref es s' n
          (x.settled, started_held opts req ref s' started) in
      joins_lem opts req' ref (run opts es s') valid
        (subst (λ k. get (run opts es s').pending_by_key k ≡ some ref) (sym same) held.1)

  -- The booking has failed, or the key still holds it, in flight or not.
  abbrev Stays : String → ℕ → State → Type 0
  Stays key ref s =
      IsIn s ref BookingState.failed
      ⊎ ((get s.by_key key ≡ some ref)
          × ((get s.pending_by_key key ≡ some ref) ⊎ (get s.pending_by_key key ≡ none)))

  failed_after :
      (e : Event) (s : State) (ref : ℕ)
      → IsIn s ref BookingState.failed
      → IsIn (after opts e s) ref BookingState.failed
  unfolding run
  failed_after e s ref (r, there, failed) =
      let (new, found, same) = run_over opts (e ∷ []) s ref r there (rw failed refl) in
      (new, found, same ∙ failed)

  after-Stays :
      (key : String) (ref : ℕ) (e : Event) (s : State)
      → Stays key ref s
      → Stays key ref (after opts e s)
  unfolding after release_key write
  after-Stays key ref e s (inl failed) = inl (failed_after e s ref failed)
  after-Stays key ref e s (inr (settled, pending)) = elim (Bool-cases (is_about opts key e)) [
    | inr other ↦ elim pending [
      | inl p ↦
          let (h, k) = after-Holds opts key (some ref) (some ref) e s other (settled, p) in
          inr (h, inl k)
      | inr p ↦
          let (h, k) = after-Holds opts key (some ref) none e s other (settled, p) in inr (h, inr k)
    ]
    | inl about ↦ by_event e about
  ]
    where
      stays_same : (t : State) → t ≡ s → Stays key ref t
      stays_same t e = inr (rw e (settled, pending))

      Pending : String → Type 0
      Pending k = (get s.pending_by_key k ≡ some ref) ⊎ (get s.pending_by_key k ≡ none)

      again :
          (req : CreateBookingRequest)
          → key_of opts req ≡ key
          → Stays key ref (after opts (Event.create req) s)
      again req same =
          elim (again_state opts req ref s
            (subst (λ k. get s.by_key k ≡ some ref) (sym same) settled)
            (subst Pending (sym same) pending)) [
              | inl failed ↦ inl (failed_after (Event.create req) s ref failed)
              | inr still ↦ stays_same _ still
            ]

      by_event : (e : Event) → is_about opts key e ≡ true → Stays key ref (after opts e s)
      by_event (Event.create req) about = again req ((eq_iff (key_of opts req) key).0 about)
      by_event (Event.release released) about =
          inr (settled, inr (get-delete s.pending_by_key released key ∙ rw about refl))
      by_event (Event.answered _ _) about = absurd (cc)
      by_event (Event.change _ _ _) about = absurd (cc)
      by_event (Event.confirm _) about = absurd (cc)
      by_event (Event.verified _ _ _) about = absurd (cc)

  run-Stays :
      (key : String) (ref : ℕ) (es : List Event) (s : State)
      → Stays key ref s
      → Stays key ref (run opts es s)
  unfolding run
  run-Stays key ref [] s h = h
  run-Stays key ref (e ∷ es) s h = run-Stays key ref es (after opts e s) (after-Stays key ref e s h)

  -- After a call has started a booking and whatever happens then, the end of the call included: as
  -- long as that booking has not failed, any valid request with the same key joins the call or is
  -- given that very booking, and changes nothing.
  pub create_booking_settled :
      (req req' : CreateBookingRequest) (s : State) {ref : ℕ} {payment : String} {s' : State}
      → create_booking opts req s ≡ (ok (Created.started ref payment), s')
      → (es : List Event) (r : BookingRecord) → get_elem? (run opts es s').records ref ≡ some r
      → state_eq r.state BookingState.failed ≡ false
      → key_of opts req' ≡ key_of opts req
      → opts.well_formed req' ≡ true
      → (create_booking opts req' (run opts es s') ≡ (ok (Created.joined ref), run opts es s'))
        ⊎ (create_booking opts req' (run opts es s') ≡ (ok (Created.settled ref), run opts es s'))
  create_booking_settled req req' s {ref} {payment} {s'} h es r there open_yet same valid =
      let started = create_booking-IsStarted opts req s ref payment s' h in
      let x = IsStarted-IsSettled opts req ref s' started in
      let t = run opts es s' in
      elim (run-Stays (key_of opts req) ref es s'
        (inr (x.settled, inl (started_held opts req ref s' started)))) [
          | inl (b, found, failed) ↦
              let alike : b ≡ r = some-injective _ _ (sym found ∙ there) in
              absurd (let failed' = rw alike at failed in ground arith)
          | inr (settled, inl p) ↦ inl (
              joins_lem opts req' ref t valid
                (subst (λ k. get t.pending_by_key k ≡ some ref) (sym same) p))
          | inr (settled, inr p) ↦ inr (
              settles_lem opts req' ref t r valid
                (subst (λ k. get t.pending_by_key k ≡ none) (sym same) p)
                (subst (λ k. get t.by_key k ≡ some ref) (sym same) settled) there open_yet)
        ]
