-- ===== src/Checkout/Keys.antt =====
-- apps/checkout/src/state/checkout.tsx: what the idempotency key of a session stands for.
use booking_lumin_checkout.Base.{
  String, Bool, true, false, ◌==◌, ◌≡◌, ◌⊎◌, refl, sym, subst, inl, inr, Option, none, some, List,
  [], ◌∷◌, All, All-imp, is_some, same_some, Bool-cases, keep, keep-All, All-keep, not, arith,
  if◌then◌else◌,
}
use booking_lumin_checkout.Contracts.Availability.{Slot}
use booking_lumin_checkout.Contracts.Service.{Selection, Service}
use booking_lumin_checkout.Contracts.Booking.{CustomerDetails, Address, CreateBookingRequest}
use booking_lumin_checkout.Checkout.{
  CheckoutState, CheckoutAction, select_service, set_selection, set_slot, clear_slot,
  availability_pending, set_customer_draft, confirm_customer, goto, attempt, booking_created,
  set_intent, set_payment_status, payment_succeeded, payment_failed, return_to, add_media, reset,
  chosen_service, choose_service, invalidate_booking, create_fresh_state, checkout_reducer,
  request_of, effective_of, booking_request,
}

-- The requests that bookings were created for, the last first.
abbrev pub Log : Type 0
Log = List CreateBookingRequest

-- Of two requests that bookings were created for under one key, neither differs from the other.
abbrev pub IsConsistent : Log → Type 0
IsConsistent [] = Unit
IsConsistent (r ∷ log) =
    All (λ (q : CreateBookingRequest). ((q.idempotency_key == r.idempotency_key) ≡ false) ⊎ (q ≡ r))
      log
    × IsConsistent log

keep-IsConsistent :
    (p : CreateBookingRequest → Bool) (log : Log) → IsConsistent log → IsConsistent (keep p log)
keep-IsConsistent p [] c = tt
keep-IsConsistent p (r ∷ log) (h, c) = elim (Bool-cases (p r)) [
  | inl e ↦ rw e (All-keep _ p log h, keep-IsConsistent p log c)
  | inr e ↦ rw e (keep-IsConsistent p log c)
]

-- A key that no booking was created under.
abbrev pub IsUnused : String → Log → Type 0
IsUnused key = All (λ (q : CreateBookingRequest). (q.idempotency_key == key) ≡ false)

-- What was created under the key of the session was created for its request, and is still there.
abbrev IsKept : String → Option CreateBookingRequest → Bool → Log → Type 0
IsKept key request booked = All (λ (q : CreateBookingRequest).
    ((q.idempotency_key == key) ≡ false) ⊎ ((booked ≡ true) × (request ≡ some q)))

IsKept-on :
    (key : String) (request : Option CreateBookingRequest) (b b' : Bool) (log : Log)
    → (b ≡ true → b' ≡ true)
    → IsKept key request b log
    → IsKept key request b' log
IsKept-on key request b b' log f h =
    All-imp _ _ log (λ q k. elim k [ inl e ↦ inl e | inr (t, e) ↦ inr (f t, e) ]) h

unused-IsKept :
    (key : String) (request : Option CreateBookingRequest) (b : Bool) (log : Log)
    → IsUnused key log
    → IsKept key request b log
unused-IsKept key request b log h = All-imp _ _ log (λ q e. inl e) h

-- A key under which nothing is booked now has never been used.
not_booked :
    (key : String) (request : Option CreateBookingRequest) (log : Log)
    → IsKept key request false log
    → IsUnused key log
not_booked key request log h =
    All-imp _ _ log (λ q k. elim k [ inl e ↦ e | inr (t, e) ↦ absurd (cc) ]) h

-- The key after `invalidateBooking` has never been used.
invalidated :
    (key fresh : String) (request : Option CreateBookingRequest) (b : Bool) (log : Log)
    → IsKept key request b log
    → IsUnused fresh log
    → IsUnused (if b then fresh else key) log
invalidated key fresh request true log h u = u
invalidated key fresh request false log h u = not_booked key request log h

-- What the log keeps where `RETURN_TO` drops the booking of the session: the requests under other keys.
abbrev pub returned : String → Bool → Log → Log
returned key booked log = if booked then keep (λ q. not (q.idempotency_key == key)) log else log

returned-IsUnused :
    (key : String) (request : Option CreateBookingRequest) (b : Bool) (log : Log)
    → IsKept key request b log
    → IsUnused key (returned key b log)
returned-IsUnused key request true log h =
    All-imp _ _ _ (λ q e. ground arith) (keep-All (λ q. not (q.idempotency_key == key)) log)
returned-IsUnused key request false log h = not_booked key request log h

returned-IsConsistent :
    (key : String) (b : Bool) (log : Log) → IsConsistent log → IsConsistent (returned key b log)
returned-IsConsistent key false log c = c
returned-IsConsistent key true log c = keep-IsConsistent (λ q. not (q.idempotency_key == key)) log c

-- The requests created so far, after an action on a state.
abbrev noted : Option CreateBookingRequest → Log → Log
noted none log = log
noted (some r) log = r ∷ log

noted-IsKept :
    (key : String) (request : Option CreateBookingRequest) (b : Bool) (log : Log)
    → IsKept key request b log
    → IsKept key request true (noted request log)
noted-IsKept key none b log h = IsKept-on key none b true log (λ _. refl) h
noted-IsKept key (some r) b log h =
    (inr (refl, refl), IsKept-on key (some r) b true log (λ _. refl) h)

noted-IsConsistent :
    (key : String) (request : Option CreateBookingRequest) (b : Bool) (log : Log)
    → ((r : CreateBookingRequest) → request ≡ some r → r.idempotency_key ≡ key)
    → IsKept key request b log
    → IsConsistent log
    → IsConsistent (noted request log)
noted-IsConsistent key none b log under h c = c
noted-IsConsistent key (some r) b log under h c = (
  All-imp _ _ log
      (λ q k. elim k [ inl e ↦ inl (rw (under r refl) e) | inr (t, e) ↦ inr (sym (same_some e)) ])
      h,
  c,
)

request-key :
    (tenant key : String) (selection : Option Selection) (slot : Option Slot)
    (customer : Option CustomerDetails) (address : Option Address) (r : CreateBookingRequest)
    → request_of tenant key selection slot customer address ≡ some r
    → r.idempotency_key ≡ key
request-key tenant key (some a) (some b) (some c) address r h = rw (sym (same_some h)) refl
request-key tenant key none slot customer address r h = absurd (cc)
request-key tenant key (some a) none customer address r h = absurd (cc)
request-key tenant key (some a) (some b) none address r h = absurd (cc)

module _ {Media : Type 0} (tenant : String) (effective : Selection → Selection)
    (same_json : Option CustomerDetails
      → Option Address
      → Option CustomerDetails
      → Option Address
      → Bool)
    (same_json-sound : (c : Option CustomerDetails) (a : Option Address)
        (d : Option CustomerDetails) (b : Option Address)
      → same_json c a d b ≡ true
      → (c ≡ d) × (a ≡ b)) where
  abbrev request : CheckoutState Media → Option CreateBookingRequest
  request = booking_request tenant effective

  abbrev pub logged : CheckoutState Media → CheckoutAction Media → Log → Log
  logged state (booking_created booking) log = noted (request state) log
  logged state (return_to step message clear) log =
      returned state.idempotency_key (is_some state.booking) log
  logged state _ log = log

  -- What sessions reach, with the log of the requests that bookings were created for: any actions, each
  -- with a fresh key that is not in the log; a booking is created for the request that stands.
  pub data Session : CheckoutState Media → Log → Type 0 where
    start : (fresh : String) → Session (create_fresh_state fresh) []
    act :
        {state : CheckoutState Media} {log : Log}
        → Session state log
        → (fresh : String) (action : CheckoutAction Media) → IsUnused fresh log
        → Session (checkout_reducer same_json fresh state action) (logged state action log)

  IsKeptBy : CheckoutState Media → Log → Type 0
  IsKeptBy state = IsKept state.idempotency_key (request state) (is_some state.booking)

  choose-IsKept :
      (fresh : String) (state : CheckoutState Media) (s : Service) (log : Log)
      → IsUnused fresh log
      → IsKeptBy state log
      → IsKeptBy (choose_service fresh state s) log
  unfolding choose_service invalidate_booking IsKeptBy
  choose-IsKept fresh state s log u h = elim (Bool-cases (chosen_service state.selection s.id)) [
    | inl e ↦ rw e h
    | inr e ↦ rw e (unused-IsKept _ _ _ log (invalidated _ fresh _ _ log h u))
  ]

  confirm-IsKept :
      (fresh : String) (state : CheckoutState Media) (details : CustomerDetails)
      (address : Option Address) (log : Log)
      → IsUnused fresh log
      → IsKeptBy state log
      → IsKeptBy (checkout_reducer same_json fresh state (confirm_customer details address)) log
  unfolding checkout_reducer invalidate_booking IsKeptBy
  confirm-IsKept fresh state details address log u h =
      let kept = λ (c : Option CustomerDetails) (a : Option Address).
        IsKept state.idempotency_key
          (request_of tenant state.idempotency_key (effective_of effective state.selection)
            state.slot c a)
          (is_some state.booking) log in
      elim (Bool-cases (same_json state.customer state.address (some details) address)) [
        | inl e ↦
            let (c, a) = same_json-sound _ _ _ _ e in
            rw e (subst (λ x. kept x address) c (subst (kept state.customer) a h))
        | inr e ↦ rw e (unused-IsKept _ _ _ log (invalidated _ fresh _ _ log h u))
      ]

  -- An action keeps the invariant; the request of a new booking is the one that stands.
  act-IsKept :
      (fresh : String) (state : CheckoutState Media) (action : CheckoutAction Media) (log : Log)
      → IsUnused fresh log
      → IsKeptBy state log
      → IsKeptBy (checkout_reducer same_json fresh state action) (logged state action log)
  unfolding checkout_reducer invalidate_booking create_fresh_state IsKeptBy
  act-IsKept fresh state (select_service s) log u h = choose-IsKept fresh state s log u h
  act-IsKept fresh state (set_selection selection) log u h =
      unused-IsKept _ _ _ log (invalidated _ fresh _ _ log h u)
  act-IsKept fresh state clear_slot log u h =
      unused-IsKept _ _ _ log (invalidated _ fresh _ _ log h u)
  act-IsKept fresh state (availability_pending pending) log u h = h
  act-IsKept fresh state (set_slot picked) log u h =
      unused-IsKept _ _ _ log (invalidated _ fresh _ _ log h u)
  act-IsKept fresh state (set_customer_draft patch) log u h = h
  act-IsKept fresh state (confirm_customer details address) log u h =
      confirm-IsKept fresh state details address log u h
  act-IsKept fresh state (goto step) log u h = h
  act-IsKept fresh state (attempt step) log u h = h
  act-IsKept fresh state (booking_created booking) log u h = noted-IsKept _ (request state) _ log h
  act-IsKept fresh state (set_intent intent_id) log u h = h
  act-IsKept fresh state (set_payment_status status) log u h = h
  act-IsKept fresh state (payment_succeeded booking) log u h =
      IsKept-on _ _ _ true log (λ _. refl) h
  act-IsKept fresh state (payment_failed message) log u h = h
  act-IsKept fresh state (return_to step message clear) log u h =
      unused-IsKept _ _ _ _
        (returned-IsUnused state.idempotency_key (request state) (is_some state.booking) log h)
  act-IsKept fresh state (add_media m) log u h = h
  act-IsKept fresh state reset log u h = unused-IsKept _ _ _ log u

  act-IsConsistent :
      (state : CheckoutState Media) (action : CheckoutAction Media) (log : Log)
      → IsKeptBy state log
      → IsConsistent log
      → IsConsistent (logged state action log)
  unfolding IsKeptBy
  act-IsConsistent state (booking_created booking) log h c =
      noted-IsConsistent state.idempotency_key (request state) _ log
        (λ r e. request-key tenant state.idempotency_key _ _ _ _ r e) h c
  act-IsConsistent state (return_to step message clear) log h c =
      returned-IsConsistent state.idempotency_key (is_some state.booking) log c
  act-IsConsistent state action log h c = c

  Session-IsKept :
      {state : CheckoutState Media} {log : Log} → Session state log → IsKeptBy state log
  unfolding IsKeptBy
  Session-IsKept (Session.start fresh) = tt
  Session-IsKept (Session.act {state} {log} s fresh action u) =
      act-IsKept fresh state action log u (Session-IsKept s)

  -- Whatever the customer does in a session, in any order, with retries, changed services,
  -- selections, slots and contact details, resets and errors: two requests that bookings were created
  -- for under one idempotency key are the same request, unless `RETURN_TO` came between them with a
  -- booking in the state; then the log forgets the ones before it under this key, as the reducer drops
  -- the booking and keeps the key. A key that is made must not be one in the log, and equal texts of
  -- `JSON.stringify` must come of equal contact details.
  pub Session-IsConsistent :
      {state : CheckoutState Media} {log : Log} → Session state log → IsConsistent log
  Session-IsConsistent (Session.start fresh) = tt
  Session-IsConsistent (Session.act {state} {log} s fresh action u) =
      act-IsConsistent state action log (Session-IsKept s) (Session-IsConsistent s)
