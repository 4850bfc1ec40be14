-- ===== src/Booking/Keys.antt =====
-- packages/core/src/booking.ts: the entries of the maps `byIdempotencyKey` and `pendingByKey` under one
-- key, over every event but those that are about this key.
use booking_lumin_checkout.Base.{
  ℕ, ◌≡◌, refl, ap, ◌∙◌, inl, inr, String, Bool, false, ◌==◌, Option, none, some,
}
use booking_lumin_checkout.Base.Dict.{Dict, get, put, delete, get-put, get-delete}
use booking_lumin_checkout.Base.Result.{Result}
use booking_lumin_checkout.Contracts.Booking.{
  BookingState, state_eq, CreateBookingRequest, PaymentIntentRef,
}
use booking_lumin_checkout.Booking.Engine.{
  Fault, Options, State, write, apply_transition, transition,
}
use booking_lumin_checkout.Booking.Create.{
  create_sync, start_booking, settle_or_start, create_by_key, create_booking, intent_answered,
  release_key,
}
use booking_lumin_checkout.Booking.Confirm.{
  is_failed, confirm_from_payment, payment_failure, confirm_paid, intent_verified,
}
use booking_lumin_checkout.Booking.Steps.{
  Keeps, IsApplied, Keeps-bind, Keeps-then, Keeps-if, Keeps-read, Keeps-throw, Keeps-done,
  Keeps-guard, Keeps-lift, Keeps-lift_result, Keeps-deref, Keeps-apply_transition,
}
use booking_lumin_checkout.Booking.Payments.{Event, after}
use booking_lumin_checkout.Booking.Reserve.{Reserving, create_sync-cases}

module _ (opts : Options) where
  abbrev pub key_of : CreateBookingRequest → String
  key_of req = opts.idem_key req.tenant_id req.idempotency_key

  -- The event may change what the maps hold under the key: a request with the key, or the end of a
  -- call with it.
  abbrev pub is_about : String → Event → Bool
  is_about key (Event.create req) = key_of req == key
  is_about key (Event.release released) = released == key
  is_about key _ = false

  module _ (key : String) (settled pending : Option ℕ) where
    -- What the maps hold under the key.
    abbrev pub Holds : State → Type 0
    Holds s = (get s.by_key key ≡ settled) × (get s.pending_by_key key ≡ pending)

    Holds-same :
        (s s' : State)
        → s'.by_key ≡ s.by_key
        → s'.pending_by_key ≡ s.pending_by_key
        → Holds s
        → Holds s'
    Holds-same s s' e f (h, k) = (rw e h, rw f k)

    Keeps-write_same :
        (f : State → State)
        → ((s : State) → (f s).by_key ≡ s.by_key)
        → ((s : State) → (f s).pending_by_key ≡ s.pending_by_key)
        → Keeps Holds (write f)
    unfolding write
    Keeps-write_same f r h = record { run = λ s p. Holds-same s (f s) (r s) (h s) p }

    Keeps-change :
        (ref : ℕ) (to : BookingState) (reason : Option String)
        → Keeps Holds (apply_transition opts ref to reason)
    Keeps-change ref to reason =
        Keeps-apply_transition opts Holds ref to reason (λ s s' (a : IsApplied ref to s s') p.
          Holds-same s s' (ap (λ (u : State). u.by_key) a.effect)
            (ap (λ (u : State). u.pending_by_key) a.effect) p)

    put_other :
        (m : Dict ℕ) (k : String) (v : ℕ) {o : Option ℕ}
        → (k == key) ≡ false
        → get m key ≡ o
        → get (put m k v) key ≡ o
    put_other m k v n h = get-put m k key v ∙ rw n h

    delete_other :
        (m : Dict ℕ) (k : String) {o : Option ℕ}
        → (k == key) ≡ false
        → get m key ≡ o
        → get (delete m k) key ≡ o
    delete_other m k n h = get-delete m k key ∙ rw n h

    sync-Holds :
        (req : CreateBookingRequest) (s : State) {out : Result Fault ℕ × State}
        → (key_of req == key) ≡ false
        → Holds s
        → Reserving opts req s out
        → Holds out.1
    sync-Holds req s n (h, k) (inl (e, t, o, same)) =
        rw o (Holds-same s t same.by_key same.pending_by_key (h, k))
    sync-Holds req s n (h, k) (inr (q, reference, slot_start, o, _, _, _, _)) =
        rw o ((put_other s.by_key (key_of req) _ n h, k))

    Keeps-other_sync :
        (req : CreateBookingRequest)
        → (key_of req == key) ≡ false
        → Keeps Holds (create_sync opts req)
    Keeps-other_sync req n = record {
      run = λ s p. sync-Holds req s n p (create_sync-cases opts req s);
    }

    Keeps-other_start :
        (req : CreateBookingRequest)
        → (key_of req == key) ≡ false
        → Keeps Holds (start_booking opts req (key_of req))
    unfolding start_booking write
    Keeps-other_start req n = Keeps-bind Holds (Keeps-read Holds) λ s.
        Keeps-then Holds (Keeps-write_same _ (λ _. refl) (λ _. refl)) (
          Keeps-bind Holds (Keeps-other_sync req n) λ ref.
            Keeps-then Holds
              (record { run = λ t (h, k). (h, put_other t.pending_by_key (key_of req) ref n k) })
              (Keeps-done Holds _))

    Keeps-other_settle :
        (req : CreateBookingRequest) (ref : ℕ)
        → (key_of req == key) ≡ false
        → Keeps Holds (settle_or_start opts req (key_of req) ref)
    unfolding settle_or_start write
    Keeps-other_settle req ref n = Keeps-bind Holds (Keeps-deref Holds ref) λ r.
        Keeps-if Holds (state_eq r.state BookingState.failed)
          (Keeps-then Holds
            (record { run = λ t (h, k). (delete_other t.by_key (key_of req) n h, k) })
            (Keeps-other_start req n))
          (Keeps-done Holds _)

    Keeps-other_create :
        (req : CreateBookingRequest)
        → (key_of req == key) ≡ false
        → Keeps Holds (create_booking opts req)
    unfolding create_booking
    Keeps-other_create req n = Keeps-then Holds (Keeps-guard Holds _ _) (
        Keeps-bind Holds (Keeps-read Holds)
          λ s. by_pending (get s.pending_by_key _) (get s.by_key _))
      where
        by_pending : (o o' : Option ℕ) → Keeps Holds (create_by_key opts req o o')
        by_pending (some ref) o' = Keeps-done Holds _
        by_pending none (some ref) = Keeps-other_settle req ref n
        by_pending none none = Keeps-other_start req n

    Keeps-answered :
        (ref : ℕ) (answer : Option String) → Keeps Holds (intent_answered opts ref answer)
    unfolding intent_answered
    Keeps-answered ref none = Keeps-then Holds (Keeps-change _ _ _) (Keeps-done Holds _)
    Keeps-answered ref (some intent) =
        Keeps-bind Holds (Keeps-deref Holds ref)
          λ r. Keeps-then Holds (Keeps-write_same _ (λ _. refl) (λ _. refl)) (Keeps-done Holds _)

    Keeps-asking : (intent : String) → Keeps Holds (confirm_from_payment opts intent)
    unfolding confirm_from_payment
    Keeps-asking intent = Keeps-bind Holds (Keeps-read Holds) λ s.
        Keeps-bind Holds (Keeps-lift Holds _ _) λ id.
          Keeps-bind Holds (Keeps-lift Holds _ _)
            λ ref. Keeps-bind Holds (Keeps-deref Holds ref) λ r. Keeps-done Holds _

    Keeps-moved :
        (id : String) (to : BookingState) (reason : Option String)
        → Keeps Holds (transition opts id to reason)
    unfolding transition
    Keeps-moved id to reason = Keeps-bind Holds (Keeps-read Holds) λ s.
        Keeps-bind Holds (Keeps-lift Holds _ _) λ ref.
          Keeps-then Holds (Keeps-guard Holds _ _)
            (Keeps-then Holds (Keeps-change _ _ _) (Keeps-done Holds _))

    Keeps-verified :
        (id : String) (ref : ℕ) (intent : Option PaymentIntentRef)
        → Keeps Holds (intent_verified opts id ref intent)
    unfolding intent_verified confirm_paid payment_failure
    Keeps-verified id ref none = Keeps-throw Holds _
    Keeps-verified id ref (some intent) = Keeps-bind Holds (Keeps-deref Holds ref) λ r.
        Keeps-if Holds (is_failed intent.state)
          (Keeps-if Holds (state_eq r.state BookingState.pending_payment)
            (Keeps-then Holds (Keeps-change _ _ _) (Keeps-throw Holds _)) (Keeps-throw Holds _))
          (Keeps-then Holds (Keeps-guard Holds _ _) (
            Keeps-bind Holds (Keeps-deref Holds ref) λ b.
              Keeps-bind Holds (Keeps-lift_result Holds _ _) λ charge.
                Keeps-then Holds (Keeps-guard Holds _ _) (
                  Keeps-then Holds (Keeps-guard Holds _ _)
                    (Keeps-then Holds (Keeps-change _ _ _) (Keeps-done Holds _)))))

    -- An event that is not about the key leaves what the maps hold under it.
    pub after-Holds :
        (e : Event) (s : State) → is_about key e ≡ false → Holds s → Holds (after opts e s)
    unfolding after release_key write
    after-Holds (Event.create req) s n p = (Keeps-other_create req n).run s p
    after-Holds (Event.answered ref intent) s n p = (Keeps-answered ref intent).run s p
    after-Holds (Event.release released) s n (h, k) =
        (h, delete_other s.pending_by_key released n k)
    after-Holds (Event.change id to reason) s n p = (Keeps-moved id to reason).run s p
    after-Holds (Event.confirm intent) s n p = (Keeps-asking intent).run s p
    after-Holds (Event.verified id ref intent) s n p = (Keeps-verified id ref intent).run s p
