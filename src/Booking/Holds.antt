-- ===== src/Booking/Holds.antt =====
-- packages/core/src/booking.ts: the bookings that `activeHolds` counts.
use booking_lumin_checkout.Base.{
  ℕ, ◌≡◌, refl, ◌⊎◌, inl, inr, String, true, false, ◌==◌, ◌&&◌, Option, none, some, List, [], ◌∷◌,
  get_elem?, map, keep, eq_iff, Bool-cases,
}
use booking_lumin_checkout.Base.Dict.{Dict}
use booking_lumin_checkout.Contracts.Availability.{CapacityHold}
use booking_lumin_checkout.Contracts.Booking.{BookingState, state_eq, BookingRecord}
use booking_lumin_checkout.Booking.Engine.{State, in_map, holds_slot, active_holds}

abbrev pub hold_of : BookingRecord → CapacityHold
hold_of b = record { start = b.slot_start; end = b.slot_end }

-- The holds are those of the tenant's bookings in the map that wait for a payment or are confirmed,
-- each with its slot, in the order of the map; all others are left out.
pub data HoldsOf (records : List BookingRecord) (tenant : String)
    : Dict ℕ → List CapacityHold → Type 0 where
  no_more : HoldsOf records tenant [] []
  takes :
      {id : String} {ref : ℕ} {b : BookingRecord} {m : Dict ℕ} {holds : List CapacityHold}
      → get_elem? records ref ≡ some b
      → b.tenant_id ≡ tenant
      → (b.state ≡ BookingState.pending_payment) ⊎ (b.state ≡ BookingState.confirmed)
      → HoldsOf records tenant m holds
      → HoldsOf records tenant ((id, ref) ∷ m) (hold_of b ∷ holds)
  skips :
      {id : String} {ref : ℕ} {b : BookingRecord} {m : Dict ℕ} {holds : List CapacityHold}
      → get_elem? records ref ≡ some b
      → ((b.tenant_id == tenant) ≡ false)
        ⊎ ((state_eq b.state BookingState.pending_payment ≡ false)
            × (state_eq b.state BookingState.confirmed ≡ false))
      → HoldsOf records tenant m holds
      → HoldsOf records tenant ((id, ref) ∷ m) holds
  dangling :
      {id : String} {ref : ℕ} {m : Dict ℕ} {holds : List CapacityHold}
      → get_elem? records ref ≡ none
      → HoldsOf records tenant m holds
      → HoldsOf records tenant ((id, ref) ∷ m) holds

holds_slot-cases :
    (state : BookingState)
    → ((holds_slot state ≡ true)
        × ((state ≡ BookingState.pending_payment) ⊎ (state ≡ BookingState.confirmed)))
      ⊎ ((holds_slot state ≡ false)
          × (state_eq state BookingState.pending_payment ≡ false)
          × (state_eq state BookingState.confirmed ≡ false))
holds_slot-cases BookingState.pending_payment = inl (refl, inl refl)
holds_slot-cases BookingState.confirmed = inl (refl, inr refl)
holds_slot-cases _ = inr (refl, refl, refl)

abbrev holds_among : String → List BookingRecord → List CapacityHold
holds_among tenant bookings =
    map (λ (b : BookingRecord). record { start = b.slot_start; end = b.slot_end })
      (keep (λ (b : BookingRecord). b.tenant_id == tenant && holds_slot b.state) bookings)

-- One entry of the map more.
entry-HoldsOf :
    (records : List BookingRecord) (tenant id : String) (ref : ℕ) (m : Dict ℕ)
    (found : Option BookingRecord)
    → get_elem? records ref ≡ found
    → HoldsOf records tenant m (holds_among tenant (in_map records m))
    → HoldsOf records tenant ((id, ref) ∷ m) (
        holds_among tenant (elim found [ none ↦ in_map records m | some r ↦ r ∷ in_map records m ]))
entry-HoldsOf records tenant id ref m none e rest = HoldsOf.dangling e rest
entry-HoldsOf records tenant id ref m (some b) e rest = elim (Bool-cases (b.tenant_id == tenant)) [
  | inr other ↦ rw other (HoldsOf.skips e (inl other) rest)
  | inl mine ↦ elim (holds_slot-cases b.state) [
    | inl (h, active) ↦
        rw (mine, h) (HoldsOf.takes e ((eq_iff b.tenant_id tenant).0 mine) active rest)
    | inr (h, w, c) ↦ rw (mine, h) (HoldsOf.skips e (inr (w, c)) rest)
  ]
]

holds_in-HoldsOf :
    (records : List BookingRecord) (tenant : String) (m : Dict ℕ)
    → HoldsOf records tenant m (holds_among tenant (in_map records m))
holds_in-HoldsOf records tenant [] = HoldsOf.no_more
holds_in-HoldsOf records tenant ((id, ref) ∷ m) =
    entry-HoldsOf records tenant id ref m _ refl (holds_in-HoldsOf records tenant m)

pub active_holds-HoldsOf :
    (s : State) (tenant : String) → HoldsOf s.records tenant s.bookings (active_holds s tenant)
unfolding active_holds
active_holds-HoldsOf s tenant = holds_in-HoldsOf s.records tenant s.bookings
