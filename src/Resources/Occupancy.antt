-- ===== src/Resources/Occupancy.antt =====
-- packages/resources/src/availability.ts: reservations that are made where `canReserve` allows them,
-- as the planner's callers do under their lock.
use booking_lumin_checkout.Base.{
  ℕ, suc, ◌+◌, ◌≤◌, String, Bool, true, false, subst, ◌&&◌, ◌==◌, ◌≡◌, refl, inl, inr, Option, none,
  some, List, [], ◌∷◌, ◌++◌, length, All, arith, Bool-cases, if◌then◌else◌,
}
use booking_lumin_checkout.Base.Int.{ℤ, ltb_ℤ, leb_ℤ}
use booking_lumin_checkout.Resources.{
  ResourceMode, ReservationStatus, is_after, Resource, ResourceReservation, ResourceSlot,
  spans_overlap, is_holding, reservation_consumes, count_consumed, effective_capacity,
  resource_availability, can_reserve,
}

-- Whether an instant lies in a span; a span that cannot be read holds every instant.
abbrev pub holds_instant : (start end : Option ℤ) → ℤ → Bool
holds_instant (some a) (some b) t = leb_ℤ a t && ltb_ℤ t b
holds_instant _ _ t = true

spans_overlap-instant :
    (as' ae bs be : Option ℤ) (t : ℤ)
    → holds_instant as' ae t ≡ true
    → holds_instant bs be t ≡ true
    → spans_overlap as' ae bs be ≡ true
unfolding spans_overlap
spans_overlap-instant (some a) (some b) (some c) (some d) t h k = ground arith
spans_overlap-instant none b c d t h k = refl
spans_overlap-instant (some a) none c d t h k = refl
spans_overlap-instant (some a) (some b) none d t h k = refl
spans_overlap-instant (some a) (some b) (some c) none t h k = refl

-- The units of a resource: one if it is exclusive, and its capacity if it is pooled.
pub data HasUnits : ResourceMode → (capacity units : ℕ) → Type 0 where
  exclusive_one : {capacity : ℕ} → HasUnits ResourceMode.exclusive capacity 1
  pooled_all : {capacity : ℕ} → HasUnits ResourceMode.pooled capacity capacity

HasUnits-effective_capacity :
    (resource : Resource) (units : ℕ)
    → HasUnits resource.mode resource.capacity units
    → effective_capacity resource ≡ units
unfolding effective_capacity
HasUnits-effective_capacity resource units h = go h
  where
    go :
        {mode : ResourceMode} {capacity units : ℕ}
        → HasUnits mode capacity units
        → elim mode [ ResourceMode.exclusive ↦ 1 | ResourceMode.pooled ↦ capacity ] ≡ units
    go HasUnits.exclusive_one = refl
    go HasUnits.pooled_all = refl

-- The expiry and the clock can both be read, and the expiry is later.
abbrev outlasts : (expiry now : Option ℤ) → Bool
outlasts (some expiry) (some now) = ltb_ℤ now expiry
outlasts _ _ = false

module _ (to_ms : String → Option ℤ) where
  -- An active reservation: it is consumed, or it is held and has not expired.
  abbrev is_active : ResourceReservation → String → Bool
  is_active r now = elim (r.status) [
    | ReservationStatus.consumed ↦ true
    | ReservationStatus.held ↦ outlasts (to_ms r.expires_at) (to_ms now)
    | ReservationStatus.released ↦ false
    | ReservationStatus.expired ↦ false
  ]

  is_active_lem :
      (r : ResourceReservation) (now : String) → is_holding to_ms r now ≡ is_active r now
  unfolding is_holding
  is_active_lem r now = go r.status (to_ms r.expires_at) (to_ms now)
    where
      go :
          (status : ReservationStatus) (expiry clock : Option ℤ)
          → elim status [
            | ReservationStatus.consumed ↦ true
            | ReservationStatus.held ↦ is_after expiry clock
            | _ ↦ false
          ]
            ≡ elim status [
              | ReservationStatus.consumed ↦ true
              | ReservationStatus.held ↦ outlasts expiry clock
              | ReservationStatus.released ↦ false
              | ReservationStatus.expired ↦ false
            ]
      go ReservationStatus.consumed e c = refl
      go ReservationStatus.held (some e) (some c) = refl
      go ReservationStatus.held none c = refl
      go ReservationStatus.held (some e) none = refl
      go ReservationStatus.released e c = refl
      go ReservationStatus.expired e c = refl

  abbrev is_held : String → ℤ → String → ResourceReservation → Bool
  is_held id t now r =
      (r.resource_id == id)
      && (is_active r now && holds_instant (to_ms r.slot_start) (to_ms r.slot_end) t)

  -- The units of the resource that active reservations hold at the instant `t`.
  unfoldable pub units_held : String → ℤ → String → List ResourceReservation → ℕ
  units_held id t now [] = 0
  units_held id t now (r ∷ rs) =
      let rest = units_held id t now rs in if is_held id t now r then suc rest else rest

  units_held-consumed :
      (id : String) (t : ℤ) (now : String) (slot : ResourceSlot) (rs : List ResourceReservation)
      → holds_instant (to_ms slot.start) (to_ms slot.end) t ≡ true
      → units_held id t now rs ≤ count_consumed to_ms id rs slot now
  unfolding units_held count_consumed reservation_consumes
  units_held-consumed id t now slot [] h = omega arith
  units_held-consumed id t now slot (r ∷ rs) h =
      let rest = units_held-consumed id t now slot rs h in
      let same = is_active_lem r now in
      elim (Bool-cases (holds_instant (to_ms r.slot_start) (to_ms r.slot_end) t)) [
        | inl e ↦
            let o = spans_overlap-instant (to_ms r.slot_start) (to_ms r.slot_end) _ _ t e h in
            ground arith
        | inr n ↦ ground arith
      ]

  abbrev IsFor : ResourceSlot → ResourceReservation → Type 0
  IsFor slot r = (r.slot_start ≡ slot.start) × (r.slot_end ≡ slot.end)

  -- New reservations for a slot add at most their number, and nothing outside the slot.
  units_held-append :
      (id : String) (t : ℤ) (now : String) (slot : ResourceSlot) (new rs : List ResourceReservation)
      → All (IsFor slot) new
      → units_held id t now (new ++ rs)
        ≤ (if holds_instant (to_ms slot.start) (to_ms slot.end) t then length new else 0)
          + units_held id t now rs
  unfolding units_held
  units_held-append id t now slot [] rs h = ground arith
  units_held-append id t now slot (r ∷ new) rs ((e, f), h) =
      let rest = units_held-append id t now slot new rs h in rw (e, f) (ground arith)

  -- Time passes, and reservations are confirmed while they are active, released, or expire: the
  -- reservations keep their resource and slot, and none becomes active that was not.
  pub Fades : String → List ResourceReservation → String → List ResourceReservation → Type 0
  Fades now [] now' [] = Unit
  Fades now (r ∷ rs) now' (r' ∷ rs') =
      ((r'.resource_id ≡ r.resource_id)
        × (r'.slot_start ≡ r.slot_start)
        × (r'.slot_end ≡ r.slot_end)
        × (is_active r' now' ≡ true → is_active r now ≡ true))
      × Fades now rs now' rs'
  Fades _ _ _ _ = ⊥

  units_held-Fades :
      (id : String) (t : ℤ) (now now' : String) (rs rs' : List ResourceReservation)
      → Fades now rs now' rs'
      → units_held id t now' rs' ≤ units_held id t now rs
  unfolding units_held Fades
  units_held-Fades id t now now' [] [] h = omega arith
  units_held-Fades id t now now' [] (r ∷ rs) h = absurd h
  units_held-Fades id t now now' (r ∷ rs) [] h = absurd h
  units_held-Fades id t now now' (r ∷ rs) (r' ∷ rs') ((e, f, g, k), h) =
      let rest = units_held-Fades id t now now' rs rs' h in
      rw (e, f, g)
        (elim (Bool-cases (is_active r' now')) [
          | inl a ↦ let b = k a in ground arith
          | inr a ↦ ground arith
        ])

  -- What callers reach that reserve units of a resource where `canReserve` allows it.
  pub data Reachable (resource : Resource) : String → List ResourceReservation → Type 0 where
    start : (now : String) → Reachable resource now []
    admit :
        {now : String} {rs : List ResourceReservation}
        → Reachable resource now rs
        → (slot : ResourceSlot) (new : List ResourceReservation)
        → can_reserve to_ms resource rs slot now (length new) ≡ true
        → All (IsFor slot) new
        → Reachable resource now (new ++ rs)
    fade :
        {now : String} {rs : List ResourceReservation}
        → Reachable resource now rs
        → (now' : String) (rs' : List ResourceReservation) → Fades now rs now' rs'
        → Reachable resource now' rs'

  can_reserve-room :
      (resource : Resource) (rs : List ResourceReservation) (slot : ResourceSlot) (now : String)
      (n : ℕ)
      → can_reserve to_ms resource rs slot now n ≡ true
      → n + count_consumed to_ms resource.id rs slot now ≤ effective_capacity resource
  unfolding can_reserve resource_availability
  can_reserve-room resource rs slot now n h = ground arith

  units_held-capacity :
      (resource : Resource) {now : String} {rs : List ResourceReservation}
      → Reachable resource now rs
      → (t : ℤ) → units_held resource.id t now rs ≤ effective_capacity resource
  unfolding units_held
  units_held-capacity resource (Reachable.start now) t = omega arith
  units_held-capacity resource (Reachable.admit {now} {rs} before slot new h for) t =
      let old = units_held-capacity resource before t in
      let sum = units_held-append resource.id t now slot new rs for in
      let room = can_reserve-room resource rs slot now (length new) h in
      elim (Bool-cases (holds_instant (to_ms slot.start) (to_ms slot.end) t)) [
        | inl e ↦ let taken = units_held-consumed resource.id t now slot rs e in ground arith
        | inr n ↦ ground arith
      ]
  units_held-capacity resource (Reachable.fade {now} {rs} before now' rs' h) t =
      let old = units_held-capacity resource before t in
      let less = units_held-Fades resource.id t now now' rs rs' h in omega arith

  -- Whatever callers reserve one after the other, where `canReserve` allows the quantity, and however
  -- reservations are confirmed while active, released or expire in between: at no instant do active
  -- reservations of the resource hold more units than it has, one if it is exclusive and its capacity
  -- if it is pooled. Active are those consumed, and those held whose expiry can be read and is later
  -- than the clock; a hold whose expiry cannot be read is not counted.
  pub units_held-bounded :
      (resource : Resource) {now : String} {rs : List ResourceReservation}
      → Reachable resource now rs
      → (units : ℕ) → HasUnits resource.mode resource.capacity units
      → (t : ℤ) → units_held resource.id t now rs ≤ units
  units_held-bounded resource {now} {rs} before units has t =
      subst (λ n. units_held resource.id t now rs ≤ n)
        (HasUnits-effective_capacity resource units has) (units_held-capacity resource before t)
