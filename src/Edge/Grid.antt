-- ===== src/Edge/Grid.antt =====
-- supabase/functions/_shared/availability.ts: the capacity that `slotCapacityAt` hands to the
-- reservation, against the holds that `isSlotAvailable` counts.
use booking_lumin_checkout.Base.{
  ℕ, ◌*◌, ◌<◌, ◌≡◌, ◌∙◌, refl, sym, subst, ap, String, true, false, not, ◌&&◌, Option, none, some,
  List, [], ◌∷◌, arith, ltb, any, All-Memᴰ, is_empty, All, Bool-cases, Option-cases, same_some, inl,
  inr,
}
use mathlib.Core.List.{Memᴰ}
use booking_lumin_checkout.Base.Int.{ℤ, pos, ◌+ℤ◌, ltb_ℤ, leb_ℤ, eq_ℤ, eq_ℤ_iff}
use booking_lumin_checkout.Base.Result.{
  Result-cases, Result, ok, err, ◌>>=◌, >>=-elim, throw_if-elim, ok-injective,
}
use booking_lumin_checkout.Contracts.Availability.{AvailabilityOverride, Slot}
use booking_lumin_checkout.Availability.Dates.{
  Fault, Platform, ms_per_minute, local_date_of_instant,
}
use booking_lumin_checkout.Availability.Windows.{is_closed}
use booking_lumin_checkout.Availability.Slots.Starts.{all_starts-keep}
use booking_lumin_checkout.Availability.Slots.{
  Span, Capacities, add_capacity, insert_start, sort_starts, consumed, read_holds, emit_slots,
  starts_at, found_in,
}
use booking_lumin_checkout.Edge.Mirror.{as_query, all_starts-same, slots_of_map-some}
use booking_lumin_checkout.Edge.{
  EdgeQuery, edge_all_starts, capacities_between, capacities_at, capacities_read,
  capacity_by_start_map, slots_of_map, edge_compute_slots, edge_is_slot_available, capacity_in,
  capacity_of, slot_capacity_at, edge_earliest, edge_latest,
}

-- No start has two capacities.
abbrev pub IsUnique : Capacities → Type 0
IsUnique [] = Unit
IsUnique ((t, c) ∷ m) = All (λ e. eq_ℤ e.0 t ≡ false) m × IsUnique m

add_capacity-other :
    (m : Capacities) (s t : ℤ) (c : ℕ)
    → eq_ℤ t s ≡ false
    → All (λ e. eq_ℤ e.0 s ≡ false) m
    → All (λ e. eq_ℤ e.0 s ≡ false) (add_capacity m t c)
unfolding add_capacity
add_capacity-other [] s t c n h = (n, tt)
add_capacity-other ((r, k) ∷ m) s t c n (other, h) = elim (Bool-cases (eq_ℤ r t)) [
  | inl e ↦ rw e (other, h)
  | inr e ↦ rw e (other, add_capacity-other m s t c n h)
]

eq_ℤ-sym : (a b : ℤ) → eq_ℤ a b ≡ false → eq_ℤ b a ≡ false
eq_ℤ-sym a b h = ground arith

add_capacity-IsUnique :
    (m : Capacities) (t : ℤ) (c : ℕ) → IsUnique m → IsUnique (add_capacity m t c)
unfolding add_capacity
add_capacity-IsUnique [] t c h = (tt, tt)
add_capacity-IsUnique ((r, k) ∷ m) t c (others, h) = elim (Bool-cases (eq_ℤ r t)) [
  | inl e ↦ rw e (others, h)
  | inr e ↦ rw e (add_capacity-other m r t c (eq_ℤ-sym r t e) others, add_capacity-IsUnique m t c h)
]

-- What is found under a start is its one capacity.
capacity_in-Memᴰ :
    (m : Capacities) (t : ℤ) (c : ℕ) → IsUnique m → Memᴰ (t, c) m → capacity_in m t ≡ c
unfolding capacity_in
capacity_in-Memᴰ [] t c h (member) = elim member [ ]
capacity_in-Memᴰ ((s, k) ∷ m) t c (others, h) (Memᴰ.head e) =
    let same : s ≡ t = sym (ap (λ (x : ℤ × ℕ). x.0) e) in
    rw ((eq_ℤ_iff s t).1 same) (sym (ap (λ (x : ℤ × ℕ). x.1) e))
capacity_in-Memᴰ ((s, k) ∷ m) t c (others, h) (Memᴰ.tail member) =
    let other : eq_ℤ t s ≡ false = All-Memᴰ (λ (e : ℤ × ℕ). eq_ℤ e.0 s ≡ false) m others member in
    rw (eq_ℤ-sym t s other) (capacity_in-Memᴰ m t c h member)

swapped {ℓ} : {A : Type ℓ} {a x y : A} {xs : List A} → Memᴰ a (x ∷ xs) → Memᴰ a (x ∷ (y ∷ xs))
swapped (Memᴰ.head e) = Memᴰ.head e
swapped (Memᴰ.tail rest) = Memᴰ.tail (Memᴰ.tail rest)

-- A member of a list whose tail is a rearrangement.
past {ℓ} :
    {A : Type ℓ} {a x y : A} {xs ys : List A}
    → Memᴰ a (y ∷ ys)
    → (Memᴰ a ys → Memᴰ a (x ∷ xs))
    → Memᴰ a (x ∷ (y ∷ xs))
past (Memᴰ.head e) f = Memᴰ.tail (Memᴰ.head e)
past (Memᴰ.tail rest) f = swapped (f rest)

insert_start-Memᴰ :
    (t : ℤ) (c : ℕ) (m : Capacities) {e : ℤ × ℕ} → Memᴰ e (insert_start t c m) → Memᴰ e ((t, c) ∷ m)
unfolding insert_start
insert_start-Memᴰ t c [] member = member
insert_start-Memᴰ t c ((s, k) ∷ m) member = elim (Bool-cases (leb_ℤ t s)) [
  | inl e ↦ rw e at member
  | inr e ↦ past (rw e at member) (λ rest. insert_start-Memᴰ t c m rest)
]

sort_starts-Memᴰ : (m : Capacities) {e : ℤ × ℕ} → Memᴰ e (sort_starts m) → Memᴰ e m
unfolding sort_starts
sort_starts-Memᴰ [] member = member
sort_starts-Memᴰ ((t, c) ∷ m) member = elim (insert_start-Memᴰ t c (sort_starts m) member) [
  | Memᴰ.head e ↦ Memᴰ.head e
  | Memᴰ.tail rest ↦ Memᴰ.tail (sort_starts-Memᴰ m rest)
]

module _ (platform : Platform) where
  open platform use {parse, to_iso, zone_valid, parse-to_iso}

  -- A slot that starts at an instant stands for a start with more capacity than holds overlap it.
  emit_slots-found :
      (duration_ms : ℕ) (holds : List Span) (m : Capacities) (target : ℤ) {slots : List Slot}
      → emit_slots platform duration_ms holds m ≡ ok slots
      → any (starts_at platform target) slots ≡ true
      → (c : ℕ) × Memᴰ (target, c) m × (consumed holds target (target +ℤ pos duration_ms) < c)
  unfolding emit_slots
  emit_slots-found duration_ms holds [] target h found =
      absurd (cc (rw (sym (ok-injective h)) at found))
  emit_slots-found duration_ms holds ((start, capacity) ∷ m) target {slots} h found =
      >>=-elim (emit_slots platform duration_ms holds m) _ h λ rest emitted h1.
        let end = start +ℤ pos duration_ms in
        let ih = λ (k : any (starts_at platform target) rest ≡ true).
          emit_slots-found duration_ms holds m target emitted k in
        elim (Bool-cases (ltb (consumed holds start end) capacity)) [
          | inr full ↦
              let same : rest ≡ slots = ok-injective (rw full at h1) in
              let (c, member, room) = ih (rw (sym same) at found) in (c, Memᴰ.tail member, room)
          | inl free ↦ elim (Option-cases (to_iso start)) [
            | inl e ↦ absurd (ground arith)
            | inr (s, e) ↦ elim (Option-cases (to_iso end)) [
              | inl e' ↦ absurd (ground arith)
              | inr (s', e') ↦
                  let same = ok-injective (rw (free, e, e') at h1) in
                  let found' = rw (parse-to_iso start s e, starts_at) at (rw (sym same) at found) in
                  elim (Bool-cases (eq_ℤ start target)) [
                    | inl t ↦
                        let here = (eq_ℤ_iff start target).0 t in
                        rw (sym here) (capacity, Memᴰ.head refl, ground arith)
                    | inr t ↦
                        let (c, member, room) = ih (rw t at found') in (c, Memᴰ.tail member, room)
                  ]
            ]
          ]
        ]

  all_starts-IsUnique :
      (q : EdgeQuery) (from to : ℤ) (days : List ℤ) {r : Capacities}
      → edge_all_starts platform q from to days [] ≡ ok r
      → IsUnique r
  all_starts-IsUnique q from to days h =
      all_starts-keep platform (as_query q) from to IsUnique
        (λ m t c lo hi inv. add_capacity-IsUnique m t c inv) days [] tt
        (all_starts-same platform q from to days [] ∙ h)

  capacities_at-IsUnique :
      (q : EdgeQuery) (now from to : ℤ) {r : Capacities}
      → capacities_at platform q now from to ≡ ok r
      → IsUnique r
  unfolding capacities_at capacities_between
  capacities_at-IsUnique q now from to h =
      let first = edge_earliest platform q now from in
      let last = edge_latest platform q now to in
      let nothing = λ (e : ok [] ≡ ok _). subst IsUnique (ok-injective {E = Fault} e) tt in
      elim (Bool-cases (ltb_ℤ last first)) [
        | inl e ↦ nothing (rw e at h)
        | inr e ↦
            elim (Bool-cases (
              is_empty q.rules
              && not (any (λ (o : AvailabilityOverride). not (is_closed o.kind)) q.overrides))) [
                | inl u ↦ nothing (rw (e, u) at h)
                | inr u ↦
                    >>=-elim (local_date_of_instant platform q.tenant_timezone first) _
                      (rw (e, u) at h)
                      λ a _ h1.
                        >>=-elim (local_date_of_instant platform q.tenant_timezone last) _ h1
                          λ b _ h2. all_starts-IsUnique q first last _ h2
              ]
      ]

  read-IsUnique :
      (q : EdgeQuery) (now from to : Option ℤ) {m : Capacities}
      → capacities_read platform q now from to ≡ ok (some m)
      → IsUnique m
  unfolding capacities_read
  read-IsUnique q (some now) (some from) (some to) h =
      >>=-elim (capacities_at platform q now from to) _ h λ r found h1.
        subst IsUnique (same_some (ok-injective h1)) (capacities_at-IsUnique q now from to found)
  read-IsUnique q none from to h = absurd (cc)
  read-IsUnique q (some now) none to h = absurd (cc)
  read-IsUnique q (some now) (some from) none h = absurd (cc)

  map-IsUnique :
      (q : EdgeQuery) {m : Capacities} → capacity_by_start_map platform q ≡ ok (some m) → IsUnique m
  unfolding capacity_by_start_map
  map-IsUnique q h = elim (Bool-cases (ltb q.duration_minutes 1)) [
    | inl e ↦ absurd (ground arith)
    | inr e ↦ elim (Bool-cases (ltb q.policy.slot_interval_minutes 5)) [
      | inl f ↦ absurd (ground arith)
      | inr f ↦
          throw_if-elim (not (zone_valid q.tenant_timezone)) _ _ (rw (e, f) at h)
            λ _ h1. read-IsUnique q (parse q.now) (parse q.from) (parse q.to) h1
    ]
  ]

  slots-room :
      (q : EdgeQuery) (holds : List Span) (target : ℤ) (r : Result Fault (Option Capacities))
      → read_holds platform q.existing ≡ some holds
      → ((m : Capacities) → r ≡ ok (some m) → IsUnique m)
      → found_in platform target (r >>= λ m. slots_of_map platform q m) ≡ true
      → consumed holds target (target +ℤ pos (q.duration_minutes * ms_per_minute))
        < capacity_of target r
  slots-room q holds target (ok none) h u found = absurd (unfold slots_of_map in cc found)
  slots-room q holds target (err e) h u found = absurd (cc found)
  slots-room q holds target (ok (some m)) h u found =
      let found' = rw (slots_of_map-some platform q holds m h) at found in
      let emitted =
        emit_slots platform (q.duration_minutes * ms_per_minute) holds (sort_starts m) in
      elim (Result-cases emitted) [
        | inr (e, f) ↦ absurd (cc (rw f at found'))
        | inl (slots, f) ↦
            let (c, member, room) =
              emit_slots-found (q.duration_minutes * ms_per_minute) holds (sort_starts m) target f
                (rw f at found') in
            rw (capacity_in-Memᴰ m target c (u m refl) (sort_starts-Memᴰ m member)) room
      ]

  -- Where the edge functions find a start available, fewer holds overlap it than the capacity that
  -- `slotCapacityAt` gives for it: the number handed to the reservation leaves room for one booking
  -- more beside the holds that were counted.
  pub slot_capacity_at-room :
      (q : EdgeQuery) (start : String) (holds : List Span) (target : ℤ)
      → read_holds platform q.existing ≡ some holds
      → parse start ≡ some target
      → edge_is_slot_available platform q start ≡ true
      → consumed holds target (target +ℤ pos (q.duration_minutes * ms_per_minute))
        < slot_capacity_at platform q start
  unfolding slot_capacity_at edge_is_slot_available edge_compute_slots
  slot_capacity_at-room q start holds target h e found =
      rw (e, slot_capacity_at)
        (slots-room q holds target (capacity_by_start_map platform q) h (λ m. map-IsUnique q)
          (rw (e, edge_is_slot_available) at found))
