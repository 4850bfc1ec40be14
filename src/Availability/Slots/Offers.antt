-- ===== src/Availability/Slots/Offers.antt =====
-- packages/core/src/availability.ts: what holds of every slot that the engine offers.
use booking_lumin_checkout.Base.{
  ℕ, ◌+◌, ◌*◌, ◌≤◌, ◌≡◌, refl, subst, inl, inr, not, ◌||◌, some, List, [], ◌∷◌, arith, ltb, All,
  All-imp, Bool-cases, Option-cases,
}
use mathlib.Core.List.{Memᴰ}
use booking_lumin_checkout.Base.Int.{ℤ, pos, ◌+ℤ◌, ◌-ℤ◌, ltb_ℤ, eq_ℤ, ◌≤ℤ◌}
use booking_lumin_checkout.Base.Result.{
  Result, ok, err, ◌>>=◌, >>=-elim, throw_if-elim, ok-injective,
}
use booking_lumin_checkout.Contracts.Availability.{Slot, AvailabilityQuery}
use booking_lumin_checkout.Availability.Dates.{
  Fault, Platform, ms_per_day, ms_per_minute, date_utc, local_date_of_instant,
}
use booking_lumin_checkout.Availability.Slots.Holds.{
  sort_starts-All, members_in, Overlapping, read_holds-Overlapping,
}
use booking_lumin_checkout.Availability.Slots.Starts.{all_starts-keep}
use booking_lumin_checkout.Availability.Slots.{
  Span, Capacities, add_capacity, sort_starts, consumed, days_between, all_starts, emit_slots,
  slots_between, earliest, latest, Times, read_times, read_holds, unconfigured, slots_at,
  compute_slots, get_slots, slots_of,
}

-- Every start lies in a range.
abbrev pub InRange : ℤ → ℤ → Capacities → Type 0
InRange from to = All (λ e. (from ≤ℤ e.0) × (e.0 ≤ℤ to))

add_capacity-InRange :
    (from to t : ℤ) (c : ℕ) (m : Capacities)
    → from ≤ℤ t
    → t ≤ℤ to
    → InRange from to m
    → InRange from to (add_capacity m t c)
unfolding add_capacity
add_capacity-InRange from to t c [] lo hi h = ((lo, hi), tt)
add_capacity-InRange from to t c ((s, k) ∷ m) lo hi (here, later) = elim (Bool-cases (eq_ℤ s t)) [
  | inl e ↦ rw e (here, later)
  | inr e ↦ rw e (here, add_capacity-InRange from to t c m lo hi later)
]

module _ (platform : Platform) where
  open platform use {parse, to_iso, zone_valid, parse-to_iso}

  all_starts-InRange :
      (query : AvailabilityQuery) (from to : ℤ) (days : List ℤ) {r : Capacities}
      → all_starts platform query from to days [] ≡ ok r
      → InRange from to r
  all_starts-InRange query from to days h =
      all_starts-keep platform query from to (InRange from to)
        (λ m t c lo hi inv. add_capacity-InRange from to t c m lo hi inv) days [] tt h

  -- The starts between the policy's bounds with the capacity of each: the windows of every day, from
  -- the day before the first to the day after the last.
  abbrev pub starts_of : AvailabilityQuery → Times platform → Result Fault Capacities
  starts_of query t =
      local_date_of_instant platform query.tenant_timezone (earliest platform query t.now t.from)
      >>= λ first.
          local_date_of_instant platform query.tenant_timezone (latest platform query t.now t.to)
          >>= λ last.
              all_starts platform query (earliest platform query t.now t.from)
                (latest platform query t.now t.to)
                (days_between (date_utc first.y first.m first.d 0 0 0 -ℤ pos ms_per_day)
                  (date_utc last.y last.m last.d 0 0 0 +ℤ pos ms_per_day))
                []

  -- A slot that keeps to the query and its policy at an instant: it starts in the range that was
  -- asked for, with the notice and inside the horizon that the policy wants, lasts as long as the
  -- service, and has room: what is left of the capacity of its start, when every hold that overlaps
  -- it has taken one, is at least one, and is what the slot says.
  pub record IsOffer (query : AvailabilityQuery) (t : Times platform) (s : Slot) : Type 0 where
    pub start : ℤ
    pub end : ℤ
    pub starts : parse s.start ≡ some start
    pub ends : parse s.end ≡ some end
    pub lasts : end ≡ start +ℤ pos (query.duration_minutes * ms_per_minute)
    pub after : t.from ≤ℤ start
    pub before : start ≤ℤ t.to
    pub notice : t.now +ℤ pos (query.policy.lead_time_minutes * ms_per_minute) ≤ℤ start
    pub horizon : start ≤ℤ t.now +ℤ pos (query.policy.horizon_days * ms_per_day)
    pub capacities : Capacities
    pub opened : starts_of query t ≡ ok capacities
    pub capacity : ℕ
    pub listed : Memᴰ (start, capacity) capacities
    pub holding : ℕ
    pub held : Overlapping platform start end query.existing holding
    pub room : 1 ≤ s.remaining_capacity
    pub left : holding + s.remaining_capacity ≡ capacity

  emit_slots-IsOffer :
      (query : AvailabilityQuery) (t : Times platform) (holds : List Span) (all m : Capacities)
      {slots : List Slot}
      → read_holds platform query.existing ≡ some holds
      → starts_of query t ≡ ok all
      → InRange (earliest platform query t.now t.from) (latest platform query t.now t.to) m
      → All (λ e. Memᴰ e all) m
      → emit_slots platform (query.duration_minutes * ms_per_minute) holds m ≡ ok slots
      → All (IsOffer query t) slots
  unfolding emit_slots
  emit_slots-IsOffer query t holds all [] read opened inv in_all h =
      subst (All (IsOffer query t)) (ok-injective h) tt
  emit_slots-IsOffer query t holds all ((start, capacity) ∷ m) read opened (here, later)
        (listed, others) h =
      >>=-elim (emit_slots platform (query.duration_minutes * ms_per_minute) holds m) _ h
        λ rest emitted h1.
          let offers = emit_slots-IsOffer query t holds all m read opened later others emitted in
          let end = start +ℤ pos (query.duration_minutes * ms_per_minute) in
          elim (Bool-cases (ltb (consumed holds start end) capacity)) [
            | inr full ↦ subst (All (IsOffer query t)) (ok-injective (rw full at h1)) offers
            | inl free ↦ elim (Option-cases (to_iso start)) [
              | inl e ↦ absurd (ground arith)
              | inr (s, e) ↦ elim (Option-cases (to_iso end)) [
                | inl e' ↦ absurd (ground arith)
                | inr (s', e') ↦
                    subst (All (IsOffer query t)) (ok-injective (rw (free, e, e') at h1)) (
                      record {
                        start = start;
                        end = end;
                        starts = parse-to_iso start s e;
                        ends = parse-to_iso end s' e';
                        lasts = refl;
                        after = ground arith;
                        before = ground arith;
                        notice = ground arith;
                        horizon = ground arith;
                        capacities = all;
                        opened = opened;
                        capacity = capacity;
                        listed = listed;
                        holding = consumed holds start end;
                        held = read_holds-Overlapping platform start end query.existing read;
                        room = ground arith;
                        left = ground arith;
                      },
                      offers,
                    )
              ]
            ]
          ]

  slots_between-IsOffer :
      (query : AvailabilityQuery) (t : Times platform) (holds : List Span) {slots : List Slot}
      → read_holds platform query.existing ≡ some holds
      → slots_between platform query
          (earliest platform query t.now t.from)
          (latest platform query t.now t.to)
          holds
        ≡ ok slots
      → All (IsOffer query t) slots
  unfolding slots_between
  slots_between-IsOffer query t holds read h =
      let from = earliest platform query t.now t.from in
      let to = latest platform query t.now t.to in
      >>=-elim (local_date_of_instant platform query.tenant_timezone from) _ h λ first e1 h1.
        >>=-elim (local_date_of_instant platform query.tenant_timezone to) _ h1 λ last e2 h2.
          >>=-elim (all_starts platform query from to _ []) _ h2 λ starts found h3.
            emit_slots-IsOffer query t holds starts (sort_starts starts) read (rw (e1, e2) found)
              (sort_starts-All _ starts (all_starts-InRange query from to _ found))
              (sort_starts-All _ starts (members_in starts)) h3

  slots_at-IsOffer :
      (query : AvailabilityQuery) (t : Times platform) {slots : List Slot}
      → slots_at platform query t ≡ ok slots
      → All (IsOffer query t) slots
  unfolding slots_at
  slots_at-IsOffer query t h =
      let none_left =
        λ (e : ok [] ≡ ok _). subst (All (IsOffer query t)) (ok-injective {E = Fault} e) tt in
      elim (Bool-cases
        (ltb_ℤ (latest platform query t.now t.to) (earliest platform query t.now t.from))) [
          | inl e ↦ none_left (rw e at h)
          | inr e ↦ elim (Bool-cases (unconfigured platform query)) [
            | inl u ↦ none_left (rw (e, u) at h)
            | inr u ↦ elim (Option-cases (read_holds platform query.existing)) [
              | inl r ↦ none_left (rw (e, u, r) at h)
              | inr (holds, r) ↦ slots_between-IsOffer query t holds r (rw (e, u, r) at h)
            ]
          ]
        ]

  -- Every slot keeps to the query at the instants that are read of it.
  abbrev pub AllOffers : AvailabilityQuery → List Slot → Type 0
  AllOffers query =
      All (λ s. (t : Times platform) × (read_times platform query ≡ some t) × IsOffer query t s)

  slots_of-AllOffers :
      (query : AvailabilityQuery) (r : Result Fault (List Slot))
      → ((slots : List Slot) → r ≡ ok slots → AllOffers query slots)
      → AllOffers query (slots_of platform r)
  slots_of-AllOffers query (ok slots) h = h slots refl
  slots_of-AllOffers query (err e) h = tt

  compute_slots-AllOffers :
      (query : AvailabilityQuery) (slots : List Slot)
      → compute_slots platform query ≡ ok slots
      → AllOffers query slots
  unfolding compute_slots
  compute_slots-AllOffers query slots h =
      let none_left =
        λ (e : ok [] ≡ ok slots). subst (AllOffers query) (ok-injective {E = Fault} e) tt in
      elim (Bool-cases (ltb query.duration_minutes 1 || ltb query.policy.slot_interval_minutes 5)) [
        | inl e ↦ none_left (rw e at h)
        | inr e ↦ throw_if-elim (not (zone_valid query.tenant_timezone)) _ _ (rw e at h) λ _ h1.
            elim (Option-cases (read_times platform query)) [
              | inl r ↦ none_left (rw r at h1)
              | inr (t, r) ↦
                  All-imp (IsOffer query t) _ slots (λ s offer. (t, r, offer))
                    (slots_at-IsOffer query t (rw r at h1))
            ]
      ]

  -- Whatever the query, the engine could read the query's instants for every slot that it offers,
  -- and the slot starts in the range asked for, with the notice and inside the horizon of the
  -- policy, lasts as long as the service, and has room for one booking more: its remaining capacity
  -- is at least one, and is the capacity that the opening windows give its start less the number of
  -- the holds that overlap the slot, all of which could be read.
  pub get_slots-AllOffers : (query : AvailabilityQuery) → AllOffers query (get_slots platform query)
  unfolding get_slots
  get_slots-AllOffers query =
      slots_of-AllOffers query (compute_slots platform query) (compute_slots-AllOffers query)
