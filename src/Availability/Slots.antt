-- ===== src/Availability/Slots.antt =====
-- packages/core/src/availability.ts: `computeSlots`, with its loops over days, windows and minutes,
-- and the two operations of the engine. Instants are milliseconds since 1970.
pub mod Loops
pub mod Starts
pub mod Holds
pub mod Offers
pub mod Closed
use booking_lumin_checkout.Base.{
  ℕ, zero, suc, ◌+◌, ◌-◌, ◌*◌, ◌/◌, String, Bool, true, false, not, ◌&&◌, ◌||◌, ◌==◌, nat_eq,
  Option, none, some, List, [], ◌∷◌, ◌++◌, ltb, leb, length, is_empty, keep, any, if◌then◌else◌,
}
use booking_lumin_checkout.Base.Int.{ℤ, pos, pos_part, ◌+ℤ◌, ◌-ℤ◌, ltb_ℤ, leb_ℤ, eq_ℤ}
use booking_lumin_checkout.Base.Result.{Result, ok, err, ◌>>=◌, ◌>>◌, throw_if}
use booking_lumin_checkout.Contracts.Availability.{
  OverrideKind, AvailabilityOverride, Slot, CapacityHold, AvailabilityQuery,
}
use booking_lumin_checkout.Availability.Dates.{
  Fault, thrown, Platform, CivilDate, ms_per_day, ms_per_minute, date_utc, utc_date,
  local_minute_to_utc_ms, local_date_of_instant,
}
use booking_lumin_checkout.Availability.Windows.{Window, is_closed, windows_for_date}

-- A hold or a slot in milliseconds.
pub record Span : Type 0 where
  pub start : ℤ
  pub end : ℤ

-- `for (minute = start; minute + duration <= end; minute += interval)`, on the fuel that
-- `minutes_of_window` gives.
unfoldable pub grid : ℕ → ℕ → ℕ → ℕ → ℕ → List ℕ
grid zero interval duration end minute = []
grid (suc f) interval duration end minute =
    let rest = grid f interval duration end (minute + interval) in
    if leb (minute + duration) end then minute ∷ rest else []

unfoldable pub minutes_of_window : ℕ → ℕ → Window → List ℕ
minutes_of_window interval duration w =
    grid (suc w.end_minute) interval duration w.end_minute w.start_minute

-- `for (; cursor <= last; cursor += 86_400_000)`.
unfoldable pub days_from : ℕ → ℤ → ℤ → List ℤ
days_from zero last cursor = []
days_from (suc f) last cursor =
    let rest = days_from f last (cursor +ℤ pos ms_per_day) in
    if leb_ℤ cursor last then cursor ∷ rest else []

unfoldable pub days_between : ℤ → ℤ → List ℤ
days_between first last = days_from (suc (pos_part (last -ℤ first) / ms_per_day)) last first

-- `capacityByStart`: a `Map` from starts to capacities.
abbrev pub Capacities : Type 0
Capacities = List (ℤ × ℕ)

unfoldable pub add_capacity : Capacities → ℤ → ℕ → Capacities
add_capacity [] t c = (t, c) ∷ []
add_capacity ((s, k) ∷ m) t c = if eq_ℤ s t then (s, k + c) ∷ m else (s, k) ∷ add_capacity m t c

-- The sort by start.
unfoldable pub insert_start : ℤ → ℕ → Capacities → Capacities
insert_start t c [] = (t, c) ∷ []
insert_start t c ((s, k) ∷ m) =
    if leb_ℤ t s then (t, c) ∷ ((s, k) ∷ m) else (s, k) ∷ insert_start t c m

unfoldable pub sort_starts : Capacities → Capacities
sort_starts [] = []
sort_starts ((t, c) ∷ m) = insert_start t c (sort_starts m)

abbrev pub max_ℤ : ℤ → ℤ → ℤ
max_ℤ a b = if leb_ℤ a b then b else a

abbrev pub min_ℤ : ℤ → ℤ → ℤ
min_ℤ a b = if leb_ℤ a b then a else b

-- Half-open overlap of a hold with a slot.
abbrev pub overlaps : Span → ℤ → ℤ → Bool
overlaps h start end = ltb_ℤ h.start end && ltb_ℤ start h.end

unfoldable pub consumed : List Span → ℤ → ℤ → ℕ
consumed holds start end = length (keep (λ h. overlaps h start end) holds)

module _ (platform : Platform) where
  open platform use {parse, to_iso, zone_valid}

  -- The starts of one window of a day that lie in the range, each with the window's capacity.
  unfoldable pub window_starts :
      AvailabilityQuery → ℤ → ℤ → CivilDate → ℕ → List ℕ → Capacities → Result Fault Capacities
  window_starts query from to date capacity [] acc = ok acc
  window_starts query from to date capacity (minute ∷ minutes) acc = do
    start ← local_minute_to_utc_ms platform query.tenant_timezone date minute
    window_starts query from to date capacity minutes
        (if ltb_ℤ start from || ltb_ℤ to start then acc else add_capacity acc start capacity)

  unfoldable pub day_starts :
      AvailabilityQuery → ℤ → ℤ → CivilDate → List Window → Capacities → Result Fault Capacities
  day_starts query from to date [] acc = ok acc
  day_starts query from to date (w ∷ ws) acc = do
    next ←
        if ltb w.capacity 1
        then ok acc
        else window_starts query from to date w.capacity
            (minutes_of_window query.policy.slot_interval_minutes query.duration_minutes w) acc
    day_starts query from to date ws next

  unfoldable pub all_starts :
      AvailabilityQuery → ℤ → ℤ → List ℤ → Capacities → Result Fault Capacities
  all_starts query from to [] acc = ok acc
  all_starts query from to (day ∷ days) acc = do
    next ← day_starts query from to (utc_date day) (windows_for_date query (utc_date day)) acc
    all_starts query from to days next

  -- The holds in milliseconds; `none` if one cannot be read.
  unfoldable pub read_holds : List CapacityHold → Option (List Span)
  read_holds [] = some []
  read_holds (h ∷ hs) = elim (parse h.start) [
    | none ↦ none
    | some s ↦ elim (parse h.end) [
      | none ↦ none
      | some e ↦ elim (read_holds hs) [
        | none ↦ none
        | some rest ↦ some (record { start = s; end = e } ∷ rest)
      ]
    ]
  ]

  -- The last loop: the slots with room left.
  unfoldable pub emit_slots : ℕ → List Span → Capacities → Result Fault (List Slot)
  emit_slots duration_ms holds [] = ok []
  emit_slots duration_ms holds ((start, capacity) ∷ m) = do
    let end = start +ℤ pos duration_ms
    let used = consumed holds start end
    rest ← emit_slots duration_ms holds m
    if ltb used capacity
        then elim (to_iso start) [
          | none ↦ err thrown
          | some s ↦ elim (to_iso end) [
            | none ↦ err thrown
            | some e ↦
                ok (record { start = s; end = e; remaining_capacity = capacity - used } ∷ rest)
          ]
        ]
        else ok rest

  -- From the range that the policy leaves to the slots.
  unfoldable pub slots_between : AvailabilityQuery → ℤ → ℤ → List Span → Result Fault (List Slot)
  slots_between query from to holds = do
    first ← local_date_of_instant platform query.tenant_timezone from
    last ← local_date_of_instant platform query.tenant_timezone to
    starts ←
        all_starts query from to
          (days_between (date_utc first.y first.m first.d 0 0 0 -ℤ pos ms_per_day)
            (date_utc last.y last.m last.d 0 0 0 +ℤ pos ms_per_day))
          []
    emit_slots (query.duration_minutes * ms_per_minute) holds (sort_starts starts)

  -- `effFrom` and `effTo`.
  abbrev pub earliest : AvailabilityQuery → ℤ → ℤ → ℤ
  earliest query now from = max_ℤ from (now +ℤ pos (query.policy.lead_time_minutes * ms_per_minute))

  abbrev pub latest : AvailabilityQuery → ℤ → ℤ → ℤ
  latest query now to = min_ℤ to (now +ℤ pos (query.policy.horizon_days * ms_per_day))

  -- The query's instants, read.
  pub record Times : Type 0 where
    pub now : ℤ
    pub from : ℤ
    pub to : ℤ

  unfoldable pub read_times : AvailabilityQuery → Option Times
  read_times query = elim (parse query.now) [
    | none ↦ none
    | some n ↦ elim (parse query.from) [
      | none ↦ none
      | some f ↦ elim (parse query.to) [
        | none ↦ none
        | some t ↦ some (record { now = n; from = f; to = t })
      ]
    ]
  ]

  -- No weekly rule and no open override.
  abbrev pub unconfigured : AvailabilityQuery → Bool
  unconfigured query =
      is_empty query.rules
      && not (any (λ (o : AvailabilityOverride). not (is_closed o.kind)) query.overrides)

  unfoldable pub slots_at : AvailabilityQuery → Times → Result Fault (List Slot)
  slots_at query t =
      let from = earliest query t.now t.from in
      let to = latest query t.now t.to in
      if ltb_ℤ to from
      then ok []
      else if unconfigured query
      then ok []
      else elim (read_holds query.existing) [
        | none ↦ ok []
        | some holds ↦ slots_between query from to holds
      ]

  unfoldable pub compute_slots : AvailabilityQuery → Result Fault (List Slot)
  compute_slots query =
      if ltb query.duration_minutes 1 || ltb query.policy.slot_interval_minutes 5
      then ok []
      else throw_if (not (zone_valid query.tenant_timezone)) thrown
        >> (elim (read_times query) [ none ↦ ok [] | some t ↦ slots_at query t ])

  -- `catch { return [] }`.
  abbrev pub slots_of : Result Fault (List Slot) → List Slot
  slots_of (ok slots) = slots
  slots_of (err e) = []

  unfoldable pub get_slots : AvailabilityQuery → List Slot
  get_slots query = slots_of (compute_slots query)

  abbrev pub starts_at : ℤ → Slot → Bool
  starts_at target s = elim (parse s.start) [ none ↦ false | some t ↦ eq_ℤ t target ]

  -- `computeSlots(query).some(…)`, and `catch { return false }`.
  abbrev pub found_in : ℤ → Result Fault (List Slot) → Bool
  found_in target (ok slots) = any (starts_at target) slots
  found_in target (err e) = false

  unfoldable pub is_slot_available : AvailabilityQuery → String → Bool
  is_slot_available query start = elim (parse start) [
    | none ↦ false
    | some target ↦ found_in target (compute_slots query)
  ]
