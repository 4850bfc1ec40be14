-- ===== src/Edge.antt =====
-- supabase/functions/_shared/availability.ts: the availability engine as the edge functions carry it,
-- beside that of packages/core. It has types of its own: its rules have no season, and its query has
-- no blackouts. Overrides, holds, slots and the policy have the fields of the contract's; the date
-- helpers, and the sort, the reading of holds and the last loop over starts, are the same code as in
-- packages/core, and are the definitions of Availability.Dates and Availability.Slots.
pub mod Mirror
pub mod Grid
pub mod Tests
use booking_lumin_checkout.Base.{
  ℕ, ◌*◌, String, Bool, true, false, not, ◌&&◌, ◌||◌, ◌==◌, nat_eq, Option, none, some, List, [],
  ◌∷◌, map, ltb, leb, is_empty, keep, any, or_else, if◌then◌else◌,
}
use booking_lumin_checkout.Base.Int.{ℤ, pos, ◌+ℤ◌, ◌-ℤ◌, ltb_ℤ, eq_ℤ}
use booking_lumin_checkout.Base.Result.{Result, ok, err, ◌>>=◌, ◌>>◌, throw_if}
use booking_lumin_checkout.Contracts.Availability.{
  DateText, AvailabilityOverride, SchedulingPolicy, Slot, CapacityHold,
}
use booking_lumin_checkout.Availability.Dates.{
  Fault, thrown, Platform, CivilDate, ms_per_day, ms_per_minute, date_utc, utc_date, text_eq,
  iso_date, weekday_of_date, local_minute_to_utc_ms, local_date_of_instant,
}
use booking_lumin_checkout.Availability.Windows.{
  Window, window, in_scope, is_service, prefer, is_closed,
}
use booking_lumin_checkout.Availability.Slots.{
  Capacities, add_capacity, sort_starts, minutes_of_window, days_between, max_ℤ, min_ℤ, read_holds,
  emit_slots, found_in,
}

pub record EdgeRule : Type 0 where
  pub weekday : ℕ
  pub service_id : Option String
  pub start_minute : ℕ
  pub end_minute : ℕ
  pub capacity : ℕ

pub record EdgeQuery : Type 0 where
  pub tenant_timezone : String
  pub service_id : String
  pub duration_minutes : ℕ
  pub policy : SchedulingPolicy
  pub rules : List EdgeRule
  pub overrides : List AvailabilityOverride
  pub existing : List CapacityHold
  pub now : String
  pub from : String
  pub to : String

unfoldable pub edge_override_window : AvailabilityOverride → Window
edge_override_window o = elim o.start_minute [
  | none ↦ window 0 0 0
  | some s ↦ elim o.end_minute [
    | none ↦ window 0 0 0
    | some e ↦ if leb e s then window 0 0 0 else window s e (or_else o.capacity 1)
  ]
]

unfoldable pub edge_overrides : EdgeQuery → DateText → List AvailabilityOverride
edge_overrides query date =
    let applicable =
      keep
        (λ (o : AvailabilityOverride).
          text_eq o.date date && in_scope o.service_id query.service_id)
        query.overrides in
    prefer (keep (λ o. is_service o.service_id query.service_id) applicable) applicable

unfoldable pub edge_rules : EdgeQuery → ℕ → List EdgeRule
edge_rules query weekday =
    let day_rules =
      keep (λ (r : EdgeRule). nat_eq r.weekday weekday && in_scope r.service_id query.service_id)
        query.rules in
    prefer (keep (λ r. is_service r.service_id query.service_id) day_rules) day_rules

unfoldable pub edge_windows : EdgeQuery → ℕ → DateText → List Window
edge_windows query weekday date =
    let overrides = edge_overrides query date in
    let open_overrides = keep (λ (o : AvailabilityOverride). not (is_closed o.kind)) overrides in
    if any (λ (o : AvailabilityOverride). is_closed o.kind) overrides
    then []
    else if not (is_empty open_overrides)
    then map edge_override_window open_overrides
    else map (λ (r : EdgeRule). window r.start_minute r.end_minute r.capacity)
        (keep (λ (r : EdgeRule). ltb r.start_minute r.end_minute) (edge_rules query weekday))

unfoldable pub edge_windows_for_date : EdgeQuery → CivilDate → List Window
edge_windows_for_date query c =
    edge_windows query (weekday_of_date c.y c.m c.d) (iso_date c.y c.m c.d)

-- `capacityByStart.get(target) ?? 0`.
unfoldable pub capacity_in : Capacities → ℤ → ℕ
capacity_in [] target = 0
capacity_in ((t, c) ∷ m) target = if eq_ℤ t target then c else capacity_in m target

-- `null`, or a call that throws, counts as no capacity.
abbrev pub capacity_of : ℤ → Result Fault (Option Capacities) → ℕ
capacity_of target (ok (some m)) = capacity_in m target
capacity_of target (ok none) = 0
capacity_of target (err e) = 0

module _ (platform : Platform) where
  open platform use {parse, zone_valid}

  -- The loop over the minutes of a window.
  unfoldable pub edge_window_starts :
      EdgeQuery → ℤ → ℤ → CivilDate → ℕ → List ℕ → Capacities → Result Fault Capacities
  edge_window_starts query from to date capacity [] acc = ok acc
  edge_window_starts query from to date capacity (minute ∷ minutes) acc = do
    start ← local_minute_to_utc_ms platform query.tenant_timezone date minute
    edge_window_starts query from to date capacity minutes
        (if ltb_ℤ start from || ltb_ℤ to start then acc else add_capacity acc start capacity)

  unfoldable pub edge_day_starts :
      EdgeQuery → ℤ → ℤ → CivilDate → List Window → Capacities → Result Fault Capacities
  edge_day_starts query from to date [] acc = ok acc
  edge_day_starts query from to date (w ∷ ws) acc = do
    next ←
        if ltb w.capacity 1
        then ok acc
        else edge_window_starts query from to date w.capacity
            (minutes_of_window query.policy.slot_interval_minutes query.duration_minutes w) acc
    edge_day_starts query from to date ws next

  unfoldable pub edge_all_starts : EdgeQuery → ℤ → ℤ → List ℤ → Capacities → Result Fault Capacities
  edge_all_starts query from to [] acc = ok acc
  edge_all_starts query from to (day ∷ days) acc = do
    next ←
        edge_day_starts query from to (utc_date day) (edge_windows_for_date query (utc_date day))
          acc
    edge_all_starts query from to days next

  unfoldable pub capacities_between : EdgeQuery → ℤ → ℤ → Result Fault Capacities
  capacities_between query from to = do
    first ← local_date_of_instant platform query.tenant_timezone from
    last ← local_date_of_instant platform query.tenant_timezone to
    edge_all_starts query from to
        (days_between (date_utc first.y first.m first.d 0 0 0 -ℤ pos ms_per_day)
          (date_utc last.y last.m last.d 0 0 0 +ℤ pos ms_per_day))
        []

  -- `effFrom` and `effTo`, at the instants of the query.
  abbrev pub edge_earliest : EdgeQuery → ℤ → ℤ → ℤ
  edge_earliest query now from =
      max_ℤ from (now +ℤ pos (query.policy.lead_time_minutes * ms_per_minute))

  abbrev pub edge_latest : EdgeQuery → ℤ → ℤ → ℤ
  edge_latest query now to = min_ℤ to (now +ℤ pos (query.policy.horizon_days * ms_per_day))

  unfoldable pub capacities_at : EdgeQuery → (now from to : ℤ) → Result Fault Capacities
  capacities_at query now from to =
      let first = edge_earliest query now from in
      let last = edge_latest query now to in
      if ltb_ℤ last first
      then ok []
      else if is_empty query.rules
          && not (any (λ (o : AvailabilityOverride). not (is_closed o.kind)) query.overrides)
      then ok []
      else capacities_between query first last

  -- The instants of the query, read; `none` is the code's null.
  unfoldable pub capacities_read :
      EdgeQuery → (now from to : Option ℤ) → Result Fault (Option Capacities)
  unfolding capacities_at
  capacities_read query (some now) (some from) (some to) = do
    m ← capacities_at query now from to
    ok (some m)
  capacities_read query _ _ _ = ok none

  unfoldable pub capacity_by_start_map : EdgeQuery → Result Fault (Option Capacities)
  unfolding capacities_read
  capacity_by_start_map query =
      if ltb query.duration_minutes 1
      then ok none
      else if ltb query.policy.slot_interval_minutes 5
      then ok none
      else throw_if (not (zone_valid query.tenant_timezone)) thrown
        >> capacities_read query (parse query.now) (parse query.from) (parse query.to)

  unfoldable pub slots_of_map : EdgeQuery → Option Capacities → Result Fault (List Slot)
  slots_of_map query none = ok []
  slots_of_map query (some m) = elim (read_holds platform query.existing) [
    | none ↦ ok []
    | some holds ↦
        emit_slots platform (query.duration_minutes * ms_per_minute) holds (sort_starts m)
  ]

  unfoldable pub edge_compute_slots : EdgeQuery → Result Fault (List Slot)
  unfolding slots_of_map
  edge_compute_slots query = do m ← capacity_by_start_map query; slots_of_map query m

  unfoldable pub edge_is_slot_available : EdgeQuery → String → Bool
  edge_is_slot_available query start = elim (parse start) [
    | none ↦ false
    | some target ↦ found_in platform target (edge_compute_slots query)
  ]

  unfoldable pub slot_capacity_at : EdgeQuery → String → ℕ
  unfolding capacity_in
  slot_capacity_at query start = elim (parse start) [
    | none ↦ 0
    | some target ↦ capacity_of target (capacity_by_start_map query)
  ]
