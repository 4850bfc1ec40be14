-- ===== src/Availability/Tests.antt =====
-- Runs of the availability engine, and its properties at a concrete query on a UTC calendar.
use booking_lumin_checkout.Base.{
  ◌/◌, ◌%◌, ◌≡◌, refl, String, true, false, ◌&&◌, ◌==◌, inl, inr, Option, none, some, [], ◌∷◌, any,
  Bool-cases, ◌∙◌, if◌then◌else◌,
}
use mathlib.Core.Option.{some-injective}
use booking_lumin_checkout.Base.Int.{ℤ, pos, pos_part, eq_ℤ, eq_ℤ_iff, ◌+ℤ◌, ◌-ℤ◌, floor_div}
use booking_lumin_checkout.Contracts.Availability.{AvailabilityQuery, once}
use booking_lumin_checkout.Availability.Dates.{
  Platform, CivilDate, date_utc, utc_date, civil_of, weekday_of_date, day_number, iso_date, text_eq,
  text_lt, tz_offset_ms, local_minute_to_utc_ms, local_date_of_instant,
}
use booking_lumin_checkout.Availability.Windows.{
  clip, subtract_interval, apply_covering, apply_blackouts, blackout_covers, range_covers,
  minutes_of, override_window, effective_overrides, effective_rules, rule_effective_on,
  base_windows_for_date, windows_for_date,
}
use booking_lumin_checkout.Availability.Windows.Closing.{
  capacity_at, closes, capacity_at-windows_for_date,
}
use booking_lumin_checkout.Availability.Slots.{
  grid, minutes_of_window, days_from, days_between, add_capacity, insert_start, sort_starts,
  consumed, window_starts, day_starts, all_starts, read_holds, emit_slots, slots_between,
  read_times, slots_at, compute_slots, get_slots, is_slot_available,
}
use booking_lumin_checkout.Availability.Slots.Offers.{AllOffers, get_slots-AllOffers}
use booking_lumin_checkout.Availability.Slots.Closed.{Unverifiable-closed}

-- All that the engine computes with.
unfoldable pub availability : Unit {0}
unfolding date_utc utc_date civil_of weekday_of_date day_number iso_date text_eq text_lt
    tz_offset_ms local_minute_to_utc_ms local_date_of_instant clip subtract_interval apply_covering
    apply_blackouts blackout_covers range_covers minutes_of override_window effective_overrides
    effective_rules rule_effective_on base_windows_for_date windows_for_date grid minutes_of_window
    days_from days_between add_capacity insert_start sort_starts consumed window_starts day_starts
    all_starts read_holds emit_slots slots_between read_times slots_at compute_slots get_slots
    is_slot_available floor_div ◌-ℤ◌ ◌+ℤ◌
availability = tt

calendar_tests :
    (date_utc 1970 1 1 0 0 0 ≡ pos 0)
    × (date_utc 2026 3 1 12 30 0 ≡ pos 1_772_368_200_000)
    × (utc_date (pos 1_709_210_096_000) ≡ record { y = 2024; m = 2; d = 29 })
    × (weekday_of_date 2024 2 29 ≡ 4)
unfolding date_utc utc_date weekday_of_date floor_div ◌-ℤ◌ ◌+ℤ◌
calendar_tests = (refl, refl, refl, refl)

-- Three instants of Monday, 2 March 2026, at UTC, and one of the day before.
abbrev pub nine : ℤ
nine = pos 1_772_442_000_000

abbrev pub ten : ℤ
ten = pos 1_772_445_600_000

abbrev pub eleven : ℤ
eleven = pos 1_772_449_200_000

abbrev pub noon_before : ℤ
noon_before = pos 1_772_366_400_000

abbrev pub read_instant : String → Option ℤ
read_instant s =
    if s == "nine"
    then some nine
    else if s == "ten"
    then some ten
    else if s == "eleven"
    then some eleven
    else if s == "noon"
    then some noon_before
    else none

abbrev pub show_instant : ℤ → Option String
show_instant t =
    if eq_ℤ t nine
    then some "nine"
    else if eq_ℤ t ten
    then some "ten"
    else if eq_ℤ t eleven
    then some "eleven"
    else none

abbrev pub utc_parts : ℤ → booking_lumin_checkout.Availability.Dates.DateParts
utc_parts t =
    let c = utc_date t in
    let seconds = pos_part t / 1000 in
    record {
      year = c.y;
      month = c.m;
      day = c.d;
      hour = seconds / 3600 % 24;
      minute = seconds / 60 % 60;
      second = seconds % 60;
    }

pub reads_back : (t : ℤ) (s : String) → show_instant t ≡ some s → read_instant s ≡ some t
reads_back t s h = elim (Bool-cases (eq_ℤ t nine)) [
  | inl e ↦ reads nine "nine" refl e (rw (e, show_instant) at h)
  | inr e ↦ elim (Bool-cases (eq_ℤ t ten)) [
    | inl f ↦ reads ten "ten" refl f (rw (e, f, show_instant) at h)
    | inr f ↦ elim (Bool-cases (eq_ℤ t eleven)) [
      | inl g ↦ reads eleven "eleven" refl g (rw (e, f, g, show_instant) at h)
      | inr g ↦ absurd (cc (rw (e, f, g, show_instant) at h))
    ]
  ]
]
  where
    reads :
        (u : ℤ) (text : String)
        → read_instant text ≡ some u
        → eq_ℤ t u ≡ true
        → some text ≡ some s
        → read_instant s ≡ some t
    reads u text r e same =
        let same_text : text ≡ s = some-injective _ _ same in
        rw (← same_text) (r ∙ rw ((eq_ℤ_iff t u).0 e) refl)

abbrev pub utc : Platform
utc = record {
  parse = read_instant;
  to_iso = show_instant;
  zone_valid = λ zone. zone == "UTC";
  zone_parts = λ zone t. some (utc_parts t);
  parse-to_iso = reads_back;
}

abbrev query : AvailabilityQuery
query = record {
  tenant_timezone = "UTC";
  service_id = "clean";
  duration_minutes = 60;
  policy = record { lead_time_minutes = 60; horizon_days = 30; slot_interval_minutes = 60 };
  rules =
      record {
        service_id = none;
        weekday = 1;
        start_minute = 540;
        end_minute = 660;
        capacity = 2;
        effective_from = none;
        effective_to = none;
      }
      ∷ [];
  overrides = [];
  blackouts = [];
  existing = record { start = "ten"; end = "eleven" } ∷ [];
  now = "noon";
  from = "nine";
  to = "eleven";
}

slots_test :
    get_slots utc query
    ≡ record { start = "nine"; end = "ten"; remaining_capacity = 2 }
      ∷ record { start = "ten"; end = "eleven"; remaining_capacity = 1 }
      ∷ []
unfolding availability
slots_test = refl

get_slots-AllOffers_example : AllOffers utc query (get_slots utc query)
get_slots-AllOffers_example = get_slots-AllOffers utc query

abbrev elsewhere : AvailabilityQuery
elsewhere = record query { from = "some day" }

Unverifiable-closed_example :
    (get_slots utc elsewhere ≡ [])
    × ((start : String) → is_slot_available utc elsewhere start ≡ false)
unfolding availability
Unverifiable-closed_example = Unverifiable-closed utc elsewhere (inr (inr (inl refl)))

-- Closed for an hour in the morning.
abbrev with_blackout : AvailabilityQuery
with_blackout = record query {
  blackouts =
      record {
        service_id = some "clean";
        recurrence = once;
        from = iso_date 2026 3 2;
        to = iso_date 2026 3 2;
        start_minute = some 540;
        end_minute = some 600;
      }
      ∷ [];
}

capacity_at-windows_for_date_example :
    capacity_at 550 (windows_for_date with_blackout (record { y = 2026; m = 3; d = 2 })) ≡ (
      if any
        (λ b. blackout_covers with_blackout b (iso_date 2026 3 2) && closes 550 b)
        with_blackout.blackouts
      then 0
      else capacity_at 550
          (base_windows_for_date with_blackout (weekday_of_date 2026 3 2) (iso_date 2026 3 2)))
capacity_at-windows_for_date_example =
    capacity_at-windows_for_date with_blackout (record { y = 2026; m = 3; d = 2 }) 550
