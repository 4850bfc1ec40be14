-- ===== src/Edge/Tests.antt =====
-- Runs of the edge functions' availability on the UTC calendar of Availability.Tests.
use booking_lumin_checkout.Base.{◌*◌, ◌<◌, ◌≡◌, refl, none, [], ◌∷◌, true, false}
use booking_lumin_checkout.Base.Int.{pos, ◌+ℤ◌}
use booking_lumin_checkout.Contracts.Availability.{AvailabilityQuery, once}
use booking_lumin_checkout.Availability.Dates.{ms_per_minute, iso_date}
use booking_lumin_checkout.Availability.Slots.{consumed, is_slot_available}
use booking_lumin_checkout.Availability.Tests.{availability, utc, ten, eleven}
use booking_lumin_checkout.Edge.{
  EdgeQuery, edge_override_window, edge_overrides, edge_rules, edge_windows, edge_windows_for_date,
  edge_window_starts, edge_day_starts, edge_all_starts, capacities_between, capacities_at,
  capacities_read, capacity_by_start_map, slots_of_map, edge_compute_slots, edge_is_slot_available,
  capacity_in, slot_capacity_at,
}
use booking_lumin_checkout.Edge.Mirror.{as_query, edge_is_slot_available-same}
use booking_lumin_checkout.Edge.Grid.{slot_capacity_at-room}

abbrev query : EdgeQuery
query = record {
  tenant_timezone = "UTC";
  service_id = "clean";
  duration_minutes = 60;
  policy = record { lead_time_minutes = 60; horizon_days = 30; slot_interval_minutes = 60 };
  rules =
      record { weekday = 1; service_id = none; start_minute = 540; end_minute = 660; capacity = 2 }
      ∷ [];
  overrides = [];
  existing = record { start = "ten"; end = "eleven" } ∷ [];
  now = "noon";
  from = "ten";
  to = "ten";
}

edge : Unit {0}
unfolding availability edge_override_window edge_overrides edge_rules edge_windows
    edge_windows_for_date edge_window_starts edge_day_starts edge_all_starts capacities_between
    capacities_at capacities_read capacity_by_start_map slots_of_map edge_compute_slots
    edge_is_slot_available capacity_in slot_capacity_at
edge = tt

available_at_ten : edge_is_slot_available utc query "ten" ≡ true
unfolding edge
available_at_ten = refl

capacity_at_ten : slot_capacity_at utc query "ten" ≡ 2
unfolding edge
capacity_at_ten = refl

-- The same tenant closes the day in the contract's terms: the core engine offers nothing, where the
-- edge functions, which read no blackouts, find the start available.
abbrev with_blackout : AvailabilityQuery
with_blackout = record (as_query query) {
  blackouts =
      record {
        service_id = none;
        recurrence = once;
        from = iso_date 2026 3 2;
        to = iso_date 2026 3 2;
        start_minute = none;
        end_minute = none;
      }
      ∷ [];
}

closed_in_core : is_slot_available utc with_blackout "ten" ≡ false
unfolding edge
closed_in_core = refl

edge_is_slot_available-same_example :
    edge_is_slot_available utc query "ten" ≡ is_slot_available utc (as_query query) "ten"
edge_is_slot_available-same_example = edge_is_slot_available-same utc query "ten"

slot_capacity_at-room_example :
    consumed (record { start = ten; end = eleven } ∷ []) ten (ten +ℤ pos (60 * ms_per_minute))
    < slot_capacity_at utc query "ten"
unfolding edge
slot_capacity_at-room_example =
    slot_capacity_at-room utc query "ten" (record { start = ten; end = eleven } ∷ []) ten refl refl
      available_at_ten
