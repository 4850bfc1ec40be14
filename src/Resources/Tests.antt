-- ===== src/Resources/Tests.antt =====
-- Reservations of a crew of two.
use booking_lumin_checkout.Base.{
  ◌≤◌, String, true, false, ◌≡◌, refl, ◌==◌, Option, none, some, [], ◌∷◌, if◌then◌else◌,
}
use booking_lumin_checkout.Base.Int.{ℤ, pos}
use booking_lumin_checkout.Resources.{
  Resource, ResourceKind, ResourceMode, ResourceReservation, ReservationStatus, ResourceSlot,
  can_reserve, reservation_consumes,
}
use booking_lumin_checkout.Resources.Occupancy.{HasUnits, Reachable, units_held, units_held-bounded}

abbrev clock : String → Option ℤ
clock s =
    if s == "09:00"
    then some (pos 540)
    else if s == "10:00"
    then some (pos 600)
    else if s == "11:00"
    then some (pos 660)
    else none

abbrev crew : Resource
crew = record {
  id = "crew";
  tenant_id = "t1";
  name = "Crew";
  kind = ResourceKind.crew;
  mode = ResourceMode.pooled;
  capacity = 2;
  active = true;
}

abbrev slot : ResourceSlot
slot = record { start = "10:00"; end = "11:00" }

abbrev hold : ResourceReservation
hold = record {
  id = "r1";
  tenant_id = "t1";
  resource_id = "crew";
  booking_id = "b1";
  slot_start = "10:00";
  slot_end = "11:00";
  status = ReservationStatus.held;
  expires_at = "10:00";
}

free : can_reserve clock crew [] slot "09:00" 2 ≡ true
unfolding can_reserve
free = refl

both : Reachable clock crew "09:00" (hold ∷ (hold ∷ []))
both =
    Reachable.admit (Reachable.start "09:00") slot (hold ∷ (hold ∷ [])) free
      ((refl, refl), ((refl, refl), tt))

units_held-bounded_example : units_held clock "crew" (pos 630) "09:00" (hold ∷ (hold ∷ [])) ≤ 2
units_held-bounded_example = units_held-bounded clock crew both 2 HasUnits.pooled_all (pos 630)

taken : can_reserve clock crew (hold ∷ (hold ∷ [])) slot "09:00" 1 ≡ false
unfolding can_reserve
taken = refl

-- A hold whose expiry cannot be read takes no unit, in a slot that it overlaps.
unread_expiry :
    reservation_consumes clock (record hold { expires_at = "soon" }) slot "09:00" ≡ false
unfolding reservation_consumes
unread_expiry = refl
