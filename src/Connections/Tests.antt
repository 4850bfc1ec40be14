-- ===== src/Connections/Tests.antt =====
-- Runs of the changes of a connection.
use booking_lumin_checkout.Base.{◌≡◌, refl, none}
use booking_lumin_checkout.Connections.{
  ConnectionStatus, IntegrationConnection, HealthOverride, new_calendar_connection,
  connect_connection, with_status, check_health,
}

abbrev fresh : IntegrationConnection
fresh = new_calendar_connection "c1" "t1" "google"

abbrev nothing : HealthOverride
nothing = record { status = none; healthy = none; last_error = none; checked_at = none }

health_test :
    (check_health (connect_connection fresh "2026-03-01T09:00:00.000Z") nothing).status
    ≡ ConnectionStatus.connected
unfolding check_health connect_connection with_status
health_test = refl
