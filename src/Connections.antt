-- ===== src/Connections.antt =====
-- packages/integrations/src/connection.ts: the states of a tenant's connection to a provider, its
-- health and its changes.
pub mod Laws
pub mod Tests
use booking_lumin_checkout.Base.{
  ℕ, String, Bool, true, false, ◌||◌, Option, none, some, List, [], ◌∷◌, any, nat_eq, or_else,
  if◌then◌else◌,
}

pub data ConnectionStatus : Type 0 where
  not_connected connected error revoked : ConnectionStatus

abbrev number : ConnectionStatus → ℕ
number ConnectionStatus.not_connected = 0
number ConnectionStatus.connected = 1
number ConnectionStatus.error = 2
number ConnectionStatus.revoked = 3

abbrev pub same_status : ConnectionStatus → ConnectionStatus → Bool
same_status a b = nat_eq (number a) (number b)

abbrev pub status_transitions : ConnectionStatus → List ConnectionStatus
status_transitions ConnectionStatus.not_connected =
    ConnectionStatus.connected ∷ ConnectionStatus.error ∷ []
status_transitions ConnectionStatus.connected =
    ConnectionStatus.revoked ∷ ConnectionStatus.error ∷ ConnectionStatus.not_connected ∷ []
status_transitions ConnectionStatus.error =
    ConnectionStatus.connected ∷ ConnectionStatus.not_connected ∷ ConnectionStatus.revoked ∷ []
status_transitions ConnectionStatus.revoked =
    ConnectionStatus.connected ∷ ConnectionStatus.not_connected ∷ []

unfoldable pub can_transition_status : ConnectionStatus → ConnectionStatus → Bool
can_transition_status from to =
    if same_status from to then true else any (λ s. same_status s to) (status_transitions from)

pub data IntegrationKind : Type 0 where
  payment calendar notification webhook : IntegrationKind

pub record IntegrationConnection : Type 0 where
  pub id : String
  pub tenant_id : String
  pub kind : IntegrationKind
  pub provider : String
  pub status : ConnectionStatus
  pub last_check_at : Option String
  pub last_error : Option String

pub record ConnectionHealth : Type 0 where
  pub provider : String
  pub status : ConnectionStatus
  pub healthy : Bool
  pub checked_at : String
  pub last_error : Option String

-- The parts of a forced health that are given; a null counts as left out.
pub record HealthOverride : Type 0 where
  pub status : Option ConnectionStatus
  pub healthy : Option Bool
  pub last_error : Option String
  pub checked_at : Option String

abbrev first_of : Option String → Option String → Option String
first_of none b = b
first_of (some a) b = some a

abbrev default_error : ConnectionStatus → Option String
default_error status =
    if same_status status ConnectionStatus.error then some "unknown error" else none

unfoldable pub check_health : IntegrationConnection → HealthOverride → ConnectionHealth
check_health connection override =
    let status = or_else override.status connection.status in
    record {
      provider = connection.provider;
      status = status;
      healthy = or_else override.healthy (same_status status ConnectionStatus.connected);
      checked_at = or_else override.checked_at "1970-01-01T00:00:00.000Z";
      last_error =
          first_of override.last_error (first_of connection.last_error (default_error status));
    }

unfoldable pub mock_health :
    String → ConnectionStatus → Option String → Option String → ConnectionHealth
mock_health provider status checked_at last_error = record {
  provider = provider;
  status = status;
  healthy = same_status status ConnectionStatus.connected;
  checked_at = or_else checked_at "1970-01-01T00:00:00.000Z";
  last_error = first_of last_error (default_error status);
}

-- `last_error` is left as it is where the patch has none.
unfoldable pub with_status :
    IntegrationConnection
    → ConnectionStatus
    → Option String
    → Option (Option String)
    → IntegrationConnection
with_status connection status checked_at last_error = record connection {
  status = status;
  last_check_at = first_of checked_at connection.last_check_at;
  last_error = or_else last_error connection.last_error;
}

unfoldable pub connect_connection : IntegrationConnection → String → IntegrationConnection
unfolding with_status
connect_connection connection checked_at =
    with_status connection ConnectionStatus.connected (some checked_at) (some none)

unfoldable pub disconnect_connection : IntegrationConnection → IntegrationConnection
unfolding with_status
disconnect_connection connection =
    with_status connection ConnectionStatus.not_connected none (some none)

unfoldable pub reconnect_connection : IntegrationConnection → String → IntegrationConnection
unfolding with_status
reconnect_connection connection checked_at =
    with_status connection ConnectionStatus.connected (some checked_at) (some none)

unfoldable pub revoke_connection : IntegrationConnection → IntegrationConnection
unfolding with_status
revoke_connection connection = with_status connection ConnectionStatus.revoked none none

unfoldable pub mark_connection_error :
    IntegrationConnection → String → String → IntegrationConnection
unfolding with_status
mark_connection_error connection message checked_at =
    with_status connection ConnectionStatus.error (some checked_at) (some (some message))

unfoldable pub new_calendar_connection : String → String → String → IntegrationConnection
new_calendar_connection id tenant_id provider = record {
  id = id;
  tenant_id = tenant_id;
  kind = IntegrationKind.calendar;
  provider = provider;
  status = ConnectionStatus.not_connected;
  last_check_at = none;
  last_error = none;
}
