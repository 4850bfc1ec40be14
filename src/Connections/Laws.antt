-- ===== src/Connections/Laws.antt =====
-- packages/integrations/src/connection.ts: which changes of a connection the table of states allows.
use booking_lumin_checkout.Base.{String, Bool, true, false, not, ◌≡◌, refl}
use booking_lumin_checkout.Connections.{
  ConnectionStatus, same_status, can_transition_status, IntegrationConnection, with_status,
  connect_connection, disconnect_connection, reconnect_connection, revoke_connection,
  mark_connection_error,
}

-- A change with its arguments.
pub data Change : Type 0 where
  connect reconnect : (checked_at : String) → Change
  disconnect revoke : Change
  fail : (message checked_at : String) → Change

unfoldable pub changed : Change → IntegrationConnection → IntegrationConnection
unfolding connect_connection disconnect_connection reconnect_connection revoke_connection
    mark_connection_error
changed (Change.connect at) c = connect_connection c at
changed (Change.reconnect at) c = reconnect_connection c at
changed Change.disconnect c = disconnect_connection c
changed Change.revoke c = revoke_connection c
changed (Change.fail message at) c = mark_connection_error c message at

-- The two changes that the table leaves out.
abbrev pub left_out : Change → ConnectionStatus → Bool
left_out Change.revoke status = same_status status ConnectionStatus.not_connected
left_out (Change.fail message at) status = same_status status ConnectionStatus.revoked
left_out _ status = false

by_revoke :
    (s : ConnectionStatus)
    → can_transition_status s ConnectionStatus.revoked
      ≡ not (same_status s ConnectionStatus.not_connected)
unfolding can_transition_status
by_revoke ConnectionStatus.not_connected = refl
by_revoke ConnectionStatus.connected = refl
by_revoke ConnectionStatus.error = refl
by_revoke ConnectionStatus.revoked = refl

by_fail :
    (s : ConnectionStatus)
    → can_transition_status s ConnectionStatus.error ≡ not (same_status s ConnectionStatus.revoked)
unfolding can_transition_status
by_fail ConnectionStatus.not_connected = refl
by_fail ConnectionStatus.connected = refl
by_fail ConnectionStatus.error = refl
by_fail ConnectionStatus.revoked = refl

by_connect : (s : ConnectionStatus) → can_transition_status s ConnectionStatus.connected ≡ true
unfolding can_transition_status
by_connect ConnectionStatus.not_connected = refl
by_connect ConnectionStatus.connected = refl
by_connect ConnectionStatus.error = refl
by_connect ConnectionStatus.revoked = refl

by_disconnect :
    (s : ConnectionStatus) → can_transition_status s ConnectionStatus.not_connected ≡ true
unfolding can_transition_status
by_disconnect ConnectionStatus.not_connected = refl
by_disconnect ConnectionStatus.connected = refl
by_disconnect ConnectionStatus.error = refl
by_disconnect ConnectionStatus.revoked = refl

-- A change moves a connection as the table of states allows, but for two: a connection that was never
-- connected can be revoked, and one that is revoked can be marked with an error.
pub can_transition_status-changed :
    (change : Change) (c : IntegrationConnection)
    → can_transition_status c.status (changed change c).status ≡ not (left_out change c.status)
unfolding changed connect_connection disconnect_connection reconnect_connection revoke_connection
    mark_connection_error with_status
can_transition_status-changed (Change.connect at) c = by_connect c.status
can_transition_status-changed (Change.reconnect at) c = by_connect c.status
can_transition_status-changed Change.disconnect c = by_disconnect c.status
can_transition_status-changed Change.revoke c = by_revoke c.status
can_transition_status-changed (Change.fail message at) c = by_fail c.status
