-- ===== src/Core/Lifecycle.antt =====
-- crates/aster_fsd_core/src/network/lifecycle.rs and the registration of network/mod.rs.
use aster_fsd.Prelude.{
  Text, Result, ok, err, Option, none, some, List, [], ◌∷◌, length, is_empty, leb, nat_eq,
  if◌then◌else◌,
}
use aster_fsd.Prelude.Map.{get, remove, contains_key}
use aster_fsd.Model.Callsign.{callsign_eq}
use aster_fsd.Model.Event.{Event}
use aster_fsd.Model.Session.{ConnectionId, ProtocolDialect, connected, ClientPresence}
use aster_fsd.Core.Effects.{Delivery, Effects, no_effects, send}
use aster_fsd.Core.Ports.{CoreConfig}
use aster_fsd.Core.Routing.{active_ids}
use aster_fsd.Core.State.{
  SocketAddr, Session, NetworkState, put_session, RegisterError, server_full, duplicate_connection,
  SessionSnapshot, session_snapshot,
}

-- `NetworkState::default()`
abbrev pub empty_state : NetworkState
empty_state = record { sessions = []; callsigns = [] }

abbrev pub new_session : ConnectionId → SocketAddr → ProtocolDialect → Session
new_session connection_id peer dialect = record {
  connection_id = connection_id;
  peer = peer;
  dialect = dialect;
  phase = connected;
  generation = 0;
  identification = none;
  presence = none;
  position = none;
  flight_plan = none;
}

-- `Network::register`: the new state, or the reason of the refusal.
unfoldable pub register :
    CoreConfig
    → NetworkState
    → ConnectionId
    → SocketAddr
    → ProtocolDialect
    → Result NetworkState RegisterError
register config state connection_id peer dialect =
    if contains_key connection_id state.sessions
    then err duplicate_connection
    else if leb config.max_clients (length state.sessions)
    then err server_full
    else ok (put_session state connection_id (new_session connection_id peer dialect))

-- `Network::snapshot`
unfoldable pub snapshot : NetworkState → ConnectionId → Option SessionSnapshot
snapshot state connection_id = elim (get connection_id state.sessions) [
  | none ↦ none
  | some session ↦ some (session_snapshot session)
]

-- `Network::broadcast`
unfoldable pub broadcast : NetworkState → Event → Effects
broadcast state event = send (active_ids state none) event

-- What the peers are told of a session that had logged in.
unfoldable pub removal_deliveries : NetworkState → ClientPresence → List Delivery
removal_deliveries state presence =
    let peers = active_ids state none in
    if is_empty peers
    then []
    else record {
      recipients = peers;
      event = Event.client_removed presence.callsign presence.client_type presence.network_id;
    }
      ∷ []

-- The state without the session, and the deliveries. The removed session ends as `closed`; its
-- value is dropped.
unfoldable pub release : NetworkState → Option ClientPresence → NetworkState × List Delivery
unfolding removal_deliveries
release state none = (state, [])
release state (some presence) =
    let state' = record state { callsigns = remove presence.callsign state.callsigns } in
    (state', removal_deliveries state' presence)

-- `Network::disconnect_locked`, and so `Network::disconnect`.
unfoldable pub disconnect : NetworkState → ConnectionId → Text → NetworkState × Effects
unfolding release
disconnect state connection_id reason = elim (get connection_id state.sessions) [
  | none ↦ (state, no_effects)
  | some session ↦
      let (state', deliveries) =
        release (record state { sessions = remove connection_id state.sessions })
          session.presence in
      (
        state',
        record {
          deliveries = deliveries;
          close = some (record { connection_id = connection_id; reason = reason });
        },
      )
]
