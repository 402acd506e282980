-- ===== src/Core/State.antt =====
-- crates/aster_fsd_core/src/network/state.rs: sessions and the callsign index.
use aster_fsd.Prelude.{ℕ, nat_eq, Text, Option, none, some, option_map}
use aster_fsd.Prelude.Map.{Map, insert}
use aster_fsd.Model.Callsign.{Callsign}
use aster_fsd.Model.Position.{Position}
use aster_fsd.Model.Session.{
  ConnectionId, ProtocolDialect, SessionPhase, Identification, ClientPresence, FlightPlan,
}

-- `std::net::SocketAddr`: `ip` is the text that the address prints.
pub record SocketAddr : Type 0 where
  pub ip : Text
  pub port : ℕ

pub record Session : Type 0 where
  pub connection_id : ConnectionId
  pub peer : SocketAddr
  pub dialect : ProtocolDialect
  pub phase : SessionPhase
  pub generation : ℕ
  pub identification : Option Identification
  pub presence : Option ClientPresence
  pub position : Option Position
  pub flight_plan : Option FlightPlan

pub record NetworkState : Type 0 where
  pub sessions : Map ConnectionId Session
  pub callsigns : Map Callsign ConnectionId

-- A write through `state.sessions.insert` or `state.sessions.get_mut`.
abbrev pub put_session : NetworkState → ConnectionId → Session → NetworkState
put_session state id session = record state { sessions = insert id session state.sessions }

pub data RegisterError : Type 0 where
  server_full duplicate_connection : RegisterError

-- `Session::callsign`
unfoldable pub session_callsign : Session → Option Callsign
session_callsign session = option_map (λ (p : ClientPresence). p.callsign) session.presence

pub record SessionSnapshot : Type 0 where
  pub connection_id : ConnectionId
  pub peer : SocketAddr
  pub dialect : ProtocolDialect
  pub phase : SessionPhase
  pub callsign : Option Callsign
  pub presence : Option ClientPresence

snapshot_callsign : Option ClientPresence → Option Identification → Option Callsign
snapshot_callsign (some presence) _ = some presence.callsign
snapshot_callsign none (some identification) = some identification.callsign
snapshot_callsign none none = none

-- `Session::snapshot`
unfoldable pub session_snapshot : Session → SessionSnapshot
unfolding snapshot_callsign
session_snapshot session = record {
  connection_id = session.connection_id;
  peer = session.peer;
  dialect = session.dialect;
  phase = session.phase;
  callsign = snapshot_callsign session.presence session.identification;
  presence = session.presence;
}
