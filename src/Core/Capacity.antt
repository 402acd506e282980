-- ===== src/Core/Capacity.antt =====
-- The number of sessions and the configured capacity: `Network::register` of
-- crates/aster_fsd_core/src/network/mod.rs and the commands.
use aster_fsd.Prelude.{some, ◌≡◌, inl, inr, arith, nat_eq, ◌≤◌, length, Option-cases, ok, Text}
use aster_fsd.Prelude.Map.{get, length-insert, length-remove-le}
use aster_fsd.Model.Callsign.{callsign_eq}
use aster_fsd.Model.Session.{ConnectionId, ProtocolDialect, phase_eq}
use aster_fsd.Core.Authentication.{activate}
use aster_fsd.Core.Change.{
  Change, unchanged, refiled, identifies, activates, logs_off, kills, execute-Change,
}
use aster_fsd.Core.Lifecycle.{new_session, register, disconnect}
use aster_fsd.Core.Network.{Network, registered, executed, disconnected, Reachable, start, next}
use aster_fsd.Core.Ports.{CoreConfig}
use aster_fsd.Core.State.{SocketAddr, Session, NetworkState, put_session}

length-disconnect-le :
    (state : NetworkState) (id : ConnectionId) (reason : Text)
    → length (disconnect state id reason).0.sessions ≤ length state.sessions
unfolding disconnect
length-disconnect-le state id reason = elim (Option-cases (get id state.sessions)) [
  | inl e ↦ rw (e, disconnect) (omega arith)
  | inr (s, e) ↦
      rw (e, disconnect)
        (elim (Option-cases s.presence) [
          | inl silent ↦ rw silent (length-remove-le id state.sessions)
          | inr (p, named) ↦ rw named (length-remove-le id state.sessions)
        ])
]

length-put_session :
    (state : NetworkState) (id : ConnectionId) (s t : Session)
    → get id state.sessions ≡ some s
    → length (put_session state id t).sessions ≡ length state.sessions
length-put_session state id s t e = rw (length-insert id t state.sessions) (rw e)

length-Change-le :
    (state : NetworkState) (id : ConnectionId) {state' : NetworkState}
    → Change state id state'
    → length state'.sessions ≤ length state.sessions
unfolding activate
length-Change-le state id unchanged = omega arith
length-Change-le state id (refiled s position plan e) =
    omega (arith, length-put_session state id s _ e)
length-Change-le state id (identifies s command g e fresh) =
    omega (arith, length-put_session state id s _ e)
length-Change-le state id (activates s command identity g e free fresh named) =
    omega (arith, length-put_session state id s _ e)
length-Change-le state id (logs_off reason) = length-disconnect-le state id reason
length-Change-le state id (kills s p target t reason e named high found) =
    length-disconnect-le state t reason

length-register :
    (config : CoreConfig) (state state' : NetworkState) (id : ConnectionId) (peer : SocketAddr)
    (dialect : ProtocolDialect)
    → register config state id peer dialect ≡ ok state'
    → length state'.sessions ≤ config.max_clients
unfolding register
length-register config state state' id peer dialect h =
    ground (arith, length-insert id (new_session id peer dialect) state.sessions)

-- No reachable state has more sessions than max_clients.
pub Reachable-capacity :
    (network : Network) {state : NetworkState}
    → Reachable network state
    → length state.sessions ≤ network.config.max_clients
Reachable-capacity network start = omega arith
Reachable-capacity network (next r (registered state state' id peer dialect h)) =
    length-register network.config state state' id peer dialect h
Reachable-capacity network (next r (executed before state id command)) = omega (
  arith,
  length-Change-le state id (execute-Change network before state id command),
  Reachable-capacity network r,
)
Reachable-capacity network (next r (disconnected state id reason)) =
    omega (arith, length-disconnect-le state id reason, Reachable-capacity network r)
