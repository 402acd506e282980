-- ===== src/Core/Invariant/Network.antt =====
-- The invariant under commands and along the steps of the network (crates/aster_fsd_core/src/network/mod.rs).
use aster_fsd.Prelude.{some, Option, ◌≡◌, ◌≢◌, arith, nat_eq}
use aster_fsd.Prelude.Map.{get}
use aster_fsd.Model.Callsign.{Callsign, callsign_eq}
use aster_fsd.Model.Command.{Command}
use aster_fsd.Model.Position.{Position}
use aster_fsd.Model.Rating.{client_type_eq}
use aster_fsd.Model.Session.{phase_eq, ConnectionId, FlightPlan}
use aster_fsd.Core.Authentication.{login_presence}
use aster_fsd.Core.Change.{
  Change, unchanged, refiled, identifies, activates, logs_off, kills, execute-Change,
}
use aster_fsd.Core.Invariant.{callsign_in, callsign_at, IsConsistent, callsigns_distinct}
use aster_fsd.Core.Invariant.Login.{
  register-IsConsistent, identify-IsConsistent, activate-IsConsistent, fresh-idle,
  disconnect-IsConsistent,
}
use aster_fsd.Core.Invariant.Sessions.{put_session-IsConsistent}
use aster_fsd.Core.Lifecycle.{empty_state}
use aster_fsd.Core.Network.{
  Network, execute, registered, executed, disconnected, Reachable, start, next,
}
use aster_fsd.Core.State.{Session, NetworkState, put_session}

-- A session that differs from the stored one in its position and flight plan only.
pub refile-IsConsistent :
    (state : NetworkState) (id : ConnectionId) (s : Session) (position : Option Position)
    (plan : Option FlightPlan)
    → IsConsistent state
    → get id state.sessions ≡ some s
    → IsConsistent (put_session state id (record s { position = position; flight_plan = plan }))
unfolding callsign_in
refile-IsConsistent state id s position plan inv e =
    put_session-IsConsistent state id _ inv (inv.keyed id s e) (inv.live id s e) (rw e)

Change-IsConsistent :
    (state : NetworkState) (id : ConnectionId) {state' : NetworkState}
    → Change state id state'
    → IsConsistent state
    → IsConsistent state'
Change-IsConsistent state id unchanged inv = inv
Change-IsConsistent state id (refiled s position plan e) inv =
    refile-IsConsistent state id s position plan inv e
Change-IsConsistent state id (identifies s command generation e fresh) inv =
    identify-IsConsistent state id s command generation inv e fresh
Change-IsConsistent state id (activates s command identity generation e free fresh named) inv =
    activate-IsConsistent state id s (login_presence command identity) inv e
      (fresh-idle s generation fresh) free
Change-IsConsistent state id (kills _ _ _ target_id reason _ _ _ _) inv =
    disconnect-IsConsistent state target_id reason inv
Change-IsConsistent state id (logs_off reason) inv = disconnect-IsConsistent state id reason inv

-- Executing any command keeps the invariant, whatever the state was when the command first looked.
pub execute-IsConsistent :
    (network : Network) (before state : NetworkState) (id : ConnectionId) (command : Command)
    → IsConsistent state
    → IsConsistent (execute network before state id command).0
execute-IsConsistent network before state id command =
    Change-IsConsistent state id (execute-Change network before state id command)

empty-IsConsistent : IsConsistent empty_state
unfolding get callsign_in
empty-IsConsistent = record {
  unique = tt;
  keyed = λ id s h. cc;
  live = λ id s h. ground arith;
  indexed = λ c id. (λ h. cc, λ h. cc);
}

-- In every state that registrations, commands (in any interleaving of their two locks) and
-- disconnections reach, each session is stored once and under its own id, is live exactly when it
-- has a presence, is never closed, and the callsign index is exactly the callsigns of the sessions.
pub Reachable-IsConsistent :
    (network : Network) {state : NetworkState} → Reachable network state → IsConsistent state
Reachable-IsConsistent network start = empty-IsConsistent
Reachable-IsConsistent network (next r (registered state state' id peer dialect h)) =
    register-IsConsistent network.config state state' id peer dialect
      (Reachable-IsConsistent network r) h
Reachable-IsConsistent network (next r (executed before state id command)) =
    execute-IsConsistent network before state id command (Reachable-IsConsistent network r)
Reachable-IsConsistent network (next r (disconnected state id reason)) =
    disconnect-IsConsistent state id reason (Reachable-IsConsistent network r)

-- In a reachable state, no two different connections are logged in under one callsign.
pub Reachable-distinct :
    (network : Network) {state : NetworkState} (c : Callsign) (a b : ConnectionId)
    → Reachable network state
    → a ≢ b
    → callsign_at state a ≡ some c
    → callsign_at state b ≢ some c
Reachable-distinct network {state} c a b r other ha hb =
    other (callsigns_distinct state c a b (Reachable-IsConsistent network r) ha hb)
