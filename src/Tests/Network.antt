-- ===== src/Tests/Network.antt =====
-- Witnesses for the theorems on the network core.
use aster_fsd.Prelude.{
  false, some, none, ◌≡◌, ◌≢◌, ◌⊎◌, refl, arith, contains, bytes, list_eqb, nat_eq, ◌≤◌, length,
}
use aster_fsd.Prelude.Map.{get, remove}
use aster_fsd.Model.Callsign.{callsign_eq}
use aster_fsd.Model.Command.{Command, source}
use aster_fsd.Model.Rating.{
  AuthenticatedIdentity, administrator, flight_examiner, pilot_allows_wire_value, pilot_wire_value,
}
use aster_fsd.Core.Ports.{allow_all}
use aster_fsd.Model.Routing.{Destination}
use aster_fsd.Model.Session.{ConnectionId, classic, phase_eq}
use aster_fsd.Core.Authentication.{
  login, expected_revision, identity_is_active, rating_is_authorized,
}
use aster_fsd.Core.Capacity.{Reachable-capacity}
use aster_fsd.Core.Change.{Change, execute-Change}
use aster_fsd.Core.Invariant.{IsConsistent, callsign_at, callsign_in}
use aster_fsd.Core.Invariant.Network.{Reachable-IsConsistent, Reachable-distinct}
use aster_fsd.Core.Isolation.{MayKill, execute-Isolated}
use aster_fsd.Core.Lifecycle.{disconnect, release, new_session}
use aster_fsd.Core.Commands.{execute_active, claims, dispatch, handle_state_command}
use aster_fsd.Core.Network.{execute}
use aster_fsd.Core.Progress.{Advances, execute-Progress}
use aster_fsd.Core.Recipients.Audience.{is_audience, resolve_destination-is_audience}
use aster_fsd.Core.Recipients.Network.{execute-IsProper}
use aster_fsd.Core.Recipients.Proper.{IsProper}
use aster_fsd.Core.Routing.{resolve_destination, by_message}
use aster_fsd.Core.Sessions.{login-succeeds, disconnect-frees, IsLoggedIn}
use aster_fsd.Core.State.{Session}
use aster_fsd.Tests.Data.{
  network, floats, peer, ab1, twr, pilot_login, atc_session, online, both_connected,
  both_connected-Reachable, online-Reachable,
}

Reachable-IsConsistent_example : IsConsistent online
Reachable-IsConsistent_example = Reachable-IsConsistent network online-Reachable

Reachable-distinct_example : callsign_at online 2 ≢ some ab1
unfolding get callsign_in bytes
Reachable-distinct_example = Reachable-distinct network ab1 1 2 online-Reachable (omega arith) refl

-- The controller removes the pilot.
abbrev removal : Command
removal = Command.kill twr ab1 (bytes "bye")

execute-Change_example : Change online 2 (execute network online online 2 removal).0
execute-Change_example = execute-Change network online online 2 removal

execute-Isolated_example :
    (get 1 (execute network online online 2 removal).0.sessions ≡ get 1 online.sessions)
    ⊎ ((get 1 (execute network online online 2 removal).0.sessions ≡ none) × MayKill online 2)
execute-Isolated_example = execute-Isolated network online online 2 removal 1 (omega arith)

execute-IsProper_example : IsProper online 2 (execute network online online 2 removal).1
execute-IsProper_example =
    execute-IsProper network online online 2 removal
      (Reachable-IsConsistent network online-Reachable)

-- The pilot leaves, and the controller stays.
execute-Progress_example : Advances atc_session atc_session
unfolding get execute execute_active source claims dispatch handle_state_command disconnect release
    remove list_eqb bytes
execute-Progress_example =
    execute-Progress network online online 1 (Command.logoff ab1) 2 atc_session atc_session refl
      refl

Reachable-capacity_example : length online.sessions ≤ network.config.max_clients
Reachable-capacity_example = Reachable-capacity network online-Reachable

resolve_destination-is_audience_example :
    contains 2 (resolve_destination floats online 1 (Destination.direct twr) by_message)
    ≡ is_audience floats online 1 (Destination.direct twr) by_message 2
resolve_destination-is_audience_example =
    resolve_destination-is_audience floats online 1 (Destination.direct twr) by_message 2
      (Reachable-IsConsistent network online-Reachable)

abbrev trusted_identity : AuthenticatedIdentity
trusted_identity = record {
  network_id = bytes "10";
  real_name = bytes "10";
  atc_rating = administrator;
  pilot_rating = flight_examiner;
  suspended = false;
}

both_connected-unnamed :
    (k : ConnectionId) → callsign_at both_connected k ≢ some pilot_login.callsign
unfolding callsign_in get
both_connected-unnamed k = ground arith

login-succeeds_example :
    (s : Session) × IsLoggedIn
      (login network.config network.authenticator both_connected both_connected 1 pilot_login).0
      1
      pilot_login
      trusted_identity
      s
unfolding get allow_all expected_revision bytes identity_is_active rating_is_authorized
    pilot_allows_wire_value pilot_wire_value
login-succeeds_example =
    login-succeeds network.config network.authenticator both_connected 1 pilot_login
      trusted_identity (new_session 1 peer classic)
      (Reachable-IsConsistent network both_connected-Reachable) refl refl
      (record {
        idle = λ h. cc;
        announced = λ h. cc;
        revision = refl;
        free = both_connected-unnamed;
        trusted = refl;
        held = refl;
        certified = refl;
      })

disconnect-frees_example : get ab1 (disconnect online 1 (bytes "bye")).0.callsigns ≡ none
unfolding get callsign_in
disconnect-frees_example =
    disconnect-frees online 1 ab1 (bytes "bye") (Reachable-IsConsistent network online-Reachable)
      refl
