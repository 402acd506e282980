-- ===== src/Tests/Data.antt =====
-- A network of a pilot and a controller who have logged in and reported their positions.
use aster_fsd.Prelude.{ℕ, bytes, none, some, [], ◌∷◌, refl, ◌≡◌, subst, list_eqb}
use aster_fsd.Prelude.Int.{pos}
use aster_fsd.Prelude.Map.{get, insert}
use aster_fsd.Model.Callsign.{Callsign}
use aster_fsd.Model.Command.{Command, source}
use aster_fsd.Model.Float.{FloatOps, exponent, magnitude, is_negative, is_finite, is_nan, le_f64}
use aster_fsd.Model.Position.{
  Position, PilotPosition, AtcPosition, validate, in_range, is_mode, is_octal, coordinates,
  position_callsign,
}
use aster_fsd.Model.Rating.{
  pilot, atc, pilot_allows_wire_value, atc_allows_wire_value, pilot_wire_value, atc_wire_value,
}
use aster_fsd.Model.Session.{LoginCommand, ClientPresence, classic, active}
use aster_fsd.Core.Authentication.{
  login, login_generation, validate_rating, identity_is_active, rating_is_authorized,
  expected_revision, activate_login, login_is_stale, is_misidentified, activate,
}
use aster_fsd.Core.Commands.{
  execute_active, dispatch, handle_state_command, handle_position, expected_type, claims,
}
use aster_fsd.Core.Lifecycle.{register, empty_state, new_session}
use aster_fsd.Core.Network.{Network, execute, Reachable, registered, executed, start, next}
use aster_fsd.Core.Ports.{allow_all, unavailable}
use aster_fsd.Core.State.{SocketAddr, Session, NetworkState, put_session}

-- An arithmetic in which all distances are zero.
abbrev pub floats : FloatOps
floats = record {
  add = λ a b. 0;
  sub = λ a b. 0;
  mul = λ a b. 0;
  div = λ a b. 0;
  max_f64 = λ a b. 0;
  sqrt = λ a. 0;
  trunc = λ a. 0;
  sin = λ a. 0;
  cos = λ a. 0;
  atan2 = λ a b. 0;
  powi = λ a n. 0;
  to_radians = λ a. 0;
  from_i32 = λ n. 0;
}

abbrev pub network : Network
network = record {
  config = record { max_clients = 2; product_message = []; motd = [] };
  authenticator = allow_all;
  weather_provider = unavailable;
  floats = floats;
}

abbrev pub peer : SocketAddr
peer = record { ip = bytes "127.0.0.1"; port = 6809 }

abbrev pub ab1 : Callsign
ab1 = record { as_str = bytes "AB1" }

abbrev pub twr : Callsign
twr = record { as_str = bytes "TWR" }

abbrev pub pilot_login : LoginCommand
pilot_login = record {
  callsign = ab1;
  client_type = pilot;
  network_id = bytes "10";
  password = bytes "p";
  requested_rating = pos 1;
  protocol_revision = 9;
  real_name = bytes "Ann";
  simulator_type = none;
}

abbrev pub atc_login : LoginCommand
atc_login = record {
  callsign = twr;
  client_type = atc;
  network_id = bytes "20";
  password = bytes "q";
  requested_rating = pos 11;
  protocol_revision = 9;
  real_name = bytes "Bob";
  simulator_type = none;
}

abbrev pub pilot_presence : ClientPresence
pilot_presence = record {
  callsign = ab1;
  client_type = pilot;
  network_id = bytes "10";
  real_name = bytes "10";
  rating = pos 1;
  protocol_revision = 9;
  simulator_type = none;
}

abbrev pub atc_presence : ClientPresence
atc_presence = record {
  callsign = twr;
  client_type = atc;
  network_id = bytes "20";
  real_name = bytes "20";
  rating = pos 11;
  protocol_revision = 9;
  simulator_type = none;
}

abbrev pub pilot_position : PilotPosition
pilot_position = record {
  callsign = ab1;
  mode = b'N';
  squawk = bytes "2200";
  rating = pos 1;
  latitude = 0;
  longitude = 0;
  altitude = pos 1000;
  groundspeed = pos 100;
  pbh = 0;
  flags = pos 0;
}

abbrev pub atc_position : AtcPosition
atc_position = record {
  callsign = twr;
  frequency = pos 18300;
  facility_type = pos 4;
  visual_range = pos 50;
  rating = pos 11;
  latitude = 0;
  longitude = 0;
  altitude = pos 0;
}

abbrev pub pilot_session : Session
pilot_session = record {
  connection_id = 1;
  peer = peer;
  dialect = classic;
  phase = active;
  generation = 1;
  identification = none;
  presence = some pilot_presence;
  position = some (Position.pilot pilot_position);
  flight_plan = none;
}

abbrev pub atc_session : Session
atc_session = record {
  connection_id = 2;
  peer = peer;
  dialect = classic;
  phase = active;
  generation = 1;
  identification = none;
  presence = some atc_presence;
  position = some (Position.atc atc_position);
  flight_plan = none;
}

abbrev pub online : NetworkState
online = record {
  sessions = (1, pilot_session) ∷ (2, atc_session) ∷ [];
  callsigns = (ab1, 1) ∷ (twr, 2) ∷ [];
}

abbrev pub one_connected : NetworkState
one_connected = put_session empty_state 1 (new_session 1 peer classic)

abbrev pub both_connected : NetworkState
both_connected = record {
  sessions = (1, new_session 1 peer classic) ∷ (2, new_session 2 peer classic) ∷ [];
  callsigns = [];
}

abbrev after : NetworkState → ℕ → Command → NetworkState
after state id command = (execute network state state id command).0

pub both_connected-Reachable : Reachable network both_connected
unfolding register get insert
both_connected-Reachable =
    next (next start (registered empty_state one_connected 1 peer classic refl))
      (registered one_connected both_connected 2 peer classic refl)

abbrev pilot_in : NetworkState
pilot_in = after both_connected 1 (Command.login pilot_login)

abbrev both_in : NetworkState
both_in = after pilot_in 2 (Command.login atc_login)

abbrev pilot_seen : NetworkState
pilot_seen = after both_in 1 (Command.position (Position.pilot pilot_position))

online_eq : after pilot_seen 2 (Command.position (Position.atc atc_position)) ≡ online
unfolding execute login login_generation get validate_rating identity_is_active rating_is_authorized
    pilot_allows_wire_value atc_allows_wire_value pilot_wire_value atc_wire_value expected_revision
    activate_login login_is_stale is_misidentified activate insert allow_all execute_active source
    position_callsign claims dispatch handle_state_command handle_position validate in_range
    is_finite le_f64 is_mode is_octal coordinates exponent magnitude is_negative is_nan
    expected_type list_eqb bytes
online_eq = refl

pub online-Reachable : Reachable network online
online-Reachable = subst (Reachable network) online_eq (
    next
      (next
        (next
          (next both_connected-Reachable
            (executed both_connected both_connected 1 (Command.login pilot_login)))
          (executed pilot_in pilot_in 2 (Command.login atc_login)))
        (executed both_in both_in 1 (Command.position (Position.pilot pilot_position))))
      (executed pilot_seen pilot_seen 2 (Command.position (Position.atc atc_position))))
