-- ===== src/Model/Command.antt =====
-- crates/aster_fsd_model/src/command.rs: the commands that a protocol backend produces.
use aster_fsd.Prelude.{Text, bytes, Option, none, some, Bool, List}
use aster_fsd.Model.Callsign.{Callsign}
use aster_fsd.Model.Position.{Position, position_callsign}
use aster_fsd.Model.Routing.{Destination, QueryKind, HandoffKind, ClientDataKind}
use aster_fsd.Model.Session.{Identification, LoginCommand, FlightPlan}

pub data Command : Type 0 where
  noop : (source : Callsign) → Command
  identify : Identification → Command
  login : LoginCommand → Command
  logoff : (source : Callsign) → Command
  position : Position → Command
  text : (source : Callsign) (destination : Destination) (message : Text) → Command
  flight_plan : FlightPlan → Command
  query :
      (source : Callsign) (destination : Destination) (kind : QueryKind) (arguments : List Text)
      → Command
  response :
      (source : Callsign) (destination : Destination) (kind : QueryKind) (arguments : List Text)
      → Command
  ping : (source : Callsign) (destination : Destination) (payload : Text) → Command
  pong : (source : Callsign) (destination : Destination) (payload : Text) → Command
  handoff : (source target : Callsign) (kind : HandoffKind) (fields : List Text) → Command
  client_data : (source target : Callsign) (kind : ClientDataKind) (fields : List Text) → Command
  weather_request : (source : Callsign) (station : Text) (parsed : Bool) → Command
  kill : (source target : Callsign) (reason : Text) → Command

-- The claimed source callsign.
unfoldable pub source : Command → Option Callsign
unfolding position_callsign
source (noop c) = some c
source (identify i) = some i.callsign
source (login l) = some l.callsign
source (logoff c) = some c
source (position p) = some (position_callsign p)
source (text c _ _) = some c
source (flight_plan plan) = some plan.callsign
source (query c _ _ _) = some c
source (response c _ _ _) = some c
source (ping c _ _) = some c
source (pong c _ _) = some c
source (handoff c _ _ _) = some c
source (client_data c _ _ _) = some c
source (weather_request c _ _) = some c
source (kill c _ _) = some c

-- `Command::kind`
unfoldable pub command_kind : Command → Text
command_kind (noop _) = bytes "noop"
command_kind (identify _) = bytes "identify"
command_kind (login _) = bytes "login"
command_kind (logoff _) = bytes "logoff"
command_kind (position _) = bytes "position"
command_kind (text _ _ _) = bytes "text"
command_kind (flight_plan _) = bytes "flight_plan"
command_kind (query _ _ _ _) = bytes "query"
command_kind (response _ _ _ _) = bytes "response"
command_kind (ping _ _ _) = bytes "ping"
command_kind (pong _ _ _) = bytes "pong"
command_kind (handoff _ _ _ _) = bytes "handoff"
command_kind (client_data _ _ _ _) = bytes "client_data"
command_kind (weather_request _ _ _) = bytes "weather_request"
command_kind (kill _ _ _) = bytes "kill"

-- `Command::destination`
unfoldable pub command_destination : Command → Option Destination
command_destination (text _ destination _) = some destination
command_destination (query _ destination _ _) = some destination
command_destination (response _ destination _ _) = some destination
command_destination (ping _ destination _) = some destination
command_destination (pong _ destination _) = some destination
command_destination _ = none

-- `Command::direct_target`
unfoldable pub direct_target : Command → Option Callsign
direct_target (handoff _ target _ _) = some target
direct_target (client_data _ target _ _) = some target
direct_target (kill _ target _) = some target
direct_target _ = none
