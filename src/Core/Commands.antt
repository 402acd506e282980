-- ===== src/Core/Commands.antt =====
-- crates/aster_fsd_core/src/network/commands.rs: the commands of a logged-in client.
pub mod Queries
use aster_fsd.Prelude.{
  ℕ, Text, bytes, Result, ok, err, Option, none, some, Bool, false, not, List, [], ◌∷◌, ◌++◌, ◌==◌,
  nat_eq, if◌then◌else◌,
}
use aster_fsd.Prelude.Int.{ℤ, pos, ltb_ℤ}
use aster_fsd.Prelude.Map.{get}
use aster_fsd.Model.Callsign.{Callsign, callsign_eq}
use aster_fsd.Model.Command.{Command, source}
use aster_fsd.Model.Error.{ErrorCode, display}
use aster_fsd.Model.Event.{Event}
use aster_fsd.Model.Float.{FloatOps}
use aster_fsd.Model.Position.{Position, validate}
use aster_fsd.Model.Rating.{ClientType, pilot, atc, client_type_eq}
use aster_fsd.Model.Routing.{Destination, is_server}
use aster_fsd.Model.Session.{ConnectionId, active, phase_eq, ClientPresence, FlightPlan}
use aster_fsd.Core.Effects.{Effects, no_effects, extend, send, error_effect}
use aster_fsd.Core.Lifecycle.{disconnect}
use aster_fsd.Core.Routing.{
  RangePolicy, by_source, by_message, resolve_destination, position_recipients,
  flight_plan_recipients, f400,
}
use aster_fsd.Core.State.{Session, NetworkState, put_session}
use Queries.{handle_query}

-- The role that may report a position of this kind.
unfoldable pub expected_type : Position → ClientType
expected_type (Position.pilot _) = pilot
expected_type (Position.atc _) = atc

unfoldable pub handle_ping :
    FloatOps → NetworkState → ConnectionId → Callsign → Destination → Text → Effects
handle_ping ops state connection_id source destination payload =
    if is_server destination
    then send (connection_id ∷ []) (Event.pong (bytes "server") (Destination.direct source) payload)
    else send (resolve_destination ops state connection_id destination by_source)
        (Event.ping source destination payload)

-- Where a relayed command goes, under which policy, and as which event.
unfoldable pub routed : Command → Option (Destination × RangePolicy × Event)
routed (Command.text source destination message) =
    some (destination, by_message, Event.text source destination message)
routed (Command.response source destination kind arguments) =
    some (destination, by_source, Event.response source.as_str destination kind arguments)
routed (Command.pong source destination payload) =
    some (destination, by_source, Event.pong source.as_str destination payload)
routed (Command.handoff source target kind fields) =
    some (Destination.direct target, by_source, Event.handoff source target kind fields)
routed (Command.client_data source target kind fields) =
    some (Destination.direct target, by_source, Event.client_data source target kind fields)
routed _ = none

unfoldable pub handle_routed_command : FloatOps → NetworkState → ConnectionId → Command → Effects
handle_routed_command ops state connection_id command = elim (routed command) [
  | none ↦ no_effects
  | some (destination, policy, event) ↦
      send (resolve_destination ops state connection_id destination policy) event
]

-- The rating from which a client may kill another.
abbrev pub kill_rating : ℤ
kill_rating = pos 11

unfoldable pub handle_kill :
    NetworkState → ConnectionId → Callsign → ℤ → Callsign → Text → NetworkState × Effects
handle_kill state connection_id callsign rating target reason = elim (get target state.callsigns) [
  | none ↦
      (state, error_effect connection_id (some callsign) ErrorCode.no_such_callsign target.as_str)
  | some target_id ↦
      if ltb_ℤ rating kill_rating
      then (
        state,
        send (connection_id ∷ [])
            (Event.welcome callsign (bytes "You are not allowed to kill users!")),
      )
      else let attempt =
          send (connection_id ∷ [])
            (Event.welcome callsign (bytes "Attempting to kill " ++ target.as_str)) in
        let notice = send (target_id ∷ []) (Event.disconnect target reason) in
        let (state', closing) = disconnect state target_id reason in
        (state', extend (extend attempt notice) closing)
]

unfoldable pub handle_position :
    FloatOps
    → NetworkState
    → ConnectionId
    → Callsign
    → ClientType
    → Position
    → NetworkState × Effects
unfolding expected_type
handle_position ops state connection_id callsign client_type position = elim (validate position) [
  | err error ↦ (state, error_effect connection_id (some callsign) ErrorCode.syntax (display error))
  | ok _ ↦
      if not (client_type == expected_type position)
      then (
        state,
        error_effect connection_id (some callsign) ErrorCode.syntax (bytes "position type"),
      )
      else elim (get connection_id state.sessions) [
        | none ↦ (state, no_effects)
        | some session ↦
            let state' =
              put_session state connection_id (record session { position = some position }) in
            (state', send (position_recipients ops state' connection_id) (Event.position position))
      ]
]

unfoldable pub handle_flight_plan :
    FloatOps → NetworkState → ConnectionId → FlightPlan → NetworkState × Effects
handle_flight_plan ops state connection_id plan = elim (get connection_id state.sessions) [
  | none ↦ (state, no_effects)
  | some session ↦
      let state' = put_session state connection_id (record session { flight_plan = some plan }) in
      (
        state',
        send (flight_plan_recipients ops state' connection_id f400)
            (Event.flight_plan plan Destination.atc),
      )
]

unfoldable pub handle_state_command :
    FloatOps
    → NetworkState
    → ConnectionId
    → Callsign
    → ClientType
    → Command
    → NetworkState × Effects
unfolding handle_position handle_flight_plan
handle_state_command ops state connection_id callsign client_type (Command.logoff _) =
    disconnect state connection_id (bytes "client logoff")
handle_state_command ops state connection_id callsign client_type (Command.position position) =
    handle_position ops state connection_id callsign client_type position
handle_state_command ops state connection_id callsign client_type (Command.flight_plan plan) =
    handle_flight_plan ops state connection_id plan
handle_state_command ops state connection_id callsign client_type _ = (state, no_effects)

-- The `match` on the command, once its source is the session's own callsign.
unfoldable pub dispatch :
    FloatOps → NetworkState → ConnectionId → ClientPresence → Command → NetworkState × Effects
dispatch ops state connection_id presence (Command.logoff c) =
    handle_state_command ops state connection_id presence.callsign presence.client_type
      (Command.logoff c)
dispatch ops state connection_id presence (Command.position p) =
    handle_state_command ops state connection_id presence.callsign presence.client_type
      (Command.position p)
dispatch ops state connection_id presence (Command.flight_plan p) =
    handle_state_command ops state connection_id presence.callsign presence.client_type
      (Command.flight_plan p)
dispatch ops state connection_id presence (Command.query source destination kind arguments) =
    (state, handle_query ops state connection_id source destination kind arguments)
dispatch ops state connection_id presence (Command.ping source destination payload) =
    (state, handle_ping ops state connection_id source destination payload)
dispatch ops state connection_id presence (Command.text source destination message) =
    (state, handle_routed_command ops state connection_id (Command.text source destination message))
dispatch ops state connection_id presence (Command.response source destination kind arguments) = (
  state,
  handle_routed_command ops state connection_id
      (Command.response source destination kind arguments),
)
dispatch ops state connection_id presence (Command.pong source destination payload) =
    (state, handle_routed_command ops state connection_id (Command.pong source destination payload))
dispatch ops state connection_id presence (Command.handoff source target kind fields) = (
  state,
  handle_routed_command ops state connection_id (Command.handoff source target kind fields),
)
dispatch ops state connection_id presence (Command.client_data source target kind fields) = (
  state,
  handle_routed_command ops state connection_id (Command.client_data source target kind fields),
)
dispatch ops state connection_id presence (Command.kill _ target reason) =
    handle_kill state connection_id presence.callsign presence.rating target reason
dispatch ops state connection_id presence (Command.noop _) = (state, no_effects)
dispatch ops state connection_id presence (Command.identify _) = (state, no_effects)
dispatch ops state connection_id presence (Command.login _) = (state, no_effects)
dispatch ops state connection_id presence (Command.weather_request _ _ _) = (state, no_effects)

-- `source.as_ref() != Some(&callsign)`, negated.
unfoldable pub claims : Option Callsign → Callsign → Bool
claims none callsign = false
claims (some c) callsign = c == callsign

-- `source.map_or_else(String::new, |callsign| callsign.to_string())`
unfoldable pub claimed_text : Option Callsign → Text
claimed_text none = []
claimed_text (some c) = c.as_str

unfoldable pub execute_active :
    FloatOps → NetworkState → ConnectionId → Command → NetworkState × Effects
unfolding claims claimed_text
execute_active ops state connection_id command = elim (get connection_id state.sessions) [
  | none ↦ (state, no_effects)
  | some session ↦
      if not (session.phase == active) then (state, no_effects) else elim session.presence [
        | none ↦ (state, no_effects)
        | some presence ↦
            if not (claims (source command) presence.callsign)
            then (
              state,
              error_effect connection_id (some presence.callsign) ErrorCode.invalid_source
                  (claimed_text (source command)),
            )
            else dispatch ops state connection_id presence command
      ]
]
