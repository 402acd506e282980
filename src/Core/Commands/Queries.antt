-- ===== src/Core/Commands/Queries.antt =====
-- `handle_query` of crates/aster_fsd_core/src/network/commands.rs.
use aster_fsd.Prelude.{Text, ok, err, Option, none, some, List, [], ◌∷◌, nat_eq, if◌then◌else◌}
use aster_fsd.Prelude.Map.{get}
use aster_fsd.Model.Callsign.{Callsign, callsign_eq}
use aster_fsd.Model.Callsign
use aster_fsd.Model.Error.{ErrorCode}
use aster_fsd.Model.Event.{Event}
use aster_fsd.Model.Float.{FloatOps}
use aster_fsd.Model.Routing.{Destination, is_server, QueryKind}
use aster_fsd.Model.Session.{ConnectionId, FlightPlan}
use aster_fsd.Core.Effects.{Effects, no_effects, send, error_effect}
use aster_fsd.Core.Routing.{by_source, resolve_destination}
use aster_fsd.Core.State.{NetworkState}

-- `arguments.first().and_then(|value| Callsign::parse(value).ok())`
unfoldable pub query_target : List Text → Option Callsign
query_target [] = none
query_target (value ∷ _) = elim (Callsign.parse value) [
  | ok callsign ↦ some callsign
  | err _ ↦ none
]

-- `state.sessions.get(id).and_then(|session| session.flight_plan.clone())`
unfoldable pub filed_plan : NetworkState → ConnectionId → Option FlightPlan
filed_plan state id = elim (get id state.sessions) [ none ↦ none | some s ↦ s.flight_plan ]

unfoldable pub flight_plan_query : NetworkState → ConnectionId → Callsign → List Text → Effects
unfolding query_target filed_plan
flight_plan_query state connection_id source arguments = elim (query_target arguments) [
  | none ↦ error_effect connection_id (some source) ErrorCode.syntax []
  | some target ↦ elim (get target state.callsigns) [
    | none ↦ error_effect connection_id (some source) ErrorCode.no_such_callsign target.as_str
    | some target_id ↦ elim (filed_plan state target_id) [
      | none ↦ error_effect connection_id (some source) ErrorCode.no_flight_plan []
      | some plan ↦ send (connection_id ∷ []) (Event.flight_plan plan (Destination.direct source))
    ]
  ]
]

-- Queries to the server itself.
unfoldable pub server_query :
    NetworkState → ConnectionId → Callsign → QueryKind → List Text → Effects
unfolding flight_plan_query
server_query state connection_id source QueryKind.flight_plan arguments =
    flight_plan_query state connection_id source arguments
server_query state connection_id source _ arguments = no_effects

unfoldable pub handle_query :
    FloatOps
    → NetworkState
    → ConnectionId
    → Callsign
    → Destination
    → QueryKind
    → List Text
    → Effects
unfolding server_query
handle_query ops state connection_id source destination kind arguments =
    if is_server destination
    then server_query state connection_id source kind arguments
    else send (resolve_destination ops state connection_id destination by_source)
        (Event.query source.as_str destination kind arguments)
