-- ===== src/Model/Event.antt =====
-- crates/aster_fsd_model/src/event.rs: what the core emits for the backends to encode.
use aster_fsd.Prelude.{bytes, Text, Option, List}
use aster_fsd.Prelude.Int.{ℤ}
use aster_fsd.Model.Callsign.{Callsign}
use aster_fsd.Model.Error.{ErrorCode}
use aster_fsd.Model.Rating.{ClientType}
use aster_fsd.Model.Position.{Position}
use aster_fsd.Model.Weather.{WeatherProfile}
use aster_fsd.Model.Routing.{Destination, QueryKind, HandoffKind, ClientDataKind}
use aster_fsd.Model.Session.{ClientPresence, FlightPlan}

pub data Event : Type 0 where
  error : (callsign : Option Callsign) (code : ErrorCode) (environment description : Text) → Event
  welcome : (callsign : Callsign) (message : Text) → Event
  client_added : (client : ClientPresence) → Event
  client_removed : (callsign : Callsign) (client_type : ClientType) (network_id : Text) → Event
  position : Position → Event
  text : (source : Callsign) (destination : Destination) (message : Text) → Event
  flight_plan : (plan : FlightPlan) (destination : Destination) → Event
  query :
      (source : Text) (destination : Destination) (kind : QueryKind) (arguments : List Text) → Event
  response :
      (source : Text) (destination : Destination) (kind : QueryKind) (arguments : List Text) → Event
  ping : (source : Callsign) (destination : Destination) (payload : Text) → Event
  pong : (source : Text) (destination : Destination) (payload : Text) → Event
  handoff : (source target : Callsign) (kind : HandoffKind) (fields : List Text) → Event
  client_data : (source target : Callsign) (kind : ClientDataKind) (fields : List Text) → Event
  weather_report : (source : Text) (destination : Callsign) (station report : Text) → Event
  weather_profile : (destination : Callsign) (station : Text) (profile : WeatherProfile) → Event
  wind_delta : (speed direction : ℤ) → Event
  disconnect : (target : Callsign) (reason : Text) → Event

-- `Event::kind`
unfoldable pub event_kind : Event → Text
event_kind (error _ _ _ _) = bytes "error"
event_kind (welcome _ _) = bytes "welcome"
event_kind (client_added _) = bytes "client_added"
event_kind (client_removed _ _ _) = bytes "client_removed"
event_kind (position _) = bytes "position"
event_kind (text _ _ _) = bytes "text"
event_kind (flight_plan _ _) = bytes "flight_plan"
event_kind (query _ _ _ _) = bytes "query"
event_kind (response _ _ _ _) = bytes "response"
event_kind (ping _ _ _) = bytes "ping"
event_kind (pong _ _ _) = bytes "pong"
event_kind (handoff _ _ _ _) = bytes "handoff"
event_kind (client_data _ _ _ _) = bytes "client_data"
event_kind (weather_report _ _ _ _) = bytes "weather_report"
event_kind (weather_profile _ _ _) = bytes "weather_profile"
event_kind (wind_delta _ _) = bytes "wind_delta"
event_kind (disconnect _ _) = bytes "disconnect"
