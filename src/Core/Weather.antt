-- ===== src/Core/Weather.antt =====
-- crates/aster_fsd_core/src/network/weather.rs: weather requests. The state is only read.
use aster_fsd.Prelude.{
  ℕ, Text, bytes, Result, ok, err, Option, none, some, option_map, Bool, false, not, ◌||◌, any, [],
  ◌∷◌, ◌==◌, nat_eq, if◌then◌else◌,
}
use aster_fsd.Prelude.Map.{get}
use aster_fsd.Model.Callsign.{Callsign, callsign_eq}
use aster_fsd.Model.Error.{ErrorCode}
use aster_fsd.Model.Event.{Event}
use aster_fsd.Model.Float.{F64}
use aster_fsd.Model.Position.{coordinates}
use aster_fsd.Model.Session.{ConnectionId, active, phase_eq}
use aster_fsd.Model.Weather.{WeatherProfile, validate_profile}
use aster_fsd.Core.Effects.{Effects, no_effects, send, error_effect}
use aster_fsd.Core.Ports.{WeatherObservation, WeatherProvider}
use aster_fsd.Core.State.{NetworkState, session_callsign}

-- `left == Some(right)`
unfoldable pub names : Option Callsign → Callsign → Bool
names none callsign = false
names (some c) callsign = c == callsign

unfoldable pub weather_request_coordinates :
    NetworkState → ConnectionId → Callsign → Result (Option (F64 × F64)) Effects
unfolding names
weather_request_coordinates state connection_id source = elim (get connection_id state.sessions) [
  | none ↦ err no_effects
  | some session ↦
      if not (session.phase == active)
      then err no_effects
      else if not (names (session_callsign session) source)
      then err (
          error_effect connection_id (session_callsign session) ErrorCode.invalid_source
            source.as_str)
      else ok (option_map coordinates session.position)
]

abbrev pub no_weather : ConnectionId → Callsign → Text → Effects
no_weather connection_id source station =
    error_effect connection_id (some source) ErrorCode.no_weather station

unfoldable pub parsed_weather_effect :
    ConnectionId → Callsign → Text → Option WeatherProfile → Effects
parsed_weather_effect connection_id source station none = no_weather connection_id source station
parsed_weather_effect connection_id source station (some profile) =
    elim (validate_profile profile) [
      | err _ ↦ no_weather connection_id source station
      | ok _ ↦ send (connection_id ∷ []) (Event.weather_profile source station profile)
    ]

unfoldable pub is_delimiter : ℕ → Bool
is_delimiter byte = byte == 13 || byte == 10

unfoldable pub raw_weather_effect : ConnectionId → Callsign → Text → Option Text → Effects
raw_weather_effect connection_id source station none = no_weather connection_id source station
raw_weather_effect connection_id source station (some report) =
    if any is_delimiter report
    then no_weather connection_id source station
    else send (connection_id ∷ []) (Event.weather_report (bytes "server") source station report)

-- The effect of a provider's answer.
unfoldable pub observation_effect :
    ConnectionId → Callsign → Text → Bool → WeatherObservation → Effects
unfolding parsed_weather_effect raw_weather_effect
observation_effect connection_id source station parsed observation =
    if parsed
    then parsed_weather_effect connection_id source station observation.profile
    else raw_weather_effect connection_id source station observation.raw_metar

unfoldable pub weather_request :
    WeatherProvider → NetworkState → ConnectionId → Callsign → Text → Bool → Effects
weather_request provider state connection_id source station parsed =
    elim (weather_request_coordinates state connection_id source) [
      | err effects ↦ effects
      | ok coords ↦ elim (provider.lookup (record { station = station; coordinates = coords })) [
        | err _ ↦ no_weather connection_id source station
        | ok found ↦ elim found [
          | none ↦ no_weather connection_id source station
          | some observation ↦ observation_effect connection_id source station parsed observation
        ]
      ]
    ]
