-- ===== src/Core/Recipients/Network.antt =====
-- The effects of weather requests and of `Network::execute`: weather.rs and mod.rs of
-- crates/aster_fsd_core/src/network.
use aster_fsd.Prelude.{
  any, none, some, Option, nat_eq, ◌==◌, true, false, Bool, Option-cases, Bool-cases, Result-cases,
  inl, inr, Text,
}
use aster_fsd.Prelude.Map.{get}
use aster_fsd.Model.Callsign.{Callsign, callsign_eq}
use aster_fsd.Model.Command.{Command}
use aster_fsd.Model.Rating.{client_type_eq}
use aster_fsd.Model.Session.{ConnectionId, active, phase_eq}
use aster_fsd.Core.Invariant.{IsConsistent}
use aster_fsd.Core.Network.{Network, execute}
use aster_fsd.Core.Ports.{WeatherProvider, WeatherObservation}
use aster_fsd.Core.Recipients.Proper.{
  IsProper, nothing-IsProper, reply-IsProper, error_effect-IsProper,
}
use aster_fsd.Core.Recipients.Active.{execute_active-IsProper}
use aster_fsd.Core.Recipients.Handshake.{OnError, at_error, identify-IsProper, login-IsProper}
use aster_fsd.Core.Weather.{
  names, weather_request_coordinates, parsed_weather_effect, raw_weather_effect, is_delimiter,
  observation_effect, weather_request,
}
use aster_fsd.Model.Weather.{WeatherProfile, validate_profile}
use aster_fsd.Core.State.{NetworkState, session_callsign}

module _ (before state : NetworkState) (id : ConnectionId) where
  weather_request_coordinates-IsProper :
      (c : Callsign) → OnError (IsProper state id) (weather_request_coordinates before id c)
  unfolding weather_request_coordinates
  weather_request_coordinates-IsProper c = elim (Option-cases (get id before.sessions)) [
    | inl e ↦ rw (e, weather_request_coordinates) (nothing-IsProper state id)
    | inr (s, e) ↦
        rw (e, weather_request_coordinates)
          (elim (Bool-cases (s.phase == active)) [
            | inr idle ↦ rw idle (nothing-IsProper state id)
            | inl alive ↦ rw alive (elim (Bool-cases (names (session_callsign s) c)) [
              | inr spoofed ↦ rw spoofed (error_effect-IsProper state id _ _ _)
              | inl own ↦ rw own tt
            ])
          ])
  ]

  parsed_weather_effect-IsProper :
      (c : Callsign) (station : Text) (profile : Option WeatherProfile)
      → IsProper state id (parsed_weather_effect id c station profile)
  unfolding parsed_weather_effect
  parsed_weather_effect-IsProper c station none = error_effect-IsProper state id _ _ _
  parsed_weather_effect-IsProper c station (some p) = elim (Result-cases (validate_profile p)) [
    | inr (_, bad) ↦ rw (bad, parsed_weather_effect) (error_effect-IsProper state id _ _ _)
    | inl (_, good) ↦ rw (good, parsed_weather_effect) (reply-IsProper state id _)
  ]

  raw_weather_effect-IsProper :
      (c : Callsign) (station : Text) (report : Option Text)
      → IsProper state id (raw_weather_effect id c station report)
  unfolding raw_weather_effect
  raw_weather_effect-IsProper c station none = error_effect-IsProper state id _ _ _
  raw_weather_effect-IsProper c station (some r) = elim (Bool-cases (any is_delimiter r)) [
    | inl broken ↦ rw broken (error_effect-IsProper state id _ _ _)
    | inr whole ↦ rw whole (reply-IsProper state id _)
  ]

  observation_effect-IsProper :
      (c : Callsign) (station : Text) (parsed : Bool) (o : WeatherObservation)
      → IsProper state id (observation_effect id c station parsed o)
  unfolding observation_effect
  observation_effect-IsProper c station true o = parsed_weather_effect-IsProper c station o.profile
  observation_effect-IsProper c station false o = raw_weather_effect-IsProper c station o.raw_metar

  weather_request-IsProper :
      (provider : WeatherProvider) (c : Callsign) (station : Text) (parsed : Bool)
      → IsProper state id (weather_request provider before id c station parsed)
  unfolding weather_request
  weather_request-IsProper provider c station parsed =
      elim (Result-cases (weather_request_coordinates before id c)) [
        | inr (_, e) ↦
            rw (e, weather_request) (at_error _ _ (weather_request_coordinates-IsProper c) e)
        | inl (coords, e) ↦
            rw (e, weather_request)
              (elim (Result-cases
                (provider.lookup (record { station = station; coordinates = coords }))) [
                  | inr (_, failed) ↦
                      rw (failed, weather_request) (error_effect-IsProper state id _ _ _)
                  | inl (none, missing) ↦
                      rw (missing, weather_request) (error_effect-IsProper state id _ _ _)
                  | inl (some o, known) ↦
                      rw (known, weather_request) (observation_effect-IsProper c station parsed o)
                ])
      ]

-- In a consistent state, every delivery of a command goes to its own client or to logged-in
-- clients, and only its own connection is closed unless its client may kill.
pub execute-IsProper :
    (network : Network) (before state : NetworkState) (id : ConnectionId) (command : Command)
    → IsConsistent state
    → IsProper state id (execute network before state id command).1
unfolding execute
execute-IsProper network before state id (Command.identify command) inv =
    identify-IsProper before state id network.authenticator command inv
execute-IsProper network before state id (Command.login command) inv =
    login-IsProper before state id network.config network.authenticator command inv
execute-IsProper network before state id (Command.weather_request c station parsed) inv =
    weather_request-IsProper before state id network.weather_provider c station parsed
execute-IsProper network before state id command inv =
    execute_active-IsProper state id inv network.floats command
