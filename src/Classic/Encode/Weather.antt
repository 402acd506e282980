-- ===== src/Classic/Encode/Weather.antt =====
-- crates/aster_fsd_protocol_classic/src/encode/weather.rs: a weather profile as three frames.
use aster_fsd.Prelude.{Text, bytes, int_text, Result, ok, err, ◌>>=◌, List, [], ◌∷◌, ◌++◌}
use aster_fsd.Model.Callsign.{Callsign}
use aster_fsd.Model.Error.{display}
use aster_fsd.Model.Weather.{
  TemperatureLayer, WindLayer, CloudLayer, WeatherProfile, validate_profile,
}
use aster_fsd.Codec.Packet.{RawPacketKind}
use aster_fsd.Protocol.{ProtocolError, ProtocolErrorKind, new_error, WireFrame}
use aster_fsd.Classic.Numbers.{FloatText}
use aster_fsd.Classic.Output.{command_frame}

abbrev temperature_texts : TemperatureLayer → List Text
temperature_texts l = int_text l.ceiling ∷ int_text l.temperature ∷ []

abbrev wind_texts : WindLayer → List Text
wind_texts l =
    int_text l.ceiling
    ∷ int_text l.floor
    ∷ int_text l.direction
    ∷ int_text l.speed
    ∷ int_text l.gusting
    ∷ int_text l.turbulence
    ∷ []

abbrev cloud_texts : CloudLayer → List Text
cloud_texts l =
    int_text l.ceiling
    ∷ int_text l.floor
    ∷ int_text l.coverage
    ∷ int_text l.icing
    ∷ int_text l.turbulence
    ∷ []

unfoldable pub temperature_fields : WeatherProfile → List Text
temperature_fields profile =
    let (a, b, c, d) = profile.temperatures in
    temperature_texts a
    ++ (temperature_texts b
        ++ (temperature_texts c ++ (temperature_texts d ++ (int_text profile.barometer ∷ []))))

unfoldable pub wind_fields : WeatherProfile → List Text
wind_fields profile =
    let (a, b, c, d) = profile.winds in
    wind_texts a ++ (wind_texts b ++ (wind_texts c ++ wind_texts d))

unfoldable pub cloud_fields : FloatText → WeatherProfile → List Text
cloud_fields floats profile =
    let (a, b) = profile.clouds in
    cloud_texts a
    ++ (cloud_texts b
        ++ (cloud_texts profile.thunderstorm ++ (floats.fixed 2 profile.visibility ∷ [])))

unfoldable pub profile_frames :
    FloatText → Callsign → WeatherProfile → Result (List WireFrame) ProtocolError
unfolding temperature_fields wind_fields cloud_fields
profile_frames floats destination profile = do
  temperatures ←
      command_frame RawPacketKind.client (bytes "TD") (bytes "server") destination.as_str
        (temperature_fields profile)
  winds ←
      command_frame RawPacketKind.client (bytes "WD") (bytes "server") destination.as_str
        (wind_fields profile)
  clouds ←
      command_frame RawPacketKind.client (bytes "CD") (bytes "server") destination.as_str
        (cloud_fields floats profile)
  ok (temperatures ∷ winds ∷ clouds ∷ [])

-- `encode_profile`
unfoldable pub encode_profile :
    FloatText → Callsign → WeatherProfile → Result (List WireFrame) ProtocolError
unfolding profile_frames
encode_profile floats destination profile = elim (validate_profile profile) [
  | ok _ ↦ profile_frames floats destination profile
  | err error ↦ err (new_error ProtocolErrorKind.encoding (display error))
]
