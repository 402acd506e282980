-- ===== src/Classic/Owner/Requests.antt =====
-- The source of kills, logoffs and weather requests: routed.rs and mod.rs of
-- crates/aster_fsd_protocol_classic/src/decode.
use aster_fsd.Prelude.{
  Text, bytes, to_ascii_uppercase, ok, some, List, [], ◌∷◌, ◌≡◌, refl, ◌==◌, list_eq, nat_eq, Bool,
  true, false, Bool-cases, inl, inr,
}
use aster_fsd.Model.Callsign.{Callsign}
use aster_fsd.Model.Callsign
use aster_fsd.Model.Command.{source}
use aster_fsd.Model.Error.{ErrorCode}
use aster_fsd.Codec.Packet.{RawPacket}
use aster_fsd.Classic.Fields.{callsign, require_fields}
use aster_fsd.Classic.Routed.{decode_kill, decode_weather, raw_weather, weather_fields}
use aster_fsd.Classic.Decode.{decode_logoff}
use aster_fsd.Classic.Owner.{is_exchanged, Reports, bind-Reports, source-Reports}

module _ (p : RawPacket) where
  pub decode_kill-Reports : Reports p (decode_kill p)
  unfolding decode_kill source
  decode_kill-Reports = bind-Reports p (require_fields p 1) _ (λ _.
      source-Reports p ErrorCode.invalid_source _ (λ c h.
        bind-Reports p (callsign p.destination ErrorCode.invalid_callsign) _
          (λ d. ((c, h, refl), refl))))

  pub decode_logoff-Reports : Reports p (decode_logoff p)
  unfolding decode_logoff source
  decode_logoff-Reports = source-Reports p ErrorCode.invalid_source _ (λ c h. ((c, h, refl), refl))

  raw_weather-source :
      (c : Callsign) (first : Text) (fields : List Text)
      → source (raw_weather c first fields) ≡ some c
  unfolding raw_weather source
  raw_weather-source c first [] = refl
  raw_weather-source c first (station ∷ _) =
      elim (Bool-cases (to_ascii_uppercase first == bytes "METAR")) [
        | inl e ↦ rw e refl
        | inr e ↦ rw e refl
      ]

  raw_weather-exchanged :
      (c : Callsign) (first : Text) (fields : List Text)
      → is_exchanged (raw_weather c first fields) ≡ false
  unfolding raw_weather
  raw_weather-exchanged c first [] = refl
  raw_weather-exchanged c first (station ∷ _) =
      elim (Bool-cases (to_ascii_uppercase first == bytes "METAR")) [
        | inl e ↦ rw e refl
        | inr e ↦ rw e refl
      ]

  weather_fields-Reports :
      (parsed : Bool) (c : Callsign) (fields : List Text)
      → Callsign.parse p.source ≡ ok c
      → Reports p (weather_fields parsed c fields)
  unfolding source
  weather_fields-Reports parsed c [] h = tt
  weather_fields-Reports true c (first ∷ fields) h = ((c, h, refl), refl)
  weather_fields-Reports false c (first ∷ fields) h =
      ((c, h, raw_weather-source c first fields), raw_weather-exchanged c first fields)

  pub decode_weather-Reports : Reports p (decode_weather p)
  unfolding decode_weather
  decode_weather-Reports = bind-Reports p (require_fields p 1) _ (λ _.
      source-Reports p ErrorCode.invalid_source _
        (λ c h. weather_fields-Reports (p.command == bytes "WX") c p.fields h))
