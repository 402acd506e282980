-- ===== src/Classic/Owner/Reports.antt =====
-- The source of logins, flight plans and positions: login.rs, routed.rs and position.rs of
-- crates/aster_fsd_protocol_classic/src/decode.
use aster_fsd.Prelude.{bytes, ok, ◌≡◌, refl, ◌==◌, list_eq, nat_eq, ltb, length}
use aster_fsd.Model.Callsign.{Callsign}
use aster_fsd.Model.Callsign
use aster_fsd.Model.Command.{source}
use aster_fsd.Model.Error.{ErrorCode}
use aster_fsd.Model.Position.{position_callsign}
use aster_fsd.Codec.Packet.{RawPacket, RawPacketKind}
use aster_fsd.Classic.Numbers.{FloatText, first_char}
use aster_fsd.Classic.Fields.{
  field, or_syntax, parse_i32, parse_u32, parse_f64, parse_protocol_revision, nth,
}
use aster_fsd.Classic.Login.{decode_login, decode_atc_login, decode_pilot_login}
use aster_fsd.Classic.Position.{
  decode_position, decode_pilot_position, decode_atc_position, position_of, canonical_squawk,
}
use aster_fsd.Classic.Routed.{decode_flight_plan}
use aster_fsd.Classic.Owner.{Reports, bind-Reports, source-Reports, branch-Reports}

module _ (p : RawPacket) where
  pub decode_atc_login-Reports : Reports p (decode_atc_login p)
  unfolding decode_atc_login source
  decode_atc_login-Reports = branch-Reports p (ltb (length p.fields) 5) _ _ tt (
      source-Reports p ErrorCode.invalid_callsign _ (λ c h.
        bind-Reports p (field p.fields 0 (bytes "real name")) _ (λ a0.
          bind-Reports p (field p.fields 1 (bytes "network ID")) _ (λ a1.
            bind-Reports p (field p.fields 2 (bytes "password")) _ (λ a2.
              bind-Reports p (field p.fields 3 (bytes "rating")) _ (λ a3.
                bind-Reports p (parse_i32 a3 (bytes "rating")) _ (λ a4.
                  bind-Reports p (field p.fields 4 (bytes "protocol revision")) _ (λ a5.
                    bind-Reports p (parse_protocol_revision a5) _
                      (λ a6. ((c, h, refl), refl))))))))))

  pub decode_pilot_login-Reports : Reports p (decode_pilot_login p)
  unfolding decode_pilot_login source
  decode_pilot_login-Reports = branch-Reports p (ltb (length p.fields) 6) _ _ tt (
      source-Reports p ErrorCode.invalid_callsign _ (λ c h.
        bind-Reports p (field p.fields 0 (bytes "network ID")) _ (λ a0.
          bind-Reports p (field p.fields 1 (bytes "password")) _ (λ a1.
            bind-Reports p (field p.fields 2 (bytes "rating")) _ (λ a2.
              bind-Reports p (parse_i32 a2 (bytes "rating")) _ (λ a3.
                bind-Reports p (field p.fields 3 (bytes "protocol revision")) _ (λ a4.
                  bind-Reports p (parse_protocol_revision a4) _ (λ a5.
                    bind-Reports p (field p.fields 4 (bytes "simulator type")) _ (λ a6.
                      bind-Reports p (parse_i32 a6 (bytes "simulator type")) _ (λ a7.
                        bind-Reports p (field p.fields 5 (bytes "real name")) _
                          (λ a8. ((c, h, refl), refl))))))))))))

  pub decode_login-Reports : Reports p (decode_login p)
  unfolding decode_login
  decode_login-Reports =
      branch-Reports p (p.command == bytes "AA") _ _ decode_atc_login-Reports
        (branch-Reports p (p.command == bytes "AP") _ _ decode_pilot_login-Reports tt)

  pub decode_flight_plan-Reports : Reports p (decode_flight_plan p)
  unfolding decode_flight_plan source
  decode_flight_plan-Reports = branch-Reports p (ltb (length p.fields) 15) _ _ tt (
      source-Reports p ErrorCode.invalid_source _ (λ c h.
        bind-Reports p (or_syntax (first_char (nth p.fields 0)) (bytes "missing flight rules")) _
          (λ a0. bind-Reports p (parse_i32 (nth p.fields 2) (bytes "cruise speed")) _ (λ a1.
            bind-Reports p (parse_i32 (nth p.fields 4) (bytes "estimated departure")) _ (λ a2.
              bind-Reports p (parse_i32 (nth p.fields 5) (bytes "actual departure")) _ (λ a3.
                bind-Reports p (parse_i32 (nth p.fields 8) (bytes "hours enroute")) _ (λ a4.
                  bind-Reports p (parse_i32 (nth p.fields 9) (bytes "minutes enroute")) _ (λ a5.
                    bind-Reports p (parse_i32 (nth p.fields 10) (bytes "hours fuel")) _ (λ a6.
                      bind-Reports p (parse_i32 (nth p.fields 11) (bytes "minutes fuel")) _
                        (λ a7. ((c, h, refl), refl)))))))))))

  module _ (floats : FloatText) (c : Callsign) (h : Callsign.parse p.source ≡ ok c) where
    decode_pilot_position-Reports : Reports p (decode_pilot_position floats c p)
    unfolding decode_pilot_position source position_callsign
    decode_pilot_position-Reports = branch-Reports p (ltb (length p.fields) 8) _ _ tt (
        bind-Reports p (or_syntax (first_char p.command) (bytes "missing mode")) _ (λ a0.
          bind-Reports p (canonical_squawk (nth p.fields 0)) _ (λ a1.
            bind-Reports p (parse_i32 (nth p.fields 1) (bytes "rating")) _ (λ a2.
              bind-Reports p (parse_f64 floats (nth p.fields 2) (bytes "latitude")) _ (λ a3.
                bind-Reports p (parse_f64 floats (nth p.fields 3) (bytes "longitude")) _ (λ a4.
                  bind-Reports p (parse_i32 (nth p.fields 4) (bytes "altitude")) _ (λ a5.
                    bind-Reports p (parse_i32 (nth p.fields 5) (bytes "groundspeed")) _ (λ a6.
                      bind-Reports p (parse_u32 (nth p.fields 6) (bytes "PBH")) _ (λ a7.
                        bind-Reports p (parse_i32 (nth p.fields 7) (bytes "flags")) _
                          (λ a8. ((c, h, refl), refl)))))))))))

    decode_atc_position-Reports : Reports p (decode_atc_position floats c p)
    unfolding decode_atc_position source position_callsign
    decode_atc_position-Reports = branch-Reports p (ltb (length p.fields) 7) _ _ tt (
        bind-Reports p (parse_i32 (nth p.fields 0) (bytes "frequency")) _ (λ a0.
          bind-Reports p (parse_i32 (nth p.fields 1) (bytes "facility type")) _ (λ a1.
            bind-Reports p (parse_i32 (nth p.fields 2) (bytes "visual range")) _ (λ a2.
              bind-Reports p (parse_i32 (nth p.fields 3) (bytes "rating")) _ (λ a3.
                bind-Reports p (parse_f64 floats (nth p.fields 4) (bytes "latitude")) _ (λ a4.
                  bind-Reports p (parse_f64 floats (nth p.fields 5) (bytes "longitude")) _ (λ a5.
                    bind-Reports p (parse_i32 (nth p.fields 6) (bytes "altitude")) _
                      (λ a6. ((c, h, refl), refl)))))))))

    position_of-Reports : (k : RawPacketKind) → Reports p (position_of k floats c p)
    unfolding position_of
    position_of-Reports RawPacketKind.pilot_position = decode_pilot_position-Reports
    position_of-Reports RawPacketKind.atc_position = decode_atc_position-Reports
    position_of-Reports RawPacketKind.request = tt
    position_of-Reports RawPacketKind.client = tt
    position_of-Reports RawPacketKind.ivao_specific = tt
    position_of-Reports RawPacketKind.ivao_data = tt
    position_of-Reports RawPacketKind.ivao_other = tt

  pub decode_position-Reports : (floats : FloatText) → Reports p (decode_position floats p)
  unfolding decode_position
  decode_position-Reports floats =
      source-Reports p ErrorCode.invalid_source _ (λ c h. position_of-Reports floats c h p.kind)
