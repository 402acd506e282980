-- ===== src/Classic/Relay/Sent.antt =====
-- The commands of the classic decoder that others receive
-- (crates/aster_fsd_protocol_classic/src/decode).
use aster_fsd.Prelude.{
  subst, sym, ap, ◌∙◌, Text, bytes, Result, ok, err, ◌≡◌, arith, false, ◌==◌, nat_eq, list_eq,
  Bool-cases, Result-cases, inl, inr, ◌||◌, if◌then◌else◌,
}
use aster_fsd.Model.Command.{Command}
use aster_fsd.Model.Error.{ErrorCode}
use aster_fsd.Codec.Error.{CodecError}
use aster_fsd.Codec.Packet.{RawPacket}
use aster_fsd.Codec.Packet
use aster_fsd.Protocol.{ProtocolError}
use aster_fsd.Classic.Numbers.{FloatText}
use aster_fsd.Classic.Fields.{
  destination, direct_destination, direct_callsign, require_fields, join_fields,
}
use aster_fsd.Classic.Routed.{
  decode_text, decode_ping_pong, decode_query, decode_response, decode_query_response,
  decode_handoff, decode_client_data, client_data_kind, decode_direct_client_command, query_fields,
}
use aster_fsd.Classic.Decode.{decode_frame, decode_packet, decode_command, frame_of, is_position}
use aster_fsd.Classic.Owner.{
  OnCommand, bind-OnCommand, source-OnCommand, branch-OnCommand, is_exchanged, Reports,
}
use aster_fsd.Classic.Owner.Reports.{
  decode_login-Reports, decode_flight_plan-Reports, decode_position-Reports,
}
use aster_fsd.Classic.Owner.Requests.{
  decode_kill-Reports, decode_logoff-Reports, decode_weather-Reports,
}
use aster_fsd.Classic.Relay.{IsRelayable}
use aster_fsd.Classic.Relay.Address.{parse-IsOwn}
use aster_fsd.Classic.Relay.Words.{IsSent, parse-IsSent}
use aster_fsd.Classic.Relay.Parsed.{
  destination_ok, direct_destination_ok, direct_callsign_ok, require_fields_ok, join_fields-utf8,
  query_fields-two, query_fields_ok, length-IsFilled, IsAnswer-ok,
}

abbrev Relays : Result Command ProtocolError → Type 0
Relays = OnCommand IsRelayable

-- A command that is not exchanged is relayable.
kept-IsRelayable : (command : Command) → is_exchanged command ≡ false → IsRelayable command
kept-IsRelayable (Command.text _ _ _) h = cc
kept-IsRelayable (Command.query _ _ _ _) h = cc
kept-IsRelayable (Command.response _ _ _ _) h = cc
kept-IsRelayable (Command.ping _ _ _) h = cc
kept-IsRelayable (Command.pong _ _ _) h = cc
kept-IsRelayable (Command.handoff _ _ _ _) h = cc
kept-IsRelayable (Command.client_data _ _ _ _) h = cc
kept-IsRelayable _ h = tt

Reports-Relays : (p : RawPacket) (r : Result Command ProtocolError) → Reports p r → Relays r
Reports-Relays p (ok command) (_, kept) = kept-IsRelayable command kept
Reports-Relays p (err e) h = tt

module _ (p : RawPacket) (sent : IsSent p) where
  decode_text-Relays : Relays (decode_text p)
  unfolding decode_text
  decode_text-Relays = bind-OnCommand IsRelayable (require_fields p 1) _ λ _ _.
      source-OnCommand IsRelayable p.source ErrorCode.invalid_source _ λ c h.
        bind-OnCommand IsRelayable (destination p.destination) _ λ d hd. (
          parse-IsOwn p.source c h,
          destination_ok p.destination d sent.0 hd,
          join_fields-utf8 p.fields sent.1,
        )

  decode_ping_pong-Relays : Relays (decode_ping_pong p)
  unfolding decode_ping_pong
  decode_ping_pong-Relays = source-OnCommand IsRelayable p.source ErrorCode.invalid_source _ λ c h.
      bind-OnCommand IsRelayable (destination p.destination) _ λ d hd.
        let facts : IsRelayable (Command.ping c d (join_fields p.fields)) = (
          parse-IsOwn p.source c h,
          destination_ok p.destination d sent.0 hd,
          join_fields-utf8 p.fields sent.1,
        ) in
        elim (Bool-cases (p.command == bytes "PI")) [ inl e ↦ rw e facts | inr e ↦ rw e facts ]

  decode_query-Relays : Relays (decode_query p)
  unfolding decode_query
  decode_query-Relays = bind-OnCommand IsRelayable (require_fields p 1) _ λ _ _.
      source-OnCommand IsRelayable p.source ErrorCode.invalid_source _ λ c h.
        bind-OnCommand IsRelayable (destination p.destination) _ λ d hd.
          bind-OnCommand IsRelayable (query_fields p.fields) _ λ q hq.
            let (is_kind, words) = query_fields_ok p.fields q.0 q.1 sent.1 hq in
            (parse-IsOwn p.source c h, destination_ok p.destination d sent.0 hd, is_kind, words)

  decode_response-Relays : Relays (decode_response p)
  unfolding decode_response
  decode_response-Relays = bind-OnCommand IsRelayable (require_fields p 2) _ λ _ enough.
      source-OnCommand IsRelayable p.source ErrorCode.invalid_source _ λ c h.
        bind-OnCommand IsRelayable (direct_destination p.destination (bytes "$CR")) _ λ d hd.
          bind-OnCommand IsRelayable (query_fields p.fields) _ λ q hq.
            let (is_kind, words) = query_fields_ok p.fields q.0 q.1 sent.1 hq in
            let (address, direct) = direct_destination_ok p.destination (bytes "$CR") d sent.0 hd in
            let filled = query_fields-two p.fields q.0 q.1 (require_fields_ok p 2 enough) hq in
            (parse-IsOwn p.source c h, address, direct, is_kind, filled, words)

  decode_query_response-Relays : Relays (decode_query_response p)
  unfolding decode_query_response
  decode_query_response-Relays =
      branch-OnCommand IsRelayable (p.command == bytes "CR") _ _ (λ _. decode_response-Relays)
        (λ _. decode_query-Relays)

  decode_handoff-Relays : Relays (decode_handoff p)
  unfolding decode_handoff
  decode_handoff-Relays = bind-OnCommand IsRelayable (require_fields p 1) _ λ _ enough.
      source-OnCommand IsRelayable p.source ErrorCode.invalid_source _ λ c h.
        bind-OnCommand IsRelayable (direct_callsign p.destination p.command) _ λ t ht. (
          parse-IsOwn p.source c h,
          direct_callsign_ok p.destination p.command t sent.0 ht,
          length-IsFilled p.fields (require_fields_ok p 1 enough),
          sent.1,
        )

  decode_client_data-Relays : Relays (decode_client_data p)
  unfolding decode_client_data
  decode_client_data-Relays =
      bind-OnCommand IsRelayable (if p.command == bytes "CI" then require_fields p 1 else ok tt) _
        λ _ enough. bind-OnCommand IsRelayable (client_data_kind p.command) _ λ kind hk.
          source-OnCommand IsRelayable p.source ErrorCode.invalid_source _ λ c h.
            bind-OnCommand IsRelayable (direct_callsign p.destination p.command) _ λ t ht. (
              parse-IsOwn p.source c h,
              direct_callsign_ok p.destination p.command t sent.0 ht,
              IsAnswer-ok p kind enough hk,
              sent.1,
            )

  decode_direct_client_command-Relays : Relays (decode_direct_client_command p)
  unfolding decode_direct_client_command
  decode_direct_client_command-Relays =
      branch-OnCommand IsRelayable (p.command == bytes "HO" || p.command == bytes "HA") _ _
        (λ _. decode_handoff-Relays) (λ _. decode_client_data-Relays)

  decode_command-Relays : Relays (decode_command p)
  unfolding decode_command
  decode_command-Relays =
      branch-OnCommand IsRelayable (p.command == bytes "AA" || p.command == bytes "AP") _ _
        (λ _. Reports-Relays p _ (decode_login-Reports p))
        λ _.
          branch-OnCommand IsRelayable (p.command == bytes "DA" || p.command == bytes "DP") _ _
            (λ _. Reports-Relays p _ (decode_logoff-Reports p))
            λ _.
              branch-OnCommand IsRelayable (p.command == bytes "TM") _ _ (λ _. decode_text-Relays)
                λ _.
                  branch-OnCommand IsRelayable (p.command == bytes "FP") _ _
                    (λ _. Reports-Relays p _ (decode_flight_plan-Reports p))
                    λ _.
                      branch-OnCommand IsRelayable
                        (p.command == bytes "PI" || p.command == bytes "PO") _ _
                        (λ _. decode_ping_pong-Relays)
                        λ _.
                          branch-OnCommand IsRelayable (p.command == bytes "!!") _ _
                            (λ _. Reports-Relays p _ (decode_kill-Reports p)) (λ _. tt)

  decode_packet-Relays : (floats : FloatText) → Relays (decode_packet floats p)
  unfolding decode_packet
  decode_packet-Relays floats =
      branch-OnCommand IsRelayable (is_position p.kind) _ _
        (λ _. Reports-Relays p _ (decode_position-Reports p floats))
        λ _.
          branch-OnCommand IsRelayable (p.command == bytes "CQ" || p.command == bytes "CR") _ _
            (λ _. decode_query_response-Relays)
            λ _.
              branch-OnCommand IsRelayable (p.command == bytes "WX" || p.command == bytes "AX") _ _
                (λ _. Reports-Relays p _ (decode_weather-Reports p))
                λ _.
                  branch-OnCommand IsRelayable
                    (p.command == bytes "HO"
                      || p.command == bytes "HA"
                      || p.command == bytes "SB"
                      || p.command == bytes "PC"
                      || p.command == bytes "C?"
                      || p.command == bytes "CI")
                    _ _ (λ _. decode_direct_client_command-Relays) (λ _. decode_command-Relays)

-- Every command that the classic decoder yields is relayable: where other clients receive it, its
-- source, destination and query kind parse again from their texts, its fields are UTF-8 without
-- separators, its message is UTF-8, and it has the fields and the direct destination that its kind
-- requires.
pub decode_frame-IsRelayable :
    (floats : FloatText) (frame : Text) (command : Command)
    → decode_frame floats frame ≡ ok command
    → IsRelayable command
unfolding decode_frame
decode_frame-IsRelayable floats frame command h = elim (Result-cases (Packet.parse frame)) [
  | inr (error, e) ↦ ground arith
  | inl (p, e) ↦
      subst Relays (sym (ap (λ (r : Result RawPacket CodecError). frame_of floats r) e) ∙ h)
        (decode_packet-Relays p (parse-IsSent frame p e) floats)
]
