-- ===== src/Classic/Relay/Kinds.antt =====
-- Messages, queries and responses through the classic backend
-- (crates/aster_fsd_protocol_classic/src/encode/routed.rs and decode/routed.rs).
use aster_fsd.Prelude.{
  ◌∙◌, refl, ℕ, Text, bytes, ok, List, [], ◌∷◌, ◌≡◌, arith, true, false, is_ascii, All, nat_eq,
  list_eq, list_eqb,
}
use aster_fsd.Model.Callsign.{Callsign}
use aster_fsd.Model.Command.{Command}
use aster_fsd.Model.Error.{ErrorCode}
use aster_fsd.Model.Routing.{Destination, QueryKind}
use aster_fsd.Codec.Packet.{RawPacketKind, client, request}
use aster_fsd.Codec.Packet.Faithful.{is_report}
use aster_fsd.Codec.Packet.Refield.{refield}
use aster_fsd.Codec.Utf8.{is_utf8}
use aster_fsd.Protocol.{WireFrame}
use aster_fsd.Classic.Numbers.{FloatText}
use aster_fsd.Classic.Routed.{
  decode_text, decode_ping_pong, decode_query_response, decode_query, decode_response,
}
use aster_fsd.Classic.Decode.{decode_frame, decode_packet, decode_command}
use aster_fsd.Classic.Output.{command_frame, destination_text}
use aster_fsd.Classic.Encode.Routed.{query_kind_text}
use aster_fsd.Classic.Relay.{IsOwn, IsAddress, IsKind, IsWord, is_direct, IsFilled}
use aster_fsd.Classic.Relay.Wire.{IsLetters, addressed, command_frame-decode}
use aster_fsd.Classic.Relay.Fields.{
  join_fields-refield, callsign-own, destination-address, require_fields-enough,
  require_fields-filled, direct_destination-address, words-decode,
}

module _ (floats : FloatText) (source : Callsign) (f : WireFrame) (own : IsOwn source) where
  message-decode :
      (k : RawPacketKind) (a b : ℕ) (d : Destination) (message : Text)
      → is_report k ≡ false
      → IsLetters a b
      → IsAddress d
      → is_utf8 message ≡ true
      → command_frame k (a ∷ b ∷ []) source.as_str (destination_text d) (message ∷ []) ≡ ok f
      → decode_frame floats f.as_bytes
        ≡ decode_packet floats
            (addressed k a b source.as_str (destination_text d) (refield (message ∷ [])))
  message-decode k a b d message n letters address text h =
      command_frame-decode floats k a b source (destination_text d) (message ∷ []) f n letters own
        address.1 (text, tt) h

  pub text-decode :
      (d : Destination) (message : Text)
      → IsAddress d
      → is_utf8 message ≡ true
      → command_frame client (bytes "TM") source.as_str (destination_text d) (message ∷ []) ≡ ok f
      → decode_frame floats f.as_bytes ≡ ok (Command.text source d message)
  unfolding bytes list_eqb is_ascii decode_packet decode_command decode_text
  text-decode d message address text h =
      message-decode client 84 77 d message refl (refl, refl, refl) address text h
      ∙ rw
          (
            require_fields-filled
                (addressed client 84 77 source.as_str (destination_text d) (refield (message ∷ [])))
                refl,
            callsign-own source ErrorCode.invalid_source own,
            destination-address d address,
            join_fields-refield message,
          )
          refl

  pub ping-decode :
      (d : Destination) (payload : Text)
      → IsAddress d
      → is_utf8 payload ≡ true
      → command_frame request (bytes "PI") source.as_str (destination_text d) (payload ∷ []) ≡ ok f
      → decode_frame floats f.as_bytes ≡ ok (Command.ping source d payload)
  unfolding bytes list_eqb is_ascii decode_packet decode_command decode_ping_pong
  ping-decode d payload address text h =
      message-decode request 80 73 d payload refl (refl, refl, refl) address text h
      ∙ rw
          (
            callsign-own source ErrorCode.invalid_source own,
            destination-address d address,
            join_fields-refield payload,
          )
          refl

  pub pong-decode :
      (d : Destination) (payload : Text)
      → IsAddress d
      → is_utf8 payload ≡ true
      → command_frame request (bytes "PO") source.as_str (destination_text d) (payload ∷ []) ≡ ok f
      → decode_frame floats f.as_bytes ≡ ok (Command.pong source d payload)
  unfolding bytes list_eqb is_ascii decode_packet decode_command decode_ping_pong
  pong-decode d payload address text h =
      message-decode request 80 79 d payload refl (refl, refl, refl) address text h
      ∙ rw
          (
            callsign-own source ErrorCode.invalid_source own,
            destination-address d address,
            join_fields-refield payload,
          )
          refl

  pub query-decode :
      (d : Destination) (kind : QueryKind) (arguments : List Text)
      → IsAddress d
      → IsKind kind
      → All IsWord arguments
      → command_frame request
          (bytes "CQ")
          source.as_str
          (destination_text d)
          (query_kind_text kind ∷ arguments)
        ≡ ok f
      → decode_frame floats f.as_bytes ≡ ok (Command.query source d kind arguments)
  unfolding bytes list_eqb is_ascii decode_packet decode_query_response decode_query
  query-decode d kind arguments address is_kind words h =
      words-decode floats request 67 81 source (destination_text d)
        (query_kind_text kind ∷ arguments) f refl (refl, refl, refl) own address.1
        (is_kind.1, words) h
      ∙ rw
          (
            require_fields-filled
                (addressed request 67 81 source.as_str (destination_text d)
                  (query_kind_text kind ∷ arguments))
                refl,
            callsign-own source ErrorCode.invalid_source own,
            destination-address d address,
            is_kind.0,
          )
          refl

  pub response-decode :
      (d : Destination) (kind : QueryKind) (arguments : List Text)
      → IsAddress d
      → is_direct d ≡ true
      → IsKind kind
      → IsFilled arguments
      → All IsWord arguments
      → command_frame request
          (bytes "CR")
          source.as_str
          (destination_text d)
          (query_kind_text kind ∷ arguments)
        ≡ ok f
      → decode_frame floats f.as_bytes ≡ ok (Command.response source d kind arguments)
  unfolding bytes list_eqb is_ascii decode_packet decode_query_response decode_response
  response-decode d kind [] address direct is_kind filled words h = cc
  response-decode d kind (argument ∷ arguments) address direct is_kind filled words h =
      words-decode floats request 67 82 source (destination_text d)
        (query_kind_text kind ∷ argument ∷ arguments) f refl (refl, refl, refl) own address.1
        (is_kind.1, words) h
      ∙ rw
          (
            require_fields-enough
                (addressed request 67 82 source.as_str (destination_text d)
                  (query_kind_text kind ∷ argument ∷ arguments))
                2 (omega arith),
            callsign-own source ErrorCode.invalid_source own,
            direct_destination-address d (36 ∷ 67 ∷ 82 ∷ []) address direct,
            is_kind.0,
          )
          refl
