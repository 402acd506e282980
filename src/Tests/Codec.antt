-- ===== src/Tests/Codec.antt =====
-- Witnesses for the theorems on frames and packets.
use aster_fsd.Prelude.{
  none, to_ascii_uppercase, upper_byte, Text, bytes, ok, some, ◌≡◌, refl, arith, [], ◌∷◌, ◌++◌,
  list_eqb, is_ascii,
}
use aster_fsd.Model.Callsign.{Callsign, is_reserved}
use aster_fsd.Model.Callsign
use aster_fsd.Model.Command.{Command}
use aster_fsd.Model.Routing.{Destination}
use aster_fsd.Model.Routing
use aster_fsd.Classic.Numbers.{FloatText}
use aster_fsd.Classic.Fields.{require_fields, callsign, destination, join_fields}
use aster_fsd.Classic.Routed.{decode_text}
use aster_fsd.Classic.Decode.{decode_frame, decode_packet, decode_command}
use aster_fsd.Classic.Owner.{Owned}
use aster_fsd.Classic.Owner.Frame.{decode_frame-Owned}
use aster_fsd.Codec.Error.{is_delimiter}
use aster_fsd.Codec.Frame.{
  FsdFrameCodec, decode, decode_fuel, decode_buffer, encode, discard_delimiters, delimiter_index,
  take, drop,
}
use aster_fsd.Codec.Frame.Decoding.{decoded, decode-decoded}
use aster_fsd.Codec.Frame.Stream.{decode-encode, IsBounded, decode-IsBounded}
use aster_fsd.Codec.Frame.Chunks.{Resumes, decode-Resumes}
use aster_fsd.Codec.Packet.{
  RawPacketKind, client, RawPacket, command_packet, parse, parse_body, parse_command,
  command_fields, from_prefix, prefix, render, routing_bytes, routing_of, command_routing,
}
use aster_fsd.Codec.Packet
use aster_fsd.Codec.Packet.Faithful.{directed, parse-render}
use aster_fsd.Codec.Packet.Lossless.{encode-parse}
use aster_fsd.Codec.Packet.Split.{split, join}
use aster_fsd.Codec.Utf8.{is_utf8, utf8_from, lead}

abbrev codec : FsdFrameCodec
codec = record { max_frame_bytes = 16 }

-- `#TMAB1:TWR:hi`
abbrev pub message_frame : Text
message_frame = 35 ∷ 84 ∷ 77 ∷ 65 ∷ 66 ∷ 49 ∷ 58 ∷ 84 ∷ 87 ∷ 82 ∷ 58 ∷ 104 ∷ 105 ∷ []

abbrev message : RawPacket
message =
    command_packet client (84 ∷ 77 ∷ []) (65 ∷ 66 ∷ 49 ∷ []) (84 ∷ 87 ∷ 82 ∷ [])
      ((104 ∷ 105 ∷ []) ∷ [])

-- The frame and its delimiter, and two bytes more.
abbrev stream : Text
stream = message_frame ++ (13 ∷ 10 ∷ 35 ∷ 84 ∷ [])

decode-decoded_example : decode codec stream ≡ some (decoded 16 stream)
decode-decoded_example = decode-decoded codec stream

decode-encode_example :
    decode codec ((message_frame ++ (13 ∷ 10 ∷ [])) ++ (10 ∷ 35 ∷ []))
    ≡ some (ok (some message_frame), discard_delimiters (10 ∷ 35 ∷ []))
unfolding encode is_delimiter
decode-encode_example =
    decode-encode codec message_frame (message_frame ++ (13 ∷ 10 ∷ [])) (10 ∷ 35 ∷ [])
      (λ h. ground arith) refl

decode-IsBounded_example : IsBounded 16 (ok (some message_frame), 35 ∷ 84 ∷ [])
unfolding decode decode_fuel decode_buffer delimiter_index discard_delimiters take drop is_delimiter
decode-IsBounded_example =
    decode-IsBounded codec stream (ok (some message_frame), 35 ∷ 84 ∷ []) refl

decode-Resumes_example : Resumes codec stream (77 ∷ 10 ∷ []) (ok (some message_frame), 35 ∷ 84 ∷ [])
unfolding decode decode_fuel decode_buffer delimiter_index discard_delimiters take drop is_delimiter
decode-Resumes_example =
    decode-Resumes codec stream (77 ∷ 10 ∷ []) (ok (some message_frame), 35 ∷ 84 ∷ []) refl

parse-render_example : parse (render message) ≡ ok message
unfolding is_ascii is_utf8 utf8_from lead routing_bytes routing_of command_routing join list_eqb
    bytes
parse-render_example =
    parse-render message
      (directed client 84 77 (65 ∷ 66 ∷ 49 ∷ []) (84 ∷ 87 ∷ 82 ∷ []) ((104 ∷ 105 ∷ []) ∷ []) refl
        refl (refl, (refl, (refl, tt))))
      refl

encode-parse_example : Packet.encode message 16 ≡ ok message_frame
unfolding parse from_prefix parse_body parse_command command_fields split is_utf8 utf8_from lead
    is_ascii is_delimiter bytes list_eqb
encode-parse_example = encode-parse message_frame message 16 refl refl (omega arith) refl

-- No text is a number.
abbrev pub numberless : FloatText
numberless = record { parse_text = λ t. none; fixed = λ n x. [] }

abbrev pub ab1 : Callsign
ab1 = record { as_str = 65 ∷ 66 ∷ 49 ∷ [] }

abbrev pub twr : Callsign
twr = record { as_str = 84 ∷ 87 ∷ 82 ∷ [] }

abbrev pub greeting : Command
greeting = Command.text ab1 (Destination.direct twr) (104 ∷ 105 ∷ [])

decode_frame-Owned_example : (p : RawPacket) × (parse message_frame ≡ ok p) × Owned p greeting
unfolding decode_frame decode_packet decode_command decode_text require_fields callsign destination
    Callsign.parse is_reserved upper_byte to_ascii_uppercase Routing.parse join_fields join parse
    from_prefix parse_body parse_command command_fields split is_utf8 utf8_from lead is_ascii bytes
    list_eqb
decode_frame-Owned_example = decode_frame-Owned numberless message_frame greeting refl
