-- ===== src/Tests/Relay.antt =====
-- Witnesses for the theorems on the backends: messages that are relayed, and identifications.
use aster_fsd.Prelude.{
  bytes, ok, some, none, ◌≡◌, ◌↔◌, refl, [], ◌∷◌, list_eqb, is_ascii, to_ascii_uppercase,
  upper_byte, All,
}
use aster_fsd.Model.Callsign.{Callsign, is_reserved}
use aster_fsd.Model.Callsign
use aster_fsd.Model.Command.{Command}
use aster_fsd.Model.Event.{Event}
use aster_fsd.Model.Routing.{Destination}
use aster_fsd.Model.Routing
use aster_fsd.Model.Session.{active}
use aster_fsd.Codec.Error.{is_delimiter}
use aster_fsd.Codec.Packet.{
  RawPacket, parse, parse_body, parse_command, command_fields, from_prefix, prefix, render,
  routing_bytes, routing_of, command_routing,
}
use aster_fsd.Codec.Packet
use aster_fsd.Codec.Packet.Split.{split, join}
use aster_fsd.Codec.Utf8.{is_utf8, utf8_from, lead}
use aster_fsd.Protocol.{WireFrame, wire_frame, DecodeContext, EncodeContext}
use aster_fsd.Classic.Numbers.{is_digit}
use aster_fsd.Classic.Fields.{require_fields, callsign, destination, join_fields}
use aster_fsd.Classic.Routed.{decode_text}
use aster_fsd.Classic.Decode.{decode_frame, decode_packet, decode_command}
use aster_fsd.Classic.Output.{bounded_frame, classic_frame, command_frame, destination_text}
use aster_fsd.Classic.Encode.{encode_event, encode_one}
use aster_fsd.Classic.Encode.Bounds.{IsWire, encode_event-IsWire}
use aster_fsd.Classic.Encode.Routed.{encode_routed}
use aster_fsd.Classic.Owner.{Owned}
use aster_fsd.Classic.Relay.{relayed, IsRelayable}
use aster_fsd.Classic.Relay.RoundTrip.{relayed-decode_frame}
use aster_fsd.Classic.Relay.Sent.{decode_frame-IsRelayable}
use aster_fsd.Classic.Backend.{classic_protocol}
use aster_fsd.Core.Commands.{routed}
use aster_fsd.Vatsim.{
  vatsim_decode, decode_vatsim_packet, vatsim_encode, decode_identification, identified_callsign,
  valid_unique_number, is_hex_digit,
}
use aster_fsd.Vatsim.Encoding.{vatsim_encode-IsWire}
use aster_fsd.Vatsim.Identification.{Accepted, decode_identification_iff, vatsim_decode-Owned}
use aster_fsd.Tests.Codec.{message_frame, numberless, ab1, twr, greeting}

abbrev wire : WireFrame
wire = record { as_bytes = message_frame }

abbrev greeting_event : Event
greeting_event = Event.text ab1 (Destination.direct twr) (104 ∷ 105 ∷ [])

-- The frame of a message, which a client sent and another receives.
relayed-decode_frame_example : decode_frame numberless message_frame ≡ ok greeting
unfolding decode_frame decode_packet decode_command decode_text require_fields callsign destination
    Callsign.parse is_reserved upper_byte to_ascii_uppercase Routing.parse join_fields join parse
    from_prefix parse_body parse_command command_fields split is_utf8 utf8_from lead is_ascii bytes
    list_eqb relayed routed encode_event encode_one encode_routed command_frame classic_frame
    bounded_frame wire_frame Packet.encode render prefix routing_bytes routing_of command_routing
    is_delimiter destination_text
relayed-decode_frame_example =
    relayed-decode_frame numberless message_frame greeting greeting_event wire refl refl refl

decode_frame-IsRelayable_example : IsRelayable greeting
unfolding decode_frame decode_packet decode_command decode_text require_fields callsign destination
    Callsign.parse is_reserved upper_byte to_ascii_uppercase Routing.parse join_fields join parse
    from_prefix parse_body parse_command command_fields split is_utf8 utf8_from lead is_ascii bytes
    list_eqb
decode_frame-IsRelayable_example = decode_frame-IsRelayable numberless message_frame greeting refl

encode_event-IsWire_example : All (IsWire 511) (wire ∷ [])
unfolding encode_event encode_one encode_routed command_frame classic_frame bounded_frame wire_frame
    Packet.encode render prefix routing_bytes routing_of command_routing is_delimiter
    destination_text bytes list_eqb join
encode_event-IsWire_example = encode_event-IsWire numberless greeting_event (wire ∷ []) refl

abbrev encoding : EncodeContext
encoding = record { connection_id = 1; recipient = none; server_name = [] }

abbrev decoding : DecodeContext
decoding = record { connection_id = 1; phase = active; callsign = none; challenge = [] }

vatsim_encode-IsWire_example : All (IsWire 4096) (wire ∷ [])
unfolding vatsim_encode classic_protocol encode_event encode_one encode_routed command_frame
    classic_frame bounded_frame wire_frame Packet.encode render prefix routing_bytes routing_of
    command_routing is_delimiter destination_text bytes list_eqb join
vatsim_encode-IsWire_example =
    vatsim_encode-IsWire numberless encoding greeting_event (wire ∷ []) refl

-- The fields of `$IDAB1:SERVER:69d7:client:3:2:10:-12345678`, with a ninth digit.
abbrev identification : Command
identification = Command.identify (record {
  callsign = ab1;
  client_id = bytes "69d7";
  client_name = bytes "client";
  network_id = some (bytes "10");
})

decode_identification_iff_example :
    (decode_identification (bytes "AB1") (
        bytes "69d7"
        ∷ bytes "client"
        ∷ bytes "3"
        ∷ bytes "2"
        ∷ bytes "10"
        ∷ bytes "-123456789"
        ∷ [])
      ≡ ok identification)
    ↔ Accepted
        (bytes "AB1")
        (bytes "69d7"
          ∷ bytes "client"
          ∷ bytes "3"
          ∷ bytes "2"
          ∷ bytes "10"
          ∷ bytes "-123456789"
          ∷ [])
        identification
decode_identification_iff_example =
    decode_identification_iff (bytes "AB1")
      (bytes "69d7" ∷ bytes "client" ∷ bytes "3" ∷ bytes "2" ∷ bytes "10" ∷ bytes "-123456789" ∷ [])
      identification

vatsim_decode-Owned_example :
    (p : RawPacket) × (parse (bytes "$IDAB1:SERVER:69d7:client:3:2:10:-123456789") ≡ ok p)
    × Owned p identification
unfolding vatsim_decode decode_vatsim_packet decode_identification identified_callsign
    valid_unique_number is_hex_digit is_digit Callsign.parse is_reserved upper_byte
    to_ascii_uppercase parse from_prefix parse_body parse_command command_fields split is_utf8
    utf8_from lead is_ascii bytes list_eqb
vatsim_decode-Owned_example =
    vatsim_decode-Owned numberless decoding (bytes "$IDAB1:SERVER:69d7:client:3:2:10:-123456789")
      identification refl
