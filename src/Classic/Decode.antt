-- ===== src/Classic/Decode.antt =====
-- crates/aster_fsd_protocol_classic/src/decode/mod.rs: the decoder of the classic backend.
use aster_fsd.Prelude.{
  ℕ, Text, bytes, Result, ok, err, ◌>>=◌, Bool, true, false, ◌||◌, [], ◌∷◌, ◌++◌, ◌+◌, ◌/◌, ◌%◌,
  ltb, int_text, ◌==◌, list_eq, nat_eq, if◌then◌else◌,
}
use aster_fsd.Prelude.Int.{pos}
use aster_fsd.Model.Command.{Command}
use aster_fsd.Model.Error.{ErrorCode}
use aster_fsd.Codec.Error.{
  CodecError, frame_too_long, invalid_utf8, empty, invalid_command, embedded_delimiter,
  unknown_prefix, missing,
}
use aster_fsd.Codec.Packet.{RawPacket, RawPacketKind}
use aster_fsd.Codec.Packet
use aster_fsd.Protocol.{ProtocolError, ProtocolErrorKind, new_error}
use aster_fsd.Classic.Numbers.{FloatText}
use aster_fsd.Classic.Fields.{callsign}
use aster_fsd.Classic.Login.{decode_login}
use aster_fsd.Classic.Position.{decode_position}
use aster_fsd.Classic.Routed.{
  decode_text, decode_ping_pong, decode_kill, decode_flight_plan, decode_query_response,
  decode_weather, decode_direct_client_command,
}

hex_digit : ℕ → ℕ
hex_digit n = if ltb n 10 then b'0' + n else 87 + n

-- The `Display` text of `CodecError`. Parsing a packet never gives the length error, whose limit is a
-- decimal number of at most ten digits here.
unfoldable pub codec_display : CodecError → Text
unfolding hex_digit
codec_display (frame_too_long limit) =
    bytes "frame exceeds configured limit of " ++ (int_text (pos limit) ++ bytes " bytes")
codec_display invalid_utf8 = bytes "frame contains invalid UTF-8"
codec_display empty = bytes "frame is empty"
codec_display (unknown_prefix b) =
    bytes "unknown packet prefix 0x" ++ (hex_digit (b / 16) ∷ hex_digit (b % 16) ∷ [])
codec_display (missing name) = bytes "packet is missing " ++ name
codec_display invalid_command = bytes "packet command is invalid"
codec_display embedded_delimiter = bytes "encoded frame contains a line delimiter"

unfoldable pub decode_logoff : RawPacket → Result Command ProtocolError
decode_logoff packet = do
  source ← callsign packet.source ErrorCode.invalid_source
  ok (Command.logoff source)

-- The last `match` of `decode_packet`.
unfoldable pub decode_command : RawPacket → Result Command ProtocolError
unfolding decode_logoff
decode_command packet =
    if packet.command == bytes "AA" || packet.command == bytes "AP"
    then decode_login packet
    else if packet.command == bytes "DA" || packet.command == bytes "DP"
    then decode_logoff packet
    else if packet.command == bytes "TM"
    then decode_text packet
    else if packet.command == bytes "FP"
    then decode_flight_plan packet
    else if packet.command == bytes "PI" || packet.command == bytes "PO"
    then decode_ping_pong packet
    else if packet.command == bytes "!!"
    then decode_kill packet
    else err (
        new_error ProtocolErrorKind.unsupported
          (bytes "unsupported classic command " ++ packet.command))

abbrev pub is_position : RawPacketKind → Bool
is_position RawPacketKind.pilot_position = true
is_position RawPacketKind.atc_position = true
is_position _ = false

unfoldable pub decode_packet : FloatText → RawPacket → Result Command ProtocolError
unfolding decode_command
decode_packet floats packet =
    if is_position packet.kind
    then decode_position floats packet
    else if packet.command == bytes "CQ" || packet.command == bytes "CR"
    then decode_query_response packet
    else if packet.command == bytes "WX" || packet.command == bytes "AX"
    then decode_weather packet
    else if packet.command == bytes "HO"
        || packet.command == bytes "HA"
        || packet.command == bytes "SB"
        || packet.command == bytes "PC"
        || packet.command == bytes "C?"
        || packet.command == bytes "CI"
    then decode_direct_client_command packet
    else decode_command packet

abbrev pub frame_of : FloatText → Result RawPacket CodecError → Result Command ProtocolError
frame_of floats (ok packet) = decode_packet floats packet
frame_of floats (err error) = err (new_error ProtocolErrorKind.syntax (codec_display error))

-- `decode::decode`, and so `ClassicProtocol::decode`.
unfoldable pub decode_frame : FloatText → Text → Result Command ProtocolError
decode_frame floats frame = frame_of floats (Packet.parse frame)
