-- ===== src/Classic/Position.antt =====
-- crates/aster_fsd_protocol_classic/src/decode/position.rs.
use aster_fsd.Prelude.{
  Text, bytes, decimal, Result, ok, err, ◌>>=◌, some, none, ltb, length, is_empty, all, not, ◌||◌,
  if◌then◌else◌,
}
use aster_fsd.Model.Callsign.{Callsign}
use aster_fsd.Model.Command.{Command}
use aster_fsd.Model.Error.{ErrorCode}
use aster_fsd.Model.Position.{Position, is_octal}
use aster_fsd.Codec.Packet.{RawPacket, RawPacketKind}
use aster_fsd.Protocol.{ProtocolError, ProtocolErrorKind, new_error}
use aster_fsd.Classic.Numbers.{FloatText, first_char, parse_unsigned}
use aster_fsd.Classic.Fields.{nth, syntax, or_syntax, callsign, parse_i32, parse_u32, parse_f64}

-- The only failure of `parse::<u16>` on digits is an overflow.
unfoldable pub canonical_squawk : Text → Result Text ProtocolError
canonical_squawk value =
    if is_empty value || ltb 4 (length value) || not (all is_octal value)
    then err (
        new_error ProtocolErrorKind.invalid_field
          (bytes "squawk must contain between one and four octal digits"))
    else elim (parse_unsigned 16 value) [
      | some squawk ↦ ok (decimal 5 squawk)
      | none ↦ err (
          new_error ProtocolErrorKind.invalid_field
            (bytes "number too large to fit in target type"))
    ]

unfoldable pub decode_pilot_position :
    FloatText → Callsign → RawPacket → Result Command ProtocolError
decode_pilot_position floats c packet =
    if ltb (length packet.fields) 8
    then err (syntax (bytes "pilot position requires ten fields"))
    else do
      mode ← or_syntax (first_char packet.command) (bytes "missing mode")
      squawk ← canonical_squawk (nth packet.fields 0)
      rating ← parse_i32 (nth packet.fields 1) (bytes "rating")
      latitude ← parse_f64 floats (nth packet.fields 2) (bytes "latitude")
      longitude ← parse_f64 floats (nth packet.fields 3) (bytes "longitude")
      altitude ← parse_i32 (nth packet.fields 4) (bytes "altitude")
      groundspeed ← parse_i32 (nth packet.fields 5) (bytes "groundspeed")
      pbh ← parse_u32 (nth packet.fields 6) (bytes "PBH")
      flags ← parse_i32 (nth packet.fields 7) (bytes "flags")
      ok (
          Command.position (
            Position.pilot (record {
              callsign = c;
              mode = mode;
              squawk = squawk;
              rating = rating;
              latitude = latitude;
              longitude = longitude;
              altitude = altitude;
              groundspeed = groundspeed;
              pbh = pbh;
              flags = flags;
            })))

unfoldable pub decode_atc_position : FloatText → Callsign → RawPacket → Result Command ProtocolError
decode_atc_position floats c packet =
    if ltb (length packet.fields) 7
    then err (syntax (bytes "ATC position requires eight fields"))
    else do
      frequency ← parse_i32 (nth packet.fields 0) (bytes "frequency")
      facility_type ← parse_i32 (nth packet.fields 1) (bytes "facility type")
      visual_range ← parse_i32 (nth packet.fields 2) (bytes "visual range")
      rating ← parse_i32 (nth packet.fields 3) (bytes "rating")
      latitude ← parse_f64 floats (nth packet.fields 4) (bytes "latitude")
      longitude ← parse_f64 floats (nth packet.fields 5) (bytes "longitude")
      altitude ← parse_i32 (nth packet.fields 6) (bytes "altitude")
      ok (
          Command.position (
            Position.atc (record {
              callsign = c;
              frequency = frequency;
              facility_type = facility_type;
              visual_range = visual_range;
              rating = rating;
              latitude = latitude;
              longitude = longitude;
              altitude = altitude;
            })))

unfoldable pub position_of :
    RawPacketKind → FloatText → Callsign → RawPacket → Result Command ProtocolError
unfolding decode_pilot_position decode_atc_position
position_of RawPacketKind.pilot_position floats c packet = decode_pilot_position floats c packet
position_of RawPacketKind.atc_position floats c packet = decode_atc_position floats c packet
position_of _ floats c packet = err (syntax (bytes "not a position packet"))

-- `position::decode`
unfoldable pub decode_position : FloatText → RawPacket → Result Command ProtocolError
unfolding position_of
decode_position floats packet = do
  c ← callsign packet.source ErrorCode.invalid_source
  position_of packet.kind floats c packet
