-- ===== src/Classic/Login.antt =====
-- crates/aster_fsd_protocol_classic/src/decode/login.rs.
use aster_fsd.Prelude.{
  bytes, Result, ok, err, ◌>>=◌, some, none, ltb, length, ◌==◌, list_eq, nat_eq, if◌then◌else◌,
}
use aster_fsd.Model.Command.{Command}
use aster_fsd.Model.Error.{ErrorCode}
use aster_fsd.Model.Rating.{pilot, atc}
use aster_fsd.Codec.Packet.{RawPacket}
use aster_fsd.Protocol.{ProtocolError}
use aster_fsd.Classic.Fields.{syntax, field, parse_i32, parse_protocol_revision, callsign}

unfoldable pub decode_atc_login : RawPacket → Result Command ProtocolError
decode_atc_login packet =
    if ltb (length packet.fields) 5 then err (syntax (bytes "#AA requires seven fields")) else do
      c ← callsign packet.source ErrorCode.invalid_callsign
      real_name ← field packet.fields 0 (bytes "real name")
      network_id ← field packet.fields 1 (bytes "network ID")
      password ← field packet.fields 2 (bytes "password")
      rating_text ← field packet.fields 3 (bytes "rating")
      rating ← parse_i32 rating_text (bytes "rating")
      revision_text ← field packet.fields 4 (bytes "protocol revision")
      revision ← parse_protocol_revision revision_text
      ok (
          Command.login (record {
            callsign = c;
            client_type = atc;
            network_id = network_id;
            password = password;
            requested_rating = rating;
            protocol_revision = revision;
            real_name = real_name;
            simulator_type = none;
          }))

unfoldable pub decode_pilot_login : RawPacket → Result Command ProtocolError
decode_pilot_login packet =
    if ltb (length packet.fields) 6 then err (syntax (bytes "#AP requires eight fields")) else do
      c ← callsign packet.source ErrorCode.invalid_callsign
      network_id ← field packet.fields 0 (bytes "network ID")
      password ← field packet.fields 1 (bytes "password")
      rating_text ← field packet.fields 2 (bytes "rating")
      rating ← parse_i32 rating_text (bytes "rating")
      revision_text ← field packet.fields 3 (bytes "protocol revision")
      revision ← parse_protocol_revision revision_text
      simulator_text ← field packet.fields 4 (bytes "simulator type")
      simulator ← parse_i32 simulator_text (bytes "simulator type")
      real_name ← field packet.fields 5 (bytes "real name")
      ok (
          Command.login (record {
            callsign = c;
            client_type = pilot;
            network_id = network_id;
            password = password;
            requested_rating = rating;
            protocol_revision = revision;
            real_name = real_name;
            simulator_type = some simulator;
          }))

-- `login::decode`
unfoldable pub decode_login : RawPacket → Result Command ProtocolError
decode_login packet =
    if packet.command == bytes "AA"
    then decode_atc_login packet
    else if packet.command == bytes "AP"
    then decode_pilot_login packet
    else err (syntax (bytes "unsupported login command"))
