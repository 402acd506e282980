-- ===== src/Codec/Packet.antt =====
-- `RawPacket` of crates/aster_fsd_codec/src/lib.rs: tokenizing a frame and putting it together again.
-- A `&str` is its bytes; the separators and the mode letters are ASCII, so splitting by bytes is
-- splitting by characters.
pub mod Split
pub mod Lossless
pub mod Faithful
pub mod Refield
use aster_fsd.Prelude.{
  ℕ, Text, bytes, is_ascii, Result, ok, err, ◌>>=◌, Option, none, some, Bool, true, false, not,
  ◌||◌, List, [], ◌∷◌, ◌++◌, length, is_empty, any, ltb, ◌==◌, nat_eq, list_eq, if◌then◌else◌,
}
use aster_fsd.Codec.Error.{
  CodecError, frame_too_long, invalid_utf8, empty, invalid_command, embedded_delimiter,
  unknown_prefix, missing, is_delimiter,
}
use aster_fsd.Codec.Utf8.{is_utf8}
use Split.{split, join}

pub data RawPacketKind : Type 0 where
  request client pilot_position atc_position ivao_specific ivao_data ivao_other : RawPacketKind

unfoldable pub from_prefix : ℕ → Result RawPacketKind CodecError
from_prefix b =
    if b == b'$'
    then ok request
    else if b == b'#'
    then ok client
    else if b == b'@'
    then ok pilot_position
    else if b == b'%'
    then ok atc_position
    else if b == b'!'
    then ok ivao_specific
    else if b == b'&'
    then ok ivao_data
    else if b == b'-'
    then ok ivao_other
    else err (unknown_prefix b)

unfoldable pub prefix : RawPacketKind → ℕ
prefix request = b'$'
prefix client = b'#'
prefix pilot_position = b'@'
prefix atc_position = b'%'
prefix ivao_specific = b'!'
prefix ivao_data = b'&'
prefix ivao_other = b'-'

pub record RawPacket : Type 0 where
  pub kind : RawPacketKind
  pub command : Text
  pub source : Text
  pub destination : Text
  pub fields : List Text

-- `matches!(mode, 'N' | 'S' | 'Y')`
unfoldable pub is_mode : ℕ → Bool
is_mode mode = mode == b'N' || mode == b'S' || mode == b'Y'

abbrev pub pilot_packet : ℕ → Text → List Text → RawPacket
pilot_packet mode source fields = record {
  kind = pilot_position;
  command = mode ∷ [];
  source = source;
  destination = [];
  fields = fields;
}

-- The callsign in a field of its own, after a lone mode letter.
unfoldable pub separate_callsign : ℕ → List Text → Result RawPacket CodecError
separate_callsign mode [] = err (missing (bytes "pilot callsign"))
separate_callsign mode (source ∷ fields) =
    if is_empty source
    then err (missing (bytes "pilot callsign"))
    else ok (pilot_packet mode source fields)

-- The first field is the mode letter and what follows it.
unfoldable pub pilot_fields : Text → List Text → Result RawPacket CodecError
unfolding separate_callsign
pilot_fields [] fields = err (missing (bytes "pilot mode"))
pilot_fields (mode ∷ compact_callsign) fields =
    if not (is_mode mode)
    then err invalid_command
    else if is_empty compact_callsign
    then separate_callsign mode fields
    else ok (pilot_packet mode compact_callsign fields)

unfoldable pub parse_pilot : Text → Result RawPacket CodecError
unfolding pilot_fields
parse_pilot body = let (first, fields) = split body in pilot_fields first fields

unfoldable pub parse_atc : Text → Result RawPacket CodecError
parse_atc body =
    let (source, fields) = split body in
    if is_empty source
    then err (missing (bytes "ATC callsign"))
    else ok (record {
      kind = atc_position;
      command = [];
      source = source;
      destination = [];
      fields = fields;
    })

abbrev pub command_packet : RawPacketKind → Text → Text → Text → List Text → RawPacket
command_packet kind command first second fields =
    if command == bytes "DI"
    then record {
      kind = kind;
      command = command;
      source = second;
      destination = first;
      fields = fields;
    }
    else record {
      kind = kind;
      command = command;
      source = first;
      destination = second;
      fields = fields;
    }

-- The head before the first separator is two bytes of command and the first identifier.
unfoldable pub command_fields : RawPacketKind → Text → List Text → Result RawPacket CodecError
command_fields kind head [] = err (missing (bytes "destination separator"))
command_fields kind (a ∷ b ∷ first) (second ∷ fields) =
    let head : Text = a ∷ b ∷ first in
    if not (is_ascii head)
    then err invalid_command
    else ok (command_packet kind (a ∷ b ∷ []) first second fields)
command_fields kind _ (second ∷ fields) = err invalid_command

-- `split_once(':')` and `split(':')` of the rest are the fields of one `split`.
unfoldable pub parse_command : RawPacketKind → Text → Result RawPacket CodecError
unfolding command_fields
parse_command kind body = let (head, fields) = split body in command_fields kind head fields

unfoldable pub parse_body : RawPacketKind → Text → Result RawPacket CodecError
unfolding parse_pilot parse_atc parse_command
parse_body pilot_position body = parse_pilot body
parse_body atc_position body = parse_atc body
parse_body kind body = parse_command kind body

unfoldable pub parse : Text → Result RawPacket CodecError
parse [] = err empty
parse (b ∷ body) =
    from_prefix b >>= λ kind. if is_utf8 body then parse_body kind body else err invalid_utf8

-- The routing part of a frame, before the fields.
unfoldable pub command_routing : RawPacket → Text
command_routing p =
    if p.command == bytes "DI"
    then p.command ++ (p.destination ++ (b':' ∷ p.source))
    else p.command ++ (p.source ++ (b':' ∷ p.destination))

unfoldable pub routing_of : RawPacketKind → RawPacket → Text
routing_of pilot_position p = p.command ++ (b':' ∷ p.source)
routing_of atc_position p = p.source
routing_of _ p = command_routing p

unfoldable pub routing_bytes : RawPacket → Text
unfolding routing_of command_routing
routing_bytes p = routing_of p.kind p

-- The bytes that `encode` puts together, before its checks.
unfoldable pub render : RawPacket → Text
unfolding routing_bytes prefix
render p = prefix p.kind ∷ (routing_bytes p ++ join p.fields)

unfoldable pub encode : RawPacket → ℕ → Result Text CodecError
encode p max =
    let output = render p in
    if ltb max (length output)
    then err (frame_too_long max)
    else if any is_delimiter output
    then err embedded_delimiter
    else ok output
