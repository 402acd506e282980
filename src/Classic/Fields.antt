-- ===== src/Classic/Fields.antt =====
-- crates/aster_fsd_protocol_classic/src/decode/mod.rs: the fields of a packet as values of the model.
use aster_fsd.Prelude.{
  ℕ, zero, suc, Text, bytes, int_text, Result, ok, err, ◌>>=◌, Option, none, some, List, [], ◌∷◌,
  ◌++◌, ltb, length, if◌then◌else◌,
}
use aster_fsd.Prelude.Int.{ℤ, pos}
use aster_fsd.Model.Callsign.{Callsign}
use aster_fsd.Model.Callsign
use aster_fsd.Model.Error.{
  ErrorCode, ModelError, invalid_callsign_length, invalid_callsign_character, display,
}
use aster_fsd.Model.Float.{F64}
use aster_fsd.Model.Routing.{Destination}
use aster_fsd.Model.Routing
use aster_fsd.Codec.Packet.{RawPacket}
use aster_fsd.Codec.Packet.Split.{join}
use aster_fsd.Protocol.{ProtocolError, ProtocolErrorKind, new_error, with_error_code}
use aster_fsd.Classic.Numbers.{FloatText, parse_unsigned, parse_signed}

unfoldable pub syntax : Text → ProtocolError
syntax message = new_error ProtocolErrorKind.syntax message

-- The value, or a syntax error.
abbrev pub or_syntax {ℓ} : {A : Type ℓ} → Option A → Text → Result A ProtocolError
or_syntax none message = err (syntax message)
or_syntax (some a) message = ok a

unfoldable pub get_field : List Text → ℕ → Option Text
get_field [] n = none
get_field (f ∷ fs) zero = some f
get_field (f ∷ fs) (suc n) = get_field fs n

-- `fields[index]`, where a length test has shown that the index is in range.
unfoldable pub nth : List Text → ℕ → Text
nth [] n = []
nth (f ∷ fs) zero = f
nth (f ∷ fs) (suc n) = nth fs n

unfoldable pub field : List Text → ℕ → Text → Result Text ProtocolError
unfolding get_field
field fields index name = or_syntax (get_field fields index) (bytes "missing " ++ name)

unfoldable pub parse_i32 : Text → Text → Result ℤ ProtocolError
unfolding parse_signed
parse_i32 value name = or_syntax (parse_signed value) (bytes "invalid " ++ name)

unfoldable pub parse_u32 : Text → Text → Result ℕ ProtocolError
unfolding parse_unsigned
parse_u32 value name = or_syntax (parse_unsigned 32 value) (bytes "invalid " ++ name)

unfoldable pub parse_f64 : FloatText → Text → Text → Result F64 ProtocolError
parse_f64 floats value name = or_syntax (floats.parse_text value) (bytes "invalid " ++ name)

unfoldable pub parse_protocol_revision : Text → Result ℕ ProtocolError
unfolding parse_unsigned
parse_protocol_revision value = elim (parse_unsigned 16 value) [
  | some revision ↦ ok revision
  | none ↦ err (
      with_error_code
        (new_error ProtocolErrorKind.invalid_field
          (bytes "protocol revision is not an unsigned integer"))
        ErrorCode.invalid_protocol_revision)
]

callsign_error : ModelError → ErrorCode → ProtocolError
callsign_error invalid_callsign_length code =
    with_error_code (new_error ProtocolErrorKind.invalid_field (display invalid_callsign_length))
      code
callsign_error invalid_callsign_character code =
    with_error_code (new_error ProtocolErrorKind.invalid_field (display invalid_callsign_character))
      code
callsign_error error code = new_error ProtocolErrorKind.syntax (display error)

unfoldable pub callsign : Text → ErrorCode → Result Callsign ProtocolError
unfolding callsign_error
callsign value code = elim (Callsign.parse value) [
  | ok c ↦ ok c
  | err error ↦ err (callsign_error error code)
]

unfoldable pub destination : Text → Result Destination ProtocolError
destination value = elim (Routing.parse value) [
  | ok d ↦ ok d
  | err error ↦ err (new_error ProtocolErrorKind.invalid_field (display error))
]

abbrev pub not_direct : Text → ProtocolError
not_direct command = syntax (command ++ bytes " requires a direct callsign destination")

unfoldable pub only_direct : Text → Destination → Result Destination ProtocolError
only_direct command (Destination.direct c) = ok (Destination.direct c)
only_direct command _ = err (not_direct command)

unfoldable pub direct_destination : Text → Text → Result Destination ProtocolError
unfolding only_direct
direct_destination value command = destination value >>= only_direct command

unfoldable pub the_callsign : Text → Destination → Result Callsign ProtocolError
the_callsign command (Destination.direct c) = ok c
the_callsign command _ = err (not_direct command)

unfoldable pub direct_callsign : Text → Text → Result Callsign ProtocolError
unfolding the_callsign
direct_callsign value command = direct_destination value command >>= the_callsign command

unfoldable pub require_fields : RawPacket → ℕ → Result (Unit {0}) ProtocolError
require_fields packet minimum =
    if ltb (length packet.fields) minimum
    then err (
        syntax (
          packet.command
          ++ (bytes " requires at least "
              ++ (int_text (pos minimum) ++ bytes " payload field(s)"))))
    else ok tt

-- `fields.join(":")`
unfoldable pub join_fields : List Text → Text
unfolding join
join_fields [] = []
join_fields (f ∷ fs) = f ++ join fs
