-- ===== src/Vatsim.antt =====
-- `VatsimProtocol` of crates/aster_fsd_protocol_vatsim/src/lib.rs: identification before the classic
-- commands.
pub mod Encoding
pub mod Identification
use aster_fsd.Prelude.{
  ℕ, Text, bytes, to_ascii_uppercase, int_text, Result, ok, err, ◌>>=◌, Option, some, none, Bool,
  false, not, ◌&&◌, ◌||◌, List, [], ◌∷◌, ◌++◌, leb, ltb, length, is_empty, all, ◌==◌, nat_eq,
  list_eq, if◌then◌else◌,
}
use aster_fsd.Model.Callsign.{Callsign}
use aster_fsd.Model.Callsign
use aster_fsd.Model.Command.{Command}
use aster_fsd.Model.Error.{ErrorCode, display}
use aster_fsd.Model.Event.{Event}
use aster_fsd.Model.Rating.{ClientType, pilot, atc, observer}
use aster_fsd.Model.Session.{vatsim, ClientPresence}
use aster_fsd.Codec.Packet.{RawPacket, RawPacketKind}
use aster_fsd.Codec.Packet
use aster_fsd.Protocol.{
  ProtocolError, ProtocolErrorKind, new_error, with_error_code, WireFrame, HandshakeContext,
  DecodeContext, EncodeContext, ProtocolBackend,
}
use aster_fsd.Classic.Numbers.{FloatText, is_digit}
use aster_fsd.Classic.Decode.{codec_display}
use aster_fsd.Classic.Output.{bounded_frame}
use aster_fsd.Classic.Encode.Presence.{or_zero}
use aster_fsd.Classic.Backend.{classic_protocol}

-- `VatsimProtocol::frame`
unfoldable pub vatsim_frame : RawPacket → Result WireFrame ProtocolError
unfolding bounded_frame
vatsim_frame packet = bounded_frame 4096 packet

unfoldable pub invalid_identification : (field reason : Text) → ProtocolError
invalid_identification field reason =
    new_error ProtocolErrorKind.invalid_field
      (bytes "VATSIM identification field " ++ (field ++ (bytes " " ++ reason)))

-- The text without one leading sign.
abbrev pub without_sign : Text → Text
without_sign [] = []
without_sign (b ∷ t) = if b == b'+' || b == b'-' then t else b ∷ t

unfoldable pub valid_unique_number : Text → Bool
unfolding is_digit
valid_unique_number value =
    let digits = without_sign value in length digits == 9 && all is_digit digits

-- `u8::is_ascii_hexdigit`
unfoldable pub is_hex_digit : ℕ → Bool
is_hex_digit b = leb b'0' b && leb b b'9' || (leb b'a' b && leb b b'f' || leb b'A' b && leb b b'F')

unfoldable pub vatsim_presence_fields : ClientType → ClientPresence → Text × List Text
vatsim_presence_fields atc client = (
  bytes "AA",
  client.real_name ∷ client.network_id ∷ [] ∷ int_text client.rating ∷ bytes "100" ∷ [],
)
vatsim_presence_fields _ client = (
  bytes "AP",
  client.network_id
      ∷ []
      ∷ int_text client.rating
      ∷ bytes "100"
      ∷ int_text (or_zero client.simulator_type)
      ∷ client.real_name
      ∷ [],
)

-- `VatsimProtocol::encode_presence`
unfoldable pub vatsim_presence : Event → Result WireFrame ProtocolError
unfolding vatsim_frame vatsim_presence_fields
vatsim_presence (Event.client_added client) =
    let (command, fields) = vatsim_presence_fields client.client_type client in
    vatsim_frame (record {
      kind = RawPacketKind.client;
      command = command;
      source = client.callsign.as_str;
      destination = bytes "SERVER";
      fields = fields;
    })
vatsim_presence _ = err (
    new_error ProtocolErrorKind.encoding
      (bytes "VATSIM presence encoder received an unrelated event"))

unfoldable pub vatsim_initial_frames : HandshakeContext → Result (List WireFrame) ProtocolError
unfolding vatsim_frame
vatsim_initial_frames context = do
  frame ← vatsim_frame (record {
    kind = RawPacketKind.request;
    command = bytes "DI";
    source = bytes "CLIENT";
    destination = bytes "SERVER";
    fields = bytes "VATSIM FSD V3.13" ∷ context.challenge ∷ [];
  })
  ok (frame ∷ [])

-- The callsign of an identification.
unfoldable pub identified_callsign : Text → Result Callsign ProtocolError
identified_callsign source = elim (Callsign.parse source) [
  | ok callsign ↦ ok callsign
  | err error ↦ err (
      with_error_code (new_error ProtocolErrorKind.invalid_field (display error))
        ErrorCode.invalid_callsign)
]

abbrev pub is_client_id : Text → Bool
is_client_id client_id = length client_id == 4 && all is_hex_digit client_id

-- The six fields of `$ID` after the destination.
unfoldable pub decode_identification : Text → List Text → Result Command ProtocolError
unfolding identified_callsign valid_unique_number is_hex_digit
decode_identification source
      (client_id ∷ client_name ∷ major ∷ minor ∷ network_id ∷ unique_number ∷ []) =
    if not (is_client_id client_id)
    then err
        (invalid_identification (bytes "client id") (bytes "must be four hexadecimal characters"))
    else if not (major == bytes "3") || not (minor == bytes "2")
    then err (invalid_identification (bytes "version") (bytes "must be 3:2"))
    else if is_empty network_id
    then err (invalid_identification (bytes "network id") (bytes "must not be empty"))
    else if not (valid_unique_number unique_number)
    then err (
        invalid_identification (bytes "unique number") (bytes "must be a signed nine-digit number"))
    else do
      callsign ← identified_callsign source
      ok (
          Command.identify (record {
            callsign = callsign;
            client_id = client_id;
            client_name = client_name;
            network_id = some network_id;
          }))
decode_identification source _ =
    err (new_error ProtocolErrorKind.syntax (bytes "$ID requires eight fields"))

-- A packet that is not `$ID` goes to the classic backend as its frame.
unfoldable pub decode_vatsim_packet :
    FloatText → DecodeContext → Text → RawPacket → Result Command ProtocolError
unfolding decode_identification
decode_vatsim_packet floats context frame packet =
    if not (packet.command == bytes "ID")
    then (classic_protocol floats).decode context frame
    else if not (to_ascii_uppercase packet.destination == bytes "SERVER")
    then err (invalid_identification (bytes "destination") (bytes "must be SERVER"))
    else decode_identification packet.source packet.fields

unfoldable pub vatsim_decode : FloatText → DecodeContext → Text → Result Command ProtocolError
unfolding decode_vatsim_packet
vatsim_decode floats context frame = elim (Packet.parse frame) [
  | ok packet ↦ decode_vatsim_packet floats context frame packet
  | err error ↦ err (new_error ProtocolErrorKind.syntax (codec_display error))
]

unfoldable pub vatsim_encode :
    FloatText → EncodeContext → Event → Result (List WireFrame) ProtocolError
unfolding vatsim_presence
vatsim_encode floats context (Event.client_added client) = do
  frame ← vatsim_presence (Event.client_added client)
  ok (frame ∷ [])
vatsim_encode floats context event = (classic_protocol floats).encode context event

unfoldable pub vatsim_protocol : FloatText → ProtocolBackend
unfolding vatsim_initial_frames vatsim_decode vatsim_encode
vatsim_protocol floats = record {
  dialect = vatsim;
  initial_frames = λ context. vatsim_initial_frames context;
  decode = λ context frame. vatsim_decode floats context frame;
  encode = λ context event. vatsim_encode floats context event;
  encoding_is_recipient_specific =
      λ event. (classic_protocol floats).encoding_is_recipient_specific event;
}
