-- ===== src/Classic/Encode/Presence.antt =====
-- crates/aster_fsd_protocol_classic/src/encode/presence.rs: errors, welcomes and clients.
use aster_fsd.Prelude.{
  ℕ, Text, bytes, int_text, decimal, Result, err, Option, none, some, List, [], ◌∷◌, ◌++◌, ltb,
  ◌==◌, if◌then◌else◌,
}
use aster_fsd.Prelude.Int.{ℤ, pos}
use aster_fsd.Model.Callsign.{Callsign}
use aster_fsd.Model.Error.{error_number}
use aster_fsd.Model.Event.{Event}
use aster_fsd.Model.Rating.{ClientType, atc, client_type_eq}
use aster_fsd.Model.Session.{ClientPresence}
use aster_fsd.Codec.Packet.{RawPacketKind}
use aster_fsd.Protocol.{ProtocolError, WireFrame}
use aster_fsd.Classic.Output.{command_frame, event_mismatch}

-- `format!("{:03}", code)`
unfoldable pub padded : ℕ → Text
padded n =
    if ltb n 10
    then bytes "00" ++ decimal 5 n
    else if ltb n 100
    then bytes "0" ++ decimal 5 n
    else decimal 5 n

abbrev pub recipient_text : Option Callsign → Text
recipient_text none = bytes "unknown"
recipient_text (some callsign) = callsign.as_str

unfoldable pub encode_status : Event → Result WireFrame ProtocolError
unfolding padded
encode_status (Event.error callsign code environment description) =
    command_frame RawPacketKind.request (bytes "ER") (bytes "server") (recipient_text callsign)
      (padded (error_number code) ∷ environment ∷ description ∷ [])
encode_status (Event.welcome callsign message) =
    command_frame RawPacketKind.client (bytes "TM") (bytes "server") callsign.as_str (message ∷ [])
encode_status _ = err (event_mismatch (bytes "status"))

-- `simulator_type.unwrap_or_default()`
abbrev pub or_zero : Option ℤ → ℤ
or_zero none = pos 0
or_zero (some n) = n

-- The command of a client's login, and its fields.
unfoldable pub presence_fields : ClientType → ClientPresence → Text × List Text
presence_fields atc client = (
  bytes "AA",
  client.real_name ∷ client.network_id ∷ [] ∷ int_text client.rating ∷ bytes "9" ∷ [],
)
presence_fields _ client = (
  bytes "AP",
  client.network_id
      ∷ []
      ∷ int_text client.rating
      ∷ bytes "9"
      ∷ int_text (or_zero client.simulator_type)
      ∷ [],
)

unfoldable pub encode_presence : Event → Result WireFrame ProtocolError
unfolding presence_fields
encode_presence (Event.client_added client) =
    let (command, fields) = presence_fields client.client_type client in
    command_frame RawPacketKind.client command client.callsign.as_str (bytes "SERVER") fields
encode_presence (Event.client_removed callsign client_type network_id) =
    command_frame RawPacketKind.client (if client_type == atc then bytes "DA" else bytes "DP")
      callsign.as_str network_id []
encode_presence _ = err (event_mismatch (bytes "presence"))
