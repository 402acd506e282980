-- ===== src/Classic/Output.antt =====
-- crates/aster_fsd_protocol_classic/src/encode/mod.rs: frames from the parts of a packet.
use aster_fsd.Prelude.{ℕ, Text, bytes, Result, ok, err, List, ◌++◌}
use aster_fsd.Model.Routing.{Destination}
use aster_fsd.Codec.Packet.{RawPacket, RawPacketKind}
use aster_fsd.Codec.Packet
use aster_fsd.Protocol.{ProtocolError, ProtocolErrorKind, new_error, WireFrame, wire_frame}
use aster_fsd.Classic.Decode.{codec_display}

-- `CLASSIC_MAX_FRAME_BYTES`
abbrev pub classic_max_frame_bytes : ℕ
classic_max_frame_bytes = 511

unfoldable pub destination_text : Destination → Text
destination_text Destination.server = bytes "SERVER"
destination_text (Destination.direct callsign) = callsign.as_str
destination_text Destination.all = bytes "*"
destination_text Destination.atc = bytes "*A"
destination_text Destination.pilots = bytes "*P"
destination_text (Destination.range value) = value

-- Encoding a packet within a limit.
unfoldable pub bounded_frame : ℕ → RawPacket → Result WireFrame ProtocolError
unfolding wire_frame
bounded_frame limit packet = elim (Packet.encode packet limit) [
  | ok output ↦ wire_frame output
  | err error ↦ err (new_error ProtocolErrorKind.encoding (codec_display error))
]

-- `encode::frame`
unfoldable pub classic_frame : RawPacket → Result WireFrame ProtocolError
unfolding bounded_frame
classic_frame packet = bounded_frame classic_max_frame_bytes packet

unfoldable pub command_frame :
    RawPacketKind → (command source destination : Text) → List Text → Result WireFrame ProtocolError
unfolding classic_frame
command_frame kind command source destination fields = classic_frame (record {
  kind = kind;
  command = command;
  source = source;
  destination = destination;
  fields = fields;
})

unfoldable pub event_mismatch : Text → ProtocolError
event_mismatch category =
    new_error ProtocolErrorKind.encoding
      (bytes "classic " ++ (category ++ bytes " encoder received an unrelated event"))
