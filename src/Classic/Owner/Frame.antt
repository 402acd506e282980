-- ===== src/Classic/Owner/Frame.antt =====
-- The source of the command of a frame: crates/aster_fsd_protocol_classic/src/decode/mod.rs.
use aster_fsd.Prelude.{
  Text, bytes, Result, ok, ◌≡◌, ◌==◌, list_eq, nat_eq, ◌||◌, Result-cases, inl, inr, arith, subst,
  sym,
}
use aster_fsd.Model.Command.{Command}
use aster_fsd.Codec.Error.{CodecError}
use aster_fsd.Codec.Packet.{RawPacket, RawPacketKind}
use aster_fsd.Codec.Packet
use aster_fsd.Classic.Numbers.{FloatText}
use aster_fsd.Classic.Decode.{decode_frame, decode_packet, decode_command, frame_of, is_position}
use aster_fsd.Classic.Owner.{Owned, Owns, Reports-Owns, branch-Owns}
use aster_fsd.Classic.Owner.Relayed.{
  decode_text-Owns, decode_ping_pong-Owns, decode_direct_client_command-Owns,
  decode_query_response-Owns,
}
use aster_fsd.Classic.Owner.Reports.{
  decode_login-Reports, decode_flight_plan-Reports, decode_position-Reports,
}
use aster_fsd.Classic.Owner.Requests.{
  decode_kill-Reports, decode_logoff-Reports, decode_weather-Reports,
}

module _ (p : RawPacket) where
  decode_command-Owns : Owns p (decode_command p)
  unfolding decode_command
  decode_command-Owns =
      branch-Owns p (p.command == bytes "AA" || p.command == bytes "AP") _ _
        (Reports-Owns p _ (decode_login-Reports p))
        (branch-Owns p (p.command == bytes "DA" || p.command == bytes "DP") _ _
          (Reports-Owns p _ (decode_logoff-Reports p))
          (branch-Owns p (p.command == bytes "TM") _ _ (decode_text-Owns p) (
            branch-Owns p (p.command == bytes "FP") _ _
              (Reports-Owns p _ (decode_flight_plan-Reports p))
              (branch-Owns p (p.command == bytes "PI" || p.command == bytes "PO") _ _
                (decode_ping_pong-Owns p)
                (branch-Owns p (p.command == bytes "!!") _ _
                  (Reports-Owns p _ (decode_kill-Reports p)) tt)))))

  decode_packet-Owns : (floats : FloatText) → Owns p (decode_packet floats p)
  unfolding decode_packet
  decode_packet-Owns floats =
      branch-Owns p (is_position p.kind) _ _ (Reports-Owns p _ (decode_position-Reports p floats)) (
        branch-Owns p (p.command == bytes "CQ" || p.command == bytes "CR") _ _
          (decode_query_response-Owns p)
          (branch-Owns p (p.command == bytes "WX" || p.command == bytes "AX") _ _
            (Reports-Owns p _ (decode_weather-Reports p))
            (branch-Owns p
              (p.command == bytes "HO"
                || p.command == bytes "HA"
                || p.command == bytes "SB"
                || p.command == bytes "PC"
                || p.command == bytes "C?"
                || p.command == bytes "CI")
              _ _ (decode_direct_client_command-Owns p) decode_command-Owns)))

-- The frame's packet owns what the frame is decoded to.
pub decode_frame-Owns :
    (floats : FloatText) (frame : Text) (p : RawPacket)
    → Packet.parse frame ≡ ok p
    → Owns p (decode_frame floats frame)
unfolding decode_frame
decode_frame-Owns floats frame p e =
    subst (λ (r : Result RawPacket CodecError). Owns p (frame_of floats r)) (sym e)
      (decode_packet-Owns p floats)

-- Every command that the classic decoder yields for a frame claims the callsign that the source of
-- the packet of the frame parses to.
pub decode_frame-Owned :
    (floats : FloatText) (frame : Text) (command : Command)
    → decode_frame floats frame ≡ ok command
    → (p : RawPacket) × (Packet.parse frame ≡ ok p) × Owned p command
unfolding decode_frame
decode_frame-Owned floats frame command h = elim (Result-cases (Packet.parse frame)) [
  | inr (error, e) ↦ ground arith
  | inl (p, e) ↦ (p, e, subst (Owns p) h (decode_frame-Owns floats frame p e))
]
