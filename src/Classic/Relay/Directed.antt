-- ===== src/Classic/Relay/Directed.antt =====
-- Handoffs and client data through the classic backend
-- (crates/aster_fsd_protocol_classic/src/encode/routed.rs and decode/routed.rs).
use aster_fsd.Prelude.{
  ◌∙◌, refl, Text, bytes, ok, List, [], ◌∷◌, ◌≡◌, is_ascii, All, nat_eq, list_eq, list_eqb,
}
use aster_fsd.Model.Callsign.{Callsign}
use aster_fsd.Model.Command.{Command}
use aster_fsd.Model.Error.{ErrorCode}
use aster_fsd.Model.Routing.{Destination, HandoffKind, ClientDataKind}
use aster_fsd.Codec.Packet.{client, request}
use aster_fsd.Protocol.{WireFrame}
use aster_fsd.Classic.Numbers.{FloatText}
use aster_fsd.Classic.Routed.{
  decode_direct_client_command, decode_handoff, decode_client_data, client_data_kind,
}
use aster_fsd.Classic.Decode.{decode_frame, decode_packet}
use aster_fsd.Classic.Output.{command_frame, destination_text}
use aster_fsd.Classic.Encode.Routed.{handoff_command, client_data_packet_kind, client_data_command}
use aster_fsd.Classic.Relay.{IsOwn, IsAddress, IsWord, IsFilled, IsAnswer}
use aster_fsd.Classic.Relay.Wire.{addressed}
use aster_fsd.Classic.Relay.Fields.{
  callsign-own, require_fields-filled, direct_callsign-address, words-decode,
}

module _ (floats : FloatText) (source : Callsign) (f : WireFrame) (own : IsOwn source) where
  pub handoff-decode :
      (target : Callsign) (kind : HandoffKind) (fields : List Text)
      → IsAddress (Destination.direct target)
      → IsFilled fields
      → All IsWord fields
      → command_frame request (handoff_command kind) source.as_str target.as_str fields ≡ ok f
      → decode_frame floats f.as_bytes ≡ ok (Command.handoff source target kind fields)
  unfolding bytes list_eqb is_ascii handoff_command destination_text decode_packet
      decode_direct_client_command decode_handoff
  handoff-decode target HandoffKind.request fields address filled words h =
      words-decode floats request 72 79 source target.as_str fields f refl (refl, refl, refl) own
        address.1 words h
      ∙ rw
          (
            require_fields-filled (addressed request 72 79 source.as_str target.as_str fields)
                filled,
            callsign-own source ErrorCode.invalid_source own,
            direct_callsign-address target (72 ∷ 79 ∷ []) address,
          )
          refl
  handoff-decode target HandoffKind.accept fields address filled words h =
      words-decode floats request 72 65 source target.as_str fields f refl (refl, refl, refl) own
        address.1 words h
      ∙ rw
          (
            require_fields-filled (addressed request 72 65 source.as_str target.as_str fields)
                filled,
            callsign-own source ErrorCode.invalid_source own,
            direct_callsign-address target (72 ∷ 65 ∷ []) address,
          )
          refl

  pub client_data-decode :
      (target : Callsign) (kind : ClientDataKind) (fields : List Text)
      → IsAddress (Destination.direct target)
      → IsAnswer kind fields
      → All IsWord fields
      → command_frame
          (client_data_packet_kind kind)
          (client_data_command kind)
          source.as_str
          target.as_str
          fields
        ≡ ok f
      → decode_frame floats f.as_bytes ≡ ok (Command.client_data source target kind fields)
  unfolding bytes list_eqb is_ascii client_data_packet_kind client_data_command destination_text
      decode_packet decode_direct_client_command decode_client_data client_data_kind
  client_data-decode target ClientDataKind.squawk_box fields address answer words h =
      words-decode floats client 83 66 source target.as_str fields f refl (refl, refl, refl) own
        address.1 words h
      ∙ rw
          (
            callsign-own source ErrorCode.invalid_source own,
            direct_callsign-address target (83 ∷ 66 ∷ []) address,
          )
          refl
  client_data-decode target ClientDataKind.pro_controller fields address answer words h =
      words-decode floats client 80 67 source target.as_str fields f refl (refl, refl, refl) own
        address.1 words h
      ∙ rw
          (
            callsign-own source ErrorCode.invalid_source own,
            direct_callsign-address target (80 ∷ 67 ∷ []) address,
          )
          refl
  client_data-decode target ClientDataKind.communication_request fields address answer words h =
      words-decode floats request 67 63 source target.as_str fields f refl (refl, refl, refl) own
        address.1 words h
      ∙ rw
          (
            callsign-own source ErrorCode.invalid_source own,
            direct_callsign-address target (67 ∷ 63 ∷ []) address,
          )
          refl
  client_data-decode target ClientDataKind.communication_reply fields address answer words h =
      words-decode floats request 67 73 source target.as_str fields f refl (refl, refl, refl) own
        address.1 words h
      ∙ rw
          (
            require_fields-filled (addressed request 67 73 source.as_str target.as_str fields)
                answer,
            callsign-own source ErrorCode.invalid_source own,
            direct_callsign-address target (67 ∷ 73 ∷ []) address,
          )
          refl
