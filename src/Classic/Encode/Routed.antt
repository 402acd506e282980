-- ===== src/Classic/Encode/Routed.antt =====
-- crates/aster_fsd_protocol_classic/src/encode/routed.rs: relayed events.
use aster_fsd.Prelude.{Text, bytes, int_text, Result, err, List, [], ◌∷◌}
use aster_fsd.Model.Callsign.{Callsign}
use aster_fsd.Model.Event.{Event}
use aster_fsd.Model.Routing.{QueryKind, HandoffKind, ClientDataKind}
use aster_fsd.Codec.Packet.{RawPacketKind}
use aster_fsd.Protocol.{ProtocolError, WireFrame}
use aster_fsd.Classic.Output.{command_frame, destination_text, event_mismatch}

unfoldable pub query_kind_text : QueryKind → Text
query_kind_text QueryKind.real_name = bytes "RN"
query_kind_text QueryKind.flight_plan = bytes "FP"
query_kind_text QueryKind.capabilities = bytes "CAPS"
query_kind_text QueryKind.atis = bytes "ATIS"
query_kind_text QueryKind.system_info = bytes "INF"
query_kind_text QueryKind.aircraft_configuration = bytes "ACC"
query_kind_text (QueryKind.raw value) = value

unfoldable pub encode_query : Event → Result WireFrame ProtocolError
unfolding query_kind_text
encode_query (Event.query source destination kind arguments) =
    command_frame RawPacketKind.request (bytes "CQ") source (destination_text destination)
      (query_kind_text kind ∷ arguments)
encode_query (Event.response source destination kind arguments) =
    command_frame RawPacketKind.request (bytes "CR") source (destination_text destination)
      (query_kind_text kind ∷ arguments)
encode_query _ = err (event_mismatch (bytes "query"))

unfoldable pub handoff_command : HandoffKind → Text
handoff_command HandoffKind.request = bytes "HO"
handoff_command HandoffKind.accept = bytes "HA"

unfoldable pub client_data_packet_kind : ClientDataKind → RawPacketKind
client_data_packet_kind ClientDataKind.squawk_box = RawPacketKind.client
client_data_packet_kind ClientDataKind.pro_controller = RawPacketKind.client
client_data_packet_kind ClientDataKind.communication_request = RawPacketKind.request
client_data_packet_kind ClientDataKind.communication_reply = RawPacketKind.request

unfoldable pub client_data_command : ClientDataKind → Text
client_data_command ClientDataKind.squawk_box = bytes "SB"
client_data_command ClientDataKind.pro_controller = bytes "PC"
client_data_command ClientDataKind.communication_request = bytes "C?"
client_data_command ClientDataKind.communication_reply = bytes "CI"

unfoldable pub encode_client_data :
    (source target : Callsign) → ClientDataKind → List Text → Result WireFrame ProtocolError
unfolding client_data_packet_kind client_data_command
encode_client_data source target kind fields =
    command_frame (client_data_packet_kind kind) (client_data_command kind) source.as_str
      target.as_str fields

-- `routed::encode`
unfoldable pub encode_routed : Event → Result WireFrame ProtocolError
unfolding encode_client_data handoff_command
encode_routed (Event.text source destination message) =
    command_frame RawPacketKind.client (bytes "TM") source.as_str (destination_text destination)
      (message ∷ [])
encode_routed (Event.ping source destination payload) =
    command_frame RawPacketKind.request (bytes "PI") source.as_str (destination_text destination)
      (payload ∷ [])
encode_routed (Event.pong source destination payload) =
    command_frame RawPacketKind.request (bytes "PO") source (destination_text destination)
      (payload ∷ [])
encode_routed (Event.handoff source target kind fields) =
    command_frame RawPacketKind.request (handoff_command kind) source.as_str target.as_str fields
encode_routed (Event.client_data source target kind fields) =
    encode_client_data source target kind fields
encode_routed (Event.weather_report source destination station report) =
    command_frame RawPacketKind.request (bytes "AR") source destination.as_str
      (bytes "METAR" ∷ report ∷ [])
encode_routed (Event.wind_delta speed direction) =
    command_frame RawPacketKind.client (bytes "DL") (bytes "SERVER") (bytes "*")
      (int_text speed ∷ int_text direction ∷ [])
encode_routed (Event.disconnect target reason) =
    command_frame RawPacketKind.request (bytes "!!") (bytes "SERVER") target.as_str (reason ∷ [])
encode_routed _ = err (event_mismatch (bytes "routed"))
