-- ===== src/Classic/Routed.antt =====
-- crates/aster_fsd_protocol_classic/src/decode/routed.rs.
use aster_fsd.Prelude.{
  Text, bytes, to_ascii_uppercase, Result, ok, err, ◌>>=◌, Bool, ◌||◌, List, [], ◌∷◌, ltb, length,
  true, false, ◌==◌, list_eq, nat_eq, if◌then◌else◌,
}
use aster_fsd.Model.Callsign.{Callsign}
use aster_fsd.Model.Command.{Command}
use aster_fsd.Model.Error.{ErrorCode}
use aster_fsd.Model.Routing.{QueryKind, HandoffKind, ClientDataKind}
use aster_fsd.Codec.Packet.{RawPacket}
use aster_fsd.Protocol.{ProtocolError}
use aster_fsd.Classic.Numbers.{first_char}
use aster_fsd.Classic.Fields.{
  nth, syntax, or_syntax, callsign, destination, direct_destination, direct_callsign, parse_i32,
  require_fields, join_fields,
}

unfoldable pub decode_text : RawPacket → Result Command ProtocolError
decode_text packet = do
  _ ← require_fields packet 1
  source ← callsign packet.source ErrorCode.invalid_source
  target ← destination packet.destination
  ok (Command.text source target (join_fields packet.fields))

unfoldable pub decode_ping_pong : RawPacket → Result Command ProtocolError
decode_ping_pong packet = do
  source ← callsign packet.source ErrorCode.invalid_source
  target ← destination packet.destination
  ok (
      if packet.command == bytes "PI"
      then Command.ping source target (join_fields packet.fields)
      else Command.pong source target (join_fields packet.fields))

unfoldable pub decode_kill : RawPacket → Result Command ProtocolError
decode_kill packet = do
  _ ← require_fields packet 1
  source ← callsign packet.source ErrorCode.invalid_source
  target ← callsign packet.destination ErrorCode.invalid_callsign
  ok (Command.kill source target (join_fields packet.fields))

unfoldable pub decode_flight_plan : RawPacket → Result Command ProtocolError
decode_flight_plan packet =
    if ltb (length packet.fields) 15
    then err (syntax (bytes "$FP requires seventeen fields"))
    else do
      c ← callsign packet.source ErrorCode.invalid_source
      flight_rules ← or_syntax (first_char (nth packet.fields 0)) (bytes "missing flight rules")
      cruise_speed ← parse_i32 (nth packet.fields 2) (bytes "cruise speed")
      estimated_departure ← parse_i32 (nth packet.fields 4) (bytes "estimated departure")
      actual_departure ← parse_i32 (nth packet.fields 5) (bytes "actual departure")
      hours_enroute ← parse_i32 (nth packet.fields 8) (bytes "hours enroute")
      minutes_enroute ← parse_i32 (nth packet.fields 9) (bytes "minutes enroute")
      hours_fuel ← parse_i32 (nth packet.fields 10) (bytes "hours fuel")
      minutes_fuel ← parse_i32 (nth packet.fields 11) (bytes "minutes fuel")
      ok (
          Command.flight_plan (record {
            callsign = c;
            flight_rules = flight_rules;
            aircraft = nth packet.fields 1;
            cruise_speed = cruise_speed;
            departure = nth packet.fields 3;
            estimated_departure = estimated_departure;
            actual_departure = actual_departure;
            cruise_altitude = nth packet.fields 6;
            destination = nth packet.fields 7;
            hours_enroute = hours_enroute;
            minutes_enroute = minutes_enroute;
            hours_fuel = hours_fuel;
            minutes_fuel = minutes_fuel;
            alternate = nth packet.fields 12;
            remarks = nth packet.fields 13;
            route = nth packet.fields 14;
          }))

unfoldable pub query_kind : Text → QueryKind
query_kind value =
    let upper = to_ascii_uppercase value in
    if upper == bytes "RN"
    then QueryKind.real_name
    else if upper == bytes "FP"
    then QueryKind.flight_plan
    else if upper == bytes "CAPS"
    then QueryKind.capabilities
    else if upper == bytes "ATIS"
    then QueryKind.atis
    else if upper == bytes "INF"
    then QueryKind.system_info
    else if upper == bytes "ACC"
    then QueryKind.aircraft_configuration
    else QueryKind.raw value

-- The kind of a query or response, and its arguments.
abbrev pub query_fields : List Text → Result (QueryKind × List Text) ProtocolError
query_fields [] = err (syntax (bytes "query requires a kind"))
query_fields (kind ∷ arguments) = ok (query_kind kind, arguments)

unfoldable pub decode_query : RawPacket → Result Command ProtocolError
decode_query packet = do
  _ ← require_fields packet 1
  source ← callsign packet.source ErrorCode.invalid_source
  target ← destination packet.destination
  (kind, arguments) ← query_fields packet.fields
  ok (Command.query source target kind arguments)

unfoldable pub decode_response : RawPacket → Result Command ProtocolError
decode_response packet = do
  _ ← require_fields packet 2
  source ← callsign packet.source ErrorCode.invalid_source
  target ← direct_destination packet.destination (bytes "$CR")
  (kind, arguments) ← query_fields packet.fields
  ok (Command.response source target kind arguments)

unfoldable pub decode_query_response : RawPacket → Result Command ProtocolError
unfolding decode_query decode_response
decode_query_response packet =
    if packet.command == bytes "CR" then decode_response packet else decode_query packet

-- `$AX`: the report of a station, where the first field asks for one.
unfoldable pub raw_weather : Callsign → Text → List Text → Command
raw_weather source first [] = Command.noop source
raw_weather source first (station ∷ _) =
    if to_ascii_uppercase first == bytes "METAR"
    then Command.weather_request source (to_ascii_uppercase station) false
    else Command.noop source

abbrev pub weather_fields : Bool → Callsign → List Text → Result Command ProtocolError
weather_fields parsed source [] = err (syntax (bytes "weather request requires a payload"))
weather_fields parsed source (first ∷ fields) =
    if parsed
    then ok (Command.weather_request source (to_ascii_uppercase first) true)
    else ok (raw_weather source first fields)

unfoldable pub decode_weather : RawPacket → Result Command ProtocolError
decode_weather packet = do
  _ ← require_fields packet 1
  source ← callsign packet.source ErrorCode.invalid_source
  weather_fields (packet.command == bytes "WX") source packet.fields

unfoldable pub decode_handoff : RawPacket → Result Command ProtocolError
decode_handoff packet = do
  _ ← require_fields packet 1
  source ← callsign packet.source ErrorCode.invalid_source
  target ← direct_callsign packet.destination packet.command
  ok (
      Command.handoff source target
        (if packet.command == bytes "HO" then HandoffKind.request else HandoffKind.accept)
        packet.fields)

unfoldable pub client_data_kind : Text → Result ClientDataKind ProtocolError
client_data_kind command =
    if command == bytes "SB"
    then ok ClientDataKind.squawk_box
    else if command == bytes "PC"
    then ok ClientDataKind.pro_controller
    else if command == bytes "C?"
    then ok ClientDataKind.communication_request
    else if command == bytes "CI"
    then ok ClientDataKind.communication_reply
    else err (syntax (bytes "unsupported client-data command"))

unfoldable pub decode_client_data : RawPacket → Result Command ProtocolError
decode_client_data packet = do
  _ ← (if packet.command == bytes "CI" then require_fields packet 1 else ok tt)
  kind ← client_data_kind packet.command
  source ← callsign packet.source ErrorCode.invalid_source
  target ← direct_callsign packet.destination packet.command
  ok (Command.client_data source target kind packet.fields)

unfoldable pub decode_direct_client_command : RawPacket → Result Command ProtocolError
unfolding decode_handoff decode_client_data
decode_direct_client_command packet =
    if packet.command == bytes "HO" || packet.command == bytes "HA"
    then decode_handoff packet
    else decode_client_data packet
