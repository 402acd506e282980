-- ===== src/Classic/Encode/State.antt =====
-- crates/aster_fsd_protocol_classic/src/encode/state.rs: positions and flight plans.
use aster_fsd.Prelude.{Text, bytes, int_text, decimal, Result, List, [], ◌∷◌}
use aster_fsd.Model.Position.{Position, PilotPosition, AtcPosition}
use aster_fsd.Model.Routing.{Destination}
use aster_fsd.Model.Session.{FlightPlan}
use aster_fsd.Codec.Packet.{RawPacket, RawPacketKind}
use aster_fsd.Protocol.{ProtocolError, WireFrame}
use aster_fsd.Classic.Numbers.{FloatText, char_text}
use aster_fsd.Classic.Output.{classic_frame, command_frame, destination_text}

unfoldable pub pilot_position_packet : FloatText → PilotPosition → RawPacket
pilot_position_packet floats p = record {
  kind = RawPacketKind.pilot_position;
  command = char_text p.mode;
  source = p.callsign.as_str;
  destination = [];
  fields =
      p.squawk
      ∷ int_text p.rating
      ∷ floats.fixed 5 p.latitude
      ∷ floats.fixed 5 p.longitude
      ∷ int_text p.altitude
      ∷ int_text p.groundspeed
      ∷ decimal 10 p.pbh
      ∷ int_text p.flags
      ∷ [];
}

unfoldable pub atc_position_packet : FloatText → AtcPosition → RawPacket
atc_position_packet floats p = record {
  kind = RawPacketKind.atc_position;
  command = [];
  source = p.callsign.as_str;
  destination = [];
  fields =
      int_text p.frequency
      ∷ int_text p.facility_type
      ∷ int_text p.visual_range
      ∷ int_text p.rating
      ∷ floats.fixed 5 p.latitude
      ∷ floats.fixed 5 p.longitude
      ∷ int_text p.altitude
      ∷ [];
}

unfoldable pub encode_position : FloatText → Position → Result WireFrame ProtocolError
unfolding pilot_position_packet atc_position_packet
encode_position floats (Position.pilot p) = classic_frame (pilot_position_packet floats p)
encode_position floats (Position.atc p) = classic_frame (atc_position_packet floats p)

unfoldable pub flight_plan_fields : FlightPlan → List Text
flight_plan_fields plan =
    char_text plan.flight_rules
    ∷ plan.aircraft
    ∷ int_text plan.cruise_speed
    ∷ plan.departure
    ∷ int_text plan.estimated_departure
    ∷ int_text plan.actual_departure
    ∷ plan.cruise_altitude
    ∷ plan.destination
    ∷ int_text plan.hours_enroute
    ∷ int_text plan.minutes_enroute
    ∷ int_text plan.hours_fuel
    ∷ int_text plan.minutes_fuel
    ∷ plan.alternate
    ∷ plan.remarks
    ∷ plan.route
    ∷ []

unfoldable pub encode_flight_plan : FlightPlan → Destination → Result WireFrame ProtocolError
unfolding flight_plan_fields
encode_flight_plan plan destination =
    command_frame RawPacketKind.request (bytes "FP") plan.callsign.as_str
      (destination_text destination) (flight_plan_fields plan)
