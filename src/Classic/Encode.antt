-- ===== src/Classic/Encode.antt =====
-- crates/aster_fsd_protocol_classic/src/encode/mod.rs: the encoder of the classic backend. No branch
-- reads the context.
pub mod Presence
pub mod Routed
pub mod State
pub mod Weather
pub mod Bounds
use aster_fsd.Prelude.{Result, ok, ◌>>=◌, List, [], ◌∷◌}
use aster_fsd.Model.Event.{Event}
use aster_fsd.Protocol.{ProtocolError, WireFrame}
use aster_fsd.Classic.Numbers.{FloatText}
use Presence.{encode_status, encode_presence}
use Routed.{encode_query, encode_routed}
use State.{encode_position, encode_flight_plan}
use Weather.{encode_profile}

-- The events of one frame.
unfoldable pub encode_one : FloatText → Event → Result WireFrame ProtocolError
encode_one floats (Event.error callsign code environment description) =
    encode_status (Event.error callsign code environment description)
encode_one floats (Event.welcome callsign message) = encode_status (Event.welcome callsign message)
encode_one floats (Event.client_added client) = encode_presence (Event.client_added client)
encode_one floats (Event.client_removed callsign client_type network_id) =
    encode_presence (Event.client_removed callsign client_type network_id)
encode_one floats (Event.position position) = encode_position floats position
encode_one floats (Event.flight_plan plan destination) = encode_flight_plan plan destination
encode_one floats (Event.query source destination kind arguments) =
    encode_query (Event.query source destination kind arguments)
encode_one floats (Event.response source destination kind arguments) =
    encode_query (Event.response source destination kind arguments)
encode_one floats event = encode_routed event

-- `encode::encode`
unfoldable pub encode_event : FloatText → Event → Result (List WireFrame) ProtocolError
encode_event floats (Event.weather_profile destination _ profile) =
    encode_profile floats destination profile
encode_event floats event = do frame ← encode_one floats event; ok (frame ∷ [])
