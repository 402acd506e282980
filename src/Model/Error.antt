-- ===== src/Model/Error.antt =====
-- crates/aster_fsd_model/src/error.rs: validation failures and the wire error codes.
use aster_fsd.Prelude.{ℕ, Text, bytes, ◌++◌}

-- The `reason` of `InvalidField` is its text; so is the `field`.
pub data ModelError : Type 0 where
  invalid_callsign_length invalid_callsign_character empty_destination : ModelError
  invalid_field : Text → Text → ModelError

pub data ErrorCode : Type 0 where
  no_error callsign_in_use invalid_callsign already_registered syntax invalid_source : ErrorCode
  invalid_credentials no_such_callsign no_flight_plan no_weather : ErrorCode
  invalid_protocol_revision requested_level_too_high server_full suspended : ErrorCode
  unauthorized_client : ErrorCode

-- The discriminants of `#[repr(u16)]`.
unfoldable pub error_number : ErrorCode → ℕ
error_number no_error = 0
error_number callsign_in_use = 1
error_number invalid_callsign = 2
error_number already_registered = 3
error_number syntax = 4
error_number invalid_source = 5
error_number invalid_credentials = 6
error_number no_such_callsign = 7
error_number no_flight_plan = 8
error_number no_weather = 9
error_number invalid_protocol_revision = 10
error_number requested_level_too_high = 11
error_number server_full = 12
error_number suspended = 13
error_number unauthorized_client = 16

unfoldable pub description : ErrorCode → Text
description no_error = bytes "No error"
description callsign_in_use = bytes "Callsign in use"
description invalid_callsign = bytes "Invalid callsign"
description already_registered = bytes "Already registerd"
description syntax = bytes "Syntax error"
description invalid_source = bytes "Invalid source callsign"
description invalid_credentials = bytes "Invalid CID/password"
description no_such_callsign = bytes "No such callsign"
description no_flight_plan = bytes "No flightplan"
description no_weather = bytes "No such weather profile"
description invalid_protocol_revision = bytes "Invalid protocol revision"
description requested_level_too_high = bytes "Requested level too high"
description server_full = bytes "Too many clients connected"
description suspended = bytes "CID/PID was suspended"
description unauthorized_client = bytes "Unauthorized client software"

-- The `Display` text of `ModelError`, which the core sends as an error's environment.
unfoldable pub display : ModelError → Text
display invalid_callsign_length = bytes "callsign must contain between 2 and 12 ASCII bytes"
display invalid_callsign_character = bytes "callsign contains a reserved character"
display empty_destination = bytes "destination is empty"
display (invalid_field field reason) =
    bytes "field " ++ (field ++ (bytes " is invalid: " ++ reason))
