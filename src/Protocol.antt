-- ===== src/Protocol.antt =====
-- crates/aster_fsd_protocol/src/lib.rs: the contract of a protocol backend.
use aster_fsd.Prelude.{
  Text, bytes, Result, ok, err, Option, none, some, Bool, List, any, if◌then◌else◌,
}
use aster_fsd.Model.Callsign.{Callsign}
use aster_fsd.Model.Command.{Command}
use aster_fsd.Model.Error.{ErrorCode}
use aster_fsd.Model.Event.{Event}
use aster_fsd.Model.Session.{ConnectionId, SessionPhase, ProtocolDialect, ClientPresence}
use aster_fsd.Codec.Error.{is_delimiter}
use aster_fsd.Core.State.{SocketAddr}

pub data ProtocolErrorKind : Type 0 where
  framing syntax unsupported invalid_field encoding version : ProtocolErrorKind

pub record ProtocolError : Type 0 where
  pub kind : ProtocolErrorKind
  pub message : Text
  pub error_code : Option ErrorCode

-- `ProtocolError::new`
abbrev pub new_error : ProtocolErrorKind → Text → ProtocolError
new_error kind message = record { kind = kind; message = message; error_code = none }

abbrev pub with_error_code : ProtocolError → ErrorCode → ProtocolError
with_error_code error code = record error { error_code = some code }

-- One frame without its delimiter.
pub record WireFrame : Type 0 where
  pub as_bytes : Text

-- `WireFrame::new`
unfoldable pub wire_frame : Text → Result WireFrame ProtocolError
wire_frame value =
    if any is_delimiter value
    then err (new_error ProtocolErrorKind.encoding (bytes "wire frame contains a line delimiter"))
    else ok (record { as_bytes = value })

pub record HandshakeContext : Type 0 where
  pub connection_id : ConnectionId
  pub peer : SocketAddr
  pub server_name : Text
  pub server_version : Text
  pub challenge : Text

pub record DecodeContext : Type 0 where
  pub connection_id : ConnectionId
  pub phase : SessionPhase
  pub callsign : Option Callsign
  pub challenge : Text

pub record EncodeContext : Type 0 where
  pub connection_id : ConnectionId
  pub recipient : Option ClientPresence
  pub server_name : Text

pub record ProtocolBackend : Type 0 where
  pub dialect : ProtocolDialect
  pub initial_frames : HandshakeContext → Result (List WireFrame) ProtocolError
  pub decode : DecodeContext → Text → Result Command ProtocolError
  pub encode : EncodeContext → Event → Result (List WireFrame) ProtocolError
  pub encoding_is_recipient_specific : Event → Bool
