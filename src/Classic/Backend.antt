-- ===== src/Classic/Backend.antt =====
-- `ClassicProtocol` of crates/aster_fsd_protocol_classic/src/lib.rs.
use aster_fsd.Prelude.{ok, false, []}
use aster_fsd.Model.Session.{classic}
use aster_fsd.Protocol.{ProtocolBackend}
use aster_fsd.Classic.Numbers.{FloatText}
use aster_fsd.Classic.Decode.{decode_frame}
use aster_fsd.Classic.Encode.{encode_event}

unfoldable pub classic_protocol : FloatText → ProtocolBackend
classic_protocol floats = record {
  dialect = classic;
  initial_frames = λ context. ok [];
  decode = λ context frame. decode_frame floats frame;
  encode = λ context event. encode_event floats event;
  encoding_is_recipient_specific = λ event. false;
}
