-- ===== src/Codec.antt =====
-- crates/aster_fsd_codec: bounded line framing and raw packet tokenization.
pub mod Error
pub mod Frame
pub mod Utf8
pub mod Packet
