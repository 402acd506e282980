-- ===== src/Classic.antt =====
-- The classic FSD protocol backend (crates/aster_fsd_protocol_classic): from frames to
-- commands, and from events to frames.
pub mod Numbers
pub mod Fields
pub mod Login
pub mod Position
pub mod Routed
pub mod Decode
pub mod Output
pub mod Encode
pub mod Backend
pub mod Relay
pub mod Owner
