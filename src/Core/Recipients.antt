-- ===== src/Core/Recipients.antt =====
-- The recipients of events (crates/aster_fsd_core/src/network/routing.rs) and of the effects of
-- commands.
pub mod Audience
pub mod Proper
pub mod Commands
pub mod Active
pub mod Handshake
pub mod Network
