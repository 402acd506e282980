-- ===== src/Core.antt =====
-- crates/aster_fsd_core: the network that every listener shares.
pub mod Ports
pub mod Effects
pub mod State
pub mod Routing
pub mod Lifecycle
pub mod Authentication
pub mod Weather
pub mod Commands
pub mod Network
pub mod Change
pub mod Recipients
pub mod Isolation
pub mod Progress
pub mod Sessions
pub mod Capacity
pub mod Invariant
