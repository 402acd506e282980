-- ===== src/Model.antt =====
-- crates/aster_fsd_model: the domain types that every adapter shares.
pub mod Error
pub mod Callsign
pub mod Rating
pub mod Float
pub mod Position
pub mod Weather
pub mod Session
pub mod Routing
pub mod Command
pub mod Event
