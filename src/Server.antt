-- ===== src/Server.antt =====
-- The server runtime (crates/aster_fsd_server).
pub mod Config
pub mod Mailbox
pub mod Dispatch
pub mod Backends
pub mod Writer
pub mod Connection
pub mod Runtime
