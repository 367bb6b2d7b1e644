-- ===== src/Daemon.antt =====
-- src/state.rs, src/event_handlers.rs and the main loop of src/main.rs.
mod Defs
pub mod Steps
pub mod Forwarding
pub mod Dealing
pub mod Mappings
pub mod Lifecycle
unfoldable pub use Defs.*
