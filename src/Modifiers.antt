-- ===== src/Modifiers.antt =====
-- src/event_handlers.rs, `update_modifiers`: the modifier keys that are physically held.
mod Defs
pub mod Tracking
unfoldable pub use Defs.*
