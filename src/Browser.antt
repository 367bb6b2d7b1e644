-- ===== src/Browser.antt =====
-- src/evlist/evlist.rs: the browser of input devices.
mod Defs
pub mod Loop
pub mod Rounds
pub mod Typing
pub mod Drawing
unfoldable pub use Defs.*
