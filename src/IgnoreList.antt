-- ===== src/IgnoreList.antt =====
-- src/ignore_list.rs: the actions whose next occurrence is to be ignored.
mod Defs
pub mod Laws
pub mod Refinement
unfoldable pub use Defs.*
