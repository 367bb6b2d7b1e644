-- ===== src/Key.antt =====
-- src/key_primitives.rs and the key constants of src/key_defs.rs, with the equality tests that the
-- source derives.
mod Defs
mod Equality
unfoldable pub use Defs.*
pub use Equality.*
