-- ===== src/Mapping.antt =====
-- src/block_ext.rs and the key mappings of src/parsing.
mod Defs
mod Inline
unfoldable pub use Defs.*
unfoldable pub use Inline.*
