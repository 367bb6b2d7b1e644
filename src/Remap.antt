-- ===== src/Remap.antt =====
-- src/block_ext.rs, run by src/runtime/evaluation.rs: what the block of a key mapping sends, and what
-- that does to the modifiers that applications see.
pub mod Straight
pub mod Device
pub mod Parts
pub mod Balance
pub mod Around
pub mod Mappings
pub mod Clicks
pub mod Observer
pub mod Sequences
pub mod Triggers
