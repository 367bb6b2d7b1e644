-- ===== src/Runtime.antt =====
-- src/runtime: the tree-walking evaluator of scripts.
pub mod World
pub mod Scope
pub mod Host
pub mod Values
pub mod Builtins
pub mod Modifiers
pub mod Eval
pub mod Fuel
pub mod Twice
pub mod Chains
pub mod Growth
