-- ===== src/Tree.antt =====
-- internal/tree: the target tree, inheritance with provenance, and the limits on what a write may
-- make it run.
pub mod Model
pub mod Validate
pub mod Build
pub mod Lookup
pub mod Built
pub mod Ancestry
pub mod Inherit
pub mod Sound
pub mod Limits
pub mod Writes
pub mod Prior
pub mod Loads
