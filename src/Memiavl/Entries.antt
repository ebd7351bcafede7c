-- ===== src/Memiavl/Entries.antt =====
-- The entries of a tree, and what the operations do to them.
pub mod Defs
pub mod Lists
mod Rotate
pub mod Set
pub mod Remove
pub mod Sorted
pub mod Map
pub mod Neighbours
pub mod Lookup
