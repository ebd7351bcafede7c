-- ===== src/Memiavl/Shape.antt =====
-- The AVL shape of a tree: heights, sizes and balance.
pub mod Defs
mod Built
mod Rotate
pub mod Rebalance
pub mod Set
pub mod Remove
