-- ===== src/Memiavl/Db.antt =====
-- The database of memiavl/db.go: the pending log of the changes since the last commit.
pub mod Pending
pub mod Objects
pub mod Merge
pub mod First
pub mod Track
pub mod Replay
pub mod Slow
pub mod Apply
pub mod Search
pub mod Order
mod Examples
