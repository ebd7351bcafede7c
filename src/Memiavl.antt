-- ===== src/Memiavl.antt =====
-- memiavl: the in-memory tree.
pub mod Node
pub mod Update
pub mod Lookup
pub mod Entries
pub mod Shape
pub mod Valid
pub mod Hash
pub mod Iterator
pub mod Proof
pub mod NodeCache
pub mod Tree
pub mod Snapshot
pub mod Export
pub mod Import
pub mod Wal
pub mod SharedCache
pub mod Traverse
pub mod MultiTree
pub mod Db
