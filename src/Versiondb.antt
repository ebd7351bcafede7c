-- ===== src/Versiondb.antt =====
-- The parts of versiondb.
pub mod Extsort
pub mod ChangeSet
pub mod KeyRange
