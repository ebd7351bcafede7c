-- ===== src/Versiondb/Extsort.antt =====
-- The external sort of versiondb/extsort.
pub mod Codec
pub mod RoundTrip
pub mod Merge
pub mod Content
pub mod Drain
pub mod Sorter
pub mod Opened
pub mod Sorts
mod Examples
