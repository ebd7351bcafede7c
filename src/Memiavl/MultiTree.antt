-- ===== src/Memiavl/MultiTree.antt =====
-- `MultiTree` of memiavl/multitree.go: the trees of the stores, by name, with one version. `chainId`
-- and `zeroCopy` decide on nothing here.
pub mod State
pub mod Upgrade
pub mod Commit
pub mod Replay
pub mod InStep
pub mod Sort
pub mod Index
pub mod Stores
pub mod Changes
pub mod Save
pub mod Atomic
pub mod Equal
pub mod Load
pub mod Catchup
pub mod Sample
mod Examples
