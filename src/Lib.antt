-- ===== src/Lib.antt =====
-- The memiavl tree of cronos-store: an immutable AVL tree of key-value pairs with the hashes of
-- cosmos/iavl, held in memory, with its iterator, its ICS-23 proofs and the map that it implements;
-- the snapshot files that it is written to, its export and import, and the entries of its write-ahead
-- log; the multi tree that keeps one tree for each store under one version, with the log of the
-- changes that the next commit writes; and, of versiondb, the change set files, the external sort and
-- the key ranges of the stores.
--
-- The files, and the code that they model:
--   Common             Go's integer comparisons, byte slices with `bytes.Compare`, panics, the errors
--                      of a reader and the varints of encoding/binary, for all of the modules below
--   Memiavl/Node       memiavl/mem_node.go: nodes, `Mutate`, `updateHeightSize`, the rotations and
--                      `reBalance`
--   Memiavl/Update     memiavl/node.go: `setRecursive` and `removeRecursive`
--   Memiavl/Lookup     memiavl/mem_node.go: `Get` and `GetByIndex`
--   Memiavl/Hash       memiavl/node.go: `writeHashBytes` and `HashNode`, and the cached `Hash` of
--                      memiavl/mem_node.go
--   Memiavl/Iterator   memiavl/iterator.go: `NewIterator`, `Next` and `Close`
--   Memiavl/Proof      memiavl/proof.go: `pathToLeaf`, `createExistenceProof` and
--                      `GetNonMembershipProof`, with the conversion to ICS-23 operations
--   Memiavl/Tree       memiavl/tree.go: `Tree` with its version, root and cache of entries
--   Memiavl/Snapshot   memiavl/snapshot.go: the files that `WriteSnapshot` writes
--   Memiavl/Export     memiavl/tree.go: `ScanPostOrder`, and what `Export` makes of it
--   Memiavl/Import     memiavl/import.go: `importer.Add` and `doImport`
--   Memiavl/Wal        memiavl/wal.go: the entries of a binary log file and its torn tail, and
--                      memiavl/multitree.go: `nextVersion`, `walIndex` and `walVersion`
--   Memiavl/Traverse   memiavl/tree.go: `traverseStateChanges`
--   Memiavl/MultiTree  memiavl/multitree.go: the trees of the stores under one version, with their
--                      upgrades, commit infos, `SaveVersion`, `catchupWAL` and `LoadMultiTree`
--   Memiavl/Db         memiavl/db.go: the pending log of `ApplyChangeSets`
--   Memiavl/SharedCache
--                      memiavl/tree.go: `sharedCache`, which is a cache for `Tree`
--   Memiavl/NodeCache  what memiavl/tree.go relies on of github.com/cosmos/iavl/cache
--   Versiondb/Extsort/Codec
--                      versiondb/extsort/delta_encoding.go, and the chunk files of sort.go
--   Versiondb/Extsort/Merge
--                      versiondb/extsort/merge.go: `MultiWayMerge`
--   Versiondb/Extsort/Sorter
--                      versiondb/extsort/sort.go: `Feed`, `Finalize` and `Spawn`
--   Versiondb/ChangeSet
--                      versiondb/client/changeset.go: change set files
--   Versiondb/KeyRange versiondb/tsrocksdb/store.go: the key range of a store
--
-- Memiavl/Entries gives a tree as the list of its entries in key order and says what each operation
-- does to that list; Memiavl/Shape is the AVL balance; Memiavl/Valid joins them into the invariant of
-- a tree. Memiavl/Hash/Clean says that no cached hash is stale. Memiavl/Tree/Refine has the invariant
-- of `Tree` (a valid tree, no stale hash, a coherent cache) and the map that `Tree` refines.
--
-- A node is a value: a write in place and a clone have the same value, and the aliasing of nodes that
-- `Tree.Copy` arranges is not modelled. `none` as a result stands for a Go panic or for the error that
-- the comment of the function names. Heights are a uint8 with `% 2 ^ 8`, sizes an int64 with
-- `% 2 ^ 64`, versions and indices a uint32 with `% 2 ^ 32`; that they do not overflow is proved, from
-- the bound on the number of entries in each statement. The height of a tree of fewer than 2 ^ 63
-- entries is at most 125.
--
-- The loop of `Next` runs on the number of the nodes below its stack, which each round lowers; that
-- it never runs out is part of the iterator's theorem. `PutUvarint` runs on ten rounds, which write
-- any uint64. `ScanPostOrder` runs on the number of its rounds, and the loops over a log file on the
-- number of its bytes: that these are enough is part of their theorems. The loop that reads the merge
-- of an external sort runs on a number that its theorem asks to exceed the number of the items. The
-- binary search of the pending log runs on one round more than there are change sets, and each round
-- makes its range smaller. All other recursion is on the tree, or on a list.
--
-- SHA-256, CRC-32, the cache of cosmos/iavl, snappy, the reader of log entries, and Go's container/heap
-- and `sort.Slice` are parameters, with the behaviour that they document. Not modelled: `PersistedNode` and
-- the reading of snapshots, the segments of the write-ahead log, the commit of the database of memiavl
-- and its goroutines, the rest of the version store of versiondb, and the stores on top of both.
-- Errors of files are not modelled either.
pub mod Common
pub mod Memiavl
pub mod Versiondb
