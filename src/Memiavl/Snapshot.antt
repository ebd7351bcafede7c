-- ===== src/Memiavl/Snapshot.antt =====
-- The writing of a snapshot in memiavl/snapshot.go, in the layout of memiavl/persisted_node.go. The
-- files are the bytes written to them. A write does not fail here, and the context is not cancelled.
use cronos_store.Common.{
  ℕ, ◌+◌, ◌-◌, ◌%◌, ◌^◌, Option, none, some, [], ◌∷◌, ◌++◌, length, ltb, if◌then◌else◌,
}
use cronos_store.Common.Bytes.{Bytes}
use cronos_store.Common.Fixed.{put_uint32, put_uint64}
use cronos_store.Memiavl.Node.{Slice, Node, leaf, branch}
use cronos_store.Memiavl.Hash.{node_hash, bytes_of}

pub record SnapshotWriter : Type 0 where
  pub nodes_file : Bytes
  pub leaves_file : Bytes
  pub kvs_file : Bytes
  pub branch_counter : ℕ
  pub leaf_counter : ℕ
  pub kvs_offset : ℕ

unfoldable pub new_snapshot_writer : SnapshotWriter
new_snapshot_writer = record {
  nodes_file = [];
  leaves_file = [];
  kvs_file = [];
  branch_counter = 0;
  leaf_counter = 0;
  kvs_offset = 0;
}

unfoldable pub write_key_value : Bytes → Bytes → SnapshotWriter → SnapshotWriter
unfolding put_uint32
write_key_value key value w = record w {
  kvs_file =
      w.kvs_file ++ (put_uint32 (length key) ++ (key ++ (put_uint32 (length value) ++ value)));
  kvs_offset = (w.kvs_offset + (8 + (length key + length value))) % 2 ^ 64;
}

unfoldable pub write_leaf : ℕ → Bytes → Slice → Bytes → SnapshotWriter → SnapshotWriter
unfolding put_uint32 put_uint64 write_key_value
write_leaf version key value hash w =
    let buf = put_uint32 version ++ (put_uint32 (length key) ++ put_uint64 w.kvs_offset) in
    let w' = write_key_value key (bytes_of value) w in
    record w' {
      leaves_file = w.leaves_file ++ (buf ++ hash);
      leaf_counter = (w.leaf_counter + 1) % 2 ^ 32;
    }

unfoldable pub write_branch : ℕ → ℕ → ℕ → ℕ → ℕ → Bytes → SnapshotWriter → SnapshotWriter
unfolding put_uint32
write_branch version size height pre_trees key_leaf hash w =
    let head = height ∷ pre_trees ∷ 0 ∷ 0 ∷ [] in
    let buf = head ++ (put_uint32 version ++ (put_uint32 size ++ put_uint32 key_leaf)) in
    record w {
      nodes_file = w.nodes_file ++ (buf ++ hash);
      branch_counter = (w.branch_counter + 1) % 2 ^ 32;
    }

-- `uint8(w.leafCounter - w.branchCounter)` on two uint32.
unfoldable pub pending_trees : SnapshotWriter → ℕ
pending_trees w = (w.leaf_counter + 2 ^ 32 - w.branch_counter) % 2 ^ 32 % 2 ^ 8

-- The bytes of a snapshot directory.
pub record SnapshotFiles : Type 0 where
  pub nodes : Bytes
  pub leaves : Bytes
  pub kvs : Bytes
  pub metadata : Bytes

-- `writeSnapshot` behind `doWrite`: without leaves nothing is flushed, and the magic number and the
-- format stand before the version.
unfoldable pub finish_snapshot : ℕ → ℕ → SnapshotWriter → SnapshotFiles
unfolding put_uint32
finish_snapshot version leaves w =
    let metadata = put_uint32 1280721225 ++ (put_uint32 0 ++ put_uint32 version) in
    if ltb 0 leaves
    then record {
      nodes = w.nodes_file;
      leaves = w.leaves_file;
      kvs = w.kvs_file;
      metadata = metadata;
    }
    else record { nodes = []; leaves = []; kvs = []; metadata = metadata }

module _ (sha256 : Bytes → Bytes) where
  unfoldable pub write_recursive : Node → SnapshotWriter → SnapshotWriter
  unfolding write_leaf write_branch pending_trees
  write_recursive (leaf version key value hash) w =
      write_leaf version key value (node_hash sha256 (leaf version key value hash)).0 w
  write_recursive (branch h s version key hash l r) w =
      let left = write_recursive l w in
      let right = write_recursive r left in
      write_branch version (s % 2 ^ 32) h (pending_trees w) left.leaf_counter
        (node_hash sha256 (branch h s version key hash l r)).0 right

  -- `WriteSnapshot` of a tree with this version and root.
  unfoldable pub write_snapshot : ℕ → Option Node → SnapshotFiles
  unfolding write_recursive finish_snapshot new_snapshot_writer
  write_snapshot version none = finish_snapshot version 0 new_snapshot_writer
  write_snapshot version (some root) =
      let w = write_recursive root new_snapshot_writer in finish_snapshot version w.leaf_counter w
