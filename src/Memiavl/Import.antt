-- ===== src/Memiavl/Import.antt =====
-- The importer of memiavl/import.go: it writes a snapshot from exported nodes. The channel between the
-- goroutines hands the nodes on in order. The stacks have their top first.
pub mod Rebuild
mod Examples
use cronos_store.Common.{
  ℕ, zero, ◌+◌, ◌-◌, ◌%◌, ◌^◌, Option, none, some, List, [], ◌∷◌, length, ltb, ◌==◌, if◌then◌else◌,
}
use cronos_store.Common.Bytes.{Bytes}
use cronos_store.Common.Panic.{◌>>=◌}
use cronos_store.Memiavl.Node.{Slice}
use cronos_store.Memiavl.Hash.{leaf_hash_bytes, branch_hash_bytes}
use cronos_store.Memiavl.Export.{ExportNode}
use cronos_store.Memiavl.Snapshot.{
  SnapshotWriter, SnapshotFiles, write_leaf, write_branch, new_snapshot_writer, finish_snapshot,
}

-- The `MemNode` of a pending subtree, which has its hash and no children any more.
pub record PendingNode : Type 0 where
  pub height : ℕ
  pub size : ℕ
  pub version : ℕ
  pub key : Bytes
  pub value : Slice
  pub hash : Bytes

pub record Importer : Type 0 where
  pub writer : SnapshotWriter
  pub leaves_stack : List ℕ
  pub node_stack : List PendingNode

unfoldable pub new_importer : Importer
unfolding new_snapshot_writer
new_importer = record { writer = new_snapshot_writer; leaves_stack = []; node_stack = [] }

module _ (sha256 : Bytes → Bytes) where
  unfoldable pub leaf_node : ExportNode → PendingNode
  leaf_node n = record {
    height = 0;
    size = 1;
    version = n.version % 2 ^ 32;
    key = n.key;
    value = n.value;
    hash = sha256 (leaf_hash_bytes sha256 (n.version % 2 ^ 32) n.key n.value);
  }

  unfoldable pub branch_node : ExportNode → PendingNode → PendingNode → PendingNode
  branch_node n left right =
      let size = (left.size + right.size) % 2 ^ 64 in
      record {
        height = n.height % 2 ^ 8;
        size = size;
        version = n.version % 2 ^ 32;
        key = n.key;
        value = none;
        hash = sha256 (
            branch_hash_bytes sha256 (n.height % 2 ^ 8) size (n.version % 2 ^ 32) left.hash
              right.hash);
      }

  unfoldable pub add_leaf : ExportNode → Importer → Importer
  unfolding leaf_node
  add_leaf n i =
      let node = leaf_node n in
      let writer = write_leaf node.version node.key node.value node.hash i.writer in
      record {
        writer = writer;
        leaves_stack = writer.leaf_counter ∷ i.leaves_stack;
        node_stack = node ∷ i.node_stack;
      }

  -- A branch on the two subtrees on top of the stacks; `none` is the error of fewer than two.
  unfoldable pub add_branch :
      ExportNode → SnapshotWriter → List ℕ → List PendingNode → Option Importer
  unfolding branch_node
  add_branch n writer (last ∷ key_leaf ∷ leaves) (right ∷ left ∷ nodes) =
      let node = branch_node n left right in
      let writer' =
        write_branch node.version (node.size % 2 ^ 32) node.height (length nodes % 2 ^ 8) key_leaf
          node.hash writer in
      some (record {
        writer = writer';
        leaves_stack = writer'.leaf_counter ∷ leaves;
        node_stack = node ∷ nodes;
      })
  add_branch n writer leaves nodes = none

  -- `importer.Add`; `none` is its error. The version is an int64 that is not negative.
  unfoldable pub add_node : ExportNode → Importer → Option Importer
  unfolding add_leaf add_branch
  add_node n i =
      if ltb (2 ^ 32 - 1) n.version
      then none
      else if n.height == 0
      then some (add_leaf n i)
      else add_branch n i.writer i.leaves_stack i.node_stack

  unfoldable pub add_nodes : List ExportNode → Importer → Option Importer
  unfolding add_node
  add_nodes [] i = some i
  add_nodes (n ∷ ns) i = add_node n i >>= add_nodes ns

  -- The number of leaves written: an error where more than one subtree is pending.
  unfoldable pub imported_leaves : Importer → Option ℕ
  imported_leaves i = elim i.leaves_stack [
    | [] ↦ some 0
    | _ ∷ rest ↦ elim rest [ [] ↦ some i.writer.leaf_counter | _ ∷ _ ↦ none ]
  ]

  -- `doImport`
  unfoldable pub do_import : ℕ → List ExportNode → Option SnapshotFiles
  unfolding add_nodes imported_leaves new_importer
  do_import version nodes = do
    let start = if ltb (2 ^ 32 - 1) version then none else some new_importer
    i ← start
    i' ← add_nodes nodes i
    leaves ← imported_leaves i'
    some (finish_snapshot (version % 2 ^ 32) leaves i'.writer)
