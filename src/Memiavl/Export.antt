-- ===== src/Memiavl/Export.antt =====
-- `ScanPostOrder` and `Export` of memiavl/tree.go, for a tree without a snapshot. The channel of the
-- exporter hands on what the scan gives it; it is not closed early. The stack has its top first.
pub mod Scan
use cronos_store.Common.{ℕ, zero, suc, ◌+◌, Bool, true, false, Option, none, some, List, [], ◌∷◌}
use cronos_store.Common.Bytes.{Bytes}
use cronos_store.Common.Panic.{◌>>=◌}
use cronos_store.Memiavl.Node.{Slice, Node, leaf, branch, height, node_key, node_version}

-- The height of a valid tree is at most 125, so that `int8` keeps it.
pub record ExportNode : Type 0 where
  pub key : Bytes
  pub value : Slice
  pub version : ℕ
  pub height : ℕ

unfoldable pub node_value : Node → Slice
node_value (leaf version key value hash) = value
node_value (branch h s version key hash l r) = none

-- The callback of `Export`.
unfoldable pub export_node : Node → ExportNode
unfolding node_value height node_key node_version
export_node n = record {
  key = node_key n;
  value = node_value n;
  version = node_version n;
  height = height n;
}

-- A node, and whether it is expanded.
pub data StackEntry : Type 0 where
  entry : Node → Bool → StackEntry

-- The rounds that the loop of `ScanPostOrder` takes for a node, and for a stack of entries.
unfoldable pub rounds : Node → ℕ
rounds (leaf version key value hash) = 1
rounds (branch h s version key hash l r) = suc (suc (rounds l + rounds r))

-- The loop of `ScanPostOrder`, with what its callback is given; `none` where the fuel runs out.
unfoldable pub scan_loop : ℕ → List StackEntry → Option (List ExportNode)
unfolding export_node
scan_loop zero stack = none
scan_loop (suc fuel) [] = some []
scan_loop (suc fuel) (entry (leaf v key value hash) expanded ∷ stack) =
    scan_loop fuel stack >>= λ more. some (export_node (leaf v key value hash) ∷ more)
scan_loop (suc fuel) (entry (branch h s v key hash l r) true ∷ stack) =
    scan_loop fuel stack >>= λ more. some (export_node (branch h s v key hash l r) ∷ more)
scan_loop (suc fuel) (entry (branch h s v key hash l r) false ∷ stack) =
    scan_loop fuel (entry l false ∷ entry r false ∷ entry (branch h s v key hash l r) true ∷ stack)

unfoldable pub scan_post_order : Option Node → Option (List ExportNode)
unfolding scan_loop rounds
scan_post_order none = some []
scan_post_order (some root) = scan_loop (suc (rounds root)) (entry root false ∷ [])
