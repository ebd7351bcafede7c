-- ===== src/Memiavl/Update.antt =====
-- `setRecursive` and `removeRecursive` of memiavl/node.go.
use Prim.Native.Nat.Ordering.{lt, eq, gt}
use cronos_store.Common.{ℕ, Bool, true, false, Option, none, some, if◌then◌else◌}
use cronos_store.Common.Bytes.{Bytes, compare_bytes, equal_bytes}
use cronos_store.Common.Panic.{◌>>=◌}
use cronos_store.Memiavl.Node.{
  Slice, Node, leaf, branch, new_leaf_node, update_height_size, rebalance,
}

-- The node that `setRecursive` meets when the key is below or above that of a leaf.
unfoldable pub split_leaf : ℕ → Bytes → Node → Node → Node
split_leaf version key l r = branch 1 2 version key none l r

-- What follows the recursive call: the children are in place, the node is the one that `Mutate`
-- returned.
unfoldable pub finish_set : ℕ → ℕ → ℕ → Bytes → Node → Node → Bool → Option (Node × Bool)
finish_set version h s key l r true = some (branch h s version key none l r, true)
finish_set version h s key l r false = do
  n ← rebalance version (update_height_size version key none l r)
  some (n, false)

unfoldable pub set_node : Bytes → Slice → ℕ → Node → Option (Node × Bool)
unfolding new_leaf_node split_leaf
set_node key value version (leaf lv lkey lvalue lhash) = elim (compare_bytes key lkey) [
  | lt ↦
      some (
        split_leaf version lkey (new_leaf_node key value version) (leaf lv lkey lvalue lhash),
        false,
      )
  | gt ↦
      some (
        split_leaf version key (leaf lv lkey lvalue lhash) (new_leaf_node key value version),
        false,
      )
  | eq ↦ some (leaf version lkey value none, true)
]
set_node key value version (branch h s v nkey hash l r) = elim (compare_bytes key nkey) [
  | lt ↦ do
    (child, updated) ← set_node key value version l
    finish_set version h s nkey child r updated
  | _ ↦ do
    (child, updated) ← set_node key value version r
    finish_set version h s nkey l child updated
]

-- The tree may be empty.
unfoldable pub set_recursive : Bytes → Slice → ℕ → Option Node → Option (Node × Bool)
unfolding new_leaf_node
set_recursive key value version none = some (new_leaf_node key value version, true)
set_recursive key value version (some n) = set_node key value version n

-- `removeRecursive` returns the removed value, what is left of the subtree, and the new key for the
-- branch above whose right subtree this is.
abbrev pub Removed : Type 0
Removed = Slice × Option Node × Option Bytes

-- What follows the recursive call on the left child, and on the right child.
unfoldable pub finish_remove_left : ℕ → Node → Bytes → Node → Removed → Option Removed
finish_remove_left version n key r (none, l', new_key) = some (none, some n, none)
finish_remove_left version n key r (some value, none, new_key) = some (some value, some r, some key)
finish_remove_left version n key r (some value, some l', new_key) = do
  n' ← rebalance version (update_height_size version key none l' r)
  some (some value, some n', new_key)

unfoldable pub replace_key : Bytes → Option Bytes → Bytes
replace_key key none = key
replace_key key (some new_key) = new_key

unfoldable pub finish_remove_right : ℕ → Node → Bytes → Node → Removed → Option Removed
finish_remove_right version n key l (none, r', new_key) = some (none, some n, none)
finish_remove_right version n key l (some value, none, new_key) = some (some value, some l, none)
finish_remove_right version n key l (some value, some r', new_key) = do
  n' ← rebalance version (update_height_size version (replace_key key new_key) none l r')
  some (some value, some n', none)

unfoldable pub remove_node : Bytes → ℕ → Node → Option Removed
remove_node key version (leaf lv lkey lvalue lhash) =
    if equal_bytes lkey key
    then some (lvalue, none, none)
    else some (none, some (leaf lv lkey lvalue lhash), none)
remove_node key version (branch h s v nkey hash l r) = elim (compare_bytes key nkey) [
  | lt ↦
      remove_node key version l >>= finish_remove_left version (branch h s v nkey hash l r) nkey r
  | _ ↦
      remove_node key version r >>= finish_remove_right version (branch h s v nkey hash l r) nkey l
]

unfoldable pub remove_recursive : Bytes → ℕ → Option Node → Option Removed
remove_recursive key version none = some (none, none, none)
remove_recursive key version (some n) = remove_node key version n
