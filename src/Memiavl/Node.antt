-- ===== src/Memiavl/Node.antt =====
-- The tree nodes of memiavl/node.go and memiavl/mem_node.go, as values. A Go `Node` is a pointer to
-- a `MemNode` or a `PersistedNode`; both have the same fields here, and a function that changes a
-- node returns the changed node. `none` as the result of a function is a panic.
use cronos_store.Common.{ℕ, ◌+◌, ◌%◌, ◌^◌, Bool, Option, none, some, ltb, leb, max, if◌then◌else◌}
use cronos_store.Common.Bytes.{Bytes}
use cronos_store.Common.Panic.{◌>>=◌}

-- A byte slice that may be nil.
abbrev pub Slice : Type 0
Slice = Option Bytes

-- `branch` holds height (a uint8), size (an int64), version, key, cached hash and the children.
-- The height of a leaf is 0 and its size is 1. A nil hash is one that is not computed yet.
pub data Node : Type 0 where
  leaf : ℕ → Bytes → Slice → Slice → Node
  branch : ℕ → ℕ → ℕ → Bytes → Slice → Node → Node → Node

unfoldable pub new_leaf_node : Bytes → Slice → ℕ → Node
new_leaf_node key value version = leaf version key value none

unfoldable pub height : Node → ℕ
height (leaf version key value hash) = 0
height (branch h s version key hash l r) = h

unfoldable pub size : Node → ℕ
size (leaf version key value hash) = 1
size (branch h s version key hash l r) = s

unfoldable pub node_version : Node → ℕ
node_version (leaf version key value hash) = version
node_version (branch h s version key hash l r) = version

unfoldable pub node_key : Node → Bytes
node_key (leaf version key value hash) = key
node_key (branch h s version key hash l r) = key

-- The children of a leaf are nil, and the code panics where it uses them.
unfoldable pub left_child : Node → Option Node
left_child (leaf version key value hash) = none
left_child (branch h s version key hash l r) = some l

unfoldable pub right_child : Node → Option Node
right_child (leaf version key value hash) = none
right_child (branch h s version key hash l r) = some r

-- The value of `n` after `Mutate`, which clones a node that a copy of the tree may share and writes
-- to any other in place: both give the same value.
unfoldable pub mutate : ℕ → Node → Node
mutate v (leaf version key value hash) = leaf v key value none
mutate v (branch h s version key hash l r) = branch h s v key none l r

-- A branch whose height and size are those that `updateHeightSize` writes: height is a uint8 and
-- size the bit pattern of an int64.
unfoldable pub update_height_size : ℕ → Bytes → Slice → Node → Node → Node
unfolding height size
update_height_size v key hash l r =
    branch ((max (height l) (height r) + 1) % 2 ^ 8) ((size l + size r) % 2 ^ 64) v key hash l r

-- `calcBalance() > 1` on the heights of the children, and `calcBalance() < -1` with them swapped;
-- `calcBalance() >= 0`, and `calcBalance() <= 0` with them swapped.
unfoldable pub left_heavy : Node → Node → Bool
unfolding height
left_heavy l r = ltb (height r + 1) (height l)

unfoldable pub left_ge : Node → Node → Bool
unfolding height
left_ge l r = leb (height r) (height l)

-- The node is given by its version, key, hash and children.
unfoldable pub rotate_right : ℕ → ℕ → Bytes → Slice → Node → Node → Option Node
rotate_right version v key hash (leaf lv lkey lvalue lhash) r = none
rotate_right version v key hash (branch lh ls lv lkey lhash ll lr) r =
    some (update_height_size version lkey none ll (update_height_size v key hash lr r))

unfoldable pub rotate_left : ℕ → ℕ → Bytes → Slice → Node → Node → Option Node
rotate_left version v key hash l (leaf rv rkey rvalue rhash) = none
rotate_left version v key hash l (branch rh rs rv rkey rhash rl rr) =
    some (update_height_size version rkey none (update_height_size v key hash l rl) rr)

-- `node.left.Mutate(version).rotateLeft(version)`, and its mirror image.
unfoldable pub mutate_rotate_left : ℕ → Node → Option Node
mutate_rotate_left version (leaf v key value hash) = none
mutate_rotate_left version (branch h s v key hash l r) = rotate_left version version key none l r

unfoldable pub mutate_rotate_right : ℕ → Node → Option Node
mutate_rotate_right version (leaf v key value hash) = none
mutate_rotate_right version (branch h s v key hash l r) = rotate_right version version key none l r

unfoldable pub rebalance_left : ℕ → ℕ → Bytes → Slice → Node → Node → Option Node
unfolding left_child right_child
rebalance_left version v key hash l r = do
  ll ← left_child l
  lr ← right_child l
  let left_right = mutate_rotate_left version l >>= λ l'. rotate_right version v key hash l' r
  if left_ge ll lr then rotate_right version v key hash l r else left_right

unfoldable pub rebalance_right : ℕ → ℕ → Bytes → Slice → Node → Node → Option Node
unfolding left_child right_child
rebalance_right version v key hash l r = do
  rl ← left_child r
  rr ← right_child r
  let right_left = mutate_rotate_right version r >>= λ r'. rotate_left version v key hash l r'
  if left_ge rr rl then rotate_left version v key hash l r else right_left

-- `reBalance` reads the heights of the children, which a leaf does not have.
unfoldable pub rebalance : ℕ → Node → Option Node
rebalance version (leaf v key value hash) = none
rebalance version (branch h s v key hash l r) =
    if left_heavy l r
    then rebalance_left version v key hash l r
    else if left_heavy r l
    then rebalance_right version v key hash l r
    else some (branch h s v key hash l r)
