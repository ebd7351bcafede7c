-- ===== src/Memiavl/Hash/Clean.antt =====
-- Cached hashes are never stale: an update clears the hash of every node that it changes.
use cronos_store.Common.{ℕ, ◌≡◌, Option, none, some, arith}
use cronos_store.Common.Bytes.{Bytes}
use cronos_store.Common.Panic.{Provided}
use cronos_store.Memiavl.Node.{
  Slice, Node, leaf, branch, update_height_size, rotate_right, rotate_left, rebalance,
  mutate_rotate_left, mutate_rotate_right, rebalance_left, rebalance_right,
}
use cronos_store.Memiavl.Hash.{leaf_hash_bytes, branch_hash_bytes}

-- A hash that the node keeps, if any, is `hash`.
abbrev pub Keeps : Slice → Bytes → Type 0
Keeps none hash = Unit
Keeps (some h) hash = h ≡ hash

module _ (sha256 : Bytes → Bytes) where
  -- The hash of a tree, computed from nothing.
  unfoldable pub fresh_hash : Node → Bytes
  fresh_hash (leaf v key value hash) = sha256 (leaf_hash_bytes sha256 v key value)
  fresh_hash (branch h s v key hash l r) =
      sha256 (branch_hash_bytes sha256 h s v (fresh_hash l) (fresh_hash r))

  -- Every hash that a node of the tree keeps is the hash computed from nothing.
  abbrev pub IsClean : Node → Type 0
  IsClean (leaf v key value hash) = Keeps hash (fresh_hash (leaf v key value hash))
  IsClean (branch h s v key hash l r) =
      Keeps hash (fresh_hash (branch h s v key hash l r)) × IsClean l × IsClean r

  abbrev pub IsCleanRoot : Option Node → Type 0
  IsCleanRoot none = Unit
  IsCleanRoot (some t) = IsClean t

  update-IsClean :
      (version : ℕ) (key : Bytes) (l r : Node)
      → IsClean l
      → IsClean r
      → IsClean (update_height_size version key none l r)
  unfolding update_height_size
  update-IsClean version key l r cl cr = (tt, cl, cr)

  rebalance_left-IsClean :
      (version v : ℕ) (key : Bytes) (l r : Node)
      → IsClean l
      → IsClean r
      → Provided (rebalance_left version v key none l r) IsClean
  unfolding rebalance_left rotate_right rotate_left mutate_rotate_left update_height_size
  rebalance_left-IsClean version v key (leaf lv lkey lvalue lhash) r cl cr = tt
  rebalance_left-IsClean version v key (branch lh ls lv lkey lhash ll (leaf mv mkey mvalue mhash)) r
        cl cr =
      ground arith
  rebalance_left-IsClean version v key
        (branch lh ls lv lkey lhash ll (branch mh ms mv mkey mhash a b)) r cl cr =
      ground arith

  rebalance_right-IsClean :
      (version v : ℕ) (key : Bytes) (l r : Node)
      → IsClean l
      → IsClean r
      → Provided (rebalance_right version v key none l r) IsClean
  unfolding rebalance_right rotate_right rotate_left mutate_rotate_right update_height_size
  rebalance_right-IsClean version v key l (leaf rv rkey rvalue rhash) cl cr = tt
  rebalance_right-IsClean version v key l
        (branch rh rs rv rkey rhash (leaf mv mkey mvalue mhash) rr) cl cr =
      ground arith
  rebalance_right-IsClean version v key l
        (branch rh rs rv rkey rhash (branch mh ms mv mkey mhash a b) rr) cl cr =
      ground arith

  pub rebalance-IsClean :
      (version : ℕ) (key : Bytes) (l r : Node)
      → IsClean l
      → IsClean r
      → Provided (rebalance version (update_height_size version key none l r)) IsClean
  unfolding rebalance update_height_size
  rebalance-IsClean version key l r cl cr = ground (
    arith,
    rebalance_left-IsClean version version key l r cl cr,
    rebalance_right-IsClean version version key l r cl cr,
  )
