-- ===== src/Memiavl/Hash/Update.antt =====
-- `setRecursive` and `removeRecursive` of memiavl/node.go leave no stale hash behind.
use cronos_store.Common.{
  ℕ, Option, none, some, Bool, true, false, inl, inr, Ordering-cases, Bool-cases,
}
use cronos_store.Common.Bytes.{Bytes, compare_bytes, equal_bytes}
use cronos_store.Common.Panic.{Provided, Provided-bind}
use cronos_store.Memiavl.Node.{
  Slice, Node, leaf, branch, update_height_size, rebalance, new_leaf_node,
}
use cronos_store.Memiavl.Update.{
  Removed, finish_set, set_node, set_recursive, split_leaf, finish_remove_left, finish_remove_right,
  remove_node, remove_recursive, replace_key,
}
use cronos_store.Memiavl.Hash.Clean.{IsClean, IsCleanRoot, rebalance-IsClean}

module _ (sha256 : Bytes → Bytes) where
  finish_set-IsClean :
      (version h s : ℕ) (key : Bytes) (l r : Node) (u : Bool)
      → IsClean sha256 l
      → IsClean sha256 r
      → Provided (finish_set version h s key l r u) (λ c. IsClean sha256 c.0)
  unfolding finish_set
  finish_set-IsClean version h s key l r true cl cr = (tt, cl, cr)
  finish_set-IsClean version h s key l r false cl cr =
      Provided-bind _ _ (rebalance version (update_height_size version key none l r)) _
        (rebalance-IsClean sha256 version key l r cl cr) (λ n c. c)

  set_node-IsClean :
      (key : Bytes) (value : Slice) (version : ℕ) (t : Node)
      → IsClean sha256 t
      → Provided (set_node key value version t) (λ c. IsClean sha256 c.0)
  unfolding set_node split_leaf new_leaf_node
  set_node-IsClean key value version (leaf lv lkey lvalue lhash) c =
      elim (Ordering-cases (compare_bytes key lkey)) [
        | inl e ↦ rw (e, Provided, set_node) (tt, tt, c)
        | inr (inl e) ↦ rw (e, Provided, set_node) tt
        | inr (inr e) ↦ rw (e, Provided, set_node) (tt, c, tt)
      ]
  set_node-IsClean key value version (branch h s v nkey hash l r) c =
      let left =
        Provided-bind _ _ (set_node key value version l)
          (λ d. finish_set version h s nkey d.0 r d.1) (set_node-IsClean key value version l c.1)
          (λ d e. finish_set-IsClean version h s nkey d.0 r d.1 e c.2) in
      let right =
        Provided-bind _ _ (set_node key value version r)
          (λ d. finish_set version h s nkey l d.0 d.1) (set_node-IsClean key value version r c.2)
          (λ d e. finish_set-IsClean version h s nkey l d.0 d.1 c.1 e) in
      elim (Ordering-cases (compare_bytes key nkey)) [
        | inl e ↦ rw (e, Provided, set_node) left
        | inr (inl e) ↦ rw (e, Provided, set_node) right
        | inr (inr e) ↦ rw (e, Provided, set_node) right
      ]

  -- After `setRecursive` on a tree without stale hashes there is no stale hash.
  pub set_recursive-IsClean :
      (key : Bytes) (value : Slice) (version : ℕ) (root : Option Node)
      → IsCleanRoot sha256 root
      → Provided (set_recursive key value version root) (λ c. IsClean sha256 c.0)
  unfolding set_recursive new_leaf_node
  set_recursive-IsClean key value version none c = tt
  set_recursive-IsClean key value version (some t) c = set_node-IsClean key value version t c

  finish_left-IsClean :
      (version : ℕ) (t : Node) (key : Bytes) (r : Node) (d : Removed)
      → IsClean sha256 t
      → IsClean sha256 r
      → IsCleanRoot sha256 d.1
      → Provided (finish_remove_left version t key r d) (λ e. IsCleanRoot sha256 e.1)
  unfolding finish_remove_left
  finish_left-IsClean version t key r (none, n, k) ct cr cd = ct
  finish_left-IsClean version t key r (some x, none, k) ct cr cd = cr
  finish_left-IsClean version t key r (some x, some n, k) ct cr cd =
      Provided-bind _ _ (rebalance version (update_height_size version key none n r)) _
        (rebalance-IsClean sha256 version key n r cd cr) (λ m c. c)

  finish_right-IsClean :
      (version : ℕ) (t : Node) (key : Bytes) (l : Node) (d : Removed)
      → IsClean sha256 t
      → IsClean sha256 l
      → IsCleanRoot sha256 d.1
      → Provided (finish_remove_right version t key l d) (λ e. IsCleanRoot sha256 e.1)
  unfolding finish_remove_right
  finish_right-IsClean version t key l (none, n, k) ct cl cd = ct
  finish_right-IsClean version t key l (some x, none, k) ct cl cd = cl
  finish_right-IsClean version t key l (some x, some n, k) ct cl cd =
      Provided-bind _ _
        (rebalance version (update_height_size version (replace_key key k) none l n)) _
        (rebalance-IsClean sha256 version (replace_key key k) l n cl cd) (λ m c. c)

  remove_node-IsClean :
      (key : Bytes) (version : ℕ) (t : Node)
      → IsClean sha256 t
      → Provided (remove_node key version t) (λ d. IsCleanRoot sha256 d.1)
  unfolding remove_node
  remove_node-IsClean key version (leaf lv lkey value lhash) c =
      elim (Bool-cases (equal_bytes lkey key)) [
        | inl e ↦ rw (e, Provided, remove_node) tt
        | inr e ↦ rw (e, Provided, remove_node) c
      ]
  remove_node-IsClean key version (branch h s v nkey hash l r) c =
      let t = branch h s v nkey hash l r in
      let left =
        Provided-bind _ _ (remove_node key version l) (finish_remove_left version t nkey r)
          (remove_node-IsClean key version l c.1)
          (λ d e. finish_left-IsClean version t nkey r d c c.2 e) in
      let right =
        Provided-bind _ _ (remove_node key version r) (finish_remove_right version t nkey l)
          (remove_node-IsClean key version r c.2)
          (λ d e. finish_right-IsClean version t nkey l d c c.1 e) in
      elim (Ordering-cases (compare_bytes key nkey)) [
        | inl e ↦ rw (e, Provided, remove_node) left
        | inr (inl e) ↦ rw (e, Provided, remove_node) right
        | inr (inr e) ↦ rw (e, Provided, remove_node) right
      ]

  -- After `removeRecursive` on a tree without stale hashes there is no stale hash.
  pub remove_recursive-IsClean :
      (key : Bytes) (version : ℕ) (root : Option Node)
      → IsCleanRoot sha256 root
      → Provided (remove_recursive key version root) (λ d. IsCleanRoot sha256 d.1)
  unfolding remove_recursive
  remove_recursive-IsClean key version none c = tt
  remove_recursive-IsClean key version (some t) c = remove_node-IsClean key version t c
