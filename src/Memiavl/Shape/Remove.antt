-- ===== src/Memiavl/Shape/Remove.antt =====
-- `removeRecursive` of memiavl/node.go keeps the AVL shape and does not panic.
use cronos_store.Common.{
  ℕ, ◌+◌, ◌^◌, ◌≤◌, ◌<◌, ◌≡◌, some, none, arith, inl, inr, refl, Ordering-cases, Bool-cases,
}
use cronos_store.Common.Bytes.{Bytes, compare_bytes, equal_bytes}
use cronos_store.Common.Panic.{Returns, Returns-bind}
use cronos_store.Memiavl.Node.{
  Slice, Node, leaf, branch, height, size, update_height_size, rebalance,
}
use cronos_store.Memiavl.Update.{
  Removed, finish_remove_left, finish_remove_right, remove_node, replace_key,
}
use cronos_store.Memiavl.Shape.Defs.{IsBalanced, height_bound}
use cronos_store.Memiavl.Shape.Rebalance.{rebalance-Fits}

-- The result of `removeRecursive` beside the tree before: nothing changes where no value is returned,
-- but for a single leaf, and else one leaf goes and one level at most.
abbrev pub Shrinks : Node → Removed → Type 0
Shrinks t (none, none, k) = size t ≡ 1
Shrinks t (none, some n, k) = n ≡ t
Shrinks t (some x, none, k) = (size t ≡ 1) × (height t ≡ 0)
Shrinks t (some x, some n, k) =
    IsBalanced n × (size n + 1 ≡ size t) × (height n ≤ height t) × (height t ≤ height n + 1)

module _ (version h s v : ℕ) (key : Bytes) (hash : Slice) (l r : Node) where
  finish_left_Shrinks :
      IsBalanced (branch h s v key hash l r)
      → s < 2 ^ 63
      → (c : Removed) → Shrinks l c
      → Returns
          (finish_remove_left version (branch h s v key hash l r) key r c)
          (Shrinks (branch h s v key hash l r))
  unfolding finish_remove_left height size
  finish_left_Shrinks b fits (none, n, k) g = refl
  finish_left_Shrinks b fits (some x, none, k) g = (b.5, omega arith, omega arith, omega arith)
  finish_left_Shrinks b fits (some x, some n, k) g =
      let cap = height_bound l b.4 (omega arith) in
      let cap' = height_bound r b.5 (omega arith) in
      Returns-bind _ _ (rebalance version (update_height_size version key none n r)) _
        (rebalance-Fits version key n r g.0 b.5 (omega arith) (omega arith) (omega arith)
          (omega arith) (omega arith))
        (λ n f. (f.balanced, omega arith, omega arith, omega arith))

  finish_right_Shrinks :
      IsBalanced (branch h s v key hash l r)
      → s < 2 ^ 63
      → (c : Removed) → Shrinks r c
      → Returns
          (finish_remove_right version (branch h s v key hash l r) key l c)
          (Shrinks (branch h s v key hash l r))
  unfolding finish_remove_right height size
  finish_right_Shrinks b fits (none, n, k) g = refl
  finish_right_Shrinks b fits (some x, none, k) g = (b.4, omega arith, omega arith, omega arith)
  finish_right_Shrinks b fits (some x, some n, k) g =
      let cap = height_bound l b.4 (omega arith) in
      let cap' = height_bound r b.5 (omega arith) in
      Returns-bind _ _ (rebalance version (update_height_size version (replace_key key k) none l n))
        _
        (rebalance-Fits version (replace_key key k) l n b.4 g.0 (omega arith) (omega arith)
          (omega arith) (omega arith) (omega arith))
        (λ n f. (f.balanced, omega arith, omega arith, omega arith))

pub remove_node-Shrinks :
    (key : Bytes) (version : ℕ) (t : Node)
    → IsBalanced t
    → size t < 2 ^ 63
    → Returns (remove_node key version t) (Shrinks t)
unfolding remove_node
remove_node-Shrinks key version (leaf lv lkey none lhash) b fits =
    elim (Bool-cases (equal_bytes lkey key)) [
      | inl e ↦ rw (e, Returns, remove_node) (unfold size in refl)
      | inr e ↦ rw (e, Returns, remove_node) refl
    ]
remove_node-Shrinks key version (leaf lv lkey (some x) lhash) b fits =
    elim (Bool-cases (equal_bytes lkey key)) [
      | inl e ↦ rw (e, Returns, remove_node) (unfold size in refl, unfold height in refl)
      | inr e ↦ rw (e, Returns, remove_node) refl
    ]
remove_node-Shrinks key version (branch h s v nkey hash l r) b fits =
    let t = branch h s v nkey hash l r in
    let left =
      Returns-bind _ _ (remove_node key version l) (finish_remove_left version t nkey r)
        (remove_node-Shrinks key version l b.4 (unfold size in omega arith))
        (λ c g. finish_left_Shrinks version h s v nkey hash l r b (unfold size in fits) c g) in
    let right =
      Returns-bind _ _ (remove_node key version r) (finish_remove_right version t nkey l)
        (remove_node-Shrinks key version r b.5 (unfold size in omega arith))
        (λ c g. finish_right_Shrinks version h s v nkey hash l r b (unfold size in fits) c g) in
    elim (Ordering-cases (compare_bytes key nkey)) [
      | inl e ↦ rw (e, Returns, remove_node) left
      | inr (inl e) ↦ rw (e, Returns, remove_node) right
      | inr (inr e) ↦ rw (e, Returns, remove_node) right
    ]
