-- ===== src/Memiavl/Shape/Set.antt =====
-- `setRecursive` of memiavl/node.go keeps the AVL shape and does not panic.
use cronos_store.Common.{
  ℕ, ◌+◌, ◌^◌, ◌≤◌, ◌<◌, ◌≡◌, none, arith, true, false, Bool, inl, inr, refl, Ordering-cases,
}
use cronos_store.Common.Bytes.{Bytes, compare_bytes}
use cronos_store.Common.Panic.{Returns, Returns-bind}
use cronos_store.Memiavl.Node.{
  Slice, Node, leaf, branch, height, size, update_height_size, rebalance,
}
use cronos_store.Memiavl.Update.{finish_set, set_node}
use cronos_store.Memiavl.Shape.Defs.{IsBalanced, height_bound}
use cronos_store.Memiavl.Shape.Rebalance.{rebalance-Fits}

-- The result of `setRecursive` beside the tree before: an update keeps height and size, an insertion
-- adds one leaf and one level at most.
abbrev pub Grows : Node → Node × Bool → Type 0
Grows t (n, true) = IsBalanced n × (size n ≡ size t) × (height n ≡ height t)
Grows t (n, false) =
    IsBalanced n × (size n ≡ size t + 1) × (height t ≤ height n) × (height n ≤ height t + 1)

-- What follows the recursive call, with the new child in the place of `old`.
module _ (version h s v : ℕ) (key : Bytes) (hash : Slice) (l r : Node) where
  finish_set_left :
      IsBalanced (branch h s v key hash l r)
      → s + 1 < 2 ^ 63
      → (c : Node) (u : Bool) → Grows l (c, u)
      → Returns (finish_set version h s key c r u) (Grows (branch h s v key hash l r))
  unfolding finish_set height size
  finish_set_left b fits c true g =
      ((omega arith, omega arith, omega arith, omega arith, g.0, b.5), refl, refl)
  finish_set_left b fits c false g =
      let cap = height_bound c g.0 (omega arith) in
      let cap' = height_bound r b.5 (omega arith) in
      Returns-bind _ _ (rebalance version (update_height_size version key none c r)) _
        (rebalance-Fits version key c r g.0 b.5 (omega arith) (omega arith) (omega arith)
          (omega arith) (omega arith))
        (λ n f. (f.balanced, omega arith, omega arith, omega arith))

  finish_set_right :
      IsBalanced (branch h s v key hash l r)
      → s + 1 < 2 ^ 63
      → (c : Node) (u : Bool) → Grows r (c, u)
      → Returns (finish_set version h s key l c u) (Grows (branch h s v key hash l r))
  unfolding finish_set height size
  finish_set_right b fits c true g =
      ((omega arith, omega arith, omega arith, omega arith, b.4, g.0), refl, refl)
  finish_set_right b fits c false g =
      let cap = height_bound c g.0 (omega arith) in
      let cap' = height_bound l b.4 (omega arith) in
      Returns-bind _ _ (rebalance version (update_height_size version key none l c)) _
        (rebalance-Fits version key l c b.4 g.0 (omega arith) (omega arith) (omega arith)
          (omega arith) (omega arith))
        (λ n f. (f.balanced, omega arith, omega arith, omega arith))

pub set_node-Grows :
    (key : Bytes) (value : Slice) (version : ℕ) (t : Node)
    → IsBalanced t
    → size t + 1 < 2 ^ 63
    → Returns (set_node key value version t) (Grows t)
unfolding set_node
set_node-Grows key value version (leaf lv lkey lvalue lhash) b fits =
    elim (Ordering-cases (compare_bytes key lkey)) [
      | inl e ↦ rw (e, Returns, set_node) (unfold height size in omega arith)
      | inr (inl e) ↦
          rw (e, Returns, set_node) (tt, unfold height size in refl, unfold height size in refl)
      | inr (inr e) ↦ rw (e, Returns, set_node) (unfold height size in omega arith)
    ]
set_node-Grows key value version (branch h s v nkey hash l r) b fits =
    let left =
      Returns-bind _ _ (set_node key value version l) (λ c. finish_set version h s nkey c.0 r c.1)
        (set_node-Grows key value version l b.4 (unfold size in omega arith))
        (λ (c, u) g. finish_set_left version h s v nkey hash l r b (unfold size in fits) c u g) in
    let right =
      Returns-bind _ _ (set_node key value version r) (λ c. finish_set version h s nkey l c.0 c.1)
        (set_node-Grows key value version r b.5 (unfold size in omega arith))
        (λ (c, u) g. finish_set_right version h s v nkey hash l r b (unfold size in fits) c u g) in
    elim (Ordering-cases (compare_bytes key nkey)) [
      | inl e ↦ rw (e, Returns, set_node) left
      | inr (inl e) ↦ rw (e, Returns, set_node) right
      | inr (inr e) ↦ rw (e, Returns, set_node) right
    ]
