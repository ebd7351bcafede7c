-- ===== src/Memiavl/Entries/Remove.antt =====
-- `removeRecursive` of memiavl/node.go takes one entry out of the sorted list of entries.
use cronos_store.Common.{
  ℕ, ◌≡◌, ◌++◌, some, none, Option, inl, inr, refl, sym, ◌∙◌, [], Ordering-cases, All-append_left,
  All-append_right, arith, append-nil,
}
use cronos_store.Common.Bytes.{
  Bytes, compare_bytes, equal_bytes_iff, ◌≺◌, ◌≼◌, lt_of_gt, eq_of_cmp, cmp_refl,
}
use cronos_store.Common.Panic.{Provided, Provided-bind}
use cronos_store.Memiavl.Node.{Slice, Node, leaf, branch, update_height_size, rebalance}
use cronos_store.Memiavl.Update.{
  Removed, finish_remove_left, finish_remove_right, remove_node, replace_key,
}
use cronos_store.Memiavl.Entries.Defs.{
  leaves, lookup, delete, min_key, IsKeyed, IsSorted, HasValues,
}
use cronos_store.Memiavl.Entries.Lists.{
  IsSorted-left, IsSorted-right, Below, Above, Below-le, Above-start, delete-append_left,
  delete-append_right, lookup-append_left, lookup-append_right,
}
use cronos_store.Memiavl.Entries.Rotate.{rebalance-Joins}
use cronos_store.Memiavl.Entries.Set.{branch_keys}

-- The new key that is returned with what is left of a subtree is its least key; there is none where
-- the least key is still that of the subtree before.
abbrev pub KeyFits : Node → Option Bytes → Node → Type 0
KeyFits t none n = min_key n ≡ min_key t
KeyFits t (some k) n = k ≡ min_key n

abbrev pub Deleted : Bytes → Node → Removed → Type 0
Deleted key t (none, n, k) = (n ≡ some t) × (lookup key (leaves t) ≡ none)
Deleted key t (some x, none, k) = (lookup key (leaves t) ≡ some x) × (delete key (leaves t) ≡ [])
Deleted key t (some x, some n, k) =
    (lookup key (leaves t) ≡ some x)
    × (leaves n ≡ delete key (leaves t))
    × IsKeyed n
    × KeyFits t k n

module _ (key : Bytes) (version h s v : ℕ) (nkey : Bytes) (hash : Slice) (l r : Node)
    (k : IsKeyed (branch h s v nkey hash l r)) (sorted : IsSorted (leaves l ++ leaves r)) where
  finish_left_Deleted :
      Above key (leaves r)
      → (c : Removed) → Deleted key l c
      → Provided
          (finish_remove_left version (branch h s v nkey hash l r) nkey r c)
          (Deleted key (branch h s v nkey hash l r))
  unfolding finish_remove_left leaves min_key
  finish_left_Deleted above (none, n, j) g =
      (refl, lookup-append_left key (leaves l) (leaves r) above ∙ g.1)
  finish_left_Deleted above (some x, none, j) g = (
    lookup-append_left key (leaves l) (leaves r) above ∙ g.0,
    rw (delete-append_left key (leaves l) (leaves r) above, g.1) refl,
    k.2,
    k.0,
  )
  finish_left_Deleted above (some x, some n, j) g =
      Provided-bind _ _ (rebalance version (update_height_size version nkey none n r)) _
        (rebalance-Joins version nkey n r)
        (λ m i. (
          lookup-append_left key (leaves l) (leaves r) above ∙ g.0,
          rw (i.leaves_of, g.1, delete-append_left key (leaves l) (leaves r) above),
          i.keyed k.0 g.2 k.2,
          KeyFits-trans m j i.least g.3,
        ))
    where
      KeyFits-trans :
          (m : Node) (j : Option Bytes)
          → min_key m ≡ min_key n
          → KeyFits l j n
          → KeyFits (branch h s v nkey hash l r) j m
      KeyFits-trans m none e f = e ∙ f
      KeyFits-trans m (some b) e f = f ∙ sym e

  replaced : (n : Node) (j : Option Bytes) → KeyFits r j n → replace_key nkey j ≡ min_key n
  unfolding replace_key
  replaced n none f = k.0 ∙ sym f
  replaced n (some b) f = f

  finish_right_Deleted :
      Below key (leaves l)
      → (c : Removed) → Deleted key r c
      → Provided
          (finish_remove_right version (branch h s v nkey hash l r) nkey l c)
          (Deleted key (branch h s v nkey hash l r))
  unfolding finish_remove_right leaves min_key
  finish_right_Deleted below (none, n, j) g =
      (refl, lookup-append_right key (leaves l) (leaves r) below ∙ g.1)
  finish_right_Deleted below (some x, none, j) g = (
    lookup-append_right key (leaves l) (leaves r) below ∙ g.0,
    rw (delete-append_right key (leaves l) (leaves r) below, g.1, append-nil) refl,
    k.1,
    refl,
  )
  finish_right_Deleted below (some x, some n, j) g =
      Provided-bind _ _
        (rebalance version (update_height_size version (replace_key nkey j) none l n)) _
        (rebalance-Joins version (replace_key nkey j) l n)
        (λ m i. (
          lookup-append_right key (leaves l) (leaves r) below ∙ g.0,
          rw (i.leaves_of, g.1, delete-append_right key (leaves l) (leaves r) below),
          i.keyed (replaced n j g.3) k.1 g.2,
          i.least,
        ))

remove_leaf :
    (key : Bytes) (version lv : ℕ) (lkey x : Bytes) (lhash : Slice)
    → Provided
        (remove_node key version (leaf lv lkey (some x) lhash))
        (Deleted key (leaf lv lkey (some x) lhash))
unfolding remove_node leaves lookup delete
remove_leaf key version lv lkey x lhash =
    ground (arith, equal_bytes_iff lkey key, eq_of_cmp key lkey, cmp_refl key)

-- `removeRecursive` takes out the entry with the key, or returns the tree as it was where there is
-- none.
pub remove_node-Deleted :
    (key : Bytes) (version : ℕ) (t : Node)
    → IsKeyed t
    → IsSorted (leaves t)
    → HasValues (leaves t)
    → Provided (remove_node key version t) (Deleted key t)
unfolding remove_node leaves
remove_node-Deleted key version (leaf lv lkey none lhash) k sorted ((x, e), _) = cc
remove_node-Deleted key version (leaf lv lkey (some x) lhash) k sorted values =
    remove_leaf key version lv lkey x lhash
remove_node-Deleted key version (branch h s v nkey hash l r) k sorted values =
    let t = branch h s v nkey hash l r in
    let (start, low) = branch_keys nkey l r k.0 sorted in
    let sl = IsSorted-left (leaves l) (leaves r) sorted in
    let sr = IsSorted-right (leaves l) (leaves r) sorted in
    let left = λ (below : key ≺ nkey).
      Provided-bind _ _ (remove_node key version l) (finish_remove_left version t nkey r)
        (remove_node-Deleted key version l k.1 sl (All-append_left _ (leaves l) (leaves r) values))
        (finish_left_Deleted key version h s v nkey hash l r k sorted
          (Above-start key nkey (leaves r) sr start below)) in
    let right = λ (above : nkey ≼ key).
      Provided-bind _ _ (remove_node key version r) (finish_remove_right version t nkey l)
        (remove_node-Deleted key version r k.2 sr (All-append_right _ (leaves l) (leaves r) values))
        (finish_right_Deleted key version h s v nkey hash l r k sorted
          (Below-le nkey key (leaves l) low above)) in
    elim (Ordering-cases (compare_bytes key nkey)) [
      | inl e ↦ rw (e, Provided, remove_node) (left e)
      | inr (inl e) ↦ rw (e, Provided, remove_node) (right (inr (sym (eq_of_cmp key nkey e))))
      | inr (inr e) ↦ rw (e, Provided, remove_node) (right (inl (lt_of_gt key nkey e)))
    ]
