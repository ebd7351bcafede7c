-- ===== src/Memiavl/Entries/Set.antt =====
-- `setRecursive` of memiavl/node.go puts one entry into the sorted list of entries.
use Prim.Native.Nat.Ordering.{lt}
use cronos_store.Common.{
  ℕ, ◌≡◌, ◌++◌, ◌∙◌, ◌⊎◌, none, arith, true, false, Bool, inl, inr, refl, sym, List, [], ◌∷◌,
  Ordering-cases, All,
}
use cronos_store.Common.Bytes.{
  Bytes, compare_bytes, ◌≺◌, ◌≼◌, lt_of_gt, eq_of_cmp, cmp_refl, gt_of_lt,
}
use cronos_store.Common.Panic.{Provided, Provided-bind, Provided-imp}
use cronos_store.Memiavl.Node.{
  Slice, Node, leaf, branch, update_height_size, rebalance, new_leaf_node,
}
use cronos_store.Memiavl.Update.{finish_set, set_node, split_leaf}
use cronos_store.Memiavl.Entries.Defs.{Entry, leaves, insert, min_key, IsKeyed, IsSorted}
use cronos_store.Memiavl.Entries.Lists.{
  Starts, Starts-append, IsSorted-left, IsSorted-right, Below-start, Below-le, insert-append_left,
  insert-append_right,
}
use cronos_store.Memiavl.Entries.Rotate.{Joins, rebalance-Joins}

pub leaves-Starts : (t : Node) → Starts (min_key t) (leaves t)
unfolding leaves min_key
leaves-Starts (leaf v key value hash) = refl
leaves-Starts (branch h s v key hash l r) =
    Starts-append (min_key l) (leaves l) (leaves r) (leaves-Starts l)

pub Starts-unique : (j k : Bytes) (xs : List Entry) → Starts j xs → Starts k xs → j ≡ k
Starts-unique j k [] h i = absurd h
Starts-unique j k (x ∷ xs) h i = sym h ∙ i

insert-Starts :
    (start key : Bytes) (value : Slice) (xs : List Entry)
    → start ≼ key
    → Starts start xs
    → Starts start (insert key value xs)
unfolding insert
insert-Starts start key value [] le s = absurd s
insert-Starts start key value (x ∷ xs) le s =
    ground (arith, eq_of_cmp key x.0, gt_of_lt start key, cmp_refl key)

-- The entries of a keyed branch: all keys on the left are below the branch's key, which is the first
-- key on the right.
pub branch_keys :
    (key : Bytes) (l r : Node)
    → key ≡ min_key r
    → IsSorted (leaves l ++ leaves r)
    → Starts key (leaves r) × All (λ (e : Entry). e.0 ≺ key) (leaves l)
branch_keys key l r k sorted =
    let start : Starts key (leaves r) = rw k (leaves-Starts r) in
    (start, Below-start key (leaves l) (leaves r) sorted start)

pub ge-cases : (a b : Bytes) → (compare_bytes a b ≡ lt) ⊎ (b ≼ a)
ge-cases a b = elim (Ordering-cases (compare_bytes a b)) [
  | inl e ↦ inl e
  | inr (inl e) ↦ inr (inr (sym (eq_of_cmp a b e)))
  | inr (inr e) ↦ inr (inl (lt_of_gt a b e))
]

pub record Inserted (key : Bytes) (value : Slice) (t : Node) (c : Node × Bool) : Type 0 where
  pub entries : leaves c.0 ≡ insert key value (leaves t)
  pub keyed : IsKeyed c.0

finish_set-Joins :
    (version h s : ℕ) (key : Bytes) (l r : Node) (u : Bool)
    → Provided (finish_set version h s key l r u) (λ c. Joins key l r c.0)
unfolding finish_set leaves min_key
finish_set-Joins version h s key l r true = record {
  leaves_of = refl;
  least = refl;
  keyed = λ k kl kr. (k, kl, kr);
}
finish_set-Joins version h s key l r false =
    Provided-bind _ _ (rebalance version (update_height_size version key none l r)) _
      (rebalance-Joins version key l r) (λ n j. j)

-- The new child `c` of a branch, in the place of the left child `l` or of the right child `r`.
module _ (key : Bytes) (value : Slice) (version h s v : ℕ) (nkey : Bytes) (hash : Slice)
    (l r : Node) (k : IsKeyed (branch h s v nkey hash l r))
    (sorted : IsSorted (leaves l ++ leaves r)) where
  finish_left_Inserted :
      key ≺ nkey
      → (c : Node × Bool) → Inserted key value l c
      → Provided
          (finish_set version h s nkey c.0 r c.1)
          (Inserted key value (branch h s v nkey hash l r))
  unfolding leaves
  finish_left_Inserted below c g =
      let (start, _) = branch_keys nkey l r k.0 sorted in
      Provided-imp _ _ (finish_set version h s nkey c.0 r c.1)
        (finish_set-Joins version h s nkey c.0 r c.1)
        (λ n j. record {
          entries = rw (
            j.leaves_of,
            g.entries,
            insert-append_left key value (leaves l) (leaves r) nkey start below,
          );
          keyed = j.keyed k.0 g.keyed k.2;
        })

  finish_right_Inserted :
      nkey ≼ key
      → (c : Node × Bool) → Inserted key value r c
      → Provided
          (finish_set version h s nkey l c.0 c.1)
          (Inserted key value (branch h s v nkey hash l r))
  unfolding leaves
  finish_right_Inserted above c g =
      let (start, low) = branch_keys nkey l r k.0 sorted in
      let start' : Starts nkey (leaves c.0) =
        rw g.entries (insert-Starts nkey key value (leaves r) above start) in
      let least : nkey ≡ min_key c.0 =
        Starts-unique nkey (min_key c.0) (leaves c.0) start' (leaves-Starts c.0) in
      Provided-imp _ _ (finish_set version h s nkey l c.0 c.1)
        (finish_set-Joins version h s nkey l c.0 c.1)
        (λ n j. record {
          entries = rw (
            j.leaves_of,
            g.entries,
            insert-append_right key value (leaves l) (leaves r)
                (Below-le nkey key (leaves l) low above),
          );
          keyed = j.keyed least k.1 g.keyed;
        })

pub set_node-Inserted :
    (key : Bytes) (value : Slice) (version : ℕ) (t : Node)
    → IsKeyed t
    → IsSorted (leaves t)
    → Provided (set_node key value version t) (Inserted key value t)
unfolding set_node leaves insert split_leaf new_leaf_node min_key
set_node-Inserted key value version (leaf lv lkey lvalue lhash) k sorted =
    elim (Ordering-cases (compare_bytes key lkey)) [
      | inl e ↦
          rw (e, Provided, set_node) (record { entries = rw (e, insert); keyed = (refl, tt, tt) })
      | inr (inl e) ↦
          rw (e, Provided, set_node)
            (record { entries = rw (e, insert) (rw (eq_of_cmp key lkey e)); keyed = tt })
      | inr (inr e) ↦
          rw (e, Provided, set_node) (record { entries = rw (e, insert); keyed = (refl, tt, tt) })
    ]
set_node-Inserted key value version (branch h s v nkey hash l r) k sorted =
    let left = λ (below : key ≺ nkey).
      Provided-bind _ _ (set_node key value version l) (λ c. finish_set version h s nkey c.0 r c.1)
        (set_node-Inserted key value version l k.1 (IsSorted-left (leaves l) (leaves r) sorted))
        (finish_left_Inserted key value version h s v nkey hash l r k sorted below) in
    let right = λ (above : nkey ≼ key).
      Provided-bind _ _ (set_node key value version r) (λ c. finish_set version h s nkey l c.0 c.1)
        (set_node-Inserted key value version r k.2 (IsSorted-right (leaves l) (leaves r) sorted))
        (finish_right_Inserted key value version h s v nkey hash l r k sorted above) in
    elim (Ordering-cases (compare_bytes key nkey)) [
      | inl e ↦ rw (e, Provided, set_node) (left e)
      | inr (inl e) ↦ rw (e, Provided, set_node) (right (inr (sym (eq_of_cmp key nkey e))))
      | inr (inr e) ↦ rw (e, Provided, set_node) (right (inl (lt_of_gt key nkey e)))
    ]
