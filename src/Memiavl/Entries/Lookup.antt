-- ===== src/Memiavl/Entries/Lookup.antt =====
-- `Get` and `GetByIndex` of memiavl/mem_node.go read the sorted list of entries.
use cronos_store.Common.{
  ℕ, suc, ◌+◌, ◌-◌, ◌%◌, ◌^◌, ◌≤◌, ◌<◌, ◌≡◌, ◌++◌, arith, refl, sym, [], ◌∷◌, List, length, inl,
  inr, Ordering-cases, get_elem?, ltb, Bool-cases, ltb→lt, ltb→le, if◌then◌else◌,
}
use cronos_store.Common.Bytes.{Bytes, compare_bytes, ◌≼◌, lt_of_gt, gt_of_lt, eq_of_cmp, cmp_refl}
use cronos_store.Memiavl.Node.{Slice, Node, leaf, branch, size}
use cronos_store.Memiavl.Lookup.{get, get_by_index, shift_index}
use cronos_store.Memiavl.Entries.Defs.{Entry, leaves, IsKeyed, IsSorted, lookup, rank}
use cronos_store.Memiavl.Entries.Lists.{
  IsSorted-left, IsSorted-right, Below, Below-le, Above-start, lookup-append_left,
  lookup-append_right, rank-append_left, rank-append_right,
}
use cronos_store.Memiavl.Entries.Set.{branch_keys}
use cronos_store.Memiavl.Shape.Defs.{IsBalanced, size-eq-length}

shift_index_lem : (i a b : ℕ) → i ≤ b → a + b < 2 ^ 32 → shift_index i (a + b) b ≡ a + i
unfolding shift_index
shift_index_lem i a b h fits = omega arith

rank-le : (key : Bytes) (xs : List Entry) → rank key xs ≤ length xs
unfolding rank
rank-le key [] = omega arith
rank-le key (x ∷ xs) = ground (arith, rank-le key xs)

get_leaf :
    (key : Bytes) (v : ℕ) (lkey : Bytes) (value hash : Slice)
    → get key (leaf v lkey value hash)
      ≡ (lookup key ((lkey, value) ∷ []), rank key ((lkey, value) ∷ []))
unfolding get lookup rank
get_leaf key v lkey value hash = ground (
  arith,
  lt_of_gt lkey key,
  lt_of_gt key lkey,
  gt_of_lt lkey key,
  eq_of_cmp lkey key,
  eq_of_cmp key lkey,
  cmp_refl key,
)

get_right :
    (key : Bytes) (h s v : ℕ) (nkey : Bytes) (hash : Slice) (l r : Node)
    → IsBalanced (branch h s v nkey hash l r)
    → s < 2 ^ 32
    → Below key (leaves l)
    → get key r ≡ (lookup key (leaves r), rank key (leaves r))
    → ◌≡◌ {A = Slice × ℕ}
        ((get key r).0, shift_index (get key r).1 s (size r))
        (lookup key (leaves l ++ leaves r), rank key (leaves l ++ leaves r))
get_right key h s v nkey hash l r b fits below ih =
    rw
      (
        ih,
        lookup-append_right key (leaves l) (leaves r) below,
        rank-append_right key (leaves l) (leaves r) below,
        b.1,
        ← size-eq-length l b.4,
      )
      (rw (
        shift_index_lem (rank key (leaves r)) (size l) (size r)
          (omega (arith, rank-le key (leaves r), size-eq-length r b.5)) (omega arith)))

-- The value is the one that the entries hold for the key, and the index is the number of keys below.
pub get-lookup :
    (key : Bytes) (t : Node)
    → IsBalanced t
    → IsKeyed t
    → IsSorted (leaves t)
    → size t < 2 ^ 32
    → get key t ≡ (lookup key (leaves t), rank key (leaves t))
unfolding leaves get
get-lookup key (leaf v lkey value hash) b k sorted fits = get_leaf key v lkey value hash
get-lookup key (branch h s v nkey hash l r) b k sorted fits =
    let (start, low) = branch_keys nkey l r k.0 sorted in
    let sl = IsSorted-left (leaves l) (leaves r) sorted in
    let sr = IsSorted-right (leaves l) (leaves r) sorted in
    let right = λ (above : nkey ≼ key).
      get_right key h s v nkey hash l r b (unfold size in fits)
        (Below-le nkey key (leaves l) low above)
        (get-lookup key r b.5 k.2 sr (unfold size in omega arith)) in
    elim (Ordering-cases (compare_bytes key nkey)) [
      | inl e ↦
          let above = Above-start key nkey (leaves r) sr start e in
          rw (e, get)
            (rw
              (
                lookup-append_left key (leaves l) (leaves r) above,
                rank-append_left key (leaves l) (leaves r) above,
              )
              (get-lookup key l b.4 k.1 sl (unfold size in omega arith)))
      | inr (inl e) ↦ rw (e, get) (right (inr (sym (eq_of_cmp key nkey e))))
      | inr (inr e) ↦ rw (e, get) (right (inl (lt_of_gt key nkey e)))
    ]

get_elem?-append_left :
    (xs ys : List Entry) (i : ℕ) → i < length xs → get_elem? (xs ++ ys) i ≡ get_elem? xs i
get_elem?-append_left [] ys i h = elim h [ ]
get_elem?-append_left (x ∷ xs) ys ℕ.zero h = refl
get_elem?-append_left (x ∷ xs) ys (suc i) h = get_elem?-append_left xs ys i (omega arith)

get_elem?-append_right :
    (xs ys : List Entry) (i : ℕ)
    → length xs ≤ i
    → get_elem? (xs ++ ys) i ≡ get_elem? ys (i - length xs)
get_elem?-append_right [] ys i h = let e : i - 0 ≡ i = omega arith in rw e
get_elem?-append_right (x ∷ xs) ys ℕ.zero h = absurd (omega arith)
get_elem?-append_right (x ∷ xs) ys (suc i) h =
    let e : suc i - suc (length xs) ≡ i - length xs = omega arith in
    rw e (get_elem?-append_right xs ys i (omega arith))

get_by_index_branch :
    (i h s v : ℕ) (key : Bytes) (hash : Slice) (l r : Node)
    → size l < 2 ^ 32
    → get_by_index i (branch h s v key hash l r)
      ≡ (if ltb i (size l) then get_by_index i l else get_by_index (i - size l) r)
unfolding get_by_index
get_by_index_branch i h s v key hash l r fits =
    let e : size l % 2 ^ 32 ≡ size l = omega arith in rw e

-- `GetByIndex` reads the entries in order, and finds nothing behind the last.
pub get_by_index-get_elem? :
    (i : ℕ) (t : Node) → IsBalanced t → size t < 2 ^ 32 → get_by_index i t ≡ get_elem? (leaves t) i
unfolding leaves
get_by_index-get_elem? ℕ.zero (leaf v key value hash) b fits = unfold get_by_index in refl
get_by_index-get_elem? (suc i) (leaf v key value hash) b fits = unfold get_by_index in ground arith
get_by_index-get_elem? i (branch h s v key hash l r) b fits =
    let total : size l + size r < 2 ^ 32 = unfold size in omega arith in
    let count = size-eq-length l b.4 in
    rw (get_by_index_branch i h s v key hash l r (omega arith))
      (elim (Bool-cases (ltb i (size l))) [
        | inl e ↦
            rw
              (
                e,
                get_elem?-append_left (leaves l) (leaves r) i (omega (arith, ltb→lt i (size l) e)),
              )
              (get_by_index-get_elem? i l b.4 (omega arith))
        | inr e ↦
            rw
              (
                e,
                get_elem?-append_right (leaves l) (leaves r) i (omega (arith, ltb→le i (size l) e)),
                ← count,
              )
              (get_by_index-get_elem? (i - size l) r b.5 (omega arith))
      ])
