-- ===== src/Memiavl/Entries/Sorted.antt =====
-- The operations of the sorted association list keep it sorted, and what they say of one another.
use cronos_store.Common.{
  ◌≡◌, some, none, arith, refl, [], ◌∷◌, List, All, Ordering-cases, inl, inr, All-imp,
}
use cronos_store.Common.Bytes.{Bytes, compare_bytes, ◌≺◌, lt_of_gt, eq_of_cmp, lt_trans}
use cronos_store.Memiavl.Node.{Slice}
use cronos_store.Memiavl.Entries.Defs.{Entry, IsSorted, HasValues, insert, delete, lookup}

module _ (key : Bytes) where
  All-insert :
      (P : Entry → Type 0) (value : Slice) (xs : List Entry)
      → P (key, value)
      → All P xs
      → All P (insert key value xs)
  unfolding insert
  All-insert P value [] p h = (p, tt)
  All-insert P value (x ∷ xs) p h = ground (arith, All-insert P value xs p)

  All-delete : (P : Entry → Type 0) (xs : List Entry) → All P xs → All P (delete key xs)
  unfolding delete
  All-delete P [] h = tt
  All-delete P (x ∷ xs) h = ground (arith, All-delete P xs)

  pub insert-IsSorted :
      (value : Slice) (xs : List Entry) → IsSorted xs → IsSorted (insert key value xs)
  unfolding insert
  insert-IsSorted value [] h = (tt, tt)
  insert-IsSorted value (x ∷ xs) h = elim (Ordering-cases (compare_bytes key x.0)) [
    | inl e ↦
        rw (e, IsSorted, insert) ((e, All-imp (λ f q. lt_trans key x.0 f.0 e q) xs h.0), (h.0, h.1))
    | inr (inl e) ↦ rw (e, IsSorted, insert) (rw (eq_of_cmp key x.0 e) h.0, h.1)
    | inr (inr e) ↦
        rw (e, IsSorted, insert)
          (
            All-insert (λ f. x.0 ≺ f.0) value xs (lt_of_gt key x.0 e) h.0,
            insert-IsSorted value xs h.1,
          )
  ]

  pub delete-IsSorted : (xs : List Entry) → IsSorted xs → IsSorted (delete key xs)
  unfolding delete
  delete-IsSorted [] h = tt
  delete-IsSorted (x ∷ xs) h =
      ground (arith, delete-IsSorted xs h.1, All-delete (λ e. x.0 ≺ e.0) xs h.0)

  pub insert-HasValues :
      (x : Bytes) (xs : List Entry) → HasValues xs → HasValues (insert key (some x) xs)
  insert-HasValues x xs h = All-insert _ (some x) xs (x, refl) h

  pub delete-HasValues : (xs : List Entry) → HasValues xs → HasValues (delete key xs)
  delete-HasValues xs h = All-delete _ xs h

  pub delete_absent : (xs : List Entry) → HasValues xs → lookup key xs ≡ none → delete key xs ≡ xs
  unfolding lookup delete
  delete_absent [] h e = refl
  delete_absent (x ∷ xs) h e = ground (arith, delete_absent xs h.1)
