-- ===== src/Memiavl/Entries/Map.antt =====
-- The sorted association list is a map: what a key reads after an insertion or a deletion.
use Prim.Native.Nat.Ordering.{eq}
use cronos_store.Common.{◌+◌, ◌≤◌, ◌≡◌, none, arith, refl, [], ◌∷◌, List, length}
use cronos_store.Common.Bytes.{Bytes, compare_bytes, eq_of_cmp, cmp_refl}
use cronos_store.Memiavl.Node.{Slice}
use cronos_store.Memiavl.Entries.Defs.{Entry, IsSorted, insert, delete, lookup}
use cronos_store.Memiavl.Entries.Lists.{lookup-Above}

module _ (key j : Bytes) where
  pub lookup-insert :
      (value : Slice) (xs : List Entry)
      → lookup j (insert key value xs) ≡ elim (compare_bytes j key) [ eq ↦ value | _ ↦ lookup j xs ]
  unfolding lookup insert
  lookup-insert value [] = refl
  lookup-insert value (x ∷ xs) = ground (
    arith,
    lookup-insert value xs,
    eq_of_cmp key x.0,
    eq_of_cmp j x.0,
    eq_of_cmp j key,
    cmp_refl key,
    cmp_refl x.0,
  )

  pub lookup-delete :
      (xs : List Entry)
      → IsSorted xs
      → lookup j (delete key xs) ≡ elim (compare_bytes j key) [ eq ↦ none | _ ↦ lookup j xs ]
  unfolding lookup delete
  lookup-delete [] h = ground arith
  lookup-delete (x ∷ xs) h = ground (
    arith,
    lookup-delete xs h.1,
    eq_of_cmp key x.0,
    eq_of_cmp j x.0,
    eq_of_cmp j key,
    cmp_refl key,
    cmp_refl x.0,
    lookup-Above x.0 xs h.0,
  )

  pub length-insert :
      (value : Slice) (xs : List Entry) → length (insert key value xs) ≤ length xs + 1
  unfolding insert
  length-insert value [] = omega arith
  length-insert value (x ∷ xs) = ground (arith, length-insert value xs)

  pub length-delete : (xs : List Entry) → length (delete key xs) ≤ length xs
  unfolding delete
  length-delete [] = omega arith
  length-delete (x ∷ xs) = ground (arith, length-delete xs)
