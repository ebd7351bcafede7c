-- ===== src/Versiondb/Extsort/Examples.antt =====
-- The theorems on the external sort at concrete items, which are ordered by their length, with an
-- insertion sort for `sort.Slice` and a heap that keeps its least entry in front.
use mathlib.Core.List.{Permᴰ}
use mathlib.Core.List.Permᴰ.{nil, cons, swap, trans}
use mathlib.Core.List.Permᴰ
use cronos_store.Common.{
  ◌≡◌, refl, Bool, true, false, List, [], ◌∷◌, All, length, ltb, if◌then◌else◌, Bool-cases, inl,
  inr, arith,
}
use cronos_store.Common.Bytes.{Bytes}
use cronos_store.Versiondb.Extsort.Codec.{write_chunk, open_chunk}
use cronos_store.Versiondb.Extsort.Merge.{HeapEntry, Heap}
use cronos_store.Versiondb.Extsort.RoundTrip.{Yields, write_chunk-Yields}
use cronos_store.Versiondb.Extsort.Drain.{Sorts}
use cronos_store.Versiondb.Extsort.Sorter.{Options, Snappy}

abbrev shorter : Bytes → Bytes → Bool
shorter a b = ltb (length a) (length b)

insert_item : Bytes → List Bytes → List Bytes
insert_item x [] = x ∷ []
insert_item x (y ∷ ys) = let more = insert_item x ys in if shorter y x then y ∷ more else x ∷ y ∷ ys

abbrev sort_items : List Bytes → List Bytes
sort_items [] = []
sort_items (x ∷ xs) = insert_item x (sort_items xs)

-- The least of the entries, and the others.
pick : HeapEntry → List HeapEntry → HeapEntry × List HeapEntry
pick e [] = (e, [])
pick e (x ∷ xs) =
    let below = pick x xs in
    let above = pick e xs in
    if shorter x.value e.value then (below.0, e ∷ below.1) else (above.0, x ∷ above.1)

pick-Perm : (e : HeapEntry) (es : List HeapEntry) → Permᴰ (e ∷ es) ((pick e es).0 ∷ (pick e es).1)
unfolding pick
pick-Perm e [] = Permᴰ.refl (e ∷ [])
pick-Perm e (x ∷ xs) = elim (Bool-cases (shorter x.value e.value)) [
  | inl h ↦ rw h (trans (cons refl (pick-Perm x xs)) (swap refl refl))
  | inr h ↦ rw h (trans (swap refl refl) (trans (cons refl (pick-Perm e xs)) (swap refl refl)))
]

abbrev IsLeast : HeapEntry → List HeapEntry → Type 0
IsLeast e es = All (λ x. shorter x.value e.value ≡ false) es

pick-IsLeast :
    (e : HeapEntry) (es : List HeapEntry)
    → (shorter e.value (pick e es).0.value ≡ false) × IsLeast (pick e es).0 (pick e es).1
unfolding pick
pick-IsLeast e [] = (ground arith, tt)
pick-IsLeast e (x ∷ xs) = elim (Bool-cases (shorter x.value e.value)) [
  | inl h ↦
      let (a, b) = pick-IsLeast x xs in
      let c : shorter e.value (pick x xs).0.value ≡ false = ground arith in rw h (c, (c, b))
  | inr h ↦
      let (a, b) = pick-IsLeast e xs in
      let c : shorter x.value (pick e xs).0.value ≡ false = ground arith in rw h (a, (c, b))
]

abbrev in_front : List HeapEntry → List HeapEntry
in_front [] = []
in_front (e ∷ es) = (pick e es).0 ∷ (pick e es).1

abbrev drop_first : List HeapEntry → List HeapEntry
drop_first [] = []
drop_first (e ∷ es) = in_front es

abbrev LeadsLeast : List HeapEntry → Type 0
LeadsLeast [] = Unit
LeadsLeast (e ∷ es) = IsLeast e es

in_front-LeadsLeast : (es : List HeapEntry) → LeadsLeast (in_front es)
in_front-LeadsLeast [] = tt
in_front-LeadsLeast (e ∷ es) = (pick-IsLeast e es).1

in_front-Perm : (es : List HeapEntry) → Permᴰ es (in_front es)
in_front-Perm [] = nil
in_front-Perm (e ∷ es) = pick-Perm e es

abbrev least_in_front : Heap shorter
least_in_front = record {
  IsHeap = LeadsLeast;
  init = in_front;
  fix = in_front;
  remove = drop_first;
  init-IsHeap = in_front-LeadsLeast;
  init-Perm = in_front-Perm;
  fix-IsHeap = λ e e' es h. in_front-LeadsLeast (e' ∷ es);
  fix-Perm = in_front-Perm;
  remove-IsHeap = λ e e' es h. in_front-LeadsLeast es;
  remove-Perm = λ e es. in_front-Perm es;
  least = λ e es h. h;
}

abbrev items : List Bytes
items = (7 ∷ 8 ∷ 9 ∷ []) ∷ [] ∷ (7 ∷ 8 ∷ []) ∷ []

write_chunk-Yields_example : Yields (open_chunk true (write_chunk true items)) items
write_chunk-Yields_example =
    write_chunk-Yields true items (omega arith, (omega arith, (omega arith, tt)))

abbrev flip_first : Bytes → Bytes
flip_first [] = []
flip_first (x ∷ []) = x ∷ []
flip_first (x ∷ y ∷ bz) = y ∷ x ∷ bz

flip_first-twice : (bz : Bytes) → flip_first (flip_first bz) ≡ bz
flip_first-twice [] = refl
flip_first-twice (x ∷ []) = refl
flip_first-twice (x ∷ y ∷ bz) = refl

-- A stand-in for snappy, which swaps the first two bytes.
abbrev swapped : Snappy
swapped = record {
  compress = flip_first;
  decompress = flip_first;
  decompress-compress = flip_first-twice;
}

abbrev small_chunks : Options
small_chunks = record { delta_encoding = true; snappy_compression = true; max_chunk_size = 8 }
