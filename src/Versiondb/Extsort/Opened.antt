-- ===== src/Versiondb/Extsort/Opened.antt =====
-- The chunk files of versiondb/extsort, opened as streams and merged, hold the items of the chunks.
use mathlib.Core.List.{Permᴰ}
use cronos_store.Common.{
  ◌≡◌, refl, Bool, List, [], ◌∷◌, ◌++◌, map, All, append_assoc, append-nil, sym,
}
use cronos_store.Common.Bytes.{Bytes}
use cronos_store.Common.Outcome.{Outcome, ok}
use cronos_store.Versiondb.Extsort.Codec.{Stream, write_chunk, open_chunk}
use cronos_store.Versiondb.Extsort.Merge.{
  HeapEntry, Heap, new_heap_entry, keep_entry, heap_entries, new_multi_way_merge,
}
use cronos_store.Versiondb.Extsort.RoundTrip.{Yields, Fits, write_chunk-Yields}
use cronos_store.Versiondb.Extsort.Content.{IsOrdered, Content, Content-Perm}

-- The items of all chunks.
abbrev pub flat : List (List Bytes) → List Bytes
flat [] = []
flat (c ∷ cs) = c ++ flat cs

pub flat-append : (cs : List (List Bytes)) (c : List Bytes) → flat (cs ++ c ∷ []) ≡ flat cs ++ c
flat-append [] c = append-nil c
flat-append (d ∷ cs) c = rw (flat-append cs c) (sym (append_assoc d (flat cs) c))

module _ (less : Bytes → Bytes → Bool) (heap : Heap less) (d : Bool) where
  open heap use {IsHeap}

  -- A sorted chunk.
  abbrev pub IsSound : List Bytes → Type 0
  IsSound c = IsOrdered less c × Fits c

  -- A heap of entries with these items.
  abbrev pub Opens : List Bytes → Outcome (List HeapEntry) → Type 0
  Opens items o = (es : List HeapEntry) × (o ≡ ok es) × Content less es items

  stream-Opens :
      (c : List Bytes) (rest : List Bytes) (s : Stream) (streams : List Stream)
      → Yields s c
      → IsOrdered less c
      → Opens rest (heap_entries less heap streams)
      → Opens (c ++ rest) (heap_entries less heap (s ∷ streams))
  unfolding heap_entries new_heap_entry keep_entry
  stream-Opens [] rest s streams (s', e) o (es, q, c) = (es, rw (e, q) refl, c)
  stream-Opens (x ∷ xs) rest s streams (s', e, y) o (es, q, c) = (
    record { value = x; stream = s' } ∷ es,
    rw (e, q) refl,
    (xs, rest, record { yields = y; ordered = o }, c, refl),
  )

  heap_entries-Opens :
      (cs : List (List Bytes))
      → All IsSound cs
      → Opens (flat cs) (heap_entries less heap (map (open_chunk d) (map (write_chunk d) cs)))
  heap_entries-Opens [] h = ([], unfold heap_entries in refl, refl)
  heap_entries-Opens (c ∷ cs) h =
      stream-Opens c (flat cs) (open_chunk d (write_chunk d c))
        (map (open_chunk d) (map (write_chunk d) cs)) (write_chunk-Yields d c h.0.1) h.0.0
        (heap_entries-Opens cs h.1)

  pub new_multi_way_merge-Opens :
      (cs : List (List Bytes))
      → All IsSound cs
      → (es : List HeapEntry) × (out : List Bytes) × (new_multi_way_merge less heap
            (map (open_chunk d) (map (write_chunk d) cs))
          ≡ ok es)
        × IsHeap es
        × Content less es out
        × Permᴰ (flat cs) out
  unfolding new_multi_way_merge
  new_multi_way_merge-Opens cs h =
      let (es, e, c) = heap_entries-Opens cs h in
      let (out, c', p) = Content-Perm less (heap.init-Perm es) (flat cs) c in
      (heap.init es, out, rw e refl, heap.init-IsHeap es, c', p)
