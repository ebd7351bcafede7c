-- ===== src/Versiondb/Extsort/Merge.antt =====
-- The k-way merge of versiondb/extsort/merge.go over the streams of chunk files. The heap is Go's
-- container/heap, whose documented behaviour is the record `Heap`.
use mathlib.Core.List.{Permᴰ}
use cronos_store.Common.{◌≡◌, Bool, false, Option, none, some, List, [], ◌∷◌, All}
use cronos_store.Common.Bytes.{Bytes}
use cronos_store.Common.Outcome.{Outcome, ok, ◌>>=◌}
use cronos_store.Versiondb.Extsort.Codec.{Stream, next_item}

-- `heapEntry`
pub record HeapEntry : Type 0 where
  pub value : Bytes
  pub stream : Stream

-- container/heap under an order: a heap has a least entry at index 0. `fix` is `heap.Fix` at index 0,
-- whose entry may have changed; `remove` is `heap.Remove` at index 0, without the entry removed.
pub record Heap (less : Bytes → Bytes → Bool) : Type 1 where
  pub IsHeap : List HeapEntry → Type 0
  pub init : List HeapEntry → List HeapEntry
  pub fix : List HeapEntry → List HeapEntry
  pub remove : List HeapEntry → List HeapEntry
  pub init-IsHeap : (es : List HeapEntry) → IsHeap (init es)
  pub init-Perm : (es : List HeapEntry) → Permᴰ es (init es)
  pub fix-IsHeap :
      (e e' : HeapEntry) (es : List HeapEntry) → IsHeap (e ∷ es) → IsHeap (fix (e' ∷ es))
  pub fix-Perm : (es : List HeapEntry) → Permᴰ es (fix es)
  pub remove-IsHeap :
      (e e' : HeapEntry) (es : List HeapEntry) → IsHeap (e ∷ es) → IsHeap (remove (e' ∷ es))
  pub remove-Perm : (e : HeapEntry) (es : List HeapEntry) → Permᴰ es (remove (e ∷ es))
  pub least :
      (e : HeapEntry) (es : List HeapEntry)
      → IsHeap (e ∷ es)
      → All (λ x. less x.value e.value ≡ false) es

module _ (less : Bytes → Bytes → Bool) (heap : Heap less) where
  open heap use {init, fix, remove}

  -- `newHeapEntry`: nil for a stream without items.
  unfoldable pub new_heap_entry : Stream → Outcome (Option HeapEntry)
  new_heap_entry stream = do
    (value, stream') ← next_item stream
    ok (elim value [ none ↦ none | some v ↦ some (record { value = v; stream = stream' }) ])

  -- The loop of `NewMultiWayMerge`.
  unfoldable pub keep_entry : Option HeapEntry → List HeapEntry → List HeapEntry
  keep_entry none entries = entries
  keep_entry (some entry) entries = entry ∷ entries

  unfoldable pub heap_entries : List Stream → Outcome (List HeapEntry)
  unfolding new_heap_entry keep_entry
  heap_entries [] = ok []
  heap_entries (stream ∷ streams) = do
    entry ← new_heap_entry stream
    entries ← heap_entries streams
    ok (keep_entry entry entries)

  unfoldable pub new_multi_way_merge : List Stream → Outcome (List HeapEntry)
  unfolding heap_entries
  new_multi_way_merge streams = do entries ← heap_entries streams; ok (init entries)

  -- The heap after the least entry has asked its stream for the next value, which is nil at its end.
  unfoldable pub settle : HeapEntry → List HeapEntry → Option Bytes × Stream → List HeapEntry
  settle entry entries (none, stream') = remove (entry ∷ entries)
  settle entry entries (some v, stream') = fix (record { value = v; stream = stream' } ∷ entries)

  -- `MultiWayMerge.Next`
  unfoldable pub merge_next : List HeapEntry → Outcome (Option Bytes × List HeapEntry)
  unfolding settle
  merge_next [] = ok (none, [])
  merge_next (entry ∷ entries) = do
    update ← next_item entry.stream
    ok (some entry.value, settle entry entries update)
