-- ===== src/Versiondb/Extsort/Sorts.antt =====
-- The external sort of versiondb/extsort/sort.go sorts.
use mathlib.Core.List.{Permᴰ}
use mathlib.Core.List.Permᴰ
use cronos_store.Common.{◌^◌, ◌<◌, ◌≡◌, ◌⊎◌, Bool, List, [], ◌++◌, map, All}
use cronos_store.Common.Bytes.{Bytes}
use cronos_store.Common.Outcome.{Outcome, ok}
use cronos_store.Versiondb.Extsort.Merge.{Heap}
use cronos_store.Versiondb.Extsort.RoundTrip.{Fits}
use cronos_store.Versiondb.Extsort.Content.{IsOrdered}
use cronos_store.Versiondb.Extsort.Opened.{flat, IsSound}
use cronos_store.Versiondb.Extsort.Sorter.{Options, Snappy, chunk_file, ExtSorter}

module _ (snappy : Snappy) (sort_slice : List Bytes → List Bytes) (less : Bytes → Bytes → Bool)
    (heap : Heap less) (sort_slice-Perm : (xs : List Bytes) → Permᴰ xs (sort_slice xs))
    (sort_slice-IsOrdered : (xs : List Bytes) → IsOrdered less (sort_slice xs)) where
  -- The sorter after these items: its files hold sorted chunks, and with the current chunk all items.
  record Fed (opts : Options) (s : ExtSorter) (items : List Bytes) : Type 0 where
    same : s.opts ≡ opts
    chunks : List (List Bytes)
    files : s.chunk_files ≡ map (chunk_file snappy opts) chunks
    sound : All (IsSound less heap opts.delta_encoding) chunks
    small : Fits s.current_chunk
    content : Permᴰ items (flat chunks ++ s.current_chunk)
    pending : (0 < s.current_chunk_size) ⊎ (s.current_chunk ≡ [])

  -- What a step of the sorter gives.
  abbrev FeedsTo : Options → List Bytes → Outcome ExtSorter → Type 0
  FeedsTo opts items o =
      (s : ExtSorter) × (o ≡ ok s) × Fed opts s items × (s.current_chunk_size < 2 ^ 63)
