-- ===== src/Versiondb/Extsort/Sorter.antt =====
-- `ExtSorter` of versiondb/extsort/sort.go: it sorts the fed items in chunks, writes each to a file
-- and merges the files. The goroutine that writes a chunk is run where it is started: a chunk file
-- that comes in another order changes nothing, since the merge is proved for every order. Writing and
-- reading a file does not fail. `sort_slice` is Go's `sort.Slice` with the order of the options.
use cronos_store.Common.{
  ℕ, ◌≡◌, ◌+◌, ◌-◌, ◌%◌, ◌^◌, Bool, List, [], ◌∷◌, ◌++◌, map, length, ltb, if◌then◌else◌,
}
use cronos_store.Common.Bytes.{Bytes}
use cronos_store.Common.Outcome.{Outcome, ok, failed, ◌>>=◌}
use cronos_store.Versiondb.Extsort.Codec.{Stream, write_chunk, open_chunk}
use cronos_store.Versiondb.Extsort.Merge.{HeapEntry, Heap, new_multi_way_merge}
use cronos_store.Versiondb.Extsort.Drain.{drain_merge}

-- The options but the order, which is a parameter of its own.
pub record Options : Type 0 where
  pub delta_encoding : Bool
  pub snappy_compression : Bool
  pub max_chunk_size : ℕ

pub record ExtSorter : Type 0 where
  pub opts : Options
  pub current_chunk : List Bytes
  pub current_chunk_size : ℕ
  pub chunk_files : List Bytes

-- `New`
unfoldable pub new_sorter : Options → ExtSorter
new_sorter opts = record {
  opts = opts;
  current_chunk = [];
  current_chunk_size = 0;
  chunk_files = [];
}

-- The sorter with an item appended to the current chunk, whose size is an int64.
unfoldable pub append_item : Bytes → ExtSorter → ExtSorter
append_item item s = record s {
  current_chunk = s.current_chunk ++ item ∷ [];
  current_chunk_size = (s.current_chunk_size + (length item + 4)) % 2 ^ 64;
}

-- github.com/golang/snappy on the bytes of a file: what was compressed is read back.
pub record Snappy : Type 0 where
  pub compress : Bytes → Bytes
  pub decompress : Bytes → Bytes
  pub decompress-compress : (bz : Bytes) → decompress (compress bz) ≡ bz

module _ (snappy : Snappy) where
  -- The chunk file of a sorted chunk.
  unfoldable pub chunk_file : Options → List Bytes → Bytes
  chunk_file opts chunk =
      let bz = write_chunk opts.delta_encoding chunk in
      if opts.snappy_compression then snappy.compress bz else bz

  -- The stream of a chunk file, as `Finalize` opens it.
  unfoldable pub open_file : Options → Bytes → Stream
  open_file opts file =
      open_chunk opts.delta_encoding
        (if opts.snappy_compression then snappy.decompress file else file)

module _ (snappy : Snappy) (sort_slice : List Bytes → List Bytes) where
  -- `sortAndSaveChunk`: the content of the chunk file.
  unfoldable pub sort_and_save_chunk : Options → List Bytes → Bytes
  unfolding chunk_file
  sort_and_save_chunk opts chunk = chunk_file snappy opts (sort_slice chunk)

  unfoldable pub sort_chunk_and_rotate : ExtSorter → ExtSorter
  unfolding sort_and_save_chunk
  sort_chunk_and_rotate s = record {
    opts = s.opts;
    current_chunk = [];
    current_chunk_size = 0;
    chunk_files = s.chunk_files ++ sort_and_save_chunk s.opts s.current_chunk ∷ [];
  }

  -- `Feed`. The size limit is an int64 that is not negative.
  unfoldable pub feed : Bytes → ExtSorter → Outcome ExtSorter
  unfolding sort_chunk_and_rotate append_item
  feed item s =
      let s' = append_item item s in
      if ltb (2 ^ 32 - 1) (length item)
      then failed
      else if ltb s'.current_chunk_size s.opts.max_chunk_size
      then ok s'
      else ok (sort_chunk_and_rotate s')

  -- The loop of `Spawn` over the input.
  unfoldable pub feed_all : List Bytes → ExtSorter → Outcome ExtSorter
  unfolding feed
  feed_all [] s = ok s
  feed_all (item ∷ items) s = do s' ← feed item s; feed_all items s'

  -- `if s.currentChunkSize > 0`
  unfoldable pub handle_pending : ExtSorter → ExtSorter
  unfolding sort_chunk_and_rotate
  handle_pending s = if ltb 0 s.current_chunk_size then sort_chunk_and_rotate s else s

  module _ (less : Bytes → Bytes → Bool) (heap : Heap less) where
    unfoldable pub finalize : ExtSorter → Outcome (List HeapEntry)
    unfolding handle_pending open_file
    finalize s =
        let s' = handle_pending s in
        new_multi_way_merge less heap (map (open_file snappy s'.opts) s'.chunk_files)

    -- `Spawn`: what comes out of the output channel for what goes into the input channel.
    unfoldable pub spawn : ℕ → Options → List Bytes → Outcome (List Bytes)
    unfolding feed_all finalize
    spawn fuel opts items = do
      s ← feed_all items (new_sorter opts)
      merge ← finalize s
      drain_merge less heap fuel merge
