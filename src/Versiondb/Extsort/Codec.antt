-- ===== src/Versiondb/Extsort/Codec.antt =====
-- The chunk files of versiondb/extsort: the delta encoding of delta_encoding.go, and the writing and
-- reading of a sorted chunk in sort.go. A writer is the bytes that it has been given, since a
-- buffer does not change them; writing to it does not fail. Sorter.antt compresses them.
use cronos_store.Common.{
  ℕ, suc, ◌+◌, ◌-◌, ◌%◌, ◌^◌, Bool, ◌||◌, Option, none, some, List, [], ◌∷◌, ◌++◌, length, ltb,
  ◌==◌, if◌then◌else◌,
}
use cronos_store.Common.Bytes.{Bytes}
use cronos_store.Common.Slices.{first, from}
use cronos_store.Common.Outcome.{Outcome, ok, eof, failed, panics, ◌>>=◌}
use cronos_store.Common.Varint.{put_uvarint, read_uvarint, read_full}

-- `diffOffset`
unfoldable pub diff_offset : Bytes → Bytes → ℕ
diff_offset [] bs = 0
diff_offset (a ∷ at) [] = 0
diff_offset (a ∷ at) (b ∷ bs) = let more = diff_offset at bs in if a == b then suc more else 0

-- `DeltaEncoder.Write`: the bytes written; the last key is then `key`. A nil key is empty.
unfoldable pub delta_write : Bytes → Bytes → Bytes
unfolding diff_offset from
delta_write last key =
    let shared = diff_offset last key in
    put_uvarint shared ++ put_uvarint (length key - shared) ++ from shared key

-- `make([]byte, n)`, `item[:shared]` and `last[:shared]` panic on a number that is too large.
unfoldable pub delta_oversized : ℕ → ℕ → ℕ → Bool
delta_oversized shared n capacity = ltb (2 ^ 63 - 1) n || (ltb n shared || ltb capacity shared)

-- `DeltaDecoder.Read` with its last item: the item, which is then the last one, and the bytes left.
unfoldable pub delta_read : Bytes → Bytes → Outcome (Bytes × Bytes)
unfolding delta_oversized first
delta_read last bz = do
  (shared, bz1) ← read_uvarint bz
  (non_shared, bz2) ← read_uvarint bz1
  let n = (shared + non_shared) % 2 ^ 64
  if delta_oversized shared n (length last)
      then panics
      else (do (item, bz3) ← read_full (n - shared) bz2; ok (first shared last ++ item, bz3))

-- An item of a chunk without delta encoding.
unfoldable pub plain_write : Bytes → Bytes
plain_write item = put_uvarint (length item) ++ item

-- The loops of `sortAndSaveChunk` over the sorted chunk, the one with delta encoding from its last key.
unfoldable pub delta_write_all : Bytes → List Bytes → Bytes
unfolding delta_write
delta_write_all last [] = []
delta_write_all last (item ∷ chunk) = delta_write last item ++ delta_write_all item chunk

unfoldable pub plain_write_all : List Bytes → Bytes
unfolding plain_write
plain_write_all [] = []
plain_write_all (item ∷ chunk) = plain_write item ++ plain_write_all chunk

unfoldable pub write_chunk : Bool → List Bytes → Bytes
unfolding delta_write_all plain_write_all
write_chunk delta_encoding chunk =
    if delta_encoding then delta_write_all [] chunk else plain_write_all chunk

-- The state of a stream of `Finalize`: the last item of its decoder, and the bytes of its file that
-- are not read.
pub record Stream : Type 0 where
  pub delta_encoding : Bool
  pub last : Bytes
  pub unread : Bytes

-- The stream function without delta encoding: the error of a file that ends before an item's size is
-- its end.
unfoldable pub plain_item : ℕ → Bytes → Outcome (Bytes × Bytes)
plain_item size bz = if ltb (2 ^ 63 - 1) size then panics else read_full size bz

unfoldable pub plain_next : Bytes → Outcome (Option Bytes × Bytes)
unfolding plain_item
plain_next bz = elim (read_uvarint bz) [
  | ok (size, bz1) ↦ do (item, bz2) ← plain_item size bz1; ok (some item, bz2)
  | eof ↦ ok (none, [])
  | failed ↦ failed
  | panics ↦ panics
]

-- The stream function with delta encoding: any `io.EOF` is its end.
unfoldable pub delta_next : Bytes → Bytes → Outcome (Option Bytes × Bytes)
unfolding delta_read
delta_next last bz = elim (delta_read last bz) [
  | ok (item, bz1) ↦ ok (some item, bz1)
  | eof ↦ ok (none, [])
  | failed ↦ failed
  | panics ↦ panics
]

-- A call of the stream function of `Finalize`: the item, nil at the end.
unfoldable pub next_item : Stream → Outcome (Option Bytes × Stream)
unfolding delta_next plain_next
next_item s = do
  (item, bz) ← if s.delta_encoding then delta_next s.last s.unread else plain_next s.unread
  ok (item, record s { last = elim item [ none ↦ s.last | some x ↦ x ]; unread = bz })

-- The stream of a chunk file from its start.
unfoldable pub open_chunk : Bool → Bytes → Stream
open_chunk delta_encoding file = record {
  delta_encoding = delta_encoding;
  last = [];
  unread = file;
}
