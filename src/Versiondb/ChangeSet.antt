-- ===== src/Versiondb/ChangeSet.antt =====
-- The change set files of versiondb/client/changeset.go. A writer is the bytes that are written to it,
-- and writing does not fail; a reader is the bytes that are left. A change set is its pairs. Sizes
-- are those of slices that exist, so that their sums do not wrap.
pub mod Size
pub mod Encode
pub mod RoundTrip
pub mod Iterate
mod Examples
use cronos_store.Common.{
  ℕ, zero, suc, ◌+◌, ◌-◌, ◌/◌, ◌%◌, ◌^◌, Bool, true, false, ◌&&◌, not, Option, none, some, List, [],
  ◌∷◌, ◌++◌, length, ltb, leb, ◌==◌, if◌then◌else◌,
}
use cronos_store.Common.Bytes.{Bytes}
use cronos_store.Common.Slices.{first, from}
use cronos_store.Common.Outcome.{Outcome, ok, eof, failed, panics, ◌>>=◌}
use cronos_store.Common.Varint.{put_uvarint, read_uvarint, read_full}
use cronos_store.Common.Fixed.{put_uint64, little_endian, zeros, copy_at, put_at}
use cronos_store.Memiavl.Tree.{KvPair}
use cronos_store.Memiavl.Hash.{bytes_of}

-- `bits.Len64`
unfoldable pub len64 : ℕ → ℕ → ℕ
len64 zero n = 0
len64 (suc fuel) n = let more = len64 fuel (n / 2) in if n == 0 then 0 else suc more

unfoldable pub uvarint_size : ℕ → ℕ
unfolding len64
uvarint_size n =
    let b = len64 64 n in
    if ltb 0 (b % 7) then b / 7 + 1 else if b / 7 == 0 then b / 7 + 1 else b / 7

unfoldable pub encoded_size_of_kv_pair : KvPair → ℕ
unfolding uvarint_size
encoded_size_of_kv_pair p =
    let key_len = length p.key in
    let size = 1 + uvarint_size key_len + key_len in
    let value_len = length (bytes_of p.value) in
    if p.deletes then size else size + uvarint_size value_len + value_len

-- `buf[0] = 1`
unfoldable pub set_first : ℕ → Bytes → Outcome Bytes
set_first x [] = panics
set_first x (b ∷ bz) = ok (x ∷ bz)

-- The value behind the key, where the pair does not delete.
unfoldable pub put_value : ℕ → Bytes → Bytes → Outcome Bytes
unfolding put_at copy_at
put_value offset value buf = do
  let size = put_uvarint (length value)
  buf' ← put_at offset size buf
  copy_at (offset + length size) value buf'

unfoldable pub encode_kv_pair : KvPair → Outcome Bytes
unfolding encoded_size_of_kv_pair set_first put_value
encode_kv_pair p = do
  let size = put_uvarint (length p.key)
  buf ← put_at 1 size (zeros (encoded_size_of_kv_pair p))
  buf' ← copy_at (1 + length size) p.key buf
  if p.deletes
      then set_first 1 buf'
      else put_value (1 + length size + length p.key) (bytes_of p.value) buf'

-- The items of `WriteChangeSet`, one after another.
unfoldable pub encode_items : List KvPair → Outcome Bytes
unfolding encode_kv_pair
encode_items [] = ok []
encode_items (p ∷ ps) = do item ← encode_kv_pair p; items ← encode_items ps; ok (item ++ items)

-- What is written for a version, the bit pattern of an int64.
unfoldable pub write_change_set : ℕ → List KvPair → Outcome Bytes
unfolding encode_items put_uint64
write_change_set version pairs = do
  payload ← encode_items pairs
  ok (put_uint64 version ++ (put_uint64 (length payload) ++ payload))

-- `make([]byte, n)` and `io.ReadFull` into it.
unfoldable pub read_slice : ℕ → Bytes → Outcome (Bytes × Bytes)
unfolding read_full
read_slice n bz = if ltb (2 ^ 63 - 1) n then panics else read_full n bz

unfoldable pub read_value : Bytes → Bytes → Outcome (KvPair × Bytes)
unfolding read_slice
read_value key bz = do
  (value_len, bz1) ← read_uvarint bz
  (value, bz2) ← read_slice value_len bz1
  ok (record { deletes = false; key = key; value = some value }, bz2)

unfoldable pub read_kv_pair : Bytes → Outcome (KvPair × Bytes)
unfolding read_value
read_kv_pair [] = eof
read_kv_pair (deletion ∷ bz) = do
  (key_len, bz1) ← read_uvarint bz
  (key, bz2) ← read_slice key_len bz1
  if deletion == 1
      then ok (record { deletes = true; key = key; value = none }, bz2)
      else read_value key bz2

-- The loop over the payload: the pairs, the offset it ends at, and the bytes left. Each round reads
-- a byte at least; the fuel is more than the bytes there are, and `failed` where it would run out.
unfoldable pub read_pairs : ℕ → ℕ → ℕ → Bytes → Outcome (List KvPair × ℕ × Bytes)
unfolding read_kv_pair
read_pairs zero offset size bz = failed
read_pairs (suc fuel) offset size bz =
    let more = (do
      (p, bz1) ← read_kv_pair bz
      (ps, end, bz2) ← read_pairs fuel (offset + encoded_size_of_kv_pair p) size bz1
      ok (p ∷ ps, end, bz2)) in
    if ltb offset size then more else ok ([], offset, bz)

-- `io.CopyN(io.Discard, reader, size)`
unfoldable pub discard : ℕ → Bytes → Outcome Bytes
discard size bz = if ltb (length bz) size then eof else ok (from size bz)

-- A size is an int64, by its bit pattern: one that is negative skips nothing, and is no end of the
-- loop over the payload.
unfoldable pub read_payload : Bool → ℕ → Bytes → Outcome (List KvPair × Bytes)
unfolding read_pairs discard
read_payload true size bz = if leb (2 ^ 63) size then failed else do
  (ps, end, bz1) ← read_pairs (suc (length bz)) 0 size bz
  if end == size then ok (ps, bz1) else failed
read_payload false size bz =
    if leb (2 ^ 63) size then ok ([], bz) else do bz1 ← discard size bz; ok ([], bz1)

-- The result of `ReadChangeSet`, and the bytes that it leaves.
pub record ReadResult : Type 0 where
  pub version : ℕ
  pub bytes_read : ℕ
  pub change_set : List KvPair
  pub unread : Bytes

unfoldable pub read_change_set : Bool → Bytes → Outcome ReadResult
unfolding read_payload little_endian
read_change_set parses bz = do
  (header, bz1) ← read_full 16 bz
  let version = little_endian (first 8 header)
  let size = little_endian (from 8 header)
  (pairs, bz2) ← if size == 0 then ok ([], bz1) else read_payload parses size bz1
  ok (record {
    version = version;
    bytes_read = (size + 16) % 2 ^ 64;
    change_set = pairs;
    unread = bz2;
  })

-- The offset behind the change sets that are done, the state of the callback, and the error, nil as
-- `ok`.
pub record IterateResult (S : Type 0) : Type 0 where
  pub last_complete_offset : ℕ
  pub result : S
  pub error : Outcome Unit

-- The end of the loops: an `io.EOF` is none.
unfoldable pub finish_iterate : {S : Type 0} → ℕ → S → Outcome Unit → IterateResult S
finish_iterate offset s eof = record { last_complete_offset = offset; result = s; error = ok tt }
finish_iterate offset s e = record { last_complete_offset = offset; result = s; error = e }

-- What follows the callback: the rest of the loop where it says to go on.
unfoldable pub after_callback :
    {S : Type 0} → ℕ → ℕ → S → Outcome Bool → IterateResult S → IterateResult S
unfolding finish_iterate
after_callback offset done s (ok cont) rest = if cont then rest else finish_iterate done s (ok tt)
after_callback offset done s eof rest = finish_iterate offset s eof
after_callback offset done s failed rest = finish_iterate offset s failed
after_callback offset done s panics rest = finish_iterate offset s panics

-- The rounds of `IterateChangeSets` from an offset. The callback says whether to go on. Each round
-- reads 16 bytes at least; the fuel is more than the bytes.
module _ {S : Type 0} (fn : ℕ → List KvPair → S → S × Outcome Bool) where
  unfoldable pub iterate_loop : Bool → ℕ → Bytes → ℕ → S → IterateResult S
  unfolding finish_iterate after_callback
  iterate_loop parses zero bz offset s = finish_iterate offset s failed
  iterate_loop parses (suc fuel) bz offset s = elim (read_change_set parses bz) [
    | eof ↦ finish_iterate offset s eof
    | failed ↦ finish_iterate offset s failed
    | panics ↦ finish_iterate offset s panics
    | ok r ↦
        let (s', cont) = fn r.version r.change_set s in
        let done = (offset + r.bytes_read) % 2 ^ 64 in
        after_callback offset done s' cont (iterate_loop parses fuel r.unread done s')
  ]

  unfoldable pub iterate_change_sets : Bytes → S → IterateResult S
  unfolding iterate_loop
  iterate_change_sets bz s = iterate_loop true (suc (length bz)) bz 0 s

-- `IterateVersions`, whose callback takes the version alone.
unfoldable pub iterate_versions :
    {S : Type 0} → (ℕ → S → S × Outcome Bool) → Bytes → S → IterateResult S
unfolding iterate_loop
iterate_versions fn bz s =
    iterate_loop (λ version pairs s. fn version s) false (suc (length bz)) bz 0 s
