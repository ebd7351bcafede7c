-- ===== src/Versiondb/Extsort/RoundTrip.antt =====
-- A chunk file of versiondb/extsort reads back as the chunk that was written.
use cronos_store.Common.{
  ◌+◌, ◌-◌, ◌%◌, ◌^◌, ◌<◌, ◌≤◌, ◌≡◌, refl, sym, ◌∙◌, Bool, true, false, none, some, List, [], ◌∷◌,
  ◌++◌, append_assoc, length, ltb, ◌==◌, All, Bool-cases, inl, inr, arith,
}
use cronos_store.Common.Bytes.{Bytes}
use cronos_store.Common.Slices.{first, from, length-from}
use cronos_store.Common.Outcome.{ok}
use cronos_store.Common.Varint.{
  put_uvarint, read_uvarint, read_uvarint-put_uvarint, read_full-append,
}
use cronos_store.Versiondb.Extsort.Codec.{
  diff_offset, delta_write, delta_oversized, delta_read, plain_write, delta_write_all,
  plain_write_all, write_chunk, Stream, plain_item, plain_next, delta_next, next_item, open_chunk,
}

diff_offset_le : (a b : Bytes) → (diff_offset a b ≤ length a) × (diff_offset a b ≤ length b)
unfolding diff_offset
diff_offset_le [] b = (omega arith, omega arith)
diff_offset_le (x ∷ a) [] = (omega arith, omega arith)
diff_offset_le (x ∷ a) (y ∷ b) = elim (Bool-cases (x == y)) [
  | inl e ↦ let (l, r) = diff_offset_le a b in rw e (omega arith, omega arith)
  | inr e ↦ rw e (omega arith, omega arith)
]

first-from : (a b : Bytes) → first (diff_offset a b) a ++ from (diff_offset a b) b ≡ b
unfolding diff_offset first from
first-from [] b = refl
first-from (x ∷ a) [] = refl
first-from (x ∷ a) (y ∷ b) = elim (Bool-cases (x == y)) [
  | inl e ↦ let same : x ≡ y = ground arith in rw e (rw (first-from a b, same) refl)
  | inr e ↦ rw e refl
]

delta_write_lem :
    (last key rest : Bytes)
    → delta_write last key ++ rest
      ≡ put_uvarint (diff_offset last key)
        ++ (put_uvarint (length key - diff_offset last key)
            ++ (from (diff_offset last key) key ++ rest))
unfolding delta_write
delta_write_lem last key rest =
    let shared = diff_offset last key in
    let tail = put_uvarint (length key - shared) in
    append_assoc (put_uvarint shared ++ tail) (from shared key) rest
    ∙ append_assoc (put_uvarint shared) tail (from shared key ++ rest)

-- The decoder and the encoder have the same last key.
delta_read-delta_write :
    (last key rest : Bytes)
    → length key < 2 ^ 63
    → delta_read last (delta_write last key ++ rest) ≡ ok (key, rest)
unfolding delta_read delta_oversized
delta_read-delta_write last key rest fits =
    let shared = diff_offset last key in
    let (l, r) = diff_offset_le last key in
    let total : (shared + (length key - shared)) % 2 ^ 64 ≡ length key = omega arith in
    let a : ltb (2 ^ 63 - 1) (length key) ≡ false = ground arith in
    let b : ltb (length key) shared ≡ false = ground arith in
    let c : ltb (length last) shared ≡ false = ground arith in
    rw
      (
        delta_write_lem last key rest,
        delta_read,
        read_uvarint-put_uvarint shared
            (put_uvarint (length key - shared) ++ (from shared key ++ rest)) (omega arith),
        read_uvarint-put_uvarint (length key - shared) (from shared key ++ rest) (omega arith),
        total,
        a,
        b,
        c,
        sym (length-from shared key),
        read_full-append (from shared key) rest,
        first-from last key,
      )
      refl

-- The calls of a stream return the items one by one, and then nil.
abbrev pub Yields : Stream → List Bytes → Type 0
Yields s [] = (s' : Stream) × (next_item s ≡ ok (none, s'))
Yields s (x ∷ xs) = (s' : Stream) × (next_item s ≡ ok (some x, s')) × Yields s' xs

abbrev pub Fits : List Bytes → Type 0
Fits chunk = All (λ item. length item < 2 ^ 63) chunk

delta-Yields :
    (last : Bytes) (chunk : List Bytes)
    → Fits chunk
    → Yields
        (record { delta_encoding = true; last = last; unread = delta_write_all last chunk })
        chunk
unfolding delta_write_all next_item delta_next
delta-Yields last [] fits = (
  record { delta_encoding = true; last = last; unread = [] },
  unfold delta_read read_uvarint in refl,
)
delta-Yields last (x ∷ chunk) fits = (
  record { delta_encoding = true; last = x; unread = delta_write_all x chunk },
  rw
      (
        delta_write_all,
        next_item,
        delta_next,
        delta_read-delta_write last x (delta_write_all x chunk) fits.0,
      )
      refl,
  delta-Yields x chunk fits.1,
)

plain-Yields :
    (last : Bytes) (chunk : List Bytes)
    → Fits chunk
    → Yields (record { delta_encoding = false; last = last; unread = plain_write_all chunk }) chunk
unfolding plain_write_all plain_write next_item plain_next plain_item
plain-Yields last [] fits =
    (record { delta_encoding = false; last = last; unread = [] }, unfold read_uvarint in refl)
plain-Yields last (x ∷ chunk) fits =
    let a : ltb (2 ^ 63 - 1) (length x) ≡ false = let f = fits.0 in ground arith in
    (
      record { delta_encoding = false; last = x; unread = plain_write_all chunk },
      rw
          (
            append_assoc (put_uvarint (length x)) x (plain_write_all chunk),
            next_item,
            plain_next,
            read_uvarint-put_uvarint (length x) (x ++ plain_write_all chunk)
                (let f = fits.0 in omega arith),
            a,
            read_full-append x (plain_write_all chunk),
          )
          refl,
      plain-Yields x chunk fits.1,
    )

-- The file that `sortAndSaveChunk` writes for a sorted chunk, with delta encoding or without it,
-- reads back in the stream of `Finalize` as the items of the chunk in order and then the end. An
-- item has fewer than 2 ^ 63 bytes.
pub write_chunk-Yields :
    (delta_encoding : Bool) (chunk : List Bytes)
    → Fits chunk
    → Yields (open_chunk delta_encoding (write_chunk delta_encoding chunk)) chunk
unfolding open_chunk write_chunk
write_chunk-Yields true chunk fits = delta-Yields [] chunk fits
write_chunk-Yields false chunk fits = plain-Yields [] chunk fits
