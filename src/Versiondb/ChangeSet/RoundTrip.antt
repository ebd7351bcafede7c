-- ===== src/Versiondb/ChangeSet/RoundTrip.antt =====
-- A change set that is written reads back.
use cronos_store.Common.{
  ℕ, zero, suc, ◌+◌, ◌-◌, ◌%◌, ◌^◌, ◌<◌, ◌≤◌, ◌≡◌, refl, Bool, true, false, none, some, List, [],
  ◌∷◌, ◌++◌, append_assoc, map, length, length-append, ltb, leb, ◌==◌, if◌then◌else◌, All,
  Bool-cases, inl, inr, arith, sym, ◌∙◌, subst,
}
use cronos_store.Common.Bytes.{Bytes}
use cronos_store.Common.Slices.{first, from, from-append}
use cronos_store.Common.Outcome.{Outcome, ok, ◌>>=◌}
use cronos_store.Common.Varint.{put_uvarint, read_uvarint-put_uvarint, read_full, read_full-append}
use cronos_store.Common.Fixed.{put_uint32, put_uint64, little_endian-put_uint64}
use cronos_store.Memiavl.Tree.{KvPair}
use cronos_store.Memiavl.Hash.{bytes_of}
use cronos_store.Versiondb.ChangeSet.{
  encoded_size_of_kv_pair, encode_items, write_change_set, read_slice, read_value, read_kv_pair,
  read_pairs, discard, read_payload, ReadResult, read_change_set,
}
use cronos_store.Versiondb.ChangeSet.Encode.{Fits, layout, encode_kv_pair_lem, encoded_size_lem}

-- A pair as it is read: a deletion has no value, and any other has one, empty where it was nil.
abbrev pub as_read : KvPair → KvPair
as_read p = record {
  deletes = p.deletes;
  key = p.key;
  value = if p.deletes then none else some (bytes_of p.value);
}

read_slice-append :
    (bz rest : Bytes) → length bz < 2 ^ 63 → read_slice (length bz) (bz ++ rest) ≡ ok (bz, rest)
unfolding read_slice
read_slice-append bz rest fits =
    let e : ltb (2 ^ 63 - 1) (length bz) ≡ false = ground arith in rw e (read_full-append bz rest)

read_kv_pair-layout :
    (p : KvPair) (rest : Bytes) → Fits p → read_kv_pair (layout p ++ rest) ≡ ok (as_read p, rest)
unfolding read_kv_pair read_value
read_kv_pair-layout p rest fits =
    let u = put_uvarint (length p.key) in
    let value = bytes_of p.value in
    let w = put_uvarint (length value) in
    elim (Bool-cases p.deletes) [
      | inl e ↦
          rw
            (
              e,
              append_assoc u p.key rest,
              read_kv_pair,
              read_uvarint-put_uvarint (length p.key) (p.key ++ rest)
                  (let f = fits.0 in omega arith),
              read_slice-append p.key rest fits.0,
            )
            refl
      | inr e ↦
          rw
            (
              e,
              append_assoc (u ++ p.key) (w ++ value) rest,
              append_assoc u p.key ((w ++ value) ++ rest),
              append_assoc w value rest,
              read_kv_pair,
              read_uvarint-put_uvarint (length p.key) (p.key ++ (w ++ (value ++ rest)))
                  (let f = fits.0 in omega arith),
              read_slice-append p.key (w ++ (value ++ rest)) fits.0,
              read_value,
              read_uvarint-put_uvarint (length value) (value ++ rest)
                  (let f = fits.1 in omega arith),
              read_slice-append value rest fits.1,
            )
            refl
    ]

-- The payload of a list of pairs.
abbrev pub payload : List KvPair → Bytes
payload [] = []
payload (p ∷ ps) = layout p ++ payload ps

encode_items_lem : (ps : List KvPair) → All Fits ps → encode_items ps ≡ ok (payload ps)
unfolding encode_items
encode_items_lem [] fits = refl
encode_items_lem (p ∷ ps) fits =
    rw (encode_items, encode_kv_pair_lem p fits.0, encode_items_lem ps fits.1) refl

layout-length : (p : KvPair) → 1 ≤ length (layout p)
layout-length p = elim (Bool-cases p.deletes) [
  | inl e ↦ rw e (omega arith)
  | inr e ↦ rw e (omega arith)
]

encoded_size-as_read :
    (p : KvPair) → Fits p → encoded_size_of_kv_pair (as_read p) ≡ length (layout p)
unfolding encoded_size_of_kv_pair
encoded_size-as_read p fits = same p ∙ encoded_size_lem p fits
  where
    same : (p : KvPair) → encoded_size_of_kv_pair (as_read p) ≡ encoded_size_of_kv_pair p
    same p = elim (Bool-cases p.deletes) [ inl e ↦ rw e refl | inr e ↦ rw e refl ]

read_pairs-payload :
    (ps : List KvPair) (fuel offset size : ℕ) (rest : Bytes)
    → All Fits ps
    → length (payload ps) < fuel
    → offset + length (payload ps) ≡ size
    → read_pairs fuel offset size (payload ps ++ rest) ≡ ok (map as_read ps, size, rest)
unfolding read_pairs
read_pairs-payload ps zero offset size rest fits enough e = absurd (omega arith)
read_pairs-payload [] (suc fuel) offset size rest fits enough e =
    let same : offset ≡ size = omega arith in
    let stop : ltb offset size ≡ false = ground arith in rw (stop, same) refl
read_pairs-payload (p ∷ ps) (suc fuel) offset size rest fits enough e =
    let pos = layout-length p in
    let total = length-append (layout p) (payload ps) in
    let go_on : ltb offset size ≡ true = ground arith in
    rw
      (
        go_on,
        append_assoc (layout p) (payload ps) rest,
        read_kv_pair-layout p (payload ps ++ rest) fits.0,
        encoded_size-as_read p fits.0,
        ◌>>=◌,
        read_pairs-payload ps fuel (offset + length (layout p)) size rest fits.1 (omega arith)
            (omega arith),
      )
      refl

-- The pairs that a reading returns, which may skip them.
abbrev pub parsed : Bool → List KvPair → List KvPair
parsed true ps = map as_read ps
parsed false ps = []

read_payload-payload :
    (parses : Bool) (ps : List KvPair) (rest : Bytes)
    → All Fits ps
    → length (payload ps) < 2 ^ 63
    → read_payload parses (length (payload ps)) (payload ps ++ rest) ≡ ok (parsed parses ps, rest)
unfolding read_payload discard
read_payload-payload true ps rest fits small =
    let a : leb (2 ^ 63) (length (payload ps)) ≡ false = ground arith in
    let b : (length (payload ps) == length (payload ps)) ≡ true = ground arith in
    let total = length-append (payload ps) rest in
    rw
      (
        a,
        read_pairs-payload ps (suc (length (payload ps ++ rest))) 0 (length (payload ps)) rest fits
            (omega arith) (omega arith),
        b,
      )
      refl
read_payload-payload false ps rest fits small =
    let a : leb (2 ^ 63) (length (payload ps)) ≡ false = ground arith in
    let b : ltb (length (payload ps ++ rest)) (length (payload ps)) ≡ false =
      ground (arith, length-append (payload ps) rest) in
    rw (a, b, from-append (payload ps) rest) refl

empty-payload : (ps : List KvPair) → length (payload ps) ≡ 0 → ps ≡ []
empty-payload [] e = refl
empty-payload (p ∷ ps) e =
    absurd (omega (arith, layout-length p, length-append (layout p) (payload ps)))

-- The size of a version that is written.
abbrev pub IsWritable : ℕ → List KvPair → Type 0
IsWritable version ps = (version < 2 ^ 64) × All Fits ps × (length (payload ps) < 2 ^ 63)

abbrev pub written : ℕ → List KvPair → Bytes
written version ps = put_uint64 version ++ (put_uint64 (length (payload ps)) ++ payload ps)

-- What reading a version returns.
abbrev pub read_result : Bool → ℕ → List KvPair → Bytes → ReadResult
read_result parses version ps rest = record {
  version = version;
  bytes_read = length (payload ps) + 16;
  change_set = parsed parses ps;
  unread = rest;
}

pub write_change_set_lem :
    (version : ℕ) (ps : List KvPair)
    → All Fits ps
    → write_change_set version ps ≡ ok (written version ps)
unfolding write_change_set
write_change_set_lem version ps fits = rw (encode_items_lem ps fits) refl

read_full-header :
    (version size : ℕ) (rest : Bytes)
    → read_full 16 (put_uint64 version ++ (put_uint64 size ++ rest))
      ≡ ok (put_uint64 version ++ put_uint64 size, rest)
unfolding put_uint64 put_uint32 read_full
read_full-header version size rest = refl

first_eight : (a b : ℕ) → first 8 (put_uint64 a ++ put_uint64 b) ≡ put_uint64 a
unfolding first put_uint64 put_uint32
first_eight a b = refl

from_eight : (a b : ℕ) → from 8 (put_uint64 a ++ put_uint64 b) ≡ put_uint64 b
unfolding from put_uint64 put_uint32
from_eight a b = refl

payload_of :
    (parses : Bool) (ps : List KvPair) (rest : Bytes)
    → All Fits ps
    → length (payload ps) < 2 ^ 63
    → (if length (payload ps) == 0
        then ok ([], payload ps ++ rest)
        else read_payload parses (length (payload ps)) (payload ps ++ rest))
      ≡ ok (parsed parses ps, rest)
payload_of parses ps rest fits small = elim (Bool-cases (length (payload ps) == 0)) [
  | inl e ↦
      let none_there : ps ≡ [] = empty-payload ps (ground arith) in
      subst
        (λ qs.
          (if length (payload qs) == 0
            then ok ([], payload qs ++ rest)
            else read_payload parses (length (payload qs)) (payload qs ++ rest))
          ≡ ok (parsed parses qs, rest))
        (sym none_there) (nothing parses)
  | inr e ↦ rw e (read_payload-payload parses ps rest fits small)
]
  where
    nothing :
        (parses : Bool)
        → ◌≡◌ {A = Outcome (List KvPair × Bytes)} (ok ([], rest)) (ok (parsed parses [], rest))
    nothing true = refl
    nothing false = refl

pub read_change_set-written :
    (parses : Bool) (version : ℕ) (ps : List KvPair) (rest : Bytes)
    → IsWritable version ps
    → read_change_set parses (written version ps ++ rest) ≡ ok (read_result parses version ps rest)
unfolding read_change_set
read_change_set-written parses version ps rest (v, fits, small) =
    let size = length (payload ps) in
    let count : (size + 16) % 2 ^ 64 ≡ size + 16 = omega arith in
    rw
      (
        append_assoc (put_uint64 version) (put_uint64 size ++ payload ps) rest,
        append_assoc (put_uint64 size) (payload ps) rest,
        read_full-header version size (payload ps ++ rest),
        first_eight version size,
        from_eight version size,
        little_endian-put_uint64 version v,
        little_endian-put_uint64 size (omega arith),
        payload_of parses ps rest fits small,
        count,
      )
      refl

pub written-length :
    (version : ℕ) (ps : List KvPair) → length (written version ps) ≡ length (payload ps) + 16
unfolding put_uint64 put_uint32
written-length version ps = omega arith

-- What `WriteChangeSet` writes for a version reads back: `ReadChangeSet` returns the version, the
-- number of bytes written and, where it parses them, the pairs in order, and leaves the bytes behind
-- them. A deletion reads back without a value, and a nil value as an empty one. The version is the
-- bit pattern of an int64, and the sizes are ints.
pub read_change_set-write_change_set :
    (parses : Bool) (version : ℕ) (ps : List KvPair) (rest : Bytes)
    → IsWritable version ps
    → (bz : Bytes) × (write_change_set version ps ≡ ok bz)
      × (length bz ≡ length (payload ps) + 16)
      × (read_change_set parses (bz ++ rest) ≡ ok (read_result parses version ps rest))
read_change_set-write_change_set parses version ps rest w = (
  written version ps,
  write_change_set_lem version ps w.1,
  written-length version ps,
  read_change_set-written parses version ps rest w,
)
