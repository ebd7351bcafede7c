-- ===== src/Versiondb/ChangeSet/Encode.antt =====
-- The bytes that `encodeKVPair` of versiondb/client/changeset.go fills its buffer with, which are as
-- many as the buffer has.
use cronos_store.Common.{
  ℕ, suc, ◌+◌, ◌^◌, ◌<◌, ◌≡◌, refl, true, false, [], ◌∷◌, ◌++◌, append-nil, append_assoc, length,
  length-append, ltb, if◌then◌else◌, Bool-cases, inl, inr, arith, sym, ◌∙◌, ap,
}
use cronos_store.Common.Bytes.{Bytes}
use cronos_store.Common.Outcome.{Outcome, ok, ◌>>=◌}
use cronos_store.Common.Varint.{put_uvarint}
use cronos_store.Common.Fixed.{zeros, copy_at, put_at, copy_at-zeros, length-zeros}
use cronos_store.Memiavl.Tree.{KvPair}
use cronos_store.Memiavl.Hash.{bytes_of}
use cronos_store.Versiondb.ChangeSet.{encoded_size_of_kv_pair, set_first, put_value, encode_kv_pair}
use cronos_store.Versiondb.ChangeSet.Size.{uvarint_size_lem}

-- The size of a slice is an int.
abbrev pub Fits : KvPair → Type 0
Fits p = (length p.key < 2 ^ 63) × (length (bytes_of p.value) < 2 ^ 63)

-- The layout of a pair.
abbrev pub layout : KvPair → Bytes
layout p =
    if p.deletes
    then 1 ∷ (put_uvarint (length p.key) ++ p.key)
    else (0
        ∷ ((put_uvarint (length p.key) ++ p.key)
            ++ (put_uvarint (length (bytes_of p.value)) ++ bytes_of p.value)))

copy_next :
    (done bz : Bytes) (offset room n : ℕ)
    → offset ≡ length done
    → room ≡ length bz + n
    → copy_at offset bz (done ++ zeros room) ≡ ok ((done ++ bz) ++ zeros n)
copy_next done bz offset room n e r =
    rw (e, r) (copy_at-zeros done bz n ∙ ap ok (sym (append_assoc done bz (zeros n))))

put_next :
    (done bz : Bytes) (offset room n : ℕ)
    → offset ≡ length done
    → room ≡ length bz + n
    → put_at offset bz (done ++ zeros room) ≡ ok ((done ++ bz) ++ zeros n)
unfolding put_at
put_next done bz offset room n e r =
    let fits : ltb (length (done ++ zeros room)) (offset + length bz) ≡ false =
      ground (arith, length-append done (zeros room), length-zeros room) in
    rw fits (copy_next done bz offset room n e r)

put_value_lem :
    (done value : Bytes) (offset room : ℕ)
    → offset ≡ length done
    → room ≡ length (put_uvarint (length value)) + length value
    → put_value offset value (done ++ zeros room)
      ≡ ok (done ++ (put_uvarint (length value) ++ value))
unfolding put_value zeros
put_value_lem done value offset room e r =
    let w = put_uvarint (length value) in
    let done' : offset + length w ≡ length (done ++ w) = omega (arith, length-append done w) in
    let none_left : length value ≡ length value + 0 = omega arith in
    rw
      (
        put_next done w offset room (length value) e r,
        copy_next (done ++ w) value (offset + length w) (length value) 0 done' none_left,
        append-nil ((done ++ w) ++ value),
        append_assoc done w value,
      )
      refl

module _ (p : KvPair) (fits : Fits p) where
  u : Bytes
  u = put_uvarint (length p.key)

  start :
      (m : ℕ) (rest : Bytes → Outcome Bytes)
      → encoded_size_of_kv_pair p ≡ 1 + (length u + (length p.key + m))
      → (put_at 1 u (zeros (encoded_size_of_kv_pair p)) >>= λ buf.
          copy_at (1 + length u) p.key buf >>= rest)
        ≡ rest ((0 ∷ (u ++ p.key)) ++ zeros m)
  unfolding zeros put_at u
  start m rest e =
      let one : 1 + (length u + (length p.key + m)) ≡ suc (length u + (length p.key + m)) =
        omega arith in
      let len : 1 + length u ≡ length (0 ∷ u) = omega arith in
      rw (e, one, zeros)
        (rw
          (
            put_next (0 ∷ []) u 1 (length u + (length p.key + m)) (length p.key + m) refl refl,
            copy_next (0 ∷ u) p.key (1 + length u) (length p.key + m) m len refl,
          )
          refl)

  size_deleted : p.deletes ≡ true → encoded_size_of_kv_pair p ≡ 1 + (length u + (length p.key + 0))
  unfolding encoded_size_of_kv_pair u
  size_deleted e =
      rw (e, uvarint_size_lem (length p.key) (let f = fits.0 in omega arith)) (omega arith)

  size_kept :
      p.deletes ≡ false
      → encoded_size_of_kv_pair p
        ≡ 1
          + (length u
              + (length p.key
                  + (length (put_uvarint (length (bytes_of p.value))) + length (bytes_of p.value))))
  unfolding encoded_size_of_kv_pair u
  size_kept e =
      rw
        (
          e,
          uvarint_size_lem (length p.key) (let f = fits.0 in omega arith),
          uvarint_size_lem (length (bytes_of p.value)) (let f = fits.1 in omega arith),
        )
        (omega arith)

  finish : Bytes → Outcome Bytes
  finish buf =
      if p.deletes
      then set_first 1 buf
      else put_value (1 + length u + length p.key) (bytes_of p.value) buf

  -- `encodeKVPair` does not panic: the buffer has room for what is written, and is filled by it.
  pub encode_kv_pair_lem : encode_kv_pair p ≡ ok (layout p)
  unfolding encode_kv_pair u finish zeros
  encode_kv_pair_lem = elim (Bool-cases p.deletes) [
    | inl e ↦
        start 0 finish (size_deleted e) ∙ rw (e, append-nil (u ++ p.key), zeros, set_first) refl
    | inr e ↦
        let w = length (put_uvarint (length (bytes_of p.value))) + length (bytes_of p.value) in
        let len : 1 + length u + length p.key ≡ length (0 ∷ (u ++ p.key)) =
          omega (arith, length-append u p.key) in
        start w finish (size_kept e)
        ∙ rw e (put_value_lem (0 ∷ (u ++ p.key)) (bytes_of p.value) _ w len refl)
  ]

  pub encoded_size_lem : encoded_size_of_kv_pair p ≡ length (layout p)
  unfolding u
  encoded_size_lem = elim (Bool-cases p.deletes) [
    | inl e ↦ rw (size_deleted e, e) (omega (arith, length-append u p.key))
    | inr e ↦
        let w = put_uvarint (length (bytes_of p.value)) in
        rw (size_kept e, e)
          (omega (
            arith,
            length-append (u ++ p.key) (w ++ bytes_of p.value),
            length-append u p.key,
            length-append w (bytes_of p.value),
          ))
  ]
