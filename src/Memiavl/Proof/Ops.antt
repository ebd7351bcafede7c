-- ===== src/Memiavl/Proof/Ops.antt =====
-- What the ICS-23 operations that memiavl/proof.go fills in stand for: the hash of a leaf and of an
-- inner node.
use cronos_store.Common.{
  ℕ, ◌≡◌, none, some, List, [], ◌∷◌, ◌++◌, length, refl, append_assoc, append-nil,
}
use cronos_store.Common.Bytes.{Bytes}
use cronos_store.Memiavl.Node.{Slice}
use cronos_store.Common.Varint.{put_varint, put_uvarint}
use cronos_store.Memiavl.Hash.{bytes_of, encode_bytes, header_bytes, branch_hash_bytes}
use cronos_store.Memiavl.Proof.{LeafOp, InnerOp, ExistenceProof, convert_inner_op}

module _ (sha256 : Bytes → Bytes) where
  -- The hash that ICS-23 gives a leaf under a leaf operation with SHA-256 and length prefixes, and
  -- a node over a child under an inner operation.
  unfoldable pub apply_leaf : LeafOp → Bytes → Slice → Bytes
  apply_leaf op key value =
      sha256 (op.prefix ++ encode_bytes key ++ encode_bytes (sha256 (bytes_of value)))

  unfoldable pub apply_inner : List InnerOp → Bytes → Bytes
  apply_inner [] child = child
  apply_inner (op ∷ ops) child = apply_inner ops (sha256 (op.prefix ++ child ++ op.suffix))

  -- The root hash that an existence proof stands for.
  unfoldable pub calculate : ExistenceProof → Bytes
  unfolding apply_leaf apply_inner
  calculate p = apply_inner p.path (apply_leaf p.leaf_op p.key p.value)

  pub apply_inner-append :
      (xs : List InnerOp) (op : InnerOp) (child : Bytes)
      → apply_inner (xs ++ op ∷ []) child ≡ sha256 (op.prefix ++ apply_inner xs child ++ op.suffix)
  unfolding apply_inner
  apply_inner-append [] op child = refl
  apply_inner-append (x ∷ xs) op child =
      apply_inner-append xs op (sha256 (x.prefix ++ child ++ x.suffix))

encode_hash : (hash : Bytes) → length hash ≡ 32 → encode_bytes hash ≡ 0x20 ∷ hash
unfolding encode_bytes put_uvarint
encode_hash hash e = rw e refl

module _ (h s v : ℕ) (left right : Bytes) (ls : length left ≡ 32) (rs : length right ≡ 32) where
  -- An inner operation puts the siblings where `writeHashBytes` writes them.
  pub hash_left :
      (sha256 : Bytes → Bytes)
      → let op =
          convert_inner_op
            (record { height = h; size = s; version = v; left = none; right = some right }) in
        op.prefix ++ left ++ op.suffix ≡ branch_hash_bytes sha256 h s v left right
  unfolding convert_inner_op branch_hash_bytes header_bytes
  hash_left sha256 = rw (
    encode_hash left ls,
    encode_hash right rs,
    append_assoc (put_varint h ++ put_varint s ++ put_varint v) (0x20 ∷ []) left,
  )

  pub hash_right :
      (sha256 : Bytes → Bytes)
      → let op =
          convert_inner_op
            (record { height = h; size = s; version = v; left = some left; right = none }) in
        op.prefix ++ right ++ op.suffix ≡ branch_hash_bytes sha256 h s v left right
  unfolding convert_inner_op branch_hash_bytes header_bytes
  hash_right sha256 =
      rw (encode_hash left ls, encode_hash right rs, ls) (simp (append_assoc, append-nil))
