-- ===== src/Memiavl/Hash.antt =====
-- The hashes of memiavl/node.go: `writeHashBytes`, `HashNode` and the cached `Hash` of
-- memiavl/mem_node.go. SHA-256 is a parameter.
pub mod Clean
pub mod Update
pub mod Cache
mod Examples
use cronos_store.Common.{
  ℕ, zero, suc, ◌+◌, ◌*◌, ◌/◌, ◌%◌, ◌^◌, Option, none, some, ltb, if◌then◌else◌, List, [], ◌∷◌,
  ◌++◌, length,
}
use cronos_store.Common.Bytes.{Bytes}
use cronos_store.Common.Varint.{put_uvarint, put_varint}
use cronos_store.Memiavl.Node.{Slice, Node, leaf, branch}

unfoldable pub encode_bytes : Bytes → Bytes
unfolding put_uvarint
encode_bytes bz = put_uvarint (length bz) ++ bz

-- The bytes of a slice; a nil slice has none.
abbrev pub bytes_of : Slice → Bytes
bytes_of none = []
bytes_of (some bz) = bz

unfoldable pub header_bytes : ℕ → ℕ → ℕ → Bytes
unfolding put_varint
header_bytes h s version = put_varint h ++ put_varint s ++ put_varint version

module _ (sha256 : Bytes → Bytes) where
  -- What `writeHashBytes` writes for a leaf, and for a branch whose children have these hashes.
  unfoldable pub leaf_hash_bytes : ℕ → Bytes → Slice → Bytes
  unfolding header_bytes encode_bytes
  leaf_hash_bytes version key value =
      header_bytes 0 1 version ++ encode_bytes key ++ encode_bytes (sha256 (bytes_of value))

  unfoldable pub branch_hash_bytes : ℕ → ℕ → ℕ → Bytes → Bytes → Bytes
  unfolding header_bytes encode_bytes
  branch_hash_bytes h s version left_hash right_hash =
      header_bytes h s version ++ encode_bytes left_hash ++ encode_bytes right_hash

  -- `node.Hash()`: the cached hash, or the computed one, which the node then keeps. The hashes of
  -- the children are asked for only where the node has none.
  unfoldable pub node_hash : Node → Bytes × Node
  node_hash (leaf v key value (some hash)) = (hash, leaf v key value (some hash))
  node_hash (leaf v key value none) =
      let hash = sha256 (leaf_hash_bytes v key value) in (hash, leaf v key value (some hash))
  node_hash (branch h s v key (some hash) l r) = (hash, branch h s v key (some hash) l r)
  node_hash (branch h s v key none l r) =
      let (left_hash, l') = node_hash l in
      let (right_hash, r') = node_hash r in
      let hash = sha256 (branch_hash_bytes h s v left_hash right_hash) in
      (hash, branch h s v key (some hash) l' r')

  -- `sha256.New().Sum(nil)` for the empty tree.
  unfoldable pub root_hash : Option Node → Bytes × Option Node
  unfolding node_hash
  root_hash none = (sha256 [], none)
  root_hash (some n) = let (hash, n') = node_hash n in (hash, some n')
