-- ===== src/Memiavl/Proof.antt =====
-- The ICS-23 proofs of memiavl/proof.go. The types of github.com/cosmos/ics23 and of
-- github.com/cosmos/iavl that the code fills in are records here; their verifier is not modelled.
-- A height is at most 125 in a valid tree, so `int8` keeps it.
pub mod Ops
pub mod Exist
pub mod Absent
mod Examples
use Prim.Native.Nat.Ordering.{lt, eq, gt}
use cronos_store.Common.{
  ℕ, ◌+◌, ◌-◌, ◌%◌, ◌^◌, Bool, true, false, Option, none, some, List, [], ◌∷◌, ◌++◌, length, ltb,
  leb, if◌then◌else◌,
}
use cronos_store.Common.Bytes.{Bytes, compare_bytes, equal_bytes}
use cronos_store.Common.Panic.{◌>>=◌}
use cronos_store.Memiavl.Node.{Slice, Node, leaf, branch, node_key, node_version}
use cronos_store.Memiavl.Lookup.{get, get_by_index}
use cronos_store.Common.Varint.{put_varint}
use cronos_store.Memiavl.Hash.{node_hash, bytes_of}

-- `iavl.ProofInnerNode`: the hash of the sibling stands on its side, and the other is nil.
pub record ProofInnerNode : Type 0 where
  pub height : ℕ
  pub size : ℕ
  pub version : ℕ
  pub left : Slice
  pub right : Slice

pub data HashOp : Type 0 where
  no_hash sha_256 : HashOp

pub data LengthOp : Type 0 where
  no_prefix var_proto : LengthOp

pub record LeafOp : Type 0 where
  pub hash : HashOp
  pub prehash_value : HashOp
  pub length_op : LengthOp
  pub prefix : Bytes

pub record InnerOp : Type 0 where
  pub hash : HashOp
  pub prefix : Bytes
  pub suffix : Bytes

pub record ExistenceProof : Type 0 where
  pub key : Bytes
  pub value : Slice
  pub leaf_op : LeafOp
  pub path : List InnerOp

pub record NonExistenceProof : Type 0 where
  pub key : Bytes
  pub left : Option ExistenceProof
  pub right : Option ExistenceProof

unfoldable pub convert_leaf_op : ℕ → LeafOp
convert_leaf_op version = record {
  hash = sha_256;
  prehash_value = sha_256;
  length_op = var_proto;
  prefix = (put_varint 0 ++ put_varint 1) ++ put_varint version;
}

-- One round of the loop of `convertInnerOps`. 0x20 is the length of a SHA-256 hash.
unfoldable pub convert_inner_op : ProofInnerNode → InnerOp
convert_inner_op p =
    let prefix = (put_varint p.height ++ put_varint p.size) ++ put_varint p.version in
    if ltb 0 (length (bytes_of p.left))
    then record {
      hash = sha_256;
      prefix = ((prefix ++ 0x20 ∷ []) ++ bytes_of p.left) ++ 0x20 ∷ [];
      suffix = [];
    }
    else record { hash = sha_256; prefix = prefix ++ 0x20 ∷ []; suffix = 0x20 ∷ bytes_of p.right }

-- The path runs from the root down, the operations from the leaf up.
unfoldable pub convert_inner_ops : List ProofInnerNode → List InnerOp
convert_inner_ops [] = []
convert_inner_ops (p ∷ path) = convert_inner_ops path ++ convert_inner_op p ∷ []

-- The value of the leaf that the path of `pathToLeaf` ends in, with its version and value.
pub record LeafPath : Type 0 where
  pub path : List ProofInnerNode
  pub key : Bytes
  pub version : ℕ
  pub value : Slice

unfoldable pub step_down : ProofInnerNode → LeafPath → LeafPath
step_down p q = record q { path = p ∷ q.path }

module _ (sha256 : Bytes → Bytes) where
  -- `none` is the error of a key that is not in the tree.
  unfoldable pub path_to_leaf : Bytes → Node → Option LeafPath
  path_to_leaf key (leaf version lkey value hash) =
      if equal_bytes lkey key
      then some (record { path = []; key = lkey; version = version; value = value })
      else none
  path_to_leaf key (branch h s v nkey hash l r) = elim (compare_bytes key nkey) [
    | lt ↦ do
      q ← path_to_leaf key l
      some (
          step_down
            (record {
              height = h;
              size = s;
              version = v;
              left = none;
              right = some (node_hash sha256 r).0;
            })
            q)
    | _ ↦ do
      q ← path_to_leaf key r
      some (
          step_down
            (record {
              height = h;
              size = s;
              version = v;
              left = some (node_hash sha256 l).0;
              right = none;
            })
            q)
  ]

  unfoldable pub proof_of_path : LeafPath → ExistenceProof
  unfolding convert_leaf_op
  proof_of_path q = record {
    key = q.key;
    value = q.value;
    leaf_op = convert_leaf_op q.version;
    path = convert_inner_ops q.path;
  }

  -- `createExistenceProof`
  unfoldable pub create_existence_proof : Bytes → Option Node → Option ExistenceProof
  unfolding proof_of_path
  create_existence_proof key none = none
  create_existence_proof key (some t) = do q ← path_to_leaf key t; some (proof_of_path q)

  -- The proof for the neighbour at an index, where there is one.
  unfoldable pub neighbour_proof : Option (Bytes × Slice) → Node → Option (Option ExistenceProof)
  neighbour_proof none t = some none
  neighbour_proof (some (key, value)) t = do p ← create_existence_proof key (some t); some (some p)

  -- `GetNonMembershipProof` behind its look at the key: its value and its index, which is that of
  -- the key to the right.
  unfoldable pub refute : Bytes → Node → Slice × ℕ → Option NonExistenceProof
  refute key t (some value, idx) = none
  refute key t (none, idx) = do
    let before = if leb 1 idx then get_by_index (idx - 1) t else none
    left ← neighbour_proof before t
    right ← neighbour_proof (get_by_index idx t) t
    some (record { key = key; left = left; right = right })

  -- `none` is an error: of an empty tree, of a key that is there, or of a proof for a neighbour.
  unfoldable pub get_non_membership_proof : Bytes → Option Node → Option NonExistenceProof
  get_non_membership_proof key none = none
  get_non_membership_proof key (some t) = refute key t (get key t)
