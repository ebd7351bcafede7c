-- ===== src/Memiavl/Proof/Exist.antt =====
-- An existence proof of memiavl/proof.go stands for the root hash of the tree.
use cronos_store.Common.{
  ℕ, ◌≢◌, ◌≡◌, Option, none, some, ◌++◌, length, arith, refl, sym, ap, ◌∙◌, Ordering-cases,
  Bool-cases, inl, inr, All-append_left, All-append_right,
}
use cronos_store.Common.Bytes.{
  Bytes, compare_bytes, equal_bytes, equal_bytes_iff, ◌≺◌, ◌≼◌, eq_of_cmp, lt_of_gt, cmp_refl,
}
use cronos_store.Common.Panic.{◌>>=◌}
use cronos_store.Memiavl.Node.{Slice, Node, leaf, branch}
use cronos_store.Memiavl.Hash.{node_hash, leaf_hash_bytes}
use cronos_store.Memiavl.Valid.{IsValidRoot}
use cronos_store.Memiavl.Hash.Clean.{IsClean, IsCleanRoot, fresh_hash}
use cronos_store.Memiavl.Hash.Cache.{node_hash-fresh, fresh_root_hash}
use cronos_store.Memiavl.Entries.Defs.{leaves, leaves_of, lookup, IsKeyed, IsSorted, HasValues}
use cronos_store.Memiavl.Entries.Lists.{
  IsSorted-left, IsSorted-right, Above-start, Below-le, lookup-append_left, lookup-append_right,
}
use cronos_store.Memiavl.Entries.Set.{branch_keys}
use cronos_store.Memiavl.Proof.{
  ProofInnerNode, ExistenceProof, LeafPath, convert_leaf_op, convert_inner_op, convert_inner_ops,
  step_down, path_to_leaf, proof_of_path, create_existence_proof,
}
use cronos_store.Memiavl.Proof.Ops.{calculate, apply_inner-append, hash_left, hash_right}

module _ (sha256 : Bytes → Bytes) (sized : (bz : Bytes) → length (sha256 bz) ≡ 32) where
  -- The root hash that the proof for a path stands for.
  pub root_of : LeafPath → Bytes
  root_of q = calculate sha256 (proof_of_path sha256 q)

  -- What `pathToLeaf` answers on a tree: the path to the key's leaf, or nothing.
  abbrev pub Leads : Bytes → Node → Option LeafPath → Type 0
  Leads key t none = lookup key (leaves t) ≡ none
  Leads key t (some q) =
      (q.key ≡ key)
      × (lookup key (leaves t) ≡ q.value)
      × (root_of q ≡ fresh_hash sha256 t)
      × (q.value ≢ none)

  fresh_size : (t : Node) → length (fresh_hash sha256 t) ≡ 32
  unfolding fresh_hash
  fresh_size (leaf v key value hash) = sized _
  fresh_size (branch h s v key hash l r) = sized _

  root_of-step_down :
      (p : ProofInnerNode) (q : LeafPath)
      → root_of (step_down p q)
        ≡ (let op = convert_inner_op p in sha256 (op.prefix ++ root_of q ++ op.suffix))
  unfolding root_of calculate proof_of_path step_down convert_inner_ops
  root_of-step_down p q =
      apply_inner-append sha256 (convert_inner_ops q.path) (convert_inner_op p) _

  module _ (h s v : ℕ) (key nkey : Bytes) (hash : Slice) (l r : Node) (cl : IsClean sha256 l)
      (cr : IsClean sha256 r) where
    left_Leads :
        lookup key (leaves l ++ leaves r) ≡ lookup key (leaves l)
        → (o : Option LeafPath) → Leads key l o
        → Leads key (branch h s v nkey hash l r) (
            o >>= λ q. some (
              step_down
                (record {
                  height = h;
                  size = s;
                  version = v;
                  left = none;
                  right = some (node_hash sha256 r).0;
                })
                q))
    unfolding leaves step_down fresh_hash
    left_Leads e none d = e ∙ d
    left_Leads e (some q) d = (
      d.0,
      e ∙ d.1,
      root_of-step_down _ q
          ∙ ap sha256 (
              rw (d.2, (node_hash-fresh sha256 r cr).0)
                (hash_left h s v (fresh_hash sha256 l) (fresh_hash sha256 r) (fresh_size l)
                  (fresh_size r) sha256)),
      d.3,
    )

    right_Leads :
        lookup key (leaves l ++ leaves r) ≡ lookup key (leaves r)
        → (o : Option LeafPath) → Leads key r o
        → Leads key (branch h s v nkey hash l r) (
            o >>= λ q. some (
              step_down
                (record {
                  height = h;
                  size = s;
                  version = v;
                  left = some (node_hash sha256 l).0;
                  right = none;
                })
                q))
    unfolding leaves step_down fresh_hash
    right_Leads e none d = e ∙ d
    right_Leads e (some q) d = (
      d.0,
      e ∙ d.1,
      root_of-step_down _ q
          ∙ ap sha256 (
              rw (d.2, (node_hash-fresh sha256 l cl).0)
                (hash_right h s v (fresh_hash sha256 l) (fresh_hash sha256 r) (fresh_size l)
                  (fresh_size r) sha256)),
      d.3,
    )

  leaf_Leads :
      (key : Bytes) (v : ℕ) (lkey x : Bytes) (hash : Slice)
      → Leads key (leaf v lkey (some x) hash) (path_to_leaf sha256 key (leaf v lkey (some x) hash))
  unfolding path_to_leaf leaves lookup
  leaf_Leads key v lkey x hash = elim (Bool-cases (equal_bytes lkey key)) [
    | inl e ↦
        rw (e, Leads, path_to_leaf)
          (
            (equal_bytes_iff lkey key).0 e,
            ground (arith, (equal_bytes_iff lkey key).0 e, cmp_refl key),
            unfold root_of calculate proof_of_path convert_leaf_op convert_inner_ops fresh_hash
                  leaf_hash_bytes in
                refl,
            λ n. cc,
          )
    | inr e ↦
        rw (e, Leads, path_to_leaf)
          (ground (arith, eq_of_cmp key lkey, (equal_bytes_iff lkey key).1))
  ]

  path_to_leaf-Leads :
      (key : Bytes) (t : Node)
      → IsKeyed t
      → IsSorted (leaves t)
      → HasValues (leaves t)
      → IsClean sha256 t
      → Leads key t (path_to_leaf sha256 key t)
  unfolding path_to_leaf leaves
  path_to_leaf-Leads key (leaf v lkey none hash) k sorted ((x, e), _) c = cc
  path_to_leaf-Leads key (leaf v lkey (some x) hash) k sorted values c =
      leaf_Leads key v lkey x hash
  path_to_leaf-Leads key (branch h s v nkey hash l r) k sorted values c =
      let (start, low) = branch_keys nkey l r k.0 sorted in
      let sl = IsSorted-left (leaves l) (leaves r) sorted in
      let sr = IsSorted-right (leaves l) (leaves r) sorted in
      let left = λ (below : key ≺ nkey).
        left_Leads h s v key nkey hash l r c.1 c.2
          (lookup-append_left key (leaves l) (leaves r)
            (Above-start key nkey (leaves r) sr start below))
          (path_to_leaf sha256 key l)
          (path_to_leaf-Leads key l k.1 sl (All-append_left _ (leaves l) (leaves r) values) c.1) in
      let right = λ (above : nkey ≼ key).
        right_Leads h s v key nkey hash l r c.1 c.2
          (lookup-append_right key (leaves l) (leaves r) (Below-le nkey key (leaves l) low above))
          (path_to_leaf sha256 key r)
          (path_to_leaf-Leads key r k.2 sr (All-append_right _ (leaves l) (leaves r) values) c.2) in
      elim (Ordering-cases (compare_bytes key nkey)) [
        | inl e ↦ rw (e, Leads, path_to_leaf) (left e)
        | inr (inl e) ↦ rw (e, Leads, path_to_leaf) (right (inr (sym (eq_of_cmp key nkey e))))
        | inr (inr e) ↦ rw (e, Leads, path_to_leaf) (right (inl (lt_of_gt key nkey e)))
      ]

  -- What `createExistenceProof` answers: a proof of the key's value whose root hash is that of the
  -- tree, or an error, where the key is not in the tree.
  abbrev pub Proves : Bytes → Option Node → Option ExistenceProof → Type 0
  Proves key root none = lookup key (leaves_of root) ≡ none
  Proves key root (some p) =
      (p.key ≡ key)
      × (lookup key (leaves_of root) ≡ p.value)
      × (calculate sha256 p ≡ fresh_root_hash sha256 root)
      × (p.value ≢ none)

  -- On a valid tree without stale hashes `createExistenceProof` returns a proof exactly for the keys
  -- of the tree: it has the key and its value, and the root hash that it stands for, computed from
  -- its operations alone, is the hash of the tree computed from nothing. SHA-256 has 32 bytes.
  pub create_existence_proof-Proves :
      (key : Bytes) (root : Option Node)
      → IsValidRoot root
      → IsCleanRoot sha256 root
      → Proves key root (create_existence_proof sha256 key root)
  unfolding create_existence_proof calculate root_of
  create_existence_proof-Proves key none v c = unfold lookup in refl
  create_existence_proof-Proves key (some t) v c =
      answer (path_to_leaf sha256 key t) (path_to_leaf-Leads key t v.keyed v.sorted v.values c)
    where
      answer :
          (o : Option LeafPath)
          → Leads key t o
          → Proves key (some t) (o >>= λ q. some (proof_of_path sha256 q))
      answer none d = d
      answer (some q) d = d
