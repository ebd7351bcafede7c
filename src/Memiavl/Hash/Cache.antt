-- ===== src/Memiavl/Hash/Cache.antt =====
-- `Hash` and `RootHash` of memiavl/mem_node.go and memiavl/tree.go: the answer is the hash computed
-- from nothing, and asking changes nothing but the hashes that the nodes keep.
use cronos_store.Common.{◌≡◌, Option, none, some, arith, refl, []}
use cronos_store.Common.Bytes.{Bytes}
use cronos_store.Memiavl.Node.{Node, leaf, branch, height, size}
use cronos_store.Memiavl.Entries.Defs.{leaves, leaves_of, min_key, IsKeyed}
use cronos_store.Memiavl.Shape.Defs.{IsBalanced}
use cronos_store.Memiavl.Valid.{IsValid, IsValidRoot}
use cronos_store.Memiavl.Hash.{node_hash, root_hash}
use cronos_store.Memiavl.Hash.Clean.{IsClean, IsCleanRoot, fresh_hash}

-- Two trees that differ in the hashes that they keep alone.
pub record Same (t t' : Node) : Type 0 where
  pub entries : leaves t' ≡ leaves t
  pub high : height t' ≡ height t
  pub sized : size t' ≡ size t
  pub least : min_key t' ≡ min_key t
  pub balanced : IsBalanced t → IsBalanced t'
  pub keyed : IsKeyed t → IsKeyed t'

module _ (sha256 : Bytes → Bytes) where
  -- The hash computed from nothing, when no subtree keeps a stale one.
  abbrev pub fresh_root_hash : Option Node → Bytes
  fresh_root_hash none = sha256 []
  fresh_root_hash (some t) = fresh_hash sha256 t

  pub node_hash-fresh :
      (t : Node)
      → IsClean sha256 t
      → ((node_hash sha256 t).0 ≡ fresh_hash sha256 t)
        × IsClean sha256 (node_hash sha256 t).1
        × (fresh_hash sha256 (node_hash sha256 t).1 ≡ fresh_hash sha256 t)
  unfolding node_hash fresh_hash
  node_hash-fresh (leaf v key value none) c = (refl, refl, refl)
  node_hash-fresh (leaf v key value (some hash)) c = (c, c, refl)
  node_hash-fresh (branch h s v key none l r) c =
      let (el, cl, fl) = node_hash-fresh l c.1 in
      let (er, cr, fr) = node_hash-fresh r c.2 in
      (rw (el, er), (rw (el, er, fl, fr), cl, cr), rw (fl, fr))
  node_hash-fresh (branch h s v key (some hash) l r) c = (c.0, c, refl)

  Same-refl : (t : Node) → Same t t
  Same-refl t = record {
    entries = refl;
    high = refl;
    sized = refl;
    least = refl;
    balanced = λ b. b;
    keyed = λ k. k;
  }

  node_hash-Same : (t : Node) → Same t (node_hash sha256 t).1
  unfolding node_hash leaves height size min_key
  node_hash-Same (leaf v key value none) = record {
    entries = refl;
    high = refl;
    sized = refl;
    least = refl;
    balanced = λ b. b;
    keyed = λ k. k;
  }
  node_hash-Same (leaf v key value (some hash)) = Same-refl (leaf v key value (some hash))
  node_hash-Same (branch h s v key none l r) =
      let sl = node_hash-Same l in
      let sr = node_hash-Same r in
      record {
        entries = rw (sl.entries, sr.entries);
        high = refl;
        sized = refl;
        least = sl.least;
        balanced = λ b.
            (omega arith, omega arith, omega arith, omega arith, sl.balanced b.4, sr.balanced b.5);
        keyed = λ k. (rw sr.least k.0, sl.keyed k.1, sr.keyed k.2);
      }
  node_hash-Same (branch h s v key (some hash) l r) = Same-refl (branch h s v key (some hash) l r)

  node_hash-IsValid : (t : Node) → IsValid t → IsValid (node_hash sha256 t).1
  node_hash-IsValid t v =
      let s = node_hash-Same t in
      record {
        balanced = s.balanced v.balanced;
        keyed = s.keyed v.keyed;
        sorted = rw s.entries v.sorted;
        values = rw s.entries v.values;
      }

  -- The hash of a valid tree without stale hashes is the one computed from nothing, and the tree
  -- stays valid, without stale hashes and with the entries that it had.
  pub root_hash-fresh :
      (root : Option Node)
      → IsCleanRoot sha256 root
      → IsValidRoot root
      → ((root_hash sha256 root).0 ≡ fresh_root_hash root)
        × IsCleanRoot sha256 (root_hash sha256 root).1
        × (leaves_of (root_hash sha256 root).1 ≡ leaves_of root)
        × IsValidRoot (root_hash sha256 root).1
  unfolding root_hash
  root_hash-fresh none c v = (refl, tt, refl, tt)
  root_hash-fresh (some t) c v =
      let (e, d, _) = node_hash-fresh t c in
      (e, d, (node_hash-Same t).entries, node_hash-IsValid t v)

  -- Asking for the hash does not change it.
  pub root_hash-steady :
      (root : Option Node)
      → IsCleanRoot sha256 root
      → fresh_root_hash (root_hash sha256 root).1 ≡ fresh_root_hash root
  unfolding root_hash
  root_hash-steady none c = refl
  root_hash-steady (some t) c = let (e, d, f) = node_hash-fresh t c in f
