-- ===== src/Memiavl/Import/Rebuild.antt =====
-- Importing what a tree exports, memiavl/import.go, writes the snapshot that the tree itself writes,
-- memiavl/snapshot.go.
use cronos_store.Common.{
  ℕ, suc, ◌+◌, ◌-◌, ◌%◌, ◌^◌, ◌<◌, ◌≤◌, ◌≡◌, refl, sym, ◌∙◌, false, Option, none, some, List, [],
  ◌∷◌, ◌++◌, append_assoc, append-nil, length, ltb, ◌==◌, arith,
}
use cronos_store.Common.Bytes.{Bytes}
use cronos_store.Common.Panic.{◌>>=◌}
use cronos_store.Memiavl.Node.{Slice, Node, leaf, branch, height, size, node_key, node_version}
use cronos_store.Memiavl.Hash.Clean.{IsClean, IsCleanRoot, fresh_hash}
use cronos_store.Memiavl.Hash.Cache.{node_hash-fresh}
use cronos_store.Memiavl.Shape.Defs.{IsBalanced, height_bound, size-eq-length}
use cronos_store.Memiavl.Valid.{IsValidRoot, count}
use cronos_store.Memiavl.Export.{ExportNode, export_node, node_value, scan_post_order}
use cronos_store.Memiavl.Export.Scan.{post_order, scan_post_order-post_order}
use cronos_store.Memiavl.Snapshot.{
  SnapshotWriter, new_snapshot_writer, write_key_value, write_leaf, write_branch, pending_trees,
  write_recursive, write_snapshot,
}
use cronos_store.Memiavl.Import.{
  PendingNode, Importer, new_importer, leaf_node, branch_node, add_leaf, add_branch, add_node,
  add_nodes, imported_leaves, do_import,
}

not_leaf : (h m : ℕ) → h ≡ suc m → (h == 0) ≡ false
not_leaf h m e = ground arith

-- Every version of the tree is a uint32.
abbrev pub HasVersions : Node → Type 0
HasVersions (leaf v key value hash) = v < 2 ^ 32
HasVersions (branch h s v key hash l r) = (v < 2 ^ 32) × HasVersions l × HasVersions r

abbrev pub HasRootVersions : Option Node → Type 0
HasRootVersions none = Unit
HasRootVersions (some t) = HasVersions t

module _ (sha256 : Bytes → Bytes) where
  -- The writer has counted the leaves and the branches of the tree.
  record Counts (t : Node) (w : SnapshotWriter) : Type 0 where
    some_leaf : 1 ≤ size t
    new_leaves : (write_recursive sha256 t w).leaf_counter ≡ w.leaf_counter + size t
    new_branches : (write_recursive sha256 t w).branch_counter + 1 ≡ w.branch_counter + size t

  write_recursive-Counts :
      (t : Node) (w : SnapshotWriter)
      → IsBalanced t
      → w.leaf_counter + size t < 2 ^ 32
      → w.branch_counter ≤ w.leaf_counter
      → Counts t w
  unfolding write_recursive write_leaf write_key_value write_branch size
  write_recursive-Counts (leaf v key value hash) w b f g = record {
    some_leaf = omega arith;
    new_leaves = omega arith;
    new_branches = refl;
  }
  write_recursive-Counts (branch h s v key hash l r) w b f g =
      let cl = write_recursive-Counts l w b.4 (omega (arith, b.1)) g in
      let cr =
        write_recursive-Counts r (write_recursive sha256 l w) b.5
          (omega (arith, cl.new_leaves, b.1)) (omega (arith, cl.new_leaves, cl.new_branches)) in
      record {
        some_leaf = omega (arith, cl.some_leaf, b.1);
        new_leaves = omega (arith, cl.new_leaves, cr.new_leaves, b.1);
        new_branches = omega (arith, cl.new_branches, cr.new_branches, b.1);
      }

  -- The pending node that the importer keeps for a tree.
  pending : Node → PendingNode
  pending t = record {
    height = height t;
    size = size t;
    version = node_version t;
    key = node_key t;
    value = node_value t;
    hash = fresh_hash sha256 t;
  }

  -- The importer with a whole tree on top of its stacks.
  pushed : Node → Importer → Importer
  unfolding pending
  pushed t i = record {
    writer = write_recursive sha256 t i.writer;
    leaves_stack = (write_recursive sha256 t i.writer).leaf_counter ∷ i.leaves_stack;
    node_stack = pending t ∷ i.node_stack;
  }

  leaf-pushed :
      (v : ℕ) (key : Bytes) (value hash : Slice) (i : Importer)
      → v < 2 ^ 32
      → IsClean sha256 (leaf v key value hash)
      → add_node sha256 (export_node (leaf v key value hash)) i
        ≡ some (pushed (leaf v key value hash) i)
  unfolding add_node add_leaf leaf_node export_node pushed pending write_recursive node_value height
      node_key node_version size fresh_hash
  leaf-pushed v key value hash i f c =
      let fits : ltb (2 ^ 32 - 1) v ≡ false = ground arith in
      let same : v % 2 ^ 32 ≡ v = omega arith in
      rw (fits, same, (node_hash-fresh sha256 (leaf v key value hash) c).0) refl

  branch-pushed :
      (h s v : ℕ) (key : Bytes) (hash : Slice) (l r : Node) (i : Importer)
      → IsBalanced (branch h s v key hash l r)
      → h ≤ 125
      → v < 2 ^ 32
      → IsClean sha256 (branch h s v key hash l r)
      → i.writer.leaf_counter ≡ i.writer.branch_counter + length i.node_stack
      → i.writer.leaf_counter + s < 2 ^ 32
      → add_node sha256 (export_node (branch h s v key hash l r)) (pushed r (pushed l i))
        ≡ some (pushed (branch h s v key hash l r) i)
  unfolding add_node add_branch branch_node export_node pushed pending write_recursive node_value
      height node_key node_version size fresh_hash pending_trees
  branch-pushed h s v key hash l r i b low f c level room =
      let fits : ltb (2 ^ 32 - 1) v ≡ false = ground arith in
      let same : v % 2 ^ 32 ≡ v = omega arith in
      let inner : (h == 0) ≡ false = not_leaf h _ b.0 in
      let byte : h % 2 ^ 8 ≡ h = omega arith in
      let sum : (size l + size r) % 2 ^ 64 ≡ s = omega (arith, b.1) in
      let trees : (i.writer.leaf_counter + 2 ^ 32 - i.writer.branch_counter) % 2 ^ 32 % 2 ^ 8
          ≡ length i.node_stack % 2 ^ 8 =
        omega arith in
      rw
        (
          fits,
          same,
          inner,
          byte,
          sum,
          trees,
          (node_hash-fresh sha256 (branch h s v key hash l r) c).0,
        )
        refl

  add_nodes-pushed :
      (t : Node) (i : Importer) (rest : List ExportNode)
      → IsBalanced t
      → IsClean sha256 t
      → HasVersions t
      → i.writer.leaf_counter ≡ i.writer.branch_counter + length i.node_stack
      → i.writer.leaf_counter + size t < 2 ^ 32
      → add_nodes sha256 (post_order t ++ rest) i ≡ add_nodes sha256 rest (pushed t i)
  unfolding add_nodes post_order
  add_nodes-pushed (leaf v key value hash) i rest b c vs level room =
      rw (leaf-pushed v key value hash i vs c) refl
  add_nodes-pushed (branch h s v key hash l r) i rest b c vs level room =
      let t = branch h s v key hash l r in
      let n = export_node t in
      let room' : i.writer.leaf_counter + s < 2 ^ 32 = unfold size in room in
      let cl = write_recursive-Counts l i.writer b.4 (omega (arith, b.1)) (omega arith) in
      let low : h ≤ 125 = unfold height size in height_bound t b (omega arith) in
      let left =
        add_nodes-pushed l i (post_order r ++ n ∷ rest) b.4 c.1 vs.1 level (omega (arith, b.1)) in
      let right =
        add_nodes-pushed r (pushed l i) (n ∷ rest) b.5 c.2 vs.2
          (unfold pushed in omega (arith, cl.new_leaves, cl.new_branches))
          (unfold pushed in omega (arith, cl.new_leaves, b.1)) in
      let last = branch-pushed h s v key hash l r i b low vs.0 c level room' in
      rw
        (
          append_assoc (post_order l) (post_order r ++ n ∷ []) rest,
          append_assoc (post_order r) (n ∷ []) rest,
          left,
          right,
          last,
        )
        refl

  do_import-post_order :
      (version : ℕ) (t : Node)
      → version < 2 ^ 32
      → IsBalanced t
      → IsClean sha256 t
      → HasVersions t
      → size t < 2 ^ 32
      → do_import sha256 version (post_order t) ≡ some (write_snapshot sha256 version (some t))
  unfolding do_import write_snapshot new_importer new_snapshot_writer
  do_import-post_order version t f b c vs room =
      let fits : ltb (2 ^ 32 - 1) version ≡ false = ground arith in
      let same : version % 2 ^ 32 ≡ version = omega arith in
      let whole : add_nodes sha256 (post_order t) new_importer ≡ some (pushed t new_importer) =
        rw (sym (append-nil (post_order t))) (
          add_nodes-pushed t new_importer [] b c vs (omega arith) (omega arith)
          ∙ unfold add_nodes in refl) in
      rw (fits, same, whole) (unfold pushed imported_leaves in refl)

  -- For a valid tree of fewer than 2 ^ 32 entries without stale hashes, whose versions are uint32s,
  -- importing what `Export` scans succeeds and writes, byte by byte, the snapshot that
  -- `WriteSnapshot` writes for the tree.
  pub scan_post_order-do_import :
      (version : ℕ) (root : Option Node)
      → version < 2 ^ 32
      → IsValidRoot root
      → IsCleanRoot sha256 root
      → HasRootVersions root
      → count root < 2 ^ 32
      → (scan_post_order root >>= do_import sha256 version)
        ≡ some (write_snapshot sha256 version root)
  scan_post_order-do_import version none f v c vs room =
      let fits : ltb (2 ^ 32 - 1) version ≡ false = ground arith in
      let same : version % 2 ^ 32 ≡ version = omega arith in
      unfold scan_post_order do_import write_snapshot add_nodes imported_leaves new_importer
        new_snapshot_writer in
      rw (fits, same) refl
  scan_post_order-do_import version (some t) f v c vs room = rw (scan_post_order-post_order t) (
      do_import-post_order version t f v.balanced c vs (omega (arith, size-eq-length t v.balanced)))
