-- ===== src/Memiavl/MultiTree/Load.antt =====
-- `LoadMultiTree` of memiavl/multitree.go: the check of a snapshot's metadata against its trees.
use cronos_store.Common.{ℕ, ◌<◌, ◌^◌, Option, none, some, ◌≡◌, List}
use cronos_store.Common.Bytes.{Bytes}
use cronos_store.Memiavl.NodeCache.{Cache}
use cronos_store.Memiavl.Tree.Refine.{IsGood}
use cronos_store.Memiavl.MultiTree.State.{CommitInfo, NamedTree, MultiTree, index_copies}
use cronos_store.Memiavl.MultiTree.Replay.{Metadata}
use cronos_store.Memiavl.MultiTree.Save.{KeptAll, fresh_infos}

module _ (C : Cache) (sha256 : Bytes → Bytes) where
  -- A good tree of a version.
  abbrev pub IsAt : ℕ → NamedTree C sha256 → Type 0
  IsAt v e = IsGood C sha256 e.tree × (e.tree.version ≡ v)

  -- The multi tree of a snapshot, before it is verified.
  opened_tree : List (NamedTree C sha256) → CommitInfo → ℕ → ℕ → MultiTree C sha256
  opened_tree trees info initial_version cache_size = record {
    initial_version = initial_version;
    cache_size = cache_size;
    trees = trees;
    trees_by_name = index_copies C sha256 0 trees;
    last_commit_info = info;
  }

  -- The commit info of trees, at a version.
  abbrev pub trusted : ℕ → List (NamedTree C sha256) → CommitInfo
  trusted v trees = record { version = v; store_infos = fresh_infos C sha256 v trees }

  -- What comes of the trees in their order: the multi tree of the metadata, with these trees, or an
  -- error.
  abbrev pub Loads : ℕ → List (NamedTree C sha256) → Metadata → Option (MultiTree C sha256) → Type 0
  Loads v sorted m none = ¬ ((m.commit_info ≡ trusted v sorted) × (m.initial_version < 2 ^ 32))
  Loads v sorted m (some t) =
      (m.commit_info ≡ trusted v sorted)
      × (m.initial_version < 2 ^ 32)
      × (t.initial_version ≡ m.initial_version)
      × (t.last_commit_info ≡ m.commit_info)
      × KeptAll C sha256 v sorted t.trees
