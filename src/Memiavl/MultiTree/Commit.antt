-- ===== src/Memiavl/MultiTree/Commit.antt =====
-- The change sets, the commit info and `SaveVersion` of memiavl/multitree.go.
use cronos_store.Common.{
  ℕ, zero, suc, Bool, true, false, not, ◌&&◌, Option, none, some, List, [], ◌∷◌, length, ◌==◌,
  if◌then◌else◌,
}
use cronos_store.Common.Bytes.{Bytes, equal_bytes}
use cronos_store.Memiavl.Hash.{root_hash}
use cronos_store.Memiavl.NodeCache.{Cache}
use cronos_store.Memiavl.Tree.{
  Tree, KvPair, max_uint32, is_empty, new_with_initial_version, put_initial_version, copy,
  save_version,
}
use cronos_store.Memiavl.Tree
use cronos_store.Memiavl.Traverse.{NamedChangeSet}
use cronos_store.Memiavl.Wal.{next_version}
use cronos_store.Memiavl.MultiTree.State.{
  StoreInfo, CommitInfo, Result, returns, errors, panics, ◌>>=◌, find_index, NamedTree, MultiTree,
}

-- `commitInfoEqual`, nil as `true`.
unfoldable pub store_infos_equal : List StoreInfo → List StoreInfo → Bool
store_infos_equal [] [] = true
store_infos_equal [] (b ∷ bs) = false
store_infos_equal (a ∷ rest) [] = false
store_infos_equal (a ∷ rest) (b ∷ bs) =
    equal_bytes a.name b.name
    && ((a.version == b.version) && (equal_bytes a.hash b.hash && store_infos_equal rest bs))

unfoldable pub commit_info_equal : CommitInfo → CommitInfo → Bool
unfolding store_infos_equal
commit_info_equal trusted actual =
    (trusted.version == actual.version)
    && ((length trusted.store_infos == length actual.store_infos)
        && store_infos_equal trusted.store_infos actual.store_infos)

module _ (C : Cache) (sha256 : Bytes → Bytes) where
  -- `trees[i].ApplyChangeSet`: an index behind the last panics.
  unfoldable pub apply_at :
      ℕ → List KvPair → List (NamedTree C sha256) → Option (List (NamedTree C sha256))
  apply_at i pairs [] = none
  apply_at zero pairs (e ∷ es) = elim (Tree.apply_change_set C sha256 pairs e.tree) [
    | none ↦ none
    | some tree ↦ some (record e { tree = tree } ∷ es)
  ]
  apply_at (suc i) pairs (e ∷ es) = elim (apply_at i pairs es) [
    | none ↦ none
    | some r ↦ some (e ∷ r)
  ]

  unfoldable pub apply_change_set :
      NamedChangeSet → (MultiTree C sha256) → Result (MultiTree C sha256)
  unfolding apply_at find_index
  apply_change_set c t = elim (find_index c.name t.trees_by_name) [
    | none ↦ errors t
    | some i ↦ elim (apply_at i c.change_set t.trees) [
      | none ↦ panics
      | some trees ↦ returns (record t { trees = trees })
    ]
  ]

  unfoldable pub apply_change_sets :
      List NamedChangeSet → (MultiTree C sha256) → Result (MultiTree C sha256)
  unfolding apply_change_set
  apply_change_sets [] t = returns t
  apply_change_sets (c ∷ cs) t = apply_change_set c t >>= apply_change_sets cs

  -- The store infos of the trees, which then keep the hashes.
  unfoldable pub build_store_infos :
      List (NamedTree C sha256) → List StoreInfo × List (NamedTree C sha256)
  unfolding root_hash
  build_store_infos [] = ([], [])
  build_store_infos (e ∷ es) =
      let (hash, root) = root_hash sha256 e.tree.root in
      let (infos, es') = build_store_infos es in
      (
        record { name = e.name; version = e.tree.version; hash = hash } ∷ infos,
        record e { tree = record e.tree { root = root } } ∷ es',
      )

  unfoldable pub build_commit_info : ℕ → (MultiTree C sha256) → CommitInfo × (MultiTree C sha256)
  unfolding build_store_infos
  build_commit_info version t =
      let (infos, trees) = build_store_infos t.trees in
      (record { version = version; store_infos = infos }, record t { trees = trees })

  unfoldable pub working_commit_info : (MultiTree C sha256) → CommitInfo × (MultiTree C sha256)
  unfolding build_commit_info next_version
  working_commit_info t =
      build_commit_info (next_version t.last_commit_info.version t.initial_version) t

  unfoldable pub update_commit_info : (MultiTree C sha256) → (MultiTree C sha256)
  unfolding build_commit_info
  update_commit_info t =
      let (info, t') = build_commit_info t.last_commit_info.version t in
      record t' { last_commit_info = info }

  -- The check of `checkVersionOverflow` on every tree, nil as `true`.
  unfoldable pub none_overflows : List (NamedTree C sha256) → Bool
  none_overflows [] = true
  none_overflows (e ∷ es) = not (e.tree.version == max_uint32) && none_overflows es

  unfoldable pub save_trees : Bool → List (NamedTree C sha256) → Result (List (NamedTree C sha256))
  save_trees updates [] = returns []
  save_trees updates (e ∷ es) =
      let (saved, tree) = save_version C sha256 updates e.tree in
      let e' = record e { tree = tree } in
      let more : Result (List (NamedTree C sha256)) = elim (save_trees updates es) [
        | returns es' ↦ returns (e' ∷ es')
        | errors es' ↦ errors (e' ∷ es')
        | panics ↦ panics
      ] in
      elim saved [ none ↦ errors (e' ∷ es) | some r ↦ more ]

  unfoldable pub finish_save : Bool → (MultiTree C sha256) → (MultiTree C sha256)
  unfolding update_commit_info
  finish_save updates t = if updates then update_commit_info t else record t {
    last_commit_info = record { version = t.last_commit_info.version; store_infos = [] };
  }

  unfoldable pub save_multi_version : Bool → (MultiTree C sha256) → Result (MultiTree C sha256)
  unfolding none_overflows save_trees finish_save next_version
  save_multi_version updates t =
      let version = next_version t.last_commit_info.version t.initial_version in
      let t' = record t { last_commit_info = record t.last_commit_info { version = version } } in
      let saved : Result (MultiTree C sha256) = elim (save_trees updates t.trees) [
        | returns trees ↦ returns (finish_save updates (record t' { trees = trees }))
        | errors trees ↦ errors (record t' { trees = trees })
        | panics ↦ panics
      ] in
      if none_overflows t.trees then saved else errors t
