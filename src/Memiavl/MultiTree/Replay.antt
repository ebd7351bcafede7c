-- ===== src/Memiavl/MultiTree/Replay.antt =====
-- The replay of the write-ahead log and the loading of a snapshot in memiavl/multitree.go. A log
-- entry is decoded by code that protobuf generates, and the directory of a snapshot is opened by
-- `OpenSnapshot`: both are parameters.
use cronos_store.Common.{
  ℕ, zero, suc, ◌+◌, ◌-◌, ◌%◌, ◌^◌, false, Option, none, some, List, [], ◌∷◌, ltb, ◌==◌,
  if◌then◌else◌,
}
use cronos_store.Common.Bytes.{Bytes}
use cronos_store.Memiavl.NodeCache.{Cache}
use cronos_store.Memiavl.Tree.{max_uint32}
use cronos_store.Memiavl.Traverse.{NamedChangeSet}
use cronos_store.Memiavl.Wal.{next_version, wal_index}
use cronos_store.Memiavl.MultiTree.State.{
  CommitInfo, TreeNameUpgrade, Result, returns, errors, ◌>>=◌, NamedTree, MultiTree,
  put_initial_versions, index_copies,
}
use cronos_store.Memiavl.MultiTree.Upgrade.{apply_upgrades, sort_trees}
use cronos_store.Memiavl.MultiTree.Commit.{
  commit_info_equal, apply_change_sets, build_commit_info, update_commit_info, save_multi_version,
}

pub record WalEntry : Type 0 where
  pub change_sets : List NamedChangeSet
  pub upgrades : List TreeNameUpgrade

-- The log: its last index, and the entry at an index; `none` is an error of reading or decoding it.
pub record WalLog : Type 0 where
  pub last_index : ℕ
  pub read_entry : ℕ → Option WalEntry

-- `MultiTreeMetadata`. Its versions are int64s that are not negative.
pub record Metadata : Type 0 where
  pub commit_info : CommitInfo
  pub initial_version : ℕ

-- The checks of `readMetadata` on the decoded metadata; `none` is an error.
unfoldable pub read_metadata : Metadata → Option Metadata
read_metadata metadata =
    if ltb max_uint32 metadata.commit_info.version
    then none
    else if ltb max_uint32 metadata.initial_version
    then none
    else some metadata

module _ (C : Cache) (sha256 : Bytes → Bytes) where
  unfoldable pub apply_wal_entry : WalEntry → (MultiTree C sha256) → Result (MultiTree C sha256)
  unfolding apply_upgrades apply_change_sets
  apply_wal_entry entry t =
      apply_upgrades C sha256 entry.upgrades t >>= apply_change_sets C sha256 entry.change_sets

  unfoldable pub replay_entry : WalLog → ℕ → (MultiTree C sha256) → Result (MultiTree C sha256)
  unfolding apply_wal_entry save_multi_version
  replay_entry log i t = elim (log.read_entry i) [
    | none ↦ errors t
    | some entry ↦ apply_wal_entry entry t >>= save_multi_version C sha256 false
  ]

  -- The loop over a number of entries from an index.
  unfoldable pub replay_entries :
      WalLog → ℕ → ℕ → (MultiTree C sha256) → Result (MultiTree C sha256)
  unfolding replay_entry
  replay_entries log zero i t = returns t
  replay_entries log (suc n) i t = replay_entry log i t >>= replay_entries log n (i + 1)

  -- The end version is an int64 that is not negative.
  unfoldable pub catchup_wal : WalLog → ℕ → (MultiTree C sha256) → Result (MultiTree C sha256)
  unfolding replay_entries update_commit_info next_version wal_index
  catchup_wal log end_version t =
      let first_index =
        wal_index (next_version t.last_commit_info.version t.initial_version) t.initial_version in
      let wanted =
        if end_version == 0 then log.last_index else wal_index end_version t.initial_version in
      let end_index = if ltb log.last_index wanted then log.last_index else wanted in
      let replayed = replay_entries log (end_index + 1 - first_index) first_index t >>= λ t'.
      returns (update_commit_info C sha256 t') in
      if ltb log.last_index first_index
      then returns t
      else if ltb wanted first_index
      then errors t
      else replayed

  -- The check of the metadata against the trees that are loaded.
  unfoldable pub loaded_version : CommitInfo → List (NamedTree C sha256) → ℕ
  loaded_version info [] = info.version
  loaded_version info (e ∷ es) = e.tree.version

  -- `none` is an error.
  unfoldable pub verify_loaded : CommitInfo → MultiTree C sha256 → Option (MultiTree C sha256)
  unfolding loaded_version build_commit_info commit_info_equal
  verify_loaded info t =
      let (actual, t') = build_commit_info C sha256 (loaded_version info t.trees) t in
      if commit_info_equal info actual then some t' else none

  -- `LoadMultiTree` from the trees of the snapshot's directory and its metadata as decoded.
  unfoldable pub load_multi_tree :
      List (NamedTree C sha256) → Metadata → ℕ → Option (MultiTree C sha256)
  unfolding read_metadata sort_trees index_copies put_initial_versions verify_loaded
  load_multi_tree opened metadata cache_size =
      let trees = sort_trees C sha256 opened in
      elim (read_metadata metadata) [
        | none ↦ none
        | some m ↦ verify_loaded m.commit_info (
            put_initial_versions C sha256 (m.initial_version % 2 ^ 32) (record {
              initial_version = 0;
              cache_size = cache_size;
              trees = trees;
              trees_by_name = index_copies C sha256 0 trees;
              last_commit_info = m.commit_info;
            }))
      ]
