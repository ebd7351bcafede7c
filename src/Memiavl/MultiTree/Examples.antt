-- ===== src/Memiavl/MultiTree/Examples.antt =====
-- The theorems on `MultiTree` at a multi tree of one store.
use cronos_store.Common.{
  ◌+◌, ◌-◌, ◌^◌, ◌<◌, ◌≤◌, ◌≡◌, ◌≢◌, ◌⊎◌, inr, refl, true, false, none, some, List, [], ◌∷◌, ltb,
  min, if◌then◌else◌, arith, All,
}
use cronos_store.Memiavl.Entries.Defs.{leaves}
use cronos_store.Memiavl.Tree.Sample.{one_entry, digest, one, tree-IsGood}
use cronos_store.Memiavl.Traverse.{NamedChangeSet}
use cronos_store.Memiavl.Wal.{next_version}
use cronos_store.Memiavl.MultiTree.State.{TreeNameUpgrade, returns, errors, ◌>>=◌, MultiTree}
use cronos_store.Memiavl.MultiTree.Upgrade.{apply_upgrades}
use cronos_store.Memiavl.MultiTree.Commit.{
  apply_change_sets, working_commit_info, update_commit_info, save_multi_version,
}
use cronos_store.Memiavl.MultiTree.Replay.{Metadata, WalLog, catchup_wal}
use cronos_store.Memiavl.MultiTree.InStep.{
  Leaves, IsInStep, StaysInStep, next_of, apply_upgrades-StaysInStep,
}
use cronos_store.Memiavl.MultiTree.Index.{OnReturn, IsIndexed, apply_upgrades-IsIndexed}
use cronos_store.Memiavl.MultiTree.Stores.{HasRoom, total_pairs}
use cronos_store.Memiavl.MultiTree.Changes.{Applies, apply_change_sets-Applies}
use cronos_store.Memiavl.MultiTree.Save.{
  Saved, hashes_of, save_multi_version-Saved, working_commit_info-save_multi_version,
}
use cronos_store.Memiavl.MultiTree.Atomic.{SomeFull, AllAdvanced, save_multi_version-atomic}
use cronos_store.Memiavl.MultiTree.Load.{trusted}
use cronos_store.Memiavl.MultiTree.Catchup.{
  replay_versions, catchup_wal-replay_versions, catchup_wal-wraps,
}
use cronos_store.Memiavl.MultiTree.Sample.{bank, acc, entry, stores, stores-IsIndexed}

stores-IsInStep : IsInStep one_entry digest stores
unfolding next_version
stores-IsInStep = record {
  steady = ((tree-IsGood, refl), tt);
  positive = omega arith;
  fits = omega arith;
}

abbrev upgrades : List TreeNameUpgrade
upgrades = record { name = acc; rename_from = []; deletes = false } ∷ []

abbrev change_sets : List NamedChangeSet
change_sets =
    record { name = bank; change_set = record { deletes = true; key = one; value = none } ∷ [] }
    ∷ record { name = acc; change_set = [] }
    ∷ []

-- A log of two versions.
abbrev log : WalLog
log = record { last_index = 3; read_entry = λ i. some (record { change_sets = []; upgrades = [] }) }

apply_upgrades-StaysInStep_example :
    Leaves (apply_upgrades one_entry digest upgrades stores) (StaysInStep one_entry digest stores)
apply_upgrades-StaysInStep_example =
    apply_upgrades-StaysInStep one_entry digest upgrades stores stores-IsInStep

apply_upgrades-IsIndexed_example :
    OnReturn (apply_upgrades one_entry digest upgrades stores) (IsIndexed one_entry digest)
apply_upgrades-IsIndexed_example =
    apply_upgrades-IsIndexed one_entry digest upgrades stores stores-IsIndexed

stores-HasRoom : All (HasRoom one_entry digest (total_pairs change_sets + 2)) (entry ∷ [])
unfolding leaves
stores-HasRoom = ((tree-IsGood, omega arith), tt)

apply_change_sets-Applies_example :
    Applies one_entry digest 2 change_sets stores
      (apply_change_sets one_entry digest change_sets stores)
apply_change_sets-Applies_example =
    apply_change_sets-Applies one_entry digest 2 change_sets stores stores-HasRoom stores-IsIndexed

save_multi_version-Saved_example :
    (t' : MultiTree one_entry digest) × (save_multi_version one_entry digest true stores
      ≡ returns t')
    × Saved one_entry digest true stores t'
save_multi_version-Saved_example =
    save_multi_version-Saved one_entry digest true stores stores-IsInStep

working_commit_info-save_multi_version_example :
    (t' : MultiTree one_entry digest) × (save_multi_version one_entry digest true stores
      ≡ returns t')
    × ((working_commit_info one_entry digest stores).0.version ≡ t'.last_commit_info.version)
    × (hashes_of one_entry digest (working_commit_info one_entry digest stores).0.store_infos
        ≡ hashes_of one_entry digest t'.last_commit_info.store_infos)
working_commit_info-save_multi_version_example =
    working_commit_info-save_multi_version one_entry digest stores stores-IsInStep

save_multi_version-atomic_example :
    (SomeFull one_entry digest (entry ∷ [])
      × (save_multi_version one_entry digest false stores ≡ errors stores))
    ⊎ ((t' : MultiTree one_entry digest) × All (λ e. e.tree.version ≢ 2 ^ 32 - 1) (entry ∷ [])
        × (save_multi_version one_entry digest false stores ≡ returns t')
        × AllAdvanced one_entry digest (entry ∷ []) t'.trees
        × (t'.last_commit_info.version ≡ next_of one_entry digest stores))
save_multi_version-atomic_example = save_multi_version-atomic one_entry digest false stores

abbrev metadata : Metadata
metadata = record { commit_info = trusted one_entry digest 5 (entry ∷ []); initial_version = 4 }

stores-next : (4 ≤ next_of one_entry digest stores) × (next_of one_entry digest stores < 2 ^ 63)
unfolding next_version
stores-next = (omega arith, omega arith)

catchup_wal-replay_versions_example : catchup_wal one_entry digest log 6 stores ≡ (
    if ltb 6 (next_of one_entry digest stores)
    then returns stores
    else if ltb 6 (next_of one_entry digest stores)
    then errors stores
    else (replay_versions one_entry digest log 4
          (min 6 6 + 1 - next_of one_entry digest stores)
          (next_of one_entry digest stores)
          stores
        >>= λ u. returns (update_commit_info one_entry digest u)))
catchup_wal-replay_versions_example =
    catchup_wal-replay_versions one_entry digest log 6 stores (omega arith) stores-next.0
      stores-next.1 (omega arith) (inr (omega arith, omega arith))

catchup_wal-wraps_example :
    catchup_wal one_entry digest log 2 stores ≡ catchup_wal one_entry digest log 0 stores
catchup_wal-wraps_example =
    catchup_wal-wraps one_entry digest log 2 stores (omega arith) (omega arith) (omega arith)
      stores-next.0 stores-next.1 (omega arith)
