-- ===== src/Memiavl/Tree/Examples.antt =====
-- The theorems on `Tree` at a concrete tree.
use cronos_store.Common.{◌≡◌, some, none, true, false, arith, [], ◌∷◌, List}
use cronos_store.Common.Panic.{Returns}
use cronos_store.Memiavl.Entries.Defs.{leaves, lookup}
use cronos_store.Memiavl.Hash.Cache.{fresh_root_hash}
use cronos_store.Memiavl.Tree.{
  KvPair, apply_change_set, save_version, get, new_with_initial_version,
}
use cronos_store.Memiavl.Tree.Refine.{Becomes, change_all, apply_change_set-Becomes}
use cronos_store.Memiavl.Tree.Read.{get-Becomes}
use cronos_store.Memiavl.Tree.Version.{
  Saved, StartsAt, save_version-Saved, new_with_initial_version-StartsAt,
}
use cronos_store.Memiavl.Tree.Sample.{one_entry, digest, one, two, root, tree, tree-IsGood}

abbrev changes : List KvPair
changes =
    record { deletes = false; key = 3 ∷ []; value = none }
    ∷ record { deletes = true; key = one; value = none }
    ∷ []

apply_change_set-Becomes_example :
    Returns
      (apply_change_set one_entry digest changes tree)
      (Becomes one_entry digest tree (change_all changes (leaves root)))
apply_change_set-Becomes_example =
    apply_change_set-Becomes one_entry digest changes tree tree-IsGood
      (unfold leaves in omega arith)

get-Becomes_example :
    ((get one_entry digest two tree).0 ≡ lookup two (leaves root))
    × Becomes one_entry digest tree (leaves root) (get one_entry digest two tree).1
get-Becomes_example =
    get-Becomes one_entry digest two tree tree-IsGood (unfold leaves in omega arith)

save_version-Saved_example :
    ((save_version one_entry digest true tree).0
      ≡ some (some (fresh_root_hash digest (some root)), 6))
    × Saved one_entry digest tree (save_version one_entry digest true tree).1
save_version-Saved_example = save_version-Saved one_entry digest tree tree-IsGood (omega arith)

new_with_initial_version-StartsAt_example :
    Returns (new_with_initial_version one_entry digest 100 10) (StartsAt one_entry digest 100)
new_with_initial_version-StartsAt_example =
    new_with_initial_version-StartsAt one_entry digest 100 10 (omega arith)
