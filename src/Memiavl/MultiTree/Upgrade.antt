-- ===== src/Memiavl/MultiTree/Upgrade.antt =====
-- `ApplyUpgrades` of memiavl/multitree.go.
use cronos_store.Common.{
  ℕ, zero, suc, ◌%◌, ◌^◌, Bool, true, false, Option, none, some, List, [], ◌∷◌, ◌++◌, if◌then◌else◌,
}
use Prim.Native.Nat.Ordering.{lt}
use cronos_store.Common.Bytes.{Bytes, compare_bytes, equal_bytes}
use cronos_store.Memiavl.NodeCache.{Cache}
use cronos_store.Memiavl.Tree.{new_with_initial_version}
use cronos_store.Memiavl.Wal.{next_version}
use cronos_store.Memiavl.MultiTree.State.{
  TreeNameUpgrade, Result, returns, errors, panics, ◌>>=◌, find_index, NamedTree, MultiTree,
}

-- `trees[i] = x`, and `trees[:len(trees)-1]`.
module _ {A : Type 0} where
  unfoldable pub set_at : ℕ → A → List A → List A
  set_at i y [] = []
  set_at zero y (x ∷ xs) = y ∷ xs
  set_at (suc i) y (x ∷ xs) = x ∷ set_at i y xs

  unfoldable pub last_elem : A → List A → A
  last_elem x [] = x
  last_elem x (y ∷ ys) = last_elem y ys

  unfoldable pub drop_last : List A → List A
  drop_last [] = []
  drop_last (x ∷ []) = []
  drop_last (x ∷ y ∷ ys) = x ∷ drop_last (y ∷ ys)

  -- The swap of an element with the last one, which then goes.
  unfoldable pub swap_delete : ℕ → List A → List A
  unfolding set_at last_elem drop_last
  swap_delete i [] = []
  swap_delete i (x ∷ xs) = drop_last (set_at i (last_elem x xs) (x ∷ xs))

module _ (C : Cache) (sha256 : Bytes → Bytes) where
  -- `slices.IndexFunc` by name.
  unfoldable pub position : Bytes → List (NamedTree C sha256) → Option ℕ
  position name [] = none
  position name (e ∷ es) =
      let more : Option ℕ = elim (position name es) [ none ↦ none | some i ↦ some (suc i) ] in
      if equal_bytes e.name name then some 0 else more

  unfoldable pub delete_tree : TreeNameUpgrade → (MultiTree C sha256) → Result (MultiTree C sha256)
  unfolding position
  delete_tree u t = elim (position u.name t.trees) [
    | none ↦ errors t
    | some i ↦ returns (record t { trees = swap_delete i t.trees })
  ]

  unfoldable pub rename_at : Bytes → ℕ → List (NamedTree C sha256) → List (NamedTree C sha256)
  rename_at name i [] = []
  rename_at name zero (e ∷ es) = record e { name = name } ∷ es
  rename_at name (suc i) (e ∷ es) = e ∷ rename_at name i es

  unfoldable pub rename_tree : TreeNameUpgrade → (MultiTree C sha256) → Result (MultiTree C sha256)
  unfolding position rename_at
  rename_tree u t = elim (position u.rename_from t.trees) [
    | none ↦ errors t
    | some i ↦ returns (record t { trees = rename_at u.name i t.trees })
  ]

  unfoldable pub add_tree : TreeNameUpgrade → (MultiTree C sha256) → Result (MultiTree C sha256)
  unfolding next_version
  add_tree u t =
      let version = next_version t.last_commit_info.version t.initial_version % 2 ^ 32 in
      elim (new_with_initial_version C sha256 version t.cache_size) [
        | none ↦ panics
        | some tree ↦
            returns (record t { trees = t.trees ++ (record { name = u.name; tree = tree } ∷ []) })
      ]

  unfoldable pub apply_upgrade :
      TreeNameUpgrade → (MultiTree C sha256) → Result (MultiTree C sha256)
  unfolding delete_tree rename_tree add_tree
  apply_upgrade u t =
      if u.deletes
      then delete_tree u t
      else if equal_bytes u.rename_from []
      then add_tree u t
      else rename_tree u t

  -- The loop over the upgrades.
  unfoldable pub apply_each_upgrade :
      List TreeNameUpgrade → (MultiTree C sha256) → Result (MultiTree C sha256)
  unfolding apply_upgrade
  apply_each_upgrade [] t = returns t
  apply_each_upgrade (u ∷ us) t = apply_upgrade u t >>= apply_each_upgrade us

  -- `sort.SliceStable` by name.
  unfoldable pub insert_tree :
      (NamedTree C sha256) → List (NamedTree C sha256) → List (NamedTree C sha256)
  insert_tree e [] = e ∷ []
  insert_tree e (f ∷ fs) =
      let more = insert_tree e fs in
      elim (compare_bytes f.name e.name) [ lt ↦ f ∷ more | _ ↦ e ∷ f ∷ fs ]

  unfoldable pub sort_trees : List (NamedTree C sha256) → List (NamedTree C sha256)
  unfolding insert_tree
  sort_trees [] = []
  sort_trees (e ∷ es) = insert_tree e (sort_trees es)

  -- The loop that fills `treesByName`: whether no name came twice, and the entries so far.
  unfoldable pub index_trees :
      ℕ → List (NamedTree C sha256) → List (Bytes × ℕ) → Bool × List (Bytes × ℕ)
  unfolding find_index
  index_trees i [] entries = (true, entries)
  index_trees i (e ∷ es) entries =
      let more = index_trees (suc i) es ((e.name, i) ∷ entries) in
      elim (find_index e.name entries) [ none ↦ more | some j ↦ (false, entries) ]

  unfoldable pub rebuild_index : (MultiTree C sha256) → Result (MultiTree C sha256)
  unfolding sort_trees index_trees
  rebuild_index t =
      let trees = sort_trees t.trees in
      let (distinct, entries) = index_trees 0 trees [] in
      let t' = record t { trees = trees; trees_by_name = entries } in
      if distinct then returns t' else errors t'

  unfoldable pub apply_upgrades :
      List TreeNameUpgrade → (MultiTree C sha256) → Result (MultiTree C sha256)
  unfolding apply_each_upgrade rebuild_index
  apply_upgrades [] t = returns t
  apply_upgrades (u ∷ us) t =
      apply_each_upgrade (u ∷ us) (record t { trees_by_name = [] }) >>= rebuild_index
