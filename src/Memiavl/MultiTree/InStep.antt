-- ===== src/Memiavl/MultiTree/InStep.antt =====
-- The trees of a `MultiTree` stay good and share one version through `ApplyUpgrades`.
use cronos_store.Common.{
  ℕ, zero, suc, ◌+◌, ◌-◌, ◌%◌, ◌^◌, ◌<◌, ◌≤◌, ◌≡◌, refl, none, some, List, [], ◌∷◌, max, All,
  All-append, Bool-cases, inl, inr, arith,
}
use Prim.Native.Nat.Ordering.{lt}
use cronos_store.Common.Bytes.{Bytes, compare_bytes, equal_bytes}
use cronos_store.Memiavl.NodeCache.{Cache}
use cronos_store.Memiavl.Tree.Refine.{IsGood}
use cronos_store.Memiavl.Tree.Version.{empty_at, empty_at-StartsAt, new_with_initial_version_lem}
use cronos_store.Memiavl.Wal.{next_version}
use cronos_store.Memiavl.MultiTree.State.{
  TreeNameUpgrade, Result, returns, errors, panics, ◌>>=◌, NamedTree, MultiTree,
}
use cronos_store.Memiavl.MultiTree.Upgrade.{
  set_at, last_elem, drop_last, swap_delete, position, delete_tree, rename_at, rename_tree,
  add_tree, apply_upgrade, apply_each_upgrade, insert_tree, sort_trees, index_trees, rebuild_index,
  apply_upgrades,
}

-- The code does not panic, and what it leaves satisfies `P`, with an error too.
abbrev pub Leaves : {A : Type 0} → Result A → (A → Type 0) → Type 0
Leaves (returns a) P = P a
Leaves (errors a) P = P a
Leaves panics P = ⊥

pub Leaves-bind :
    {A : Type 0} (P : A → Type 0) (m : Result A) (f : A → Result A)
    → Leaves m P
    → ((a : A) → P a → Leaves (f a) P)
    → Leaves (m >>= f) P
Leaves-bind P (returns a) f h k = k a h
Leaves-bind P (errors a) f h k = h
Leaves-bind P panics f h k = absurd h

module _ {A : Type 0} (P : A → Type 0) where
  All-set_at : (i : ℕ) (y : A) (xs : List A) → P y → All P xs → All P (set_at i y xs)
  unfolding set_at
  All-set_at i y [] p h = tt
  All-set_at zero y (x ∷ xs) p h = (p, h.1)
  All-set_at (suc i) y (x ∷ xs) p h = (h.0, All-set_at i y xs p h.1)

  last_elem-of : (x : A) (xs : List A) → P x → All P xs → P (last_elem x xs)
  unfolding last_elem
  last_elem-of x [] p h = p
  last_elem-of x (y ∷ ys) p h = last_elem-of y ys h.0 h.1

  All-drop_last : (xs : List A) → All P xs → All P (drop_last xs)
  unfolding drop_last
  All-drop_last [] h = tt
  All-drop_last (x ∷ []) h = tt
  All-drop_last (x ∷ y ∷ ys) h = (h.0, All-drop_last (y ∷ ys) h.1)

  All-swap_delete : (i : ℕ) (xs : List A) → All P xs → All P (swap_delete i xs)
  unfolding swap_delete
  All-swap_delete i [] h = tt
  All-swap_delete i (x ∷ xs) h =
      All-drop_last (set_at i (last_elem x xs) (x ∷ xs))
        (All-set_at i (last_elem x xs) (x ∷ xs) (last_elem-of x xs h.0 h.1) h)

module _ (C : Cache) (sha256 : Bytes → Bytes) where
  -- A good tree, whose next version is the given one.
  abbrev pub IsSteady : ℕ → NamedTree C sha256 → Type 0
  IsSteady next e = IsGood C sha256 e.tree × (e.tree.version + 1 ≡ next)

  abbrev pub next_of : MultiTree C sha256 → ℕ
  next_of t = next_version t.last_commit_info.version t.initial_version

  -- All trees are good, and have the version before the next one, which is a uint32.
  pub record IsInStep (t : MultiTree C sha256) : Type 0 where
    pub steady : All (IsSteady (next_of t)) t.trees
    pub positive : 1 ≤ next_of t
    pub fits : next_of t < 2 ^ 32

  -- In step as before, with the same commit info.
  pub record StaysInStep (t t' : MultiTree C sha256) : Type 0 where
    pub steady : All (IsSteady (next_of t)) t'.trees
    pub info : t'.last_commit_info ≡ t.last_commit_info
    pub initial : t'.initial_version ≡ t.initial_version

  rename_at-All :
      (next : ℕ) (name : Bytes) (i : ℕ) (es : List (NamedTree C sha256))
      → All (IsSteady next) es
      → All (IsSteady next) (rename_at C sha256 name i es)
  unfolding rename_at
  rename_at-All next name i [] h = tt
  rename_at-All next name zero (e ∷ es) h = h
  rename_at-All next name (suc i) (e ∷ es) h = (h.0, rename_at-All next name i es h.1)

  insert_tree-All :
      (P : NamedTree C sha256 → Type 0) (e : NamedTree C sha256) (es : List (NamedTree C sha256))
      → P e
      → All P es
      → All P (insert_tree C sha256 e es)
  unfolding insert_tree
  insert_tree-All P e [] p h = (p, tt)
  insert_tree-All P e (f ∷ fs) p h =
      elim (compare_bytes f.name e.name)
        as (λ o. All P (elim o [ lt ↦ f ∷ insert_tree C sha256 e fs | _ ↦ e ∷ f ∷ fs ])) [
          | lt ↦ (h.0, insert_tree-All P e fs p h.1)
          | _ ↦ (p, h)
        ]

  pub sort_trees-All :
      (P : NamedTree C sha256 → Type 0) (es : List (NamedTree C sha256))
      → All P es
      → All P (sort_trees C sha256 es)
  unfolding sort_trees
  sort_trees-All P [] h = tt
  sort_trees-All P (e ∷ es) h =
      insert_tree-All P e (sort_trees C sha256 es) h.0 (sort_trees-All P es h.1)

  delete_tree-StaysInStep :
      (u : TreeNameUpgrade) (t t' : MultiTree C sha256)
      → StaysInStep t t'
      → Leaves (delete_tree C sha256 u t') (StaysInStep t)
  unfolding delete_tree
  delete_tree-StaysInStep u t t' s =
      elim (position C sha256 u.name t'.trees)
        as (λ o.
          Leaves {A = MultiTree C sha256}
            (elim o [
              | none ↦ errors t'
              | some i ↦ returns (record t' { trees = swap_delete i t'.trees })
            ])
            (StaysInStep t)) [
              | none ↦ s
              | some i ↦ record {
                steady = All-swap_delete (IsSteady (next_of t)) i t'.trees s.steady;
                info = s.info;
                initial = s.initial;
              }
            ]

  rename_tree-StaysInStep :
      (u : TreeNameUpgrade) (t t' : MultiTree C sha256)
      → StaysInStep t t'
      → Leaves (rename_tree C sha256 u t') (StaysInStep t)
  unfolding rename_tree
  rename_tree-StaysInStep u t t' s =
      elim (position C sha256 u.rename_from t'.trees)
        as (λ o.
          Leaves {A = MultiTree C sha256}
            (elim o [
              | none ↦ errors t'
              | some i ↦ returns (record t' { trees = rename_at C sha256 u.name i t'.trees })
            ])
            (StaysInStep t)) [
              | none ↦ s
              | some i ↦ record {
                steady = rename_at-All (next_of t) u.name i t'.trees s.steady;
                info = s.info;
                initial = s.initial;
              }
            ]

  add_tree-StaysInStep :
      (u : TreeNameUpgrade) (t t' : MultiTree C sha256)
      → IsInStep t
      → StaysInStep t t'
      → Leaves (add_tree C sha256 u t') (StaysInStep t)
  unfolding add_tree
  add_tree-StaysInStep u t t' i s =
      let pos = i.positive in
      let fits = i.fits in
      let same : next_of t' ≡ next_of t = let a = s.info in let b = s.initial in cc in
      let small : next_of t % 2 ^ 32 ≡ next_of t = omega arith in
      let (good, r, q) =
        empty_at-StartsAt C sha256 (max 1 (next_of t) - 1) t'.cache_size (omega arith) in
      rw
        (
          add_tree,
          same,
          small,
          new_with_initial_version_lem C sha256 (next_of t) t'.cache_size fits,
        )
        (record {
          steady =
              All-append (IsSteady (next_of t)) t'.trees _ s.steady
                ((good, unfold empty_at in omega arith), tt);
          info = s.info;
          initial = s.initial;
        })

  apply_upgrade-StaysInStep :
      (u : TreeNameUpgrade) (t t' : MultiTree C sha256)
      → IsInStep t
      → StaysInStep t t'
      → Leaves (apply_upgrade C sha256 u t') (StaysInStep t)
  unfolding apply_upgrade
  apply_upgrade-StaysInStep u t t' i s = elim (Bool-cases u.deletes) [
    | inl e ↦ rw e (delete_tree-StaysInStep u t t' s)
    | inr e ↦ elim (Bool-cases (equal_bytes u.rename_from [])) [
      | inl f ↦ rw (e, f) (add_tree-StaysInStep u t t' i s)
      | inr f ↦ rw (e, f) (rename_tree-StaysInStep u t t' s)
    ]
  ]

  apply_each_upgrade-StaysInStep :
      (us : List TreeNameUpgrade) (t t' : MultiTree C sha256)
      → IsInStep t
      → StaysInStep t t'
      → Leaves (apply_each_upgrade C sha256 us t') (StaysInStep t)
  unfolding apply_each_upgrade
  apply_each_upgrade-StaysInStep [] t t' i s = s
  apply_each_upgrade-StaysInStep (u ∷ us) t t' i s =
      Leaves-bind (StaysInStep t) (apply_upgrade C sha256 u t') _
        (apply_upgrade-StaysInStep u t t' i s)
        (λ t'' s''. apply_each_upgrade-StaysInStep us t t'' i s'')

  rebuild_index-StaysInStep :
      (t t' : MultiTree C sha256)
      → StaysInStep t t'
      → Leaves (rebuild_index C sha256 t') (StaysInStep t)
  unfolding rebuild_index
  rebuild_index-StaysInStep t t' s =
      let trees = sort_trees C sha256 t'.trees in
      let sorted = sort_trees-All (IsSteady (next_of t)) t'.trees s.steady in
      elim (Bool-cases (index_trees C sha256 0 trees []).0) [
        | inl e ↦ rw e (record { steady = sorted; info = s.info; initial = s.initial })
        | inr e ↦ rw e (record { steady = sorted; info = s.info; initial = s.initial })
      ]

  -- On a multi tree whose trees are good and have the version before the next one, a uint32,
  -- `ApplyUpgrades` does not panic, and with an error too it leaves good trees of that version, the
  -- new ones included, and the commit info that there was.
  pub apply_upgrades-StaysInStep :
      (us : List TreeNameUpgrade) (t : MultiTree C sha256)
      → IsInStep t
      → Leaves (apply_upgrades C sha256 us t) (StaysInStep t)
  unfolding apply_upgrades
  apply_upgrades-StaysInStep [] t i = record { steady = i.steady; info = refl; initial = refl }
  apply_upgrades-StaysInStep (u ∷ us) t i =
      Leaves-bind (StaysInStep t) _ _
        (apply_each_upgrade-StaysInStep (u ∷ us) t (record t { trees_by_name = [] }) i
          (record { steady = i.steady; info = refl; initial = refl }))
        (λ t' s. rebuild_index-StaysInStep t t' s)
