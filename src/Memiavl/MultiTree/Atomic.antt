-- ===== src/Memiavl/MultiTree/Atomic.antt =====
-- `SaveVersion` of memiavl/multitree.go advances every tree or none, whatever the state.
use cronos_store.Common.{
  ℕ, ◌+◌, ◌%◌, ◌^◌, ◌≡◌, ◌⊎◌, refl, Bool, true, false, none, some, List, [], ◌∷◌, ◌==◌, ==_iff, ◌≢◌,
  ◌-◌, All, sym, ◌∙◌, Bool-cases, inl, inr, arith,
}
use cronos_store.Common.Bytes.{Bytes}
use cronos_store.Memiavl.NodeCache.{Cache}
use cronos_store.Memiavl.Node.{Slice}
use cronos_store.Memiavl.Hash.{root_hash}
use cronos_store.Memiavl.Tree.{Tree, max_uint32, save_version}
use cronos_store.Memiavl.MultiTree.State.{returns, errors, NamedTree, MultiTree}
use cronos_store.Memiavl.MultiTree.Commit.{
  build_store_infos, build_commit_info, update_commit_info, none_overflows, save_trees, finish_save,
  save_multi_version,
}
use cronos_store.Memiavl.MultiTree.InStep.{next_of}

module _ (C : Cache) (sha256 : Bytes → Bytes) where
  -- Trees with the version after the one of the trees before, as a uint32, under the same names.
  abbrev pub AllAdvanced : List (NamedTree C sha256) → List (NamedTree C sha256) → Type 0
  AllAdvanced [] [] = Unit
  AllAdvanced [] (f ∷ fs) = ⊥
  AllAdvanced (e ∷ es) [] = ⊥
  AllAdvanced (e ∷ es) (f ∷ fs) =
      ((f.name ≡ e.name) × (f.tree.version ≡ (e.tree.version + 1) % 2 ^ 32)) × AllAdvanced es fs

  -- The largest version of a tree, a uint32.
  abbrev pub IsFull : NamedTree C sha256 → Type 0
  IsFull e = e.tree.version ≡ 2 ^ 32 - 1

  -- Some tree has the largest version.
  abbrev pub SomeFull : List (NamedTree C sha256) → Type 0
  SomeFull [] = ⊥
  SomeFull (e ∷ es) = IsFull e ⊎ SomeFull es

  none_overflows-SomeFull :
      (es : List (NamedTree C sha256)) → none_overflows C sha256 es ≡ false → SomeFull es
  unfolding none_overflows
  none_overflows-SomeFull [] h = cc
  none_overflows-SomeFull (e ∷ es) h = elim (Bool-cases (e.tree.version == max_uint32)) [
    | inl q ↦ inl ((==_iff e.tree.version max_uint32).0 q)
    | inr q ↦ inr (none_overflows-SomeFull es (ground arith))
  ]

  save_version-advances :
      (updates : Bool) (t : Tree C sha256)
      → (t.version == max_uint32) ≡ false
      → (r : Slice × ℕ) × ((save_version C sha256 updates t).0 ≡ some r)
        × ((save_version C sha256 updates t).1.version ≡ (t.version + 1) % 2 ^ 32)
  unfolding save_version
  save_version-advances true t h =
      ((some (root_hash sha256 t.root).0, (t.version + 1) % 2 ^ 32), rw h refl, rw h refl)
  save_version-advances false t h = ((none, (t.version + 1) % 2 ^ 32), rw h refl, rw h refl)

  none_overflows-inv :
      (e : NamedTree C sha256) (es : List (NamedTree C sha256))
      → none_overflows C sha256 (e ∷ es) ≡ true
      → ((e.tree.version == max_uint32) ≡ false) × (none_overflows C sha256 es ≡ true)
  unfolding none_overflows
  none_overflows-inv e es h = ground arith

  pub save_trees-first :
      (updates : Bool) (e : NamedTree C sha256) (es fs : List (NamedTree C sha256)) (r : Slice × ℕ)
      → (save_version C sha256 updates e.tree).0 ≡ some r
      → save_trees C sha256 updates es ≡ returns fs
      → save_trees C sha256 updates (e ∷ es)
        ≡ returns (record e { tree = (save_version C sha256 updates e.tree).1 } ∷ fs)
  unfolding save_trees
  save_trees-first updates e es fs r run rest = rw (save_trees, run, rest) refl

  none_overflows-NotFull :
      (es : List (NamedTree C sha256))
      → none_overflows C sha256 es ≡ true
      → All (λ e. e.tree.version ≢ 2 ^ 32 - 1) es
  none_overflows-NotFull [] h = tt
  none_overflows-NotFull (e ∷ es) h =
      let (small, others) = none_overflows-inv e es h in
      (
        λ full. differ (sym small ∙ (==_iff e.tree.version max_uint32).1 full),
        none_overflows-NotFull es others,
      )
    where
      differ : false ≡ true → ⊥
      differ k = cc

  save_trees-AllAdvanced :
      (updates : Bool) (es : List (NamedTree C sha256))
      → none_overflows C sha256 es ≡ true
      → (fs : List (NamedTree C sha256)) × (save_trees C sha256 updates es ≡ returns fs)
        × AllAdvanced es fs
  save_trees-AllAdvanced updates [] h = ([], unfold save_trees in refl, tt)
  save_trees-AllAdvanced updates (e ∷ es) h =
      let (small, others) = none_overflows-inv e es h in
      let (r, run, v) = save_version-advances updates e.tree small in
      let (fs, rest, k) = save_trees-AllAdvanced updates es others in
      (
        record e { tree = (save_version C sha256 updates e.tree).1 } ∷ fs,
        save_trees-first updates e es fs r run rest,
        ((refl, v), k),
      )

  build_store_infos-AllAdvanced :
      (es fs : List (NamedTree C sha256))
      → AllAdvanced es fs
      → AllAdvanced es (build_store_infos C sha256 fs).1
  unfolding build_store_infos
  build_store_infos-AllAdvanced [] [] k = tt
  build_store_infos-AllAdvanced [] (f ∷ fs) k = absurd k
  build_store_infos-AllAdvanced (e ∷ es) [] k = absurd k
  build_store_infos-AllAdvanced (e ∷ es) (f ∷ fs) k = (k.0, build_store_infos-AllAdvanced es fs k.1)

  finish_save-AllAdvanced :
      (updates : Bool) (es : List (NamedTree C sha256)) (t : MultiTree C sha256)
      → AllAdvanced es t.trees
      → AllAdvanced es (finish_save C sha256 updates t).trees
        × ((finish_save C sha256 updates t).last_commit_info.version ≡ t.last_commit_info.version)
  unfolding finish_save update_commit_info build_commit_info
  finish_save-AllAdvanced true es t k = (build_store_infos-AllAdvanced es t.trees k, refl)
  finish_save-AllAdvanced false es t k = (k, refl)

  -- `SaveVersion` is all or nothing: where some tree has the largest version it is an error and the
  -- multi tree is as it was, and anywhere else it returns nil, every tree has the version after its
  -- own, as a uint32, under the same name, and the commit info has the next version.
  pub save_multi_version-atomic :
      (updates : Bool) (t : MultiTree C sha256)
      → (SomeFull t.trees × (save_multi_version C sha256 updates t ≡ errors t))
        ⊎ ((t' : MultiTree C sha256) × All (λ e. e.tree.version ≢ 2 ^ 32 - 1) t.trees
            × (save_multi_version C sha256 updates t ≡ returns t')
            × AllAdvanced t.trees t'.trees
            × (t'.last_commit_info.version ≡ next_of C sha256 t))
  unfolding save_multi_version
  save_multi_version-atomic updates t = elim (Bool-cases (none_overflows C sha256 t.trees)) [
    | inl h ↦
        let (fs, run, k) = save_trees-AllAdvanced updates t.trees h in
        let u : MultiTree C sha256 = record t {
          trees = fs;
          last_commit_info = record t.last_commit_info { version = next_of C sha256 t };
        } in
        let (advanced, version) = finish_save-AllAdvanced updates t.trees u k in
        inr (
          finish_save C sha256 updates u,
          none_overflows-NotFull t.trees h,
          rw (h, run) refl,
          advanced,
          version,
        )
    | inr h ↦ inl (none_overflows-SomeFull t.trees h, rw h refl)
  ]
