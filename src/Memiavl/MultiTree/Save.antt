-- ===== src/Memiavl/MultiTree/Save.antt =====
-- `SaveVersion` of memiavl/multitree.go gives every tree the next version, or changes nothing.
use cronos_store.Common.{
  ℕ, ◌+◌, ◌-◌, ◌^◌, ◌<◌, ◌≡◌, refl, Bool, true, false, List, [], ◌∷◌, ◌==◌, if◌then◌else◌, All,
  arith, sym, ◌∙◌, ap,
}
use cronos_store.Common.Bytes.{Bytes}
use cronos_store.Memiavl.Hash.Cache.{fresh_root_hash, root_hash-fresh}
use cronos_store.Memiavl.NodeCache.{Cache}
use cronos_store.Memiavl.Tree.{max_uint32, save_version}
use cronos_store.Memiavl.Tree.Refine.{IsGood}
use cronos_store.Memiavl.Tree.Version.{Kept, Kept-trans, root_hash-Kept, save_version-Kept}
use cronos_store.Memiavl.MultiTree.State.{StoreInfo, returns, NamedTree, MultiTree}
use cronos_store.Memiavl.MultiTree.Commit.{
  build_store_infos, build_commit_info, working_commit_info, update_commit_info, none_overflows,
  save_trees, finish_save, save_multi_version,
}
use cronos_store.Memiavl.MultiTree.Atomic.{save_trees-first}
use cronos_store.Memiavl.MultiTree.InStep.{IsSteady, next_of, IsInStep}

module _ (C : Cache) (sha256 : Bytes → Bytes) where
  -- Trees of a version under the same names, with the same entries and hashes.
  abbrev pub KeptAll : ℕ → List (NamedTree C sha256) → List (NamedTree C sha256) → Type 0
  KeptAll v [] [] = Unit
  KeptAll v [] (f ∷ fs) = ⊥
  KeptAll v (e ∷ es) [] = ⊥
  KeptAll v (e ∷ es) (f ∷ fs) =
      ((f.name ≡ e.name) × Kept C sha256 v e.tree f.tree) × KeptAll v es fs

  KeptAll-trans :
      (v w : ℕ) (es fs gs : List (NamedTree C sha256))
      → KeptAll v es fs
      → KeptAll w fs gs
      → KeptAll w es gs
  KeptAll-trans v w [] [] [] a b = tt
  KeptAll-trans v w [] [] (g ∷ gs) a b = absurd b
  KeptAll-trans v w [] (f ∷ fs) gs a b = absurd a
  KeptAll-trans v w (e ∷ es) [] gs a b = absurd a
  KeptAll-trans v w (e ∷ es) (f ∷ fs) [] a b = absurd b
  KeptAll-trans v w (e ∷ es) (f ∷ fs) (g ∷ gs) a b = (
    (b.0.0 ∙ a.0.0, Kept-trans C sha256 v w e.tree f.tree g.tree a.0.1 b.0.1),
    KeptAll-trans v w es fs gs a.1 b.1,
  )

  -- The store infos of trees: their hashes, computed from nothing, at a version.
  unfoldable pub fresh_infos : ℕ → List (NamedTree C sha256) → List StoreInfo
  fresh_infos v [] = []
  fresh_infos v (e ∷ es) =
      record { name = e.name; version = v; hash = fresh_root_hash sha256 e.tree.root }
      ∷ fresh_infos v es

  none_overflows-IsSteady :
      (next : ℕ) (es : List (NamedTree C sha256))
      → next < 2 ^ 32
      → All (IsSteady C sha256 next) es
      → none_overflows C sha256 es ≡ true
  unfolding none_overflows
  none_overflows-IsSteady next [] fits h = refl
  none_overflows-IsSteady next (e ∷ es) fits h =
      let v = h.0.1 in
      let small : (e.tree.version == max_uint32) ≡ false = ground arith in
      rw (small, none_overflows-IsSteady next es fits h.1) refl

  save_trees-KeptAll :
      (updates : Bool) (next : ℕ) (es : List (NamedTree C sha256))
      → next < 2 ^ 32
      → All (IsSteady C sha256 next) es
      → (fs : List (NamedTree C sha256)) × (save_trees C sha256 updates es ≡ returns fs)
        × KeptAll next es fs
  save_trees-KeptAll updates next [] fits h = ([], unfold save_trees in refl, tt)
  save_trees-KeptAll updates next (e ∷ es) fits h =
      let v = h.0.1 in
      let (r, run, k) = save_version-Kept C sha256 updates e.tree h.0.0 (omega arith) in
      let (fs, rest, ks) = save_trees-KeptAll updates next es fits h.1 in
      let e' : NamedTree C sha256 = record e { tree = (save_version C sha256 updates e.tree).1 } in
      (
        e' ∷ fs,
        save_trees-first C sha256 updates e es fs r run rest,
        (
          (refl, record { good = k.good; entries = k.entries; hashes = k.hashes; at = k.at ∙ v }),
          ks,
        ),
      )

  pub build_store_infos-KeptAll :
      (v : ℕ) (es : List (NamedTree C sha256))
      → All (λ e. IsGood C sha256 e.tree × (e.tree.version ≡ v)) es
      → ((build_store_infos C sha256 es).0 ≡ fresh_infos v es)
        × KeptAll v es (build_store_infos C sha256 es).1
  unfolding build_store_infos fresh_infos
  build_store_infos-KeptAll v [] h = (refl, tt)
  build_store_infos-KeptAll v (e ∷ es) h =
      let (infos, ks) = build_store_infos-KeptAll v es h.1 in
      let (hash, clean, entries, valid) =
        root_hash-fresh sha256 e.tree.root h.0.0.clean h.0.0.valid in
      let k = root_hash-Kept C sha256 e.tree h.0.0 in
      (
        rw (infos, hash, h.0.1) refl,
        (
          (
            refl,
            record { good = k.good; entries = k.entries; hashes = k.hashes; at = k.at ∙ h.0.1 },
          ),
          ks,
        ),
      )

  KeptAll-IsGood :
      (v : ℕ) (es fs : List (NamedTree C sha256))
      → KeptAll v es fs
      → All (λ e. IsGood C sha256 e.tree × (e.tree.version ≡ v)) fs
  KeptAll-IsGood v [] [] k = tt
  KeptAll-IsGood v [] (f ∷ fs) k = absurd k
  KeptAll-IsGood v (e ∷ es) [] k = tt
  KeptAll-IsGood v (e ∷ es) (f ∷ fs) k = ((k.0.1.good, k.0.1.at), KeptAll-IsGood v es fs k.1)

  fresh_infos-KeptAll :
      (v w : ℕ) (es fs : List (NamedTree C sha256))
      → KeptAll v es fs
      → fresh_infos w fs ≡ fresh_infos w es
  unfolding fresh_infos
  fresh_infos-KeptAll v w [] [] k = refl
  fresh_infos-KeptAll v w [] (f ∷ fs) k = absurd k
  fresh_infos-KeptAll v w (e ∷ es) [] k = absurd k
  fresh_infos-KeptAll v w (e ∷ es) (f ∷ fs) k =
      rw (k.0.0, k.0.1.hashes, fresh_infos-KeptAll v w es fs k.1) refl

  KeptAll-IsSteady :
      (v : ℕ) (es fs : List (NamedTree C sha256))
      → KeptAll v es fs
      → All (IsSteady C sha256 (v + 1)) fs
  KeptAll-IsSteady v [] [] k = tt
  KeptAll-IsSteady v [] (f ∷ fs) k = absurd k
  KeptAll-IsSteady v (e ∷ es) [] k = tt
  KeptAll-IsSteady v (e ∷ es) (f ∷ fs) k =
      ((k.0.1.good, ap (λ n. n + 1) k.0.1.at), KeptAll-IsSteady v es fs k.1)

  -- What a version that is saved looks like.
  pub record Saved (updates : Bool) (t t' : MultiTree C sha256) : Type 0 where
    pub kept : KeptAll (next_of C sha256 t) t.trees t'.trees
    pub version : t'.last_commit_info.version ≡ next_of C sha256 t
    pub infos :
        t'.last_commit_info.store_infos
        ≡ (if updates then fresh_infos (next_of C sha256 t) t.trees else [])
    pub initial : t'.initial_version ≡ t.initial_version

  finish_save-Saved :
      (updates : Bool) (t : MultiTree C sha256) (fs : List (NamedTree C sha256))
      (infos : List StoreInfo)
      → KeptAll (next_of C sha256 t) t.trees fs
      → Saved updates t (
          finish_save C sha256 updates (record t {
            trees = fs;
            last_commit_info = record { version = next_of C sha256 t; store_infos = infos };
          }))
  unfolding finish_save update_commit_info build_commit_info
  finish_save-Saved false t fs infos k = record {
    kept = k;
    version = refl;
    infos = refl;
    initial = refl;
  }
  finish_save-Saved true t fs infos k =
      let v = next_of C sha256 t in
      let (same, ks) = build_store_infos-KeptAll v fs (KeptAll-IsGood v t.trees fs k) in
      record {
        kept = KeptAll-trans v v t.trees fs (build_store_infos C sha256 fs).1 k ks;
        version = refl;
        infos = same ∙ fresh_infos-KeptAll v v t.trees fs k;
        initial = refl;
      }

  -- On a multi tree whose trees are good and have the version before the next one, a uint32,
  -- `SaveVersion` returns the next version, with every tree good and at that version under its name,
  -- with its entries and its hash. The commit info has that version and, where it is updated, the name
  -- of every store, the version and the root hash computed from nothing.
  pub save_multi_version-Saved :
      (updates : Bool) (t : MultiTree C sha256)
      → IsInStep C sha256 t
      → (t' : MultiTree C sha256) × (save_multi_version C sha256 updates t ≡ returns t')
        × Saved updates t t'
  unfolding save_multi_version
  save_multi_version-Saved updates t i =
      let (fs, run, k) = save_trees-KeptAll updates (next_of C sha256 t) t.trees i.fits i.steady in
      (
        finish_save C sha256 updates (record t {
          trees = fs;
          last_commit_info = record t.last_commit_info { version = next_of C sha256 t };
        }),
        rw (none_overflows-IsSteady (next_of C sha256 t) t.trees i.fits i.steady, run) refl,
        finish_save-Saved updates t fs t.last_commit_info.store_infos k,
      )

  -- The hashes of the store infos.
  abbrev pub hashes_of : List StoreInfo → List (Bytes × Bytes)
  hashes_of [] = []
  hashes_of (i ∷ is) = (i.name, i.hash) ∷ hashes_of is

  hashes_of-fresh_infos :
      (v w : ℕ) (es : List (NamedTree C sha256))
      → hashes_of (fresh_infos v es) ≡ hashes_of (fresh_infos w es)
  unfolding fresh_infos
  hashes_of-fresh_infos v w [] = refl
  hashes_of-fresh_infos v w (e ∷ es) = rw (hashes_of-fresh_infos v w es) refl

  IsSteady-IsGood :
      (next : ℕ) (es : List (NamedTree C sha256))
      → All (IsSteady C sha256 next) es
      → All (λ e. IsGood C sha256 e.tree × (e.tree.version ≡ next - 1)) es
  IsSteady-IsGood next [] h = tt
  IsSteady-IsGood next (e ∷ es) h =
      ((h.0.0, let v = h.0.1 in omega arith), IsSteady-IsGood next es h.1)

  -- On a multi tree as above the commit info of the working trees has the version, the names and the
  -- hashes of the one that `SaveVersion` then commits.
  pub working_commit_info-save_multi_version :
      (t : MultiTree C sha256)
      → IsInStep C sha256 t
      → (t' : MultiTree C sha256) × (save_multi_version C sha256 true t ≡ returns t')
        × ((working_commit_info C sha256 t).0.version ≡ t'.last_commit_info.version)
        × (hashes_of (working_commit_info C sha256 t).0.store_infos
            ≡ hashes_of t'.last_commit_info.store_infos)
  unfolding working_commit_info build_commit_info
  working_commit_info-save_multi_version t i =
      let (t', run, saved) = save_multi_version-Saved true t i in
      let v = next_of C sha256 t in
      let (infos, k) =
        build_store_infos-KeptAll (v - 1) t.trees (IsSteady-IsGood v t.trees i.steady) in
      (
        t',
        run,
        sym saved.version,
        ap hashes_of infos
            ∙ hashes_of-fresh_infos (v - 1) v t.trees
            ∙ sym (ap hashes_of saved.infos),
      )
