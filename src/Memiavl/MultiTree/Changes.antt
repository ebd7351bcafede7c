-- ===== src/Memiavl/MultiTree/Changes.antt =====
-- The change sets of a `MultiTree` are changes of sorted maps, one for each name.
use cronos_store.Common.{
  ℕ, ◌+◌, length, arith, ◌≡◌, refl, Bool, true, false, none, some, List, [], ◌∷◌, All, Bool-cases,
  if◌then◌else◌, inl, inr, sym, ◌∙◌, ap, subst, fun_ext,
}
use cronos_store.Common.Bytes.{Bytes, equal_bytes, equal_bytes_iff}
use cronos_store.Memiavl.Entries.Defs.{Entry}
use cronos_store.Memiavl.NodeCache.{Cache}
use cronos_store.Memiavl.Tree.Refine.{change_all}
use cronos_store.Memiavl.Traverse.{NamedChangeSet}
use cronos_store.Memiavl.MultiTree.State.{
  Result, returns, errors, panics, find_index, NamedTree, MultiTree,
}
use cronos_store.Memiavl.MultiTree.Commit.{apply_change_set, apply_change_sets}
use cronos_store.Memiavl.MultiTree.Index.{IsIndexed}
use cronos_store.Memiavl.MultiTree.Stores.{
  less_room, change_stores, total_pairs, find_store, stores_of, HasRoom, Changed,
  position-find_store, apply_at-Changed,
}

module _ (C : Cache) (sha256 : Bytes → Bytes) (rest : ℕ) where
  pub record IsApplied (cs : List NamedChangeSet) (t : MultiTree C sha256) (done : Bool)
      (t' : MultiTree C sha256) : Type 0 where
    pub all_known : (change_stores cs (stores_of C sha256 t)).0 ≡ done
    pub content :
        (name : Bytes)
        → stores_of C sha256 t' name ≡ (change_stores cs (stores_of C sha256 t)).1 name
    pub good : All (HasRoom C sha256 rest) t'.trees
    pub indexed : IsIndexed C sha256 t'
    pub info : t'.last_commit_info ≡ t.last_commit_info

  -- What `apply_change_sets` leaves, with nil exactly where all names are known.
  abbrev pub Applies :
      List NamedChangeSet → MultiTree C sha256 → Result (MultiTree C sha256) → Type 0
  Applies cs t (returns t') = IsApplied cs t true t'
  Applies cs t (errors t') = IsApplied cs t false t'
  Applies cs t panics = ⊥

  along :
      (cs cs' : List NamedChangeSet) (t t' u : MultiTree C sha256) (done : Bool)
      → change_stores cs' (stores_of C sha256 t') ≡ change_stores cs (stores_of C sha256 t)
      → t.last_commit_info ≡ t'.last_commit_info
      → IsApplied cs t done u
      → IsApplied cs' t' done u
  along cs cs' t t' u done e i a = record {
    all_known = ap (λ p. p.0) e ∙ a.all_known;
    content = λ name. a.content name ∙ sym (ap (λ p. p.1 name) e);
    good = a.good;
    indexed = a.indexed;
    info = a.info ∙ i;
  }

  Applies-along :
      (cs cs' : List NamedChangeSet) (t t' : MultiTree C sha256)
      → change_stores cs' (stores_of C sha256 t') ≡ change_stores cs (stores_of C sha256 t)
      → t.last_commit_info ≡ t'.last_commit_info
      → (r : Result (MultiTree C sha256)) → Applies cs t r
      → Applies cs' t' r
  Applies-along cs cs' t t' e i (returns u) a = along cs cs' t t' u true e i a
  Applies-along cs cs' t t' e i (errors u) a = along cs cs' t t' u false e i a
  Applies-along cs cs' t t' e i panics a = absurd a

  next_stores :
      (c : NamedChangeSet) (cs : List NamedChangeSet) (xs : List Entry) (t : MultiTree C sha256)
      (es : List (NamedTree C sha256))
      → find_store C sha256 c.name t.trees ≡ some xs
      → Changed C sha256 c.name c.change_set (total_pairs cs + rest) t.trees es
      → change_stores (c ∷ cs) (stores_of C sha256 t)
        ≡ change_stores cs (λ name. find_store C sha256 name es)
  unfolding change_stores
  next_stores c cs xs t es f ch =
      let same : (λ name.
        if equal_bytes c.name name
        then some (change_all c.change_set xs)
        else stores_of C sha256 t name)
          ≡ (λ name. find_store C sha256 name es) =
        fun_ext at in
      rw (change_stores, f) (ap (change_stores cs) same)
    where
      at :
          (name : Bytes)
          → (if equal_bytes c.name name
              then some (change_all c.change_set xs)
              else stores_of C sha256 t name)
            ≡ find_store C sha256 name es
      at name = elim (Bool-cases (equal_bytes c.name name)) [
        | inl q ↦
            let n : c.name ≡ name = (equal_bytes_iff c.name name).0 q in
            let here : find_store C sha256 name t.trees ≡ some xs =
              subst (λ z. find_store C sha256 z t.trees ≡ some xs) n f in
            rw (ch.content name, q, here) refl
        | inr q ↦ rw (ch.content name, q) refl
      ]

  -- On a multi tree that is in order, with good trees that stay below 2 ^ 63 entries with as many more
  -- as there are pairs, `ApplyChangeSets` does not panic. It returns nil exactly where every change set
  -- names a store, and leaves each store with the pairs for its name applied in order, up to the first
  -- change set that names none; the trees stay good and in order, with the room that is left, and the
  -- commit info is as it was.
  pub apply_change_sets-Applies :
      (cs : List NamedChangeSet) (t : MultiTree C sha256)
      → All (HasRoom C sha256 (total_pairs cs + rest)) t.trees
      → IsIndexed C sha256 t
      → Applies cs t (apply_change_sets C sha256 cs t)
  unfolding apply_change_sets change_stores
  apply_change_sets-Applies [] t h i = record {
    all_known = refl;
    content = λ name. refl;
    good = less_room C sha256 (0 + rest) rest t.trees (omega arith) h;
    indexed = i;
    info = refl;
  }
  apply_change_sets-Applies (c ∷ cs) t h i = elim (position-find_store C sha256 c.name t.trees) [
    | inl (p, f) ↦
        let missing : find_index c.name t.trees_by_name ≡ none = i.indexed c.name ∙ p in
        rw (apply_change_set, missing)
          (record {
            all_known = rw (change_stores, f) refl;
            content = λ name. rw (change_stores, f) refl;
            good = less_room C sha256 (total_pairs (c ∷ cs) + rest) rest t.trees (omega arith) h;
            indexed = i;
            info = refl;
          })
    | inr (k, xs, p, f) ↦
        let found : find_index c.name t.trees_by_name ≡ some k = i.indexed c.name ∙ p in
        let (es, run, ch) =
          apply_at-Changed C sha256 c.name c.change_set (total_pairs cs + rest) k t.trees p (
            less_room C sha256 (total_pairs (c ∷ cs) + rest)
              (length c.change_set + (total_pairs cs + rest)) t.trees (omega arith) h) in
        let t1 : MultiTree C sha256 = record t { trees = es } in
        let i1 : IsIndexed C sha256 t1 = record {
          ordered = ch.ordered i.ordered;
          indexed = λ name. i.indexed name ∙ sym (ch.positions name);
        } in
        rw (apply_change_set, found, run)
          (Applies-along cs (c ∷ cs) t1 t (next_stores c cs xs t es f ch) refl
            (apply_change_sets C sha256 cs t1) (apply_change_sets-Applies cs t1 ch.room i1))
  ]
