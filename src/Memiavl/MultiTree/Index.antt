-- ===== src/Memiavl/MultiTree/Index.antt =====
-- `ApplyUpgrades` leaves the trees in the order of their names, with an index that finds each name
-- where it stands.
use cronos_store.Common.{
  ℕ, suc, ◌+◌, ◌≡◌, refl, Bool, true, false, Option, none, some, List, [], ◌∷◌, Bool-cases,
  Option-cases, if◌then◌else◌, inl, inr, arith, sym, ◌∙◌, ap,
}
use cronos_store.Common.Bytes.{Bytes, equal_bytes, equal_bytes_iff, ◌≺◌, ◌≼◌}
use cronos_store.Memiavl.NodeCache.{Cache}
use cronos_store.Memiavl.MultiTree.State.{
  TreeNameUpgrade, Result, returns, errors, panics, ◌>>=◌, find_index, NamedTree, MultiTree,
}
use cronos_store.Memiavl.MultiTree.Upgrade.{
  position, apply_each_upgrade, sort_trees, index_trees, rebuild_index, apply_upgrades,
}
use cronos_store.Memiavl.MultiTree.Sort.{IsSortedFrom, IsSorted, sort_trees-IsSorted}

-- What the code leaves satisfies `P` where it returns nil.
abbrev pub OnReturn : {A : Type 0} → Result A → (A → Type 0) → Type 0
OnReturn (returns a) P = P a
OnReturn (errors a) P = Unit
OnReturn panics P = Unit

pub OnReturn-bind :
    {A : Type 0} (P : A → Type 0) (m : Result A) (f : A → Result A)
    → ((a : A) → OnReturn (f a) P)
    → OnReturn (m >>= f) P
OnReturn-bind P (returns a) f k = k a
OnReturn-bind P (errors a) f k = tt
OnReturn-bind P panics f k = tt

-- The place of an element behind the first ones.
abbrev shifted : ℕ → Option ℕ → Option ℕ → Option ℕ
shifted i none other = other
shifted i (some j) other = some (i + j)

abbrev pub next_place : Option ℕ → Option ℕ
next_place none = none
next_place (some j) = some (suc j)

shifted-next_place :
    (i : ℕ) (o other : Option ℕ) → shifted i (next_place o) other ≡ shifted (suc i) o other
shifted-next_place i none other = refl
shifted-next_place i (some j) other = let e : i + suc j ≡ suc i + j = omega arith in ap some e

module _ (C : Cache) (sha256 : Bytes → Bytes) where
  -- The names from a name on are in order, and each once.
  abbrev pub IsOrderedFrom : Bytes → List (NamedTree C sha256) → Type 0
  IsOrderedFrom name [] = Unit
  IsOrderedFrom name (e ∷ es) = (name ≺ e.name) × IsOrderedFrom e.name es

  abbrev pub IsOrdered : List (NamedTree C sha256) → Type 0
  IsOrdered [] = Unit
  IsOrdered (e ∷ es) = IsOrderedFrom e.name es

  -- The trees are in order, and the index has each name where it stands, and no other name.
  pub record IsIndexed (t : MultiTree C sha256) : Type 0 where
    pub ordered : IsOrdered t.trees
    pub indexed : (name : Bytes) → find_index name t.trees_by_name ≡ position C sha256 name t.trees

  pub position_lem :
      (name : Bytes) (e : NamedTree C sha256) (es : List (NamedTree C sha256))
      → position C sha256 name (e ∷ es)
        ≡ (if equal_bytes e.name name then some 0 else next_place (position C sha256 name es))
  unfolding position
  position_lem name e es = elim (Option-cases (position C sha256 name es)) [
    | inl q ↦ rw q refl
    | inr (j, q) ↦ rw q refl
  ]

  index_trees-inv :
      (i : ℕ) (e : NamedTree C sha256) (es : List (NamedTree C sha256)) (entries : List (Bytes × ℕ))
      → (index_trees C sha256 i (e ∷ es) entries).0 ≡ true
      → (find_index e.name entries ≡ none)
        × (index_trees C sha256 i (e ∷ es) entries
            ≡ index_trees C sha256 (suc i) es ((e.name, i) ∷ entries))
  unfolding index_trees
  index_trees-inv i e es entries d = go (find_index e.name entries) refl d
    where
      go :
          (o : Option ℕ)
          → find_index e.name entries ≡ o
          → (◌≡◌ {A = Bool}
              (elim o as (λ x. Bool × List (Bytes × ℕ)) [
                | none ↦ index_trees C sha256 (suc i) es ((e.name, i) ∷ entries)
                | some j ↦ (false, entries)
              ]).0
              true)
          → (find_index e.name entries ≡ none)
            × (index_trees C sha256 i (e ∷ es) entries
                ≡ index_trees C sha256 (suc i) es ((e.name, i) ∷ entries))
      go none p d = (p, rw (index_trees, p) refl)
      go (some j) p d = cc

  -- A name that has an index already does not come again.
  index_trees-absent :
      (i k : ℕ) (es : List (NamedTree C sha256)) (entries : List (Bytes × ℕ)) (name : Bytes)
      → (index_trees C sha256 i es entries).0 ≡ true
      → find_index name entries ≡ some k
      → position C sha256 name es ≡ none
  index_trees-absent i k [] entries name d f = unfold position in refl
  index_trees-absent i k (e ∷ es) entries name d f =
      let (fresh, same) = index_trees-inv i e es entries d in
      elim (Bool-cases (equal_bytes e.name name)) [
        | inl q ↦
            let n : e.name ≡ name = (equal_bytes_iff e.name name).0 q in
            absurd (clash (sym fresh ∙ ap (λ z. find_index z entries) n ∙ f))
        | inr q ↦
            let rest =
              index_trees-absent (suc i) k es ((e.name, i) ∷ entries) name (cc)
                (unfold find_index in rw q f) in
            rw (position_lem name e es, q, rest) refl
      ]
    where
      clash : {k : ℕ} → none ≡ some k → ⊥
      clash h = cc

  index_trees-position :
      (i : ℕ) (es : List (NamedTree C sha256)) (entries : List (Bytes × ℕ)) (name : Bytes)
      → (index_trees C sha256 i es entries).0 ≡ true
      → find_index name (index_trees C sha256 i es entries).1
        ≡ shifted i (position C sha256 name es) (find_index name entries)
  unfolding find_index
  index_trees-position i [] entries name d = unfold position index_trees in refl
  index_trees-position i (e ∷ es) entries name d =
      let (fresh, same) = index_trees-inv i e es entries d in
      let more = index_trees-position (suc i) es ((e.name, i) ∷ entries) name cc in
      elim (Bool-cases (equal_bytes e.name name)) [
        | inl q ↦
            let found : find_index name ((e.name, i) ∷ entries) ≡ some i =
              unfold find_index in rw q refl in
            let gone = index_trees-absent (suc i) i es ((e.name, i) ∷ entries) name (cc) found in
            let here : i ≡ i + 0 = omega arith in
            rw (same, more, gone, found, position_lem name e es, q) (ap some here)
        | inr q ↦
            let skip : find_index name ((e.name, i) ∷ entries) ≡ find_index name entries =
              unfold find_index in rw q refl in
            rw (same, more, skip, position_lem name e es, q)
              (sym (shifted-next_place i (position C sha256 name es) (find_index name entries)))
      ]

  find_first :
      (name : Bytes) (i : ℕ) (entries : List (Bytes × ℕ))
      → find_index name ((name, i) ∷ entries) ≡ some i
  unfolding find_index
  find_first name i entries = let q = (equal_bytes_iff name name).1 refl in rw q refl

  index_trees-IsOrderedFrom :
      (i k : ℕ) (name : Bytes) (es : List (NamedTree C sha256)) (entries : List (Bytes × ℕ))
      → IsSortedFrom C sha256 name es
      → find_index name entries ≡ some k
      → (index_trees C sha256 i es entries).0 ≡ true
      → IsOrderedFrom name es
  index_trees-IsOrderedFrom i k name [] entries s f d = tt
  index_trees-IsOrderedFrom i k name (e ∷ es) entries s f d =
      let (fresh, same) = index_trees-inv i e es entries d in
      (
        strict s.0 (λ q. clash (sym fresh ∙ ap (λ z. find_index z entries) (sym q) ∙ f)),
        index_trees-IsOrderedFrom (suc i) i e.name es ((e.name, i) ∷ entries) s.1
            (find_first e.name i entries) cc,
      )
    where
      clash : {k : ℕ} → none ≡ some k → ⊥
      clash h = cc

      strict : {a b : Bytes} → a ≼ b → (a ≡ b → ⊥) → a ≺ b
      strict (inl h) n = h
      strict (inr h) n = absurd (n h)

  index_trees-IsOrdered :
      (es : List (NamedTree C sha256))
      → IsSorted C sha256 es
      → (index_trees C sha256 0 es []).0 ≡ true
      → IsOrdered es
  index_trees-IsOrdered [] s d = tt
  index_trees-IsOrdered (e ∷ es) s d =
      let (fresh, same) = index_trees-inv 0 e es [] d in
      index_trees-IsOrderedFrom 1 0 e.name es ((e.name, 0) ∷ []) s (find_first e.name 0 []) cc

  shifted_zero : (o : Option ℕ) → shifted 0 o none ≡ o
  shifted_zero none = refl
  shifted_zero (some j) = let e : 0 + j ≡ j = omega arith in ap some e

  rebuild_index-IsIndexed : (t : MultiTree C sha256) → OnReturn (rebuild_index C sha256 t) IsIndexed
  unfolding rebuild_index
  rebuild_index-IsIndexed t =
      let trees = sort_trees C sha256 t.trees in
      elim (Bool-cases (index_trees C sha256 0 trees []).0) [
        | inl e ↦ rw e (record {
          ordered = index_trees-IsOrdered trees (sort_trees-IsSorted C sha256 t.trees) e;
          indexed = λ name.
              index_trees-position 0 trees [] name e
              ∙ unfold find_index in shifted_zero (position C sha256 name trees);
        })
        | inr e ↦ rw e tt
      ]

  -- Where `ApplyUpgrades` returns nil for upgrades, the trees are in the order of their names, which
  -- are distinct, and `treesByName` has the place of every name, and no other name. No upgrades leave
  -- a multi tree that is so as it is.
  pub apply_upgrades-IsIndexed :
      (us : List TreeNameUpgrade) (t : MultiTree C sha256)
      → IsIndexed t
      → OnReturn (apply_upgrades C sha256 us t) IsIndexed
  unfolding apply_upgrades
  apply_upgrades-IsIndexed [] t i = i
  apply_upgrades-IsIndexed (u ∷ us) t i =
      OnReturn-bind IsIndexed
        (apply_each_upgrade C sha256 (u ∷ us) (record t { trees_by_name = [] })) _
        rebuild_index-IsIndexed
