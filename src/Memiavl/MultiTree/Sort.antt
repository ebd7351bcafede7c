-- ===== src/Memiavl/MultiTree/Sort.antt =====
-- The sort of the trees by their names in memiavl/multitree.go.
use mathlib.Core.List.{Permᴰ}
use mathlib.Core.List.Permᴰ.{nil, cons, swap, trans}
use mathlib.Core.List.Permᴰ
use cronos_store.Common.{◌≡◌, ◌⊎◌, refl, List, [], ◌∷◌, Ordering-cases, inl, inr, sym}
use cronos_store.Common.Bytes.{Bytes, compare_bytes, ◌≼◌, eq_of_cmp, lt_of_gt}
use cronos_store.Memiavl.NodeCache.{Cache}
use cronos_store.Memiavl.MultiTree.State.{NamedTree}
use cronos_store.Memiavl.MultiTree.Upgrade.{insert_tree, sort_trees}

module _ (C : Cache) (sha256 : Bytes → Bytes) where
  -- What comes out of the sort: each name not after the next.
  abbrev pub IsSortedFrom : Bytes → List (NamedTree C sha256) → Type 0
  IsSortedFrom name [] = Unit
  IsSortedFrom name (e ∷ es) = (name ≼ e.name) × IsSortedFrom e.name es

  abbrev pub IsSorted : List (NamedTree C sha256) → Type 0
  IsSorted [] = Unit
  IsSorted (e ∷ es) = IsSortedFrom e.name es

  -- Where an insertion goes.
  insert_tree-cases :
      (e f : NamedTree C sha256) (fs : List (NamedTree C sha256))
      → ((f.name ≼ e.name) × (insert_tree C sha256 e (f ∷ fs) ≡ f ∷ insert_tree C sha256 e fs))
        ⊎ ((e.name ≼ f.name) × (insert_tree C sha256 e (f ∷ fs) ≡ e ∷ f ∷ fs))
  unfolding insert_tree
  insert_tree-cases e f fs = elim (Ordering-cases (compare_bytes f.name e.name)) [
    | inl q ↦ inl (inl q, rw (insert_tree, q) refl)
    | inr (inl q) ↦ inr (inr (sym (eq_of_cmp f.name e.name q)), rw (insert_tree, q) refl)
    | inr (inr q) ↦ inr (inl (lt_of_gt f.name e.name q), rw (insert_tree, q) refl)
  ]

  insert_tree-IsSortedFrom :
      (name : Bytes) (e : NamedTree C sha256) (es : List (NamedTree C sha256))
      → name ≼ e.name
      → IsSortedFrom name es
      → IsSortedFrom name (insert_tree C sha256 e es)
  insert_tree-IsSortedFrom name e [] h s = unfold insert_tree in (h, tt)
  insert_tree-IsSortedFrom name e (f ∷ fs) h s = elim (insert_tree-cases e f fs) [
    | inl (q, r) ↦ rw r (s.0, insert_tree-IsSortedFrom f.name e fs q s.1)
    | inr (q, r) ↦ rw r (h, (q, s.1))
  ]

  insert_tree-IsSorted :
      (e : NamedTree C sha256) (es : List (NamedTree C sha256))
      → IsSorted es
      → IsSorted (insert_tree C sha256 e es)
  insert_tree-IsSorted e [] s = unfold insert_tree in tt
  insert_tree-IsSorted e (f ∷ fs) s = elim (insert_tree-cases e f fs) [
    | inl (q, r) ↦ rw r (insert_tree-IsSortedFrom f.name e fs q s)
    | inr (q, r) ↦ rw r (q, s)
  ]

  pub sort_trees-IsSorted : (es : List (NamedTree C sha256)) → IsSorted (sort_trees C sha256 es)
  unfolding sort_trees
  sort_trees-IsSorted [] = tt
  sort_trees-IsSorted (e ∷ es) =
      insert_tree-IsSorted e (sort_trees C sha256 es) (sort_trees-IsSorted es)

  insert_tree-Perm :
      (e : NamedTree C sha256) (es : List (NamedTree C sha256))
      → Permᴰ (e ∷ es) (insert_tree C sha256 e es)
  insert_tree-Perm e [] = unfold insert_tree in Permᴰ.refl (e ∷ [])
  insert_tree-Perm e (f ∷ fs) = elim (insert_tree-cases e f fs) [
    | inl (q, r) ↦ rw r (trans (swap refl refl) (cons refl (insert_tree-Perm e fs)))
    | inr (q, r) ↦ rw r (Permᴰ.refl (e ∷ f ∷ fs))
  ]

  pub sort_trees-Perm : (es : List (NamedTree C sha256)) → Permᴰ es (sort_trees C sha256 es)
  unfolding sort_trees
  sort_trees-Perm [] = nil
  sort_trees-Perm (e ∷ es) =
      trans (cons refl (sort_trees-Perm es)) (insert_tree-Perm e (sort_trees C sha256 es))
