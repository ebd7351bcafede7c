-- ===== src/Memiavl/Entries/Neighbours.antt =====
-- The entries on either side of a key in a sorted list.
use cronos_store.Common.{
  ℕ, zero, suc, ◌≤◌, ◌<◌, ◌≡◌, ◌⊎◌, inl, inr, none, some, List, [], ◌∷◌, arith, sym, get_elem?,
  subst, All, All-imp, Ordering-cases,
}
use cronos_store.Common.Bytes.{
  Bytes, compare_bytes, ◌≺◌, ◌≼◌, cmp_refl, gt_of_lt, lt_of_gt, eq_of_cmp, lt_trans, lt_of_le_of_lt,
}
use cronos_store.Memiavl.Entries.Defs.{Entry, lookup, rank, IsSorted, HasValues}
use cronos_store.Memiavl.Entries.Lists.{rank-Above}

some_eq : (a b : Entry) → some a ≡ some b → a ≡ b
some_eq a b p = cc

pub All-get_elem? :
    (P : Entry → Type 0) (xs : List Entry) (i : ℕ) (e : Entry)
    → All P xs
    → get_elem? xs i ≡ some e
    → P e
All-get_elem? P [] i e h g = cc
All-get_elem? P (x ∷ xs) zero e h g = subst P (some_eq x e g) h.0
All-get_elem? P (x ∷ xs) (suc i) e h g = All-get_elem? P xs i e h.1 g

pub lookup-get_elem? :
    (xs : List Entry) (i : ℕ) (e : Entry)
    → IsSorted xs
    → get_elem? xs i ≡ some e
    → lookup e.0 xs ≡ e.1
unfolding lookup
lookup-get_elem? [] i e h g = cc
lookup-get_elem? (x ∷ xs) zero e h g = ground (arith, cmp_refl x.0)
lookup-get_elem? (x ∷ xs) (suc i) e h g = ground (
  arith,
  lookup-get_elem? xs i e h.1 g,
  gt_of_lt x.0 e.0 (All-get_elem? (λ f. x.0 ≺ f.0) xs i e h.0 g),
)

-- Past a key that is not below, no key counts for the rank.
rank_stop :
    (key : Bytes) (x : Entry) (xs : List Entry)
    → All (λ (f : Entry). x.0 ≺ f.0) xs
    → key ≼ x.0
    → rank key xs ≡ 0
rank_stop key x xs h le = rank-Above key xs (All-imp (λ f p. lt_of_le_of_lt key x.0 f.0 le p) xs h)

not_below : (a b : Bytes) → (a ≺ b) ⊎ (b ≼ a)
not_below a b = elim (Ordering-cases (compare_bytes a b)) [
  | inl e ↦ inl e
  | inr (inl e) ↦ inr (inr (sym (eq_of_cmp a b e)))
  | inr (inr e) ↦ inr (inl (lt_of_gt a b e))
]

-- The entries before the rank of a key are below it.
pub below_rank :
    (key : Bytes) (xs : List Entry) (i : ℕ) (e : Entry)
    → IsSorted xs
    → i < rank key xs
    → get_elem? xs i ≡ some e
    → e.0 ≺ key
unfolding rank
below_rank key [] i e h f g = cc
below_rank key (x ∷ xs) zero e h f g = elim (not_below x.0 key) [
  | inl p ↦ subst (λ (e : Entry). e.0 ≺ key) (some_eq x e g) p
  | inr p ↦ absurd (ground (arith, rank_stop key x xs h.0 p, cmp_refl key, gt_of_lt key x.0))
]
below_rank key (x ∷ xs) (suc i) e h f g = elim (not_below x.0 key) [
  | inl p ↦ below_rank key xs i e h.1 (ground arith) g
  | inr p ↦ absurd (ground (arith, rank_stop key x xs h.0 p, cmp_refl key, gt_of_lt key x.0))
]

-- Those from the rank on are above it, if the key is not among them.
pub above_rank :
    (key : Bytes) (xs : List Entry) (i : ℕ) (e : Entry)
    → IsSorted xs
    → HasValues xs
    → lookup key xs ≡ none
    → rank key xs ≤ i
    → get_elem? xs i ≡ some e
    → key ≺ e.0
unfolding rank lookup
above_rank key [] i e h v n f g = cc
above_rank key (x ∷ xs) zero e h v n f g = elim (not_below x.0 key) [
  | inl p ↦ absurd (ground arith)
  | inr (inl p) ↦ subst (λ (e : Entry). key ≺ e.0) (some_eq x e g) p
  | inr (inr p) ↦ absurd (ground (arith, v.0, cmp_refl key))
]
above_rank key (x ∷ xs) (suc i) e h v n f g = elim (not_below x.0 key) [
  | inl p ↦ above_rank key xs i e h.1 v.1 (ground (arith, gt_of_lt x.0 key)) (ground arith) g
  | inr (inl p) ↦ lt_trans key x.0 e.0 p (All-get_elem? (λ f. x.0 ≺ f.0) xs i e h.0 g)
  | inr (inr p) ↦ absurd (ground (arith, v.0, cmp_refl key))
]
