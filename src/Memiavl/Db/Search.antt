-- ===== src/Memiavl/Db/Search.antt =====
-- The search of memiavl/db.go for the place of a new change set.
use cronos_store.Common.{
  ℕ, zero, suc, ◌+◌, ◌/◌, ◌<◌, ◌≤◌, ◌≡◌, refl, Bool, true, false, List, [], ◌∷◌, length, ltb,
  Bool-cases, inl, inr, arith, ◌∙◌, ap, subst,
}
use cronos_store.Common.Bytes.{Bytes}
use cronos_store.Memiavl.Db.Pending.{Numbered, search, not_below, goes_last, insert_index}

-- The test fails right before an index that is not the first.
abbrev pub FailsBefore : (ℕ → Bool) → ℕ → Type 0
FailsBefore f k = (m : ℕ) → suc m ≡ k → f m ≡ false

-- The test holds at an index below a bound.
abbrev pub HoldsAt : (ℕ → Bool) → ℕ → ℕ → Type 0
HoldsAt f n k = k < n → f k ≡ true

-- An index up to a bound, right before which the test fails and at which it holds.
abbrev pub Splits : (ℕ → Bool) → ℕ → ℕ → Type 0
Splits f n k = (k ≤ n) × FailsBefore f k × HoldsAt f n k

search-middle : (f : ℕ → Bool) (n h k : ℕ) → k ≡ h + 1 → f h ≡ false → FailsBefore f k
search-middle f n h k e q m p = let same : m ≡ h = omega arith in ap f same ∙ q

search_lem :
    (fuel : ℕ) (f : ℕ → Bool) (n i j : ℕ)
    → j ≤ i + fuel
    → i ≤ j
    → j ≤ n
    → FailsBefore f i
    → HoldsAt f n j
    → Splits f n (search fuel f i j)
unfolding search
search_lem zero f n i j enough le fits b a =
    let e : j ≡ i = omega arith in (omega arith, b, subst (HoldsAt f n) e a)
search_lem (suc fuel) f n i j enough le fits b a = elim (Bool-cases (ltb i j)) [
  | inl q ↦
      let h = (i + j) / 2 in
      let below : (i ≤ h) × (h < j) = ground arith in
      elim (Bool-cases (f h)) [
        | inl t ↦
            rw (search, q, t)
              (search_lem fuel f n i h (omega arith) below.0 (omega arith) b (λ p. t))
        | inr t ↦
            rw (search, q, t)
              (search_lem fuel f n (h + 1) j (omega arith) (omega arith) fits
                (search-middle f n h (h + 1) refl t) a)
      ]
  | inr q ↦ let e : j ≡ i = ground arith in rw (search, q) (omega arith, b, subst (HoldsAt f n) e a)
]

-- `goes_last` compares with the name at the last index.
goes_last-FailsBefore :
    (name : Bytes) (cs : List Numbered)
    → goes_last name cs ≡ true
    → FailsBefore (not_below cs name) (length cs)
unfolding goes_last not_below
goes_last-FailsBefore name [] e m p = absurd (omega arith)
goes_last-FailsBefore name ((i, c) ∷ []) e zero p = ground arith
goes_last-FailsBefore name ((i, c) ∷ []) e (suc m) p = absurd (omega arith)
goes_last-FailsBefore name (x ∷ y ∷ ys) e zero p = absurd (omega arith)
goes_last-FailsBefore name (x ∷ y ∷ ys) e (suc m) p =
    goes_last-FailsBefore name (y ∷ ys) e m (omega arith)

-- `sort.Search` runs on enough rounds: the index that `insertPendingChangeSet` inserts at is at most the
-- number of the change sets, the name right before it is below the name of the new one, and the name at
-- it is not.
pub insert_index-Splits :
    (name : Bytes) (cs : List Numbered)
    → Splits (not_below cs name) (length cs) (insert_index name cs)
unfolding insert_index
insert_index-Splits name cs = elim (Bool-cases (goes_last name cs)) [
  | inl q ↦ rw q (omega arith, goes_last-FailsBefore name cs q, λ h. absurd (omega arith))
  | inr q ↦ rw q (
      search_lem (suc (length cs)) (not_below cs name) (length cs) 0 (length cs) (omega arith)
        (omega arith) (omega arith) (λ m p. absurd (omega arith)) (λ h. absurd (omega arith)))
]
