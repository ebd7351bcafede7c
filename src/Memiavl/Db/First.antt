-- ===== src/Memiavl/Db/First.antt =====
-- `setPendingChangeSets` of memiavl/db.go.
use cronos_store.Common.{
  ℕ, suc, ◌+◌, ◌<◌, ◌≤◌, ◌≡◌, ◌⊎◌, refl, false, some, List, [], ◌∷◌, ◌++◌, length, ◌==◌, All,
  All-imp, Bool-cases, inl, inr, arith, ◌∙◌,
}
use cronos_store.Common.Bytes.{Bytes, equal_bytes, equal_bytes_iff}
use cronos_store.Memiavl.Tree.{KvPair}
use cronos_store.Memiavl.Traverse.{NamedChangeSet}
use cronos_store.Memiavl.MultiTree.State.{find_index}
use cronos_store.Memiavl.Db.Pending.{
  Numbered, PendingLog, map_entries, rebuild_map, number_from, set_pending_change_sets,
}
use cronos_store.Memiavl.Db.Objects.{pairs_for, IsAbsent, IsFresh, IsLast, added, find_entry}
use cronos_store.Memiavl.Db.Merge.{IsMapped}

-- The pairs for a name in a list of change sets.
abbrev pub pairs_in : Bytes → List NamedChangeSet → List KvPair
pairs_in n [] = []
pairs_in n (c ∷ cs) = added c n ++ pairs_in n cs

pairs_for-number_from :
    (n : Bytes) (k : ℕ) (cs : List NamedChangeSet) → pairs_for n (number_from k cs) ≡ pairs_in n cs
unfolding number_from
pairs_for-number_from n k [] = refl
pairs_for-number_from n k (c ∷ cs) = elim (Bool-cases (equal_bytes c.name n)) [
  | inl q ↦ rw (q, pairs_for-number_from n (suc k) cs) refl
  | inr q ↦ rw q (pairs_for-number_from n (suc k) cs)
]

-- Numbers from one on are all different.
number_from-bounds :
    (k : ℕ) (cs : List NamedChangeSet)
    → All (λ x. (k ≤ x.0) × (x.0 < k + length cs)) (number_from k cs)
unfolding number_from
number_from-bounds k [] = tt
number_from-bounds k (c ∷ cs) = (
  (omega arith, omega arith),
  All-imp (λ x h. let (a, b) = h in (omega arith, omega arith)) (number_from (suc k) cs)
      (number_from-bounds (suc k) cs),
)

number_from-IsFresh : (k : ℕ) (cs : List NamedChangeSet) → IsFresh k (number_from (suc k) cs)
number_from-IsFresh k cs =
    All-imp (λ x h. let a = h.0 in ground arith) (number_from (suc k) cs)
      (number_from-bounds (suc k) cs)

IsLast-differs :
    (name : Bytes) (i k : ℕ) (cs : List Numbered)
    → IsFresh k cs
    → IsLast name i cs
    → (k == i) ≡ false
IsLast-differs name i k [] f l = absurd l
IsLast-differs name i k ((j, c) ∷ cs) f (inl (e, n, a, g)) = let h = f.0 in ground arith
IsLast-differs name i k ((j, c) ∷ cs) f (inr (e, l)) = IsLast-differs name i k cs f.1 l

map_entries-IsLast :
    (k : ℕ) (cs : List NamedChangeSet) (m : List (Bytes × ℕ)) (name : Bytes)
    → ((find_index name (map_entries (number_from k cs) m) ≡ find_index name m)
        × IsAbsent name (number_from k cs))
      ⊎ ((i : ℕ) × (find_index name (map_entries (number_from k cs) m) ≡ some i)
          × IsLast name i (number_from k cs))
unfolding map_entries number_from
map_entries-IsLast k [] m name = inl (refl, tt)
map_entries-IsLast k (c ∷ cs) m name = elim (map_entries-IsLast (suc k) cs ((c.name, k) ∷ m) name) [
  | inr (i, f, l) ↦
      inr (
        i,
        f,
        inr (IsLast-differs name i k (number_from (suc k) cs) (number_from-IsFresh k cs) l, l),
      )
  | inl (f, a) ↦ elim (Bool-cases (equal_bytes c.name name)) [
    | inl q ↦ inr (
      k,
      f ∙ rw (find_entry name c.name k m, q) refl,
      inl (refl, (equal_bytes_iff c.name name).0 q, a, number_from-IsFresh k cs),
    )
    | inr q ↦ inl (f ∙ rw (find_entry name c.name k m, q) refl, (q, a))
  ]
]

-- What the first change sets of a version leave: a map that tells them, with their pairs in order.
pub set_pending-IsMapped :
    (c : NamedChangeSet) (cs : List NamedChangeSet) (p : PendingLog)
    → IsMapped (set_pending_change_sets (c ∷ cs) p)
      × ((n : Bytes)
          → pairs_for n (set_pending_change_sets (c ∷ cs) p).change_sets ≡ pairs_in n (c ∷ cs))
unfolding set_pending_change_sets rebuild_map find_index number_from
set_pending-IsMapped c cs p = (
  record {
    tells = λ name. map_entries-IsLast p.next_number (c ∷ cs) [] name;
    below =
        All-imp (λ x h. h.1) (number_from p.next_number (c ∷ cs))
          (number_from-bounds p.next_number (c ∷ cs));
  },
  λ n. pairs_for-number_from n p.next_number (c ∷ cs),
)

number_from-names :
    (P : Bytes → Type 0) (k : ℕ) (cs : List NamedChangeSet)
    → All (λ c. P c.name) cs
    → All (λ x. P x.1.name) (number_from k cs)
unfolding number_from
number_from-names P k [] h = tt
number_from-names P k (c ∷ cs) h = (h.0, number_from-names P (suc k) cs h.1)

pub set_pending-names :
    (P : Bytes → Type 0) (c : NamedChangeSet) (cs : List NamedChangeSet) (p : PendingLog)
    → All (λ c. P c.name) (c ∷ cs)
    → All (λ x. P x.1.name) (set_pending_change_sets (c ∷ cs) p).change_sets
unfolding set_pending_change_sets rebuild_map
set_pending-names P c cs p h = number_from-names P p.next_number (c ∷ cs) h
