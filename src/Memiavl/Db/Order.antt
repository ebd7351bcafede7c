-- ===== src/Memiavl/Db/Order.antt =====
-- The order of the change sets in the pending log of memiavl/db.go.
use cronos_store.Common.{
  ℕ, zero, suc, ◌⊎◌, ◌≤◌, ◌≡◌, refl, true, false, none, some, List, [], ◌∷◌, length, ◌==◌,
  Bool-cases, inl, inr, arith, sym, ◌∙◌, ap, subst,
}
use cronos_store.Common.Bytes.{Bytes, equal_bytes, compare-cases, ◌≺◌, lt_trans}
use cronos_store.Memiavl.Tree.{KvPair}
use cronos_store.Memiavl.Traverse.{NamedChangeSet}
use cronos_store.Memiavl.MultiTree.State.{find_index}
use cronos_store.Memiavl.Db.Pending.{
  Numbered, PendingLog, not_below, insert_at, insert_index, append_pairs, insert_pending_change_set,
  ensure_map, entries_of, merge_pending,
}
use cronos_store.Memiavl.Db.Objects.{IsAbsent}
use cronos_store.Memiavl.Db.Merge.{IsMapped, Ensured, ensure_map-Ensured}
use cronos_store.Memiavl.Db.Search.{FailsBefore, Splits, insert_index-Splits}

place_of : (name : Bytes) (d : Bytes) → (equal_bytes d name ≡ false) → (d ≺ name) ⊎ (name ≺ d)
unfolding equal_bytes
place_of name d h = elim (compare-cases d name) [
  | inl q ↦ inl q.0
  | inr (inl q) ↦ let r = q.0 in absurd (ground arith)
  | inr (inr q) ↦ inr q.1
]

-- The names from a name on are in order, and each once.
abbrev pub IsOrderedFrom : Bytes → List Numbered → Type 0
IsOrderedFrom name [] = Unit
IsOrderedFrom name (x ∷ xs) = (name ≺ x.1.name) × IsOrderedFrom x.1.name xs

abbrev pub IsOrdered : List Numbered → Type 0
IsOrdered [] = Unit
IsOrdered (x ∷ xs) = IsOrderedFrom x.1.name xs

below_of :
    (name : Bytes) (x : Numbered) (cs : List Numbered)
    → not_below (x ∷ cs) name 0 ≡ false
    → x.1.name ≺ name
unfolding not_below
below_of name x cs e = ground arith

above_of :
    (name : Bytes) (x : Numbered) (cs : List Numbered)
    → not_below (x ∷ cs) name 0 ≡ true
    → equal_bytes x.1.name name ≡ false
    → name ≺ x.1.name
unfolding not_below
above_of name x cs e h = elim (place_of name x.1.name h) [
  | inl q ↦ absurd (ground arith)
  | inr q ↦ q
]

not_below-tail :
    (name : Bytes) (x : Numbered) (cs : List Numbered) (m : ℕ)
    → not_below (x ∷ cs) name (suc m) ≡ not_below cs name m
unfolding not_below
not_below-tail name x cs m = refl

-- The first name is below one that the name at an index is below.
first_below :
    (name : Bytes) (x : Numbered) (cs : List Numbered) (k : ℕ)
    → IsOrderedFrom x.1.name cs
    → k ≤ length cs
    → FailsBefore (not_below (x ∷ cs) name) (suc k)
    → x.1.name ≺ name
first_below name x cs zero o le b = below_of name x cs (b 0 refl)
first_below name x [] (suc k) o le b = absurd (omega arith)
first_below name x (y ∷ ys) (suc k) o le b = lt_trans x.1.name y.1.name name o.0 (
    first_below name y ys k o.1 (omega arith)
      (λ m p. sym (not_below-tail name x (y ∷ ys) m) ∙ b (suc m) (ap suc p)))

Splits-tail :
    (name : Bytes) (x : Numbered) (cs : List Numbered) (k : ℕ)
    → Splits (not_below (x ∷ cs) name) (suc (length cs)) (suc k)
    → Splits (not_below cs name) (length cs) k
Splits-tail name x cs k (le, b, a) = (
  omega arith,
  λ m p. sym (not_below-tail name x cs m) ∙ b (suc m) (ap suc p),
  λ h. sym (not_below-tail name x cs k) ∙ a (omega arith),
)

insert_at-IsOrderedFrom :
    (lo : Bytes) (new : Numbered) (cs : List Numbered) (k : ℕ)
    → IsOrderedFrom lo cs
    → lo ≺ new.1.name
    → IsAbsent new.1.name cs
    → Splits (not_below cs new.1.name) (length cs) k
    → IsOrderedFrom lo (insert_at k new cs)
unfolding insert_at
insert_at-IsOrderedFrom lo new [] k o h absent s = (h, tt)
insert_at-IsOrderedFrom lo new (y ∷ ys) zero o h absent s =
    (h, (above_of new.1.name y ys (s.2 (omega arith)) absent.0, o.1))
insert_at-IsOrderedFrom lo new (y ∷ ys) (suc k) o h absent s =
    let t = Splits-tail new.1.name y ys k s in
    (
      o.0,
      insert_at-IsOrderedFrom y.1.name new ys k o.1 (first_below new.1.name y ys k o.1 t.0 s.1)
          absent.1 t,
    )

insert_at-IsOrdered :
    (new : Numbered) (cs : List Numbered) (k : ℕ)
    → IsOrdered cs
    → IsAbsent new.1.name cs
    → Splits (not_below cs new.1.name) (length cs) k
    → IsOrdered (insert_at k new cs)
unfolding insert_at
insert_at-IsOrdered new [] k o absent s = tt
insert_at-IsOrdered new (y ∷ ys) zero o absent s =
    (above_of new.1.name y ys (s.2 (omega arith)) absent.0, o)
insert_at-IsOrdered new (y ∷ ys) (suc k) o absent s =
    let t = Splits-tail new.1.name y ys k s in
    insert_at-IsOrderedFrom y.1.name new ys k o (first_below new.1.name y ys k o t.0 s.1) absent.1 t

append_pairs-IsOrderedFrom :
    (lo : Bytes) (i : ℕ) (ps : List KvPair) (cs : List Numbered)
    → IsOrderedFrom lo cs
    → IsOrderedFrom lo (append_pairs i ps cs)
unfolding append_pairs
append_pairs-IsOrderedFrom lo i ps [] o = tt
append_pairs-IsOrderedFrom lo i ps ((j, c) ∷ cs) o = elim (Bool-cases (j == i)) [
  | inl q ↦ rw q (o.0, append_pairs-IsOrderedFrom c.name i ps cs o.1)
  | inr q ↦ rw q (o.0, append_pairs-IsOrderedFrom c.name i ps cs o.1)
]

append_pairs-IsOrdered :
    (i : ℕ) (ps : List KvPair) (cs : List Numbered)
    → IsOrdered cs
    → IsOrdered (append_pairs i ps cs)
unfolding append_pairs
append_pairs-IsOrdered i ps [] o = tt
append_pairs-IsOrdered i ps ((j, c) ∷ cs) o = elim (Bool-cases (j == i)) [
  | inl q ↦ rw q (append_pairs-IsOrderedFrom c.name i ps cs o)
  | inr q ↦ rw q (append_pairs-IsOrderedFrom c.name i ps cs o)
]

-- The change sets of a log are in order.
abbrev pub IsInOrder : PendingLog → Type 0
IsInOrder p = IsOrdered p.change_sets

merge-IsInOrder :
    (c : NamedChangeSet) (p p' : PendingLog)
    → Ensured p p'
    → IsOrdered p'.change_sets
    → IsInOrder (elim (find_index c.name (entries_of p'.cached)) [
      | some i ↦ record p' { change_sets = append_pairs i c.change_set p'.change_sets }
      | none ↦ insert_pending_change_set c p'
    ])
unfolding insert_pending_change_set
merge-IsInOrder c p p' e o = elim (e.last c.name) [
  | inl (f, absent) ↦ rw f (
      insert_at-IsOrdered (p'.next_number, c) p'.change_sets (insert_index c.name p'.change_sets) o
        absent (insert_index-Splits c.name p'.change_sets))
  | inr (i, f, last) ↦ rw f (append_pairs-IsOrdered i c.change_set p'.change_sets o)
]

-- `applyChangeSet` keeps a pending log whose map tells its change sets in the order of their names, each
-- of them once.
pub merge_pending-IsInOrder :
    (c : NamedChangeSet) (p : PendingLog) → IsMapped p → IsInOrder p → IsInOrder (merge_pending c p)
unfolding merge_pending
merge_pending-IsInOrder c p m o =
    let e = ensure_map-Ensured p.upgrades p.change_sets p.cached p.next_number m.tells in
    merge-IsInOrder c p (ensure_map p) e (subst IsOrdered (sym e.sets) o)
