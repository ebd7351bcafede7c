-- ===== src/Memiavl/Db/Track.antt =====
-- The stores after the change sets of the pending log of memiavl/db.go, name by name.
use cronos_store.Common.{
  ◌≡◌, refl, true, Option, none, some, List, [], ◌∷◌, ◌++◌, map, if◌then◌else◌, All, Bool-cases,
  inl, inr, sym, ◌∙◌, ap, subst,
}
use cronos_store.Common.Bytes.{Bytes, equal_bytes, equal_bytes_iff}
use cronos_store.Memiavl.Entries.Defs.{Entry}
use cronos_store.Memiavl.Tree.{KvPair}
use cronos_store.Memiavl.Tree.Refine.{change_all}
use cronos_store.Memiavl.Traverse.{NamedChangeSet}
use cronos_store.Memiavl.MultiTree.Stores.{Stores, change_stores, changed}
use cronos_store.Memiavl.Db.Pending.{Numbered}
use cronos_store.Memiavl.Db.Objects.{pairs_for, added}
use cronos_store.Memiavl.Db.First.{pairs_in}

change_all_append :
    (ps qs : List KvPair) (xs : List Entry)
    → change_all (ps ++ qs) xs ≡ change_all qs (change_all ps xs)
unfolding change_all
change_all_append [] qs xs = refl
change_all_append (p ∷ ps) qs xs = change_all_append ps qs _

pub changed_append :
    (ps qs : List KvPair) (o : Option (List Entry))
    → changed (ps ++ qs) o ≡ changed qs (changed ps o)
changed_append ps qs none = refl
changed_append ps qs (some xs) = ap some (change_all_append ps qs xs)

pub changed_none : (o : Option (List Entry)) → changed [] o ≡ o
unfolding change_all
changed_none none = refl
changed_none (some xs) = refl

-- Every change set names a store.
abbrev pub AreKnown : List NamedChangeSet → Stores → Type 0
AreKnown cs m = All (λ c. (xs : List Entry) × (m c.name ≡ some xs)) cs

pub changed-AreKnown :
    (cs : List NamedChangeSet) (m m' : Stores) (ps : Bytes → List KvPair)
    → ((n : Bytes) → m' n ≡ changed (ps n) (m n))
    → AreKnown cs m
    → AreKnown cs m'
changed-AreKnown [] m m' ps h k = tt
changed-AreKnown (c ∷ cs) m m' ps h k =
    let (xs, e) = k.0 in
    (
      (change_all (ps c.name) xs, h c.name ∙ ap (changed (ps c.name)) e),
      changed-AreKnown cs m m' ps h k.1,
    )

-- Known change sets give each store the pairs for its name.
pub change_stores-changed :
    (cs : List NamedChangeSet) (m : Stores)
    → AreKnown cs m
    → ((change_stores cs m).0 ≡ true)
      × ((n : Bytes) → (change_stores cs m).1 n ≡ changed (pairs_in n cs) (m n))
unfolding change_stores
change_stores-changed [] m k = (refl, λ n. sym (changed_none (m n)))
change_stores-changed (c ∷ cs) m k =
    let (xs, e) = k.0 in
    let m1 : Stores =
      λ n. if equal_bytes c.name n then some (change_all c.change_set xs) else m n in
    let step : (n : Bytes) → m1 n ≡ changed (added c n) (m n) = λ n. at c m xs e n in
    let (t, f) = change_stores-changed cs m1 (changed-AreKnown cs m m1 (added c) step k.1) in
    (
      rw (change_stores, e) t,
      λ n.
          rw (change_stores, e)
            (f n
              ∙ ap (changed (pairs_in n cs)) (step n)
              ∙ sym (changed_append (added c n) (pairs_in n cs) (m n))),
    )
  where
    at :
        (c : NamedChangeSet) (m : Stores) (xs : List Entry)
        → m c.name ≡ some xs
        → (n : Bytes)
        → (if equal_bytes c.name n then some (change_all c.change_set xs) else m n)
          ≡ changed (added c n) (m n)
    at c m xs e n = elim (Bool-cases (equal_bytes c.name n)) [
      | inl q ↦
          let name : c.name ≡ n = (equal_bytes_iff c.name n).0 q in
          let here : m n ≡ some xs = subst (λ z. m z ≡ some xs) name e in rw (q, here) refl
      | inr q ↦ rw (q, changed_none (m n)) refl
    ]

pub pairs_in-map :
    (n : Bytes) (cs : List Numbered) → pairs_in n (map (λ x. x.1) cs) ≡ pairs_for n cs
pairs_in-map n [] = refl
pairs_in-map n ((i, c) ∷ cs) = elim (Bool-cases (equal_bytes c.name n)) [
  | inl q ↦ rw (q, pairs_in-map n cs) refl
  | inr q ↦ rw q (pairs_in-map n cs)
]
