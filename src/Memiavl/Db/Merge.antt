-- ===== src/Memiavl/Db/Merge.antt =====
-- The pending log of memiavl/db.go keeps the pairs for each name in the order in which they came.
use cronos_store.Common.{
  ℕ, suc, ◌<◌, ◌≡◌, refl, false, Option, none, some, List, [], ◌∷◌, ◌++◌, All, All-imp, Bool-cases,
  inl, inr, arith, sym, ◌∙◌, ap, subst,
}
use cronos_store.Common.Bytes.{Bytes, equal_bytes, equal_bytes_iff}
use cronos_store.Memiavl.Traverse.{NamedChangeSet}
use cronos_store.Memiavl.MultiTree.State.{TreeNameUpgrade, find_index}
use cronos_store.Memiavl.Db.Pending.{
  Numbered, PendingLog, clear_map, ensure_map, append_pairs, entries_of, insert_at, insert_index,
  insert_pending_change_set, merge_pending,
}
use cronos_store.Memiavl.Db.Objects.{
  pairs_for, IsAbsent, IsFresh, IsLast, HasLast, added, pairs_for-append_pairs, pairs_for-insert_at,
  append_pairs-IsBelow, append_pairs-names, append_pairs-HasLast, insert_at-All, insert_at-IsLast,
  insert_at-new, find_entry,
}

-- Numbers that are below the next one.
abbrev pub AreBelow : ℕ → List Numbered → Type 0
AreBelow k cs = All (λ x. x.0 < k) cs

-- A map that is nil has no change sets to tell, and any other has the last change set of every name.
abbrev pub Tells : Option (List (Bytes × ℕ)) → List Numbered → Type 0
Tells m [] = Unit
Tells none (c ∷ cs) = ⊥
Tells (some m) (c ∷ cs) = HasLast m (c ∷ cs)

pub record IsMapped (p : PendingLog) : Type 0 where
  pub tells : Tells p.cached p.change_sets
  pub below : AreBelow p.next_number p.change_sets

-- What `ensurePendingChangesetMap` leaves.
pub record Ensured (p p' : PendingLog) : Type 0 where
  pub last : HasLast (entries_of p'.cached) p'.change_sets
  pub sets : p'.change_sets ≡ p.change_sets
  pub number : p'.next_number ≡ p.next_number

pub ensure_map-Ensured :
    (us : List TreeNameUpgrade) (cs : List Numbered) (m : Option (List (Bytes × ℕ))) (k : ℕ)
    → Tells m cs
    → (let p : PendingLog = record {
      upgrades = us;
      change_sets = cs;
      cached = m;
      next_number = k;
    } in
        Ensured p (ensure_map p))
unfolding ensure_map clear_map find_index
ensure_map-Ensured us [] none k t = record {
  last = λ name. inl (refl, tt);
  sets = refl;
  number = refl;
}
ensure_map-Ensured us [] (some m) k t = record {
  last = λ name. inl (refl, tt);
  sets = refl;
  number = refl;
}
ensure_map-Ensured us (c ∷ cs) none k t = absurd t
ensure_map-Ensured us (c ∷ cs) (some m) k t = record { last = t; sets = refl; number = refl }

Tells-some : (m : List (Bytes × ℕ)) (cs : List Numbered) → HasLast m cs → Tells (some m) cs
Tells-some m [] h = tt
Tells-some m (c ∷ cs) h = h

Tells-found :
    (name : Bytes) (i : ℕ) (m : Option (List (Bytes × ℕ))) (cs : List Numbered)
    → HasLast (entries_of m) cs
    → find_index name (entries_of m) ≡ some i
    → Tells m cs
unfolding find_index
Tells-found name i none cs h f = cc
Tells-found name i (some m) cs h f = Tells-some m cs h

IsFresh-of_below : (k : ℕ) (cs : List Numbered) → AreBelow k cs → IsFresh k cs
IsFresh-of_below k cs h = All-imp (λ x l. ground arith) cs h

IsLast-below :
    (name : Bytes) (i k : ℕ) (cs : List Numbered) → AreBelow k cs → IsLast name i cs → i < k
IsLast-below name i k [] b l = absurd l
IsLast-below name i k ((j, c) ∷ cs) b (inl (e, n, a, f)) = let h = b.0 in omega arith
IsLast-below name i k ((j, c) ∷ cs) b (inr (e, l)) = IsLast-below name i k cs b.1 l

insert-HasLast :
    (c : NamedChangeSet) (k place : ℕ) (m : List (Bytes × ℕ)) (cs : List Numbered)
    → AreBelow k cs
    → IsAbsent c.name cs
    → HasLast m cs
    → HasLast ((c.name, k) ∷ m) (insert_at place (k, c) cs)
insert-HasLast c k place m cs below absent h name = elim (Bool-cases (equal_bytes c.name name)) [
  | inl q ↦
      let n : c.name ≡ name = (equal_bytes_iff c.name name).0 q in
      inr (
        k,
        rw (find_entry name c.name k m, q) refl,
        subst (λ z. IsLast z k (insert_at place (k, c) cs)) n
            (insert_at-new k place c cs absent (IsFresh-of_below k cs below)),
      )
  | inr q ↦ elim (h name) [
    | inl (f, a) ↦ inl (
      rw (find_entry name c.name k m, q) f,
      insert_at-All (λ x. equal_bytes x.1.name name ≡ false) place (k, c) cs q a,
    )
    | inr (i, f, l) ↦
        let small = IsLast-below name i k cs below l in
        inr (
          i,
          rw (find_entry name c.name k m, q) f,
          insert_at-IsLast name i place (k, c) cs q (ground arith) l,
        )
  ]
]

-- The pairs for each name after a change set is merged.
pub record Merged (c : NamedChangeSet) (p p' : PendingLog) : Type 1 where
  pub mapped : IsMapped p'
  pub pairs : (n : Bytes) → pairs_for n p'.change_sets ≡ pairs_for n p.change_sets ++ added c n
  pub names :
      (P : Bytes → Type 0)
      → P c.name
      → All (λ x. P x.1.name) p.change_sets
      → All (λ x. P x.1.name) p'.change_sets

merge-Merged :
    (c : NamedChangeSet) (p p' : PendingLog)
    → AreBelow p.next_number p.change_sets
    → Ensured p p'
    → Merged c p (elim (find_index c.name (entries_of p'.cached)) [
      | some i ↦ record p' { change_sets = append_pairs i c.change_set p'.change_sets }
      | none ↦ insert_pending_change_set c p'
    ])
unfolding insert_pending_change_set
merge-Merged c p p' below e =
    let below' : AreBelow p'.next_number p'.change_sets = rw (e.number, e.sets) below in
    elim (e.last c.name) [
      | inl (f, absent) ↦
          let place = insert_index c.name p'.change_sets in
          rw f (record {
            mapped = record {
              tells = Tells-some _ (insert_at place (p'.next_number, c) p'.change_sets) (
                  insert-HasLast c p'.next_number place (entries_of p'.cached) p'.change_sets below'
                    absent e.last);
              below =
                  insert_at-All (λ x. x.0 < suc p'.next_number) place (p'.next_number, c)
                    p'.change_sets (omega arith)
                    (All-imp (λ x h. omega arith) p'.change_sets below');
            };
            pairs = λ n.
                pairs_for-insert_at p'.next_number place c p'.change_sets n absent
                ∙ ap (λ z. pairs_for n z ++ added c n) e.sets;
            names = λ P pc h.
                insert_at-All (λ x. P x.1.name) place (p'.next_number, c) p'.change_sets pc
                  (subst (All (λ x. P x.1.name)) (sym e.sets) h);
          })
      | inr (i, f, last) ↦ rw f (record {
        mapped = record {
          tells =
              Tells-found c.name i p'.cached (append_pairs i c.change_set p'.change_sets)
                (append_pairs-HasLast (entries_of p'.cached) i c.change_set p'.change_sets e.last)
                f;
          below =
              append_pairs-IsBelow (λ x. x < p'.next_number) i c.change_set p'.change_sets below';
        };
        pairs = λ n.
            pairs_for-append_pairs c i p'.change_sets n last
            ∙ ap (λ z. pairs_for n z ++ added c n) e.sets;
        names = λ P pc h.
            append_pairs-names P i c.change_set p'.change_sets
              (subst (All (λ x. P x.1.name)) (sym e.sets) h);
      })
    ]

-- What `applyChangeSet` leaves of a pending log whose map tells its change sets: one whose map does,
-- with the pairs of the change set behind those that there were for the name, and the same pairs for
-- any other name, and with no name that was not there but that of the change set.
pub merge_pending-Merged :
    (c : NamedChangeSet) (p : PendingLog) → IsMapped p → Merged c p (merge_pending c p)
unfolding merge_pending
merge_pending-Merged c p m =
    merge-Merged c p (ensure_map p) m.below
      (ensure_map-Ensured p.upgrades p.change_sets p.cached p.next_number m.tells)
