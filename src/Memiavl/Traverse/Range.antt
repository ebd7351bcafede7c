-- ===== src/Memiavl/Traverse/Range.antt =====
-- `traverseStateChanges` of memiavl/tree.go visits the versions of the range that the log has.
use cronos_store.Common.{
  ℕ, zero, suc, ◌+◌, ◌-◌, ◌%◌, ◌^◌, ◌<◌, ◌≤◌, ◌≡◌, refl, ap, ◌∙◌, [], ◌∷◌, false, ◌||◌, Option,
  none, some, List, ltb, ◌==◌, max, min, if◌then◌else◌, Bool-cases, inl, inr, arith,
}
use cronos_store.Common.Bytes.{Bytes, equal_bytes}
use cronos_store.Common.Panic.{◌>>=◌}
use cronos_store.Memiavl.Tree.{KvPair}
use cronos_store.Memiavl.Wal.{wal_index, wal_version}
use cronos_store.Memiavl.Traverse.{
  NamedChangeSet, WalReader, change_set_of, resolve_range, visit_entry, visit_entries, visit_range,
  traverse_state_changes,
}

-- The index of a version counts from the initial version, or from 1 where that is 0.
unfoldable pub index_of : ℕ → ℕ → ℕ
index_of v initial_version = v + 1 - max 1 initial_version

pub wal_index_lem : (v i : ℕ) → i < 2 ^ 32 → i ≤ v → v < 2 ^ 63 → wal_index v i ≡ index_of v i
unfolding wal_index index_of
wal_index_lem v i small h fits = elim (Bool-cases (ltb 1 i)) [
  | inl e ↦
      let late : 1 < i = ground arith in
      let a : (v + 2 ^ 64 - i + 1) % 2 ^ 64 ≡ v + 1 - max 1 i = omega arith in rw (e, a) refl
  | inr e ↦ let early : i ≤ 1 = ground arith in let a : v ≡ v + 1 - max 1 i = omega arith in rw e a
]

wal_version_lem : (n i : ℕ) → i < 2 ^ 32 → 1 ≤ n → n < 2 ^ 63 → wal_version n i ≡ n + max 1 i - 1
unfolding wal_version
wal_version_lem n i small h fits = elim (Bool-cases (ltb 1 i)) [
  | inl e ↦
      let late : 1 < i = ground arith in
      let a : (n + i - 1) % 2 ^ 64 ≡ n + max 1 i - 1 = omega arith in rw (e, a) refl
  | inr e ↦ let early : i ≤ 1 = ground arith in let a : n ≡ n + max 1 i - 1 = omega arith in rw e a
]

-- The change sets that have the name of a store, in their order.
abbrev pub named : Bytes → List NamedChangeSet → List NamedChangeSet
named store [] = []
named store (c ∷ cs) = if equal_bytes c.name store then c ∷ named store cs else named store cs

-- The pairs of the first change set, or no pairs.
abbrev pub first_pairs : List NamedChangeSet → List KvPair
first_pairs [] = []
first_pairs (c ∷ cs) = c.change_set

-- The pairs of the first change set for a store.
abbrev pub first_for : Bytes → List NamedChangeSet → List KvPair
first_for store entry = first_pairs (named store entry)

change_set_of-first_for :
    (store : Bytes) (entry : List NamedChangeSet)
    → change_set_of store entry ≡ first_for store entry
unfolding change_set_of
change_set_of-first_for store [] = refl
change_set_of-first_for store (c ∷ cs) = elim (Bool-cases (equal_bytes c.name store)) [
  | inl q ↦ rw q refl
  | inr q ↦ rw q (change_set_of-first_for store cs)
]

module _ {S : Type 0} (log : WalReader) (initial_version : ℕ) (store : Bytes)
    (fn : ℕ → List KvPair → S → Option S) where
  -- The callback on a number of versions from the one at an index, in order, each with what the log
  -- has for it; an error ends it.
  unfoldable pub each_version : ℕ → ℕ → S → Option S
  each_version zero v s = some s
  each_version (suc n) v s =
      (log.read_entry (v + 1 - max 1 initial_version) >>= λ entry. fn v (first_for store entry) s)
      >>= each_version n (v + 1)

  bind_ext : (o : Option S) (f g : S → Option S) → ((a : S) → f a ≡ g a) → (o >>= f) ≡ (o >>= g)
  bind_ext none f g h = refl
  bind_ext (some a) f g h = h a

  visit_entries-each_version :
      (n v : ℕ) (s : S)
      → initial_version < 2 ^ 32
      → max 1 initial_version ≤ v
      → v + n < 2 ^ 63
      → visit_entries log initial_version store fn n (v + 1 - max 1 initial_version) s
        ≡ each_version n v s
  unfolding visit_entries visit_entry each_version
  visit_entries-each_version zero v s small h fits = refl
  visit_entries-each_version (suc n) v s small h fits =
      let here : wal_version (v + 1 - max 1 initial_version) initial_version
          ≡ v + 1 - max 1 initial_version + max 1 initial_version - 1 =
        wal_version_lem (v + 1 - max 1 initial_version) initial_version small (omega arith)
          (omega arith) in
      let same : v + 1 - max 1 initial_version + max 1 initial_version - 1 ≡ v = omega arith in
      let next : v + 1 - max 1 initial_version + 1 ≡ v + 1 + 1 - max 1 initial_version =
        omega arith in
      rw (here, same, next)
        (ap
            (λ g.
              (log.read_entry (v + 1 - max 1 initial_version) >>= g)
              >>= visit_entries log initial_version store fn n (v + 1 + 1 - max 1 initial_version))
            (λ i entry. fn v (change_set_of-first_for store entry i) s)
          ∙ bind_ext _ _ _
              (λ a. visit_entries-each_version n (v + 1) a small (omega arith) (omega arith)))

-- The last version to visit: the end of the range where it is not 0, and not after the last that
-- there is.
abbrev pub until : ℕ → ℕ → ℕ
until end_version last = if end_version == 0 then last else min end_version last

until_lem : (e l : ℕ) → (if (e == 0) || ltb l e then l else e) ≡ until e l
until_lem e l = elim (Bool-cases (e == 0)) [
  | inl q ↦ rw q refl
  | inr q ↦ elim (Bool-cases (ltb l e)) [
    | inl r ↦ rw (q, r) (ground arith)
    | inr r ↦ rw (q, r) (ground arith)
  ]
]

from_lem : (s f : ℕ) → (if ltb s f then f else s) ≡ max s f
from_lem s f = elim (Bool-cases (ltb s f)) [
  | inl r ↦ rw r (ground arith)
  | inr r ↦ rw r (ground arith)
]

module _ {S : Type 0} (log : WalReader) (initial_version : ℕ) (store : Bytes)
    (fn : ℕ → List KvPair → S → Option S) where
  -- On a log that is not empty, `traverseStateChanges` gives the callback every version from the
  -- start, or the first of the log, to the end, or the last of the log, once and in order, with the
  -- pairs of the first change set that the entry of the version has for the store, or no pairs where it
  -- has none, up to the first error; it gives it no version where that range is empty. Versions are below 2 ^ 63 - 1, and the initial version is a uint32.
  pub traverse_state_changes-each_version :
      (start_version end_version : ℕ) (s : S)
      → initial_version < 2 ^ 32
      → 1 ≤ log.first_index
      → log.first_index ≤ log.last_index
      → log.last_index + initial_version + 1 < 2 ^ 63
      → let first = log.first_index + max 1 initial_version - 1 in
        let last = log.last_index + max 1 initial_version - 1 in
        let start = max start_version first in
        traverse_state_changes log initial_version store fn start_version end_version s
        ≡ each_version log initial_version store fn (until end_version last + 1 - start) start s
  unfolding traverse_state_changes resolve_range visit_range
  traverse_state_changes-each_version start_version end_version s small one ordered fits =
      let i = initial_version in
      let first = log.first_index + max 1 i - 1 in
      let last = log.last_index + max 1 i - 1 in
      let start = max start_version first in
      let stop = until end_version last in
      let a : (log.first_index == 0) ≡ false = ground arith in
      let b : (log.last_index == 0) ≡ false = ground arith in
      let f = wal_version_lem log.first_index i small one (omega arith) in
      let l = wal_version_lem log.last_index i small (omega arith) (omega arith) in
      let below : stop ≤ last = ground arith in
      rw (a, b, f, l, until_lem end_version last, from_lem start_version first)
        (elim (Bool-cases (ltb stop start)) [
          | inl q ↦
              let empty : stop + 1 - start ≡ 0 = ground arith in
              rw (q, empty) (unfold each_version in refl)
          | inr q ↦
              let there : start ≤ stop = ground arith in
              let p = wal_index_lem start i small (omega arith) (omega arith) in
              let r = wal_index_lem stop i small (omega arith) (omega arith) in
              let n : index_of stop i + 1 - index_of start i ≡ stop + 1 - start =
                unfold index_of in omega arith in
              rw (q, p, r, n)
                (unfold index_of in
                  visit_entries-each_version log i store fn (stop + 1 - start) start s small
                    (omega arith) (omega arith))
        ])
