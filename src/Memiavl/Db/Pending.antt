-- ===== src/Memiavl/Db/Pending.antt =====
-- The pending log of memiavl/db.go. The change sets of the log are objects that the map of the pending
-- change sets shares: each has a number here, which the map holds, and a write through the map shows in
-- the log. A Go map is its entries, the latest first.
use cronos_store.Common.{
  ℕ, zero, suc, ◌+◌, ◌/◌, Bool, true, false, Option, none, some, List, [], ◌∷◌, ◌++◌, length,
  get_elem?, ltb, ◌==◌, if◌then◌else◌,
}
use Prim.Native.Nat.Ordering.{lt}
use cronos_store.Common.Bytes.{Bytes, compare_bytes}
use cronos_store.Memiavl.NodeCache.{Cache}
use cronos_store.Memiavl.Tree.{KvPair}
use cronos_store.Memiavl.Traverse.{NamedChangeSet}
use cronos_store.Memiavl.MultiTree.State.{
  TreeNameUpgrade, Result, returns, errors, panics, find_index, MultiTree,
}
use cronos_store.Memiavl.MultiTree.Commit
use cronos_store.Memiavl.MultiTree.Commit.{save_multi_version}

-- A change set with its number.
abbrev pub Numbered : Type 0
Numbered = ℕ × NamedChangeSet

-- `pendingLog` and `cachedPendingChangesets`, with the number of the next object. A map may be nil.
pub record PendingLog : Type 0 where
  pub upgrades : List TreeNameUpgrade
  pub change_sets : List Numbered
  pub cached : Option (List (Bytes × ℕ))
  pub next_number : ℕ

unfoldable pub clear_map : PendingLog → PendingLog
clear_map p = record p { cached = elim p.cached [ none ↦ none | some m ↦ some [] ] }

unfoldable pub map_entries : List Numbered → List (Bytes × ℕ) → List (Bytes × ℕ)
map_entries [] m = m
map_entries ((i, c) ∷ cs) m = map_entries cs ((c.name, i) ∷ m)

unfoldable pub rebuild_map : PendingLog → PendingLog
unfolding map_entries
rebuild_map p = record p { cached = some (map_entries p.change_sets []) }

unfoldable pub number_from : ℕ → List NamedChangeSet → List Numbered
number_from i [] = []
number_from i (c ∷ cs) = (i, c) ∷ number_from (suc i) cs

unfoldable pub set_pending_change_sets : List NamedChangeSet → PendingLog → PendingLog
unfolding number_from clear_map rebuild_map
set_pending_change_sets cs p =
    let p' = record p {
      change_sets = number_from p.next_number cs;
      next_number = p.next_number + length cs;
    } in
    elim cs [ [] ↦ clear_map p' | c ∷ r ↦ rebuild_map p' ]

unfoldable pub ensure_map : PendingLog → PendingLog
unfolding clear_map rebuild_map
ensure_map p = elim p.change_sets [
  | [] ↦ clear_map p
  | c ∷ cs ↦ elim p.cached [ none ↦ rebuild_map p | some m ↦ p ]
]

-- `existing.Changeset.Pairs = append(existing.Changeset.Pairs, changeSet.Pairs...)`
unfoldable pub append_pairs : ℕ → List KvPair → List Numbered → List Numbered
append_pairs i ps [] = []
append_pairs i ps ((j, c) ∷ cs) =
    let rest = append_pairs i ps cs in
    if j == i then (j, record c { change_set = c.change_set ++ ps }) ∷ rest else (j, c) ∷ rest

-- The entries of a map; a nil map has none.
abbrev pub entries_of : Option (List (Bytes × ℕ)) → List (Bytes × ℕ)
entries_of none = []
entries_of (some m) = m

-- `sort.Search`, by the bounds of its search.
unfoldable pub search : ℕ → (ℕ → Bool) → ℕ → ℕ → ℕ
search zero f i j = i
search (suc fuel) f i j = elim (ltb i j) [
  | false ↦ i
  | true ↦ elim (f ((i + j) / 2)) [
    | false ↦ search fuel f ((i + j) / 2 + 1) j
    | true ↦ search fuel f i ((i + j) / 2)
  ]
]

-- Whether the name of the change set at an index is not below a name.
unfoldable pub not_below : List Numbered → Bytes → ℕ → Bool
not_below cs name i = elim (get_elem? cs i) [
  | none ↦ true
  | some (j, c) ↦ elim (compare_bytes c.name name) [ lt ↦ false | _ ↦ true ]
]

-- The shift by `append` and `copy`, for an index that is not above the length.
unfoldable pub insert_at : ℕ → Numbered → List Numbered → List Numbered
insert_at i x [] = x ∷ []
insert_at zero x (y ∷ ys) = x ∷ y ∷ ys
insert_at (suc i) x (y ∷ ys) = y ∷ insert_at i x ys

-- Whether the last name is below a name, or there is none.
unfoldable pub goes_last : Bytes → List Numbered → Bool
goes_last name [] = true
goes_last name ((i, c) ∷ []) = elim (compare_bytes c.name name) [ lt ↦ true | _ ↦ false ]
goes_last name (x ∷ y ∷ ys) = goes_last name (y ∷ ys)

-- The index that a change set goes to.
unfoldable pub insert_index : Bytes → List Numbered → ℕ
unfolding search not_below goes_last
insert_index name cs =
    if goes_last name cs
    then length cs
    else search (suc (length cs)) (not_below cs name) 0 (length cs)

unfoldable pub insert_pending_change_set : NamedChangeSet → PendingLog → PendingLog
unfolding insert_index insert_at
insert_pending_change_set c p = record p {
  change_sets = insert_at (insert_index c.name p.change_sets) (p.next_number, c) p.change_sets;
  cached = some ((c.name, p.next_number) ∷ entries_of p.cached);
  next_number = suc p.next_number;
}

-- What `applyChangeSet` does to the pending log.
unfoldable pub merge_pending : NamedChangeSet → PendingLog → PendingLog
unfolding ensure_map append_pairs insert_pending_change_set find_index
merge_pending c p =
    let p' = ensure_map p in
    elim (find_index c.name (entries_of p'.cached)) [
      | some i ↦ record p' { change_sets = append_pairs i c.change_set p'.change_sets }
      | none ↦ insert_pending_change_set c p'
    ]

module _ (C : Cache) (sha256 : Bytes → Bytes) where
  pub record Db : Type 0 where
    pub mtree : MultiTree C sha256
    pub pending : PendingLog
    pub read_only : Bool

  -- The result of the multi tree, in a database.
  abbrev pub with_mtree : Db → Result (MultiTree C sha256) → Result Db
  with_mtree db (returns t) = returns (record db { mtree = t })
  with_mtree db (errors t) = errors (record db { mtree = t })
  with_mtree db panics = panics

  -- `applyChangeSet`
  unfoldable pub merge_change_set : NamedChangeSet → Db → Result Db
  unfolding merge_pending
  merge_change_set c db =
      let db' = record db { pending = merge_pending c db.pending } in
      let applied = with_mtree db' (Commit.apply_change_set C sha256 c db.mtree) in
      if length c.change_set == 0 then returns db else if db.read_only then errors db else applied

  unfoldable pub merge_change_sets : List NamedChangeSet → Db → Result Db
  unfolding merge_change_set
  merge_change_sets [] db = returns db
  merge_change_sets (c ∷ cs) db = elim (merge_change_set c db) [
    | returns db' ↦ merge_change_sets cs db'
    | errors db' ↦ errors db'
    | panics ↦ panics
  ]

  -- `DB.ApplyChangeSets`
  unfoldable pub apply_to_db : List NamedChangeSet → Db → Result Db
  unfolding set_pending_change_sets merge_change_sets
  apply_to_db [] db = returns db
  apply_to_db (c ∷ cs) db =
      let set = record db { pending = set_pending_change_sets (c ∷ cs) db.pending } in
      let fast = with_mtree set (Commit.apply_change_sets C sha256 (c ∷ cs) db.mtree) in
      let merged : Result Db = elim db.pending.change_sets [
        | [] ↦ fast
        | x ∷ xs ↦ merge_change_sets (c ∷ cs) db
      ] in
      if db.read_only then errors db else merged
