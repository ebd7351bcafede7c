-- ===== src/Memiavl/Traverse.antt =====
-- `traverseStateChanges` of memiavl/tree.go, on the log that `waitWALForRead` returns. Versions are
-- int64s that are not negative; a negative end version is an error of its own. The log and the
-- decoding of its entries, which protobuf generates, are parameters, and so is the callback.
pub mod Range
mod Examples
use cronos_store.Common.{
  ℕ, zero, suc, ◌+◌, ◌-◌, Bool, true, false, ◌||◌, Option, none, some, List, [], ◌∷◌, ltb, ◌==◌,
  max, if◌then◌else◌,
}
use cronos_store.Common.Bytes.{Bytes, equal_bytes}
use cronos_store.Common.Panic.{◌>>=◌}
use cronos_store.Memiavl.Tree.{KvPair}
use cronos_store.Memiavl.Wal.{wal_index, wal_version}

pub record NamedChangeSet : Type 0 where
  pub name : Bytes
  pub change_set : List KvPair

-- The log with its first and last index, 0 where it is empty, and the change sets of the entry at an
-- index; `none` is an error of reading or decoding.
pub record WalReader : Type 0 where
  pub first_index : ℕ
  pub last_index : ℕ
  pub read_entry : ℕ → Option (List NamedChangeSet)

-- The first change set of the store in an entry; the empty one where there is none.
unfoldable pub change_set_of : Bytes → List NamedChangeSet → List KvPair
change_set_of store [] = []
change_set_of store (c ∷ cs) =
    let more = change_set_of store cs in if equal_bytes c.name store then c.change_set else more

-- The versions to visit: the requested ones that the log has; `none` where there are none.
unfoldable pub resolve_range : ℕ → ℕ → ℕ → ℕ → Option (ℕ × ℕ)
resolve_range start_version end_version first_available last_available =
    let stop =
      if (end_version == 0) || ltb last_available end_version
      then last_available
      else end_version in
    let start = if ltb start_version first_available then first_available else start_version in
    if ltb stop start then none else some (start, stop)

module _ {S : Type 0} (log : WalReader) (initial_version : ℕ) (store : Bytes)
    (fn : ℕ → List KvPair → S → Option S) where
  -- The entry at an index, given to the callback; `none` is an error.
  unfoldable pub visit_entry : ℕ → S → Option S
  unfolding change_set_of
  visit_entry idx s = do
    entry ← log.read_entry idx
    fn (wal_version idx initial_version) (change_set_of store entry) s

  -- The loop over a number of entries from an index.
  unfoldable pub visit_entries : ℕ → ℕ → S → Option S
  unfolding visit_entry
  visit_entries zero idx s = some s
  visit_entries (suc n) idx s = visit_entry idx s >>= visit_entries n (idx + 1)

  unfoldable pub visit_range : Option (ℕ × ℕ) → S → Option S
  unfolding visit_entries
  visit_range none s = some s
  visit_range (some (start, stop)) s =
      let start_index = wal_index start initial_version in
      let end_index = wal_index stop initial_version in
      visit_entries (end_index + 1 - start_index) start_index s

  unfoldable pub traverse_state_changes : ℕ → ℕ → S → Option S
  unfolding resolve_range visit_range
  traverse_state_changes start_version end_version s =
      if (log.first_index == 0) || (log.last_index == 0)
      then some s
      else visit_range
          (resolve_range start_version end_version (wal_version log.first_index initial_version)
            (wal_version log.last_index initial_version))
          s
