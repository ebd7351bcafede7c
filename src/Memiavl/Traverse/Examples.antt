-- ===== src/Memiavl/Traverse/Examples.antt =====
-- A traversal of a concrete log, which collects the versions.
use cronos_store.Common.{refl, ℕ, ◌+◌, ◌-◌, ◌≡◌, max, Option, some, List, [], ◌∷◌, arith}
use cronos_store.Common.Bytes.{Bytes, equal_bytes}
use cronos_store.Memiavl.Tree.{KvPair}
use cronos_store.Memiavl.Traverse.{
  WalReader, traverse_state_changes, visit_range, visit_entries, visit_entry, change_set_of,
  resolve_range,
}
use cronos_store.Memiavl.Wal.{wal_version, wal_index}
use cronos_store.Memiavl.Traverse.Range.{until, each_version, traverse_state_changes-each_version}

abbrev bank : Bytes
bank = 98 ∷ []

abbrev three_entries : WalReader
three_entries = record {
  first_index = 2;
  last_index = 4;
  read_entry = λ idx. some (record { name = bank; change_set = [] } ∷ []);
}

abbrev collect_version : ℕ → List KvPair → List ℕ → Option (List ℕ)
collect_version version changes seen = some (version ∷ seen)

traverse_state_changes-each_version_example :
    traverse_state_changes three_entries 10 bank collect_version 5 12 []
    ≡ each_version three_entries 10 bank collect_version
        (until 12 (4 + max 1 10 - 1) + 1 - max 5 (2 + max 1 10 - 1))
        (max 5 (2 + max 1 10 - 1))
        []
traverse_state_changes-each_version_example =
    traverse_state_changes-each_version three_entries 10 bank collect_version 5 12 [] (omega arith)
      (omega arith) (omega arith) (omega arith)

-- The versions 11 and 12.
collects :
    traverse_state_changes three_entries 10 bank collect_version 5 12 [] ≡ some (12 ∷ 11 ∷ [])
unfolding traverse_state_changes visit_range visit_entries visit_entry change_set_of resolve_range
    wal_version wal_index equal_bytes
collects = refl
