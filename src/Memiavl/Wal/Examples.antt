-- ===== src/Memiavl/Wal/Examples.antt =====
-- A concrete log file whose last entry is torn, and concrete versions.
use cronos_store.Common.{◌+◌, ◌<◌, ◌≡◌, some, List, [], ◌∷◌, ◌++◌, ltb, length, arith}
use cronos_store.Common.Bytes.{Bytes}
use cronos_store.Common.Slices.{first}
use cronos_store.Memiavl.Wal.{
  read_wal_entries, truncate_corrupted_tail, next_version, wal_index, wal_version,
}
use cronos_store.Memiavl.Wal.Entries.{
  frame, frames, frame-length, read_wal_entries-truncate_corrupted_tail,
}
use cronos_store.Memiavl.Wal.Versions.{wal_version-wal_index}

abbrev entries : List Bytes
entries = (1 ∷ 2 ∷ []) ∷ [] ∷ []

abbrev torn_entry : Bytes
torn_entry = 5 ∷ 6 ∷ 7 ∷ []

torn_entry-length : 2 < length (frame torn_entry)
torn_entry-length = omega (arith, frame-length torn_entry)

read_wal_entries-truncate_corrupted_tail_example :
    (read_wal_entries (frames entries ++ first 2 (frame torn_entry)) ≡ some (entries, ltb 0 2))
    × (truncate_corrupted_tail (frames entries ++ first 2 (frame torn_entry))
        ≡ some (frames entries))
read_wal_entries-truncate_corrupted_tail_example =
    read_wal_entries-truncate_corrupted_tail entries torn_entry 2 (omega arith, (omega arith, tt))
      (omega arith) torn_entry-length

wal_version-wal_index_example :
    (wal_version (wal_index 12 10) 10 ≡ 12)
    × (wal_index (next_version 12 10) 10 ≡ wal_index 12 10 + 1)
    × (wal_index (next_version 0 10) 10 ≡ 1)
wal_version-wal_index_example =
    wal_version-wal_index 12 10 (omega arith) (omega arith) (omega arith) (omega arith)
