-- ===== src/Memiavl/Wal.antt =====
-- The binary write-ahead log files of memiavl/wal.go, and the versions of their entries in
-- memiavl/multitree.go. The log of github.com/tidwall/wal writes an entry as its size, a varint, and
-- its data. JSON logs are not modelled.
pub mod Entries
pub mod Versions
mod Examples
use cronos_store.Common.{
  ℕ, zero, suc, ◌+◌, ◌-◌, ◌%◌, ◌^◌, ◌<◌, Bool, true, false, ◌&&◌, Option, none, some, List, [], ◌∷◌,
  length, ltb, ◌==◌, if◌then◌else◌,
}
use cronos_store.Common.Bytes.{Bytes}
use cronos_store.Common.Slices.{first, from}
use cronos_store.Common.Panic.{◌>>=◌}
use cronos_store.Common.Outcome.{Outcome, ok, eof, failed, panics}
use cronos_store.Common.Varint.{read_uvarint}

-- `loadNextBinaryEntry`: the length of the entry and of its size prefix; `none` is `ErrCorrupt`.
-- `binary.Uvarint` reads the bytes that `binary.ReadUvarint` reads, and fails where it fails.
unfoldable pub load_next_binary_entry : Bytes → Option (ℕ × ℕ)
load_next_binary_entry bz = elim (read_uvarint bz) [
  | ok (n, rest) ↦
      let header = length bz - length rest in
      if ltb (length rest) n then none else some (header + n, header)
  | _ ↦ none
]

-- The loop of `readWALEntries`: the entries, and whether bytes are left that form none. `none` where
-- the fuel runs out.
unfoldable pub read_entries : ℕ → Bytes → Option (List Bytes × Bool)
unfolding load_next_binary_entry
read_entries zero bz = none
read_entries (suc fuel) [] = some ([], false)
read_entries (suc fuel) (b ∷ bz) = elim (load_next_binary_entry (b ∷ bz)) [
  | none ↦ some ([], true)
  | some (n, header) ↦ do
    (entries, torn) ← read_entries fuel (from n (b ∷ bz))
    some (from header (first n (b ∷ bz)) ∷ entries, torn)
]

-- The content of a file that can be read.
unfoldable pub read_wal_entries : Bytes → Option (List Bytes × Bool)
unfolding read_entries
read_wal_entries file = read_entries (suc (length file)) file

-- The loop of `truncateCorruptedTail` over a binary log: the position it ends at.
unfoldable pub intact_length : ℕ → Bytes → Option ℕ
unfolding load_next_binary_entry
intact_length zero bz = none
intact_length (suc fuel) [] = some 0
intact_length (suc fuel) (b ∷ bz) = elim (load_next_binary_entry (b ∷ bz)) [
  | none ↦ some 0
  | some (n, header) ↦ do pos ← intact_length fuel (from n (b ∷ bz)); some (n + pos)
]

-- The content of the file afterwards.
unfoldable pub truncate_corrupted_tail : Bytes → Option Bytes
unfolding intact_length
truncate_corrupted_tail file = do
  pos ← intact_length (suc (length file)) file
  some (if ltb pos (length file) then first pos file else file)

-- Versions are int64s, by their bit pattern, and the initial version is a uint32.
unfoldable pub next_version : ℕ → ℕ → ℕ
next_version v initial_version =
    if (v == 0) && ltb 1 initial_version then initial_version else (v + 1) % 2 ^ 64

unfoldable pub wal_index : ℕ → ℕ → ℕ
wal_index v initial_version =
    if ltb 1 initial_version then (v + 2 ^ 64 - initial_version + 1) % 2 ^ 64 else v

unfoldable pub wal_version : ℕ → ℕ → ℕ
wal_version index initial_version =
    if ltb 1 initial_version then (index + initial_version - 1) % 2 ^ 64 else index
