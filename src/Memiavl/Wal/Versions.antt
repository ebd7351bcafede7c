-- ===== src/Memiavl/Wal/Versions.antt =====
-- The indices that memiavl/multitree.go gives the entries of the write-ahead log.
use cronos_store.Common.{
  ℕ, ◌+◌, ◌-◌, ◌%◌, ◌^◌, ◌<◌, ◌≤◌, ◌≡◌, refl, false, ltb, ◌==◌, Bool-cases, inl, inr, arith,
}
use cronos_store.Memiavl.Wal.{next_version, wal_index, wal_version}

-- From the initial version on, a uint32, `walVersion` undoes `walIndex`, the next version has the next
-- index, and the first version of an empty store has index 1. Versions are below 2 ^ 63 - 1.
pub wal_version-wal_index :
    (v initial_version : ℕ)
    → initial_version < 2 ^ 32
    → initial_version ≤ v
    → 1 ≤ v
    → v + 1 < 2 ^ 63
    → (wal_version (wal_index v initial_version) initial_version ≡ v)
      × (wal_index (next_version v initial_version) initial_version
          ≡ wal_index v initial_version + 1)
      × (wal_index (next_version 0 initial_version) initial_version ≡ 1)
unfolding wal_version wal_index next_version
wal_version-wal_index v i small from_initial positive fits =
    let started : (v == 0) ≡ false = ground arith in
    elim (Bool-cases (ltb 1 i)) [
      | inl e ↦
          let late : 1 < i = ground arith in
          let a : (v + 2 ^ 64 - i + 1) % 2 ^ 64 ≡ v + 1 - i = omega arith in
          let b : (v + 1 - i + i - 1) % 2 ^ 64 ≡ v = omega arith in
          let c : (v + 1) % 2 ^ 64 ≡ v + 1 = omega arith in
          let d : (v + 1 + 2 ^ 64 - i + 1) % 2 ^ 64 ≡ v + 1 - i + 1 = omega arith in
          let f : (i + 2 ^ 64 - i + 1) % 2 ^ 64 ≡ 1 = omega arith in
          rw (e, started, c, a, b, d, f) (refl, refl, refl)
      | inr e ↦
          let c : (v + 1) % 2 ^ 64 ≡ v + 1 = omega arith in rw (e, started, c) (refl, refl, refl)
    ]
