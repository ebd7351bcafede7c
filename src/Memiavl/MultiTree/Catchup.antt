-- ===== src/Memiavl/MultiTree/Catchup.antt =====
-- `catchupWAL` of memiavl/multitree.go replays the versions of the log up to its target.
use cronos_store.Common.{
  ℕ, zero, suc, ◌+◌, ◌-◌, ◌^◌, ◌<◌, ◌≤◌, ◌≡◌, ◌⊎◌, refl, true, false, Option, none, some, ltb, ◌==◌,
  max, min, if◌then◌else◌, Bool-cases, inl, inr, arith,
}
use cronos_store.Common.Bytes.{Bytes}
use cronos_store.Memiavl.NodeCache.{Cache}
use cronos_store.Memiavl.Wal.{wal_index}
use cronos_store.Memiavl.Traverse.Range.{index_of, wal_index_lem}
use cronos_store.Memiavl.MultiTree.State.{Result, returns, errors, panics, ◌>>=◌, MultiTree}
use cronos_store.Memiavl.MultiTree.Commit.{update_commit_info, save_multi_version}
use cronos_store.Memiavl.MultiTree.Replay.{
  WalEntry, WalLog, apply_wal_entry, replay_entry, replay_entries, catchup_wal,
}
use cronos_store.Memiavl.MultiTree.InStep.{next_of}

bind_ext :
    {A : Type 0} (m : Result A) (f g : A → Result A) → ((a : A) → f a ≡ g a) → (m >>= f) ≡ (m >>= g)
bind_ext (returns a) f g h = h a
bind_ext (errors a) f g h = refl
bind_ext panics f g h = refl

-- The index of the target, and that it is not before the initial version.
wanted_lem :
    (last_index e i : ℕ)
    → i < 2 ^ 32
    → (e ≡ 0) ⊎ ((max 1 i ≤ e) × (e < 2 ^ 63))
    → (let target = if e == 0 then last_index + max 1 i - 1 else e in
        ((if e == 0 then last_index else wal_index e i) ≡ target + 1 - max 1 i)
        × (max 1 i ≤ target + 1))
wanted_lem n e i small (inl z) =
    let q : (e == 0) ≡ true = ground arith in rw q (omega arith, omega arith)
wanted_lem n e i small (inr (low, high)) =
    let q : (e == 0) ≡ false = ground arith in
    rw q (unfold index_of in wal_index_lem e i small (omega arith) high, omega arith)

ahead_lem :
    (n next i : ℕ) → max 1 i ≤ next → ltb n (next + 1 - max 1 i) ≡ ltb (n + max 1 i - 1) next
ahead_lem n next i h = ground arith

pruned_lem :
    (target next i : ℕ)
    → max 1 i ≤ next
    → max 1 i ≤ target + 1
    → ltb (target + 1 - max 1 i) (next + 1 - max 1 i) ≡ ltb target next
pruned_lem target next i h k = ground arith

stop_lem :
    (n target i : ℕ)
    → max 1 i ≤ target + 1
    → (if ltb n (target + 1 - max 1 i) then n else target + 1 - max 1 i)
      ≡ min target (n + max 1 i - 1) + 1 - max 1 i
stop_lem n target i h = ground arith

count_lem :
    (stop next i : ℕ)
    → max 1 i ≤ next
    → max 1 i ≤ stop + 1
    → stop + 1 - max 1 i + 1 - (next + 1 - max 1 i) ≡ stop + 1 - next
count_lem stop next i h k = omega arith

module _ (C : Cache) (sha256 : Bytes → Bytes) (log : WalLog) where
  -- The first index of the log is the initial version's, or that of version 1.
  abbrev entry_of : ℕ → ℕ → Option WalEntry
  entry_of initial_version v = log.read_entry (v + 1 - max 1 initial_version)

  -- A version applied from the log and saved, without its hashes.
  replay_version : ℕ → ℕ → MultiTree C sha256 → Result (MultiTree C sha256)
  replay_version initial_version v t = elim (entry_of initial_version v) [
    | none ↦ errors t
    | some entry ↦ apply_wal_entry C sha256 entry t >>= save_multi_version C sha256 false
  ]

  -- A number of versions from one on, in order, up to the first error.
  unfoldable pub replay_versions : ℕ → ℕ → ℕ → MultiTree C sha256 → Result (MultiTree C sha256)
  unfolding replay_version
  replay_versions initial_version zero v t = returns t
  replay_versions initial_version (suc n) v t =
      replay_version initial_version v t >>= replay_versions initial_version n (v + 1)

  replay_entries-replay_versions :
      (i n v : ℕ) (t : MultiTree C sha256)
      → max 1 i ≤ v
      → replay_entries C sha256 log n (v + 1 - max 1 i) t ≡ replay_versions i n v t
  unfolding replay_entries replay_entry replay_versions replay_version
  replay_entries-replay_versions i zero v t h = refl
  replay_entries-replay_versions i (suc n) v t h =
      let next : v + 1 - max 1 i + 1 ≡ v + 1 + 1 - max 1 i = omega arith in
      rw next (
        bind_ext (replay_version i v t) _ _
          (λ u. replay_entries-replay_versions i n (v + 1) u (omega arith)))

  -- `catchupWAL` replays the versions after the one of the multi tree, up to the target version and not
  -- after the last of the log, 0 being the last, and then updates the commit info. It changes nothing
  -- where the log has no version after the multi tree's, and is an error where the target is not after
  -- it. A target is not below the initial version, which is a uint32, and versions are below
  -- 2 ^ 63 - 1.
  pub catchup_wal-replay_versions :
      (end_version : ℕ) (t : MultiTree C sha256)
      → t.initial_version < 2 ^ 32
      → max 1 t.initial_version ≤ next_of C sha256 t
      → next_of C sha256 t < 2 ^ 63
      → log.last_index + t.initial_version + 1 < 2 ^ 63
      → (end_version ≡ 0) ⊎ ((max 1 t.initial_version ≤ end_version) × (end_version < 2 ^ 63))
      → (let next = next_of C sha256 t in
          let last = log.last_index + max 1 t.initial_version - 1 in
          let target = if end_version == 0 then last else end_version in
          catchup_wal C sha256 log end_version t ≡ (
            if ltb last next
            then returns t
            else if ltb target next
            then errors t
            else (replay_versions t.initial_version (min target last + 1 - next) next t >>= λ u.
                returns (update_commit_info C sha256 u))))
  unfolding catchup_wal
  catchup_wal-replay_versions end_version t small from fits room bounds =
      let i = t.initial_version in
      let next = next_of C sha256 t in
      let last = log.last_index + max 1 i - 1 in
      let target = if end_version == 0 then last else end_version in
      let first : wal_index next i ≡ next + 1 - max 1 i =
        unfold index_of in wal_index_lem next i small (omega arith) fits in
      let (wanted, low) = wanted_lem log.last_index end_version i small bounds in
      let ahead = ahead_lem log.last_index next i from in
      let pruned = pruned_lem target next i from low in
      let stop = stop_lem log.last_index target i low in
      let n = count_lem (min target last) next i from (omega arith) in
      rw
        (
          first,
          wanted,
          ahead,
          pruned,
          stop,
          n,
          replay_entries-replay_versions i (min target last + 1 - next) next t from,
        )
        refl

  -- A target that is below the version before the initial one, but not 0, is taken for the last version
  -- of the log: its index wraps around, and is then cut to the last index.
  pub catchup_wal-wraps :
      (end_version : ℕ) (t : MultiTree C sha256)
      → t.initial_version < 2 ^ 32
      → 1 ≤ end_version
      → end_version + 1 < t.initial_version
      → t.initial_version ≤ next_of C sha256 t
      → next_of C sha256 t < 2 ^ 63
      → log.last_index < 2 ^ 63
      → catchup_wal C sha256 log end_version t ≡ catchup_wal C sha256 log 0 t
  unfolding catchup_wal
  catchup_wal-wraps end_version t small pos below from fits room =
      let i = t.initial_version in
      let next = next_of C sha256 t in
      let first : wal_index next i ≡ next + 1 - max 1 i =
        unfold index_of in wal_index_lem next i small (omega arith) fits in
      let far : 2 ^ 63 ≤ wal_index end_version i = far_lem end_version i small below in
      let n : (end_version == 0) ≡ false = ground arith in
      let a : ltb log.last_index (wal_index end_version i) ≡ true = ground arith in
      let b : ltb (wal_index end_version i) (next + 1 - max 1 i) ≡ false = ground arith in
      let c : ltb log.last_index log.last_index ≡ false = ground arith in
      elim (Bool-cases (ltb log.last_index (next + 1 - max 1 i))) [
        | inl q ↦ rw (first, q) refl
        | inr q ↦ rw (n, first, q, a, b, c) refl
      ]
    where
      far_lem : (e i : ℕ) → i < 2 ^ 32 → e + 1 < i → 2 ^ 63 ≤ wal_index e i
      far_lem e i small h =
          let q : ltb 1 i ≡ true = ground arith in unfold wal_index in rw q (omega arith)
