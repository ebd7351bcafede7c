-- ===== src/Memiavl/SharedCache.antt =====
-- `sharedCache` of memiavl/tree.go: the entries are spread over caches of cosmos/iavl by a hash of
-- their key. The checksum of a key, a uint32, comes from Go's crc32. The locks do not show in a
-- sequence of calls.
pub mod Laws
pub mod Size
mod Examples
use Prim.Native.Nat.{bit_and}
use cronos_store.Common.{
  ℕ, zero, suc, ◌+◌, ◌*◌, ◌-◌, ◌/◌, ◌%◌, Bool, true, false, ◌&&◌, Option, none, some, ltb, leb,
  ◌==◌, if◌then◌else◌,
}
use cronos_store.Common.Bytes.{Bytes}
use cronos_store.Memiavl.NodeCache.{Cache}

-- The loop of `newSharedCache` that doubles the number of shards up to 16; four rounds are enough.
unfoldable pub grow_shards : ℕ → ℕ → ℕ → ℕ
grow_shards zero size shard_count = shard_count
grow_shards (suc fuel) size shard_count =
    let more = grow_shards fuel size (2 * shard_count) in
    if ltb shard_count 16 && leb (2 * shard_count) size then more else shard_count

unfoldable pub shard_count_for : ℕ → ℕ
unfolding grow_shards
shard_count_for size = grow_shards 4 size 1

-- The capacity of the shard at an index.
unfoldable pub capacity : ℕ → ℕ → ℕ → ℕ
capacity size shard_count i =
    let base = size / shard_count in if ltb i (size % shard_count) then base + 1 else base

-- The index of `shardForKey` for a checksum.
unfoldable pub shard_index : ℕ → ℕ → ℕ
shard_index hash shard_mask = if shard_mask == 0 then 0 else bit_and hash shard_mask

module _ (C : Cache) (hash_key : Bytes → ℕ) where
  -- The shards by their index; a shard behind the count has no cache.
  pub record Shared : Type 0 where
    pub shards : ℕ → Option C.State
    pub shard_count : ℕ
    pub shard_mask : ℕ

  unfoldable pub new_shared_cache : ℕ → Shared
  unfolding shard_count_for capacity
  new_shared_cache size =
      let count = shard_count_for size in
      record {
        shards = λ i. if ltb i count then some (C.new (capacity size count i)) else none;
        shard_count = count;
        shard_mask = count - 1;
      }

  unfoldable pub shard_for_key : Bytes → Shared → ℕ
  unfolding shard_index
  shard_for_key key s = shard_index (hash_key key) s.shard_mask

  -- The shared cache with another cache in one shard.
  unfoldable pub put_shard : ℕ → Option C.State → Shared → Shared
  put_shard i c s = record s { shards = λ j. if j == i then c else s.shards j }

  unfoldable pub shared_add : Bytes → Bytes → Shared → Shared
  unfolding shard_for_key put_shard
  shared_add key value s =
      let i = shard_for_key key s in
      elim (s.shards i) [ none ↦ s | some c ↦ put_shard i (some (C.add key value c)) s ]

  unfoldable pub shared_get : Bytes → Shared → Option Bytes × Shared
  unfolding shard_for_key put_shard
  shared_get key s =
      let i = shard_for_key key s in
      elim (s.shards i) [
        | none ↦ (none, s)
        | some c ↦ let (value, c') = C.get key c in (value, put_shard i (some c') s)
      ]

  unfoldable pub shared_remove : Bytes → Shared → Shared
  unfolding shard_for_key put_shard
  shared_remove key s =
      let i = shard_for_key key s in
      elim (s.shards i) [ none ↦ s | some c ↦ put_shard i (some (C.remove key c)) s ]
