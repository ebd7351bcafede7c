-- ===== src/Memiavl/SharedCache/Size.antt =====
-- The shards of `newSharedCache` in memiavl/tree.go have the capacity asked for, and every key has one.
use Prim.Native.Nat.{bit_and, digits, bit_and-bitwise}
use native.Mathlib.Nat.{mod-lt, div-add-mod}
use cronos_store.Common.{
  ℕ, zero, suc, ◌+◌, ◌*◌, ◌-◌, ◌/◌, ◌%◌, ◌<◌, ◌≤◌, ◌≡◌, inl, inr, refl, true, some, ◌&&◌, ltb, leb,
  ◌==◌, Bool-cases, arith, min,
}
use cronos_store.Common.Bytes.{Bytes}
use cronos_store.Memiavl.NodeCache.{Cache}
use cronos_store.Memiavl.SharedCache.{
  new_shared_cache, grow_shards, shard_count_for, capacity, shard_index, shard_for_key,
}

grow_shards_lem :
    (fuel size c : ℕ)
    → 1 ≤ c
    → c ≤ size
    → (1 ≤ grow_shards fuel size c) × (grow_shards fuel size c ≤ size)
unfolding grow_shards
grow_shards_lem zero size c h k = (h, k)
grow_shards_lem (suc fuel) size c h k = elim (Bool-cases (ltb c 16 && leb (2 * c) size)) [
  | inl e ↦ rw e (grow_shards_lem fuel size (2 * c) (omega arith) (ground arith))
  | inr e ↦ rw e (h, k)
]

-- The capacity of the shards before an index.
abbrev pub total_capacity : ℕ → ℕ → ℕ → ℕ
total_capacity size shard_count zero = 0
total_capacity size shard_count (suc n) =
    total_capacity size shard_count n + capacity size shard_count n

total_capacity_lem : (size c n : ℕ) → total_capacity size c n ≡ n * (size / c) + min n (size % c)
unfolding capacity
total_capacity_lem size c zero = omega arith
total_capacity_lem size c (suc n) = elim (Bool-cases (ltb n (size % c))) [
  | inl e ↦
      let h : n < size % c = ground arith in
      let i = total_capacity_lem size c n in rw (e, i) (added n (size / c) (size % c) h)
  | inr e ↦
      let h : size % c ≤ n = ground arith in
      let i = total_capacity_lem size c n in rw (e, i) (kept n (size / c) (size % c) h)
]
  where
    added : (n b r : ℕ) → n < r → n * b + min n r + (b + 1) ≡ suc n * b + min (suc n) r
    added n b r h = grind arith

    kept : (n b r : ℕ) → r ≤ n → n * b + min n r + b ≡ suc n * b + min (suc n) r
    kept n b r h = grind arith

whole_capacity : (size c : ℕ) → 1 ≤ c → total_capacity size c c ≡ size
whole_capacity size c h =
    let r : size % c < c = mod-lt size h in
    let m : min c (size % c) ≡ size % c = omega arith in
    rw (total_capacity_lem size c c, m) (div-add-mod size c)

digits_le : (n a b : ℕ) → digits (λ b. zero) min n a b ≤ b
digits_le zero a b = omega arith
digits_le (suc n) zero b = omega arith
digits_le (suc n) (suc a) b = let i = digits_le n (suc a / 2) (b / 2) in omega arith

bit_and-le : (a b : ℕ) → bit_and a b ≤ b
bit_and-le a b = rw (bit_and-bitwise a b) (digits_le a a b)

shard_index_below : (hash c : ℕ) → 1 ≤ c → shard_index hash (c - 1) < c
unfolding shard_index
shard_index_below hash c h =
    let e : c - 1 + 1 ≡ c = omega arith in
    elim (Bool-cases (c - 1 == 0)) [
      | inl q ↦ rw q (omega arith)
      | inr q ↦
          let fits : bit_and hash (c - 1) ≤ c - 1 = bit_and-le hash (c - 1) in rw q (omega arith)
    ]

-- For a size that is not 0, the shards of `newSharedCache` have the size as their capacities
-- together, are no more than the size, and every key has one of them, with a new cache in it.
pub new_shared_cache-shard_for_key :
    (C : Cache) (hash_key : Bytes → ℕ) (size : ℕ) (key : Bytes)
    → 1 ≤ size
    → let s = new_shared_cache C hash_key size in
      let i = shard_for_key C hash_key key s in
      (total_capacity size s.shard_count s.shard_count ≡ size)
      × (s.shard_count ≤ size)
      × (i < s.shard_count)
      × (s.shards i ≡ some (C.new (capacity size s.shard_count i)))
unfolding new_shared_cache shard_for_key shard_count_for
new_shared_cache-shard_for_key C hash_key size key h =
    let c = grow_shards 4 size 1 in
    let (low, high) = grow_shards_lem 4 size 1 (omega arith) h in
    let i = shard_index (hash_key key) (c - 1) in
    let below : i < c = shard_index_below (hash_key key) c low in
    let there : ltb i c ≡ true = ground arith in
    (whole_capacity size c low, high, below, rw there refl)
