-- ===== src/Memiavl/SharedCache/Examples.antt =====
-- A concrete shared cache of ten entries, whose shards are caches that hold nothing.
use cronos_store.Common.{ℕ, ◌<◌, ◌≤◌, ◌≡◌, none, some, [], ◌∷◌, length, refl, arith}
use cronos_store.Common.Bytes.{Bytes}
use cronos_store.Memiavl.NodeCache.{Cache}
use cronos_store.Memiavl.SharedCache.{new_shared_cache, shard_for_key, capacity}
use cronos_store.Memiavl.SharedCache.Size.{total_capacity, new_shared_cache-shard_for_key}

not_held : {x : Bytes} → none ≡ some x → ⊥
not_held e = cc

-- A cache is its capacity here.
abbrev holds_nothing : Cache
holds_nothing = record {
  State = ℕ;
  new = λ n. n;
  add = λ k v s. s;
  get = λ k s. (none, s);
  remove = λ k s. s;
  peek = λ s j. none;
  peek-new = λ n j. refl;
  peek-add = λ k v s j x e. absurd (not_held e);
  peek-remove = λ k s j x e. absurd (not_held e);
  get-peek = λ k s. refl;
  peek-get = λ k s j. refl;
}

abbrev some_key : Bytes
some_key = 3 ∷ 4 ∷ []

new_shared_cache-shard_for_key_example :
    let s = new_shared_cache holds_nothing length 10 in
    let i = shard_for_key holds_nothing length some_key s in
    (total_capacity 10 s.shard_count s.shard_count ≡ 10)
    × (s.shard_count ≤ 10)
    × (i < s.shard_count)
    × (s.shards i ≡ some (capacity 10 s.shard_count i))
new_shared_cache-shard_for_key_example =
    new_shared_cache-shard_for_key holds_nothing length 10 some_key (omega arith)
