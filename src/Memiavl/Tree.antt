-- ===== src/Memiavl/Tree.antt =====
-- `Tree` of memiavl/tree.go: a root with a version and a cache of entries. The cache and SHA-256 are
-- parameters; SharedCache has the cache that the code makes. `zeroCopy` decides on copies of byte
-- slices alone, which have the same value.
pub mod Refine
pub mod Read
pub mod Version
pub mod Sample
mod Examples
use cronos_store.Common.{
  ℕ, ◌+◌, ◌-◌, ◌%◌, ◌^◌, Bool, true, false, Option, none, some, ltb, leb, ◌==◌, if◌then◌else◌, List,
  [], ◌∷◌,
}
use cronos_store.Common.Bytes.{Bytes}
use cronos_store.Common.Panic.{◌>>=◌}
use cronos_store.Memiavl.Node.{Slice, Node}
use cronos_store.Memiavl.Update.{set_recursive, remove_recursive}
use cronos_store.Memiavl.Lookup
use cronos_store.Memiavl.Hash.{root_hash, bytes_of}
use cronos_store.Memiavl.NodeCache.{Cache}

abbrev pub max_uint32 : ℕ
max_uint32 = 2 ^ 32 - 1

-- A change of one key, as `iavl.KvPair`.
pub record KvPair : Type 0 where
  pub deletes : Bool
  pub key : Bytes
  pub value : Slice

module _ (C : Cache) (sha256 : Bytes → Bytes) where
  open C use {State}

  pub record Tree : Type 0 where
    pub version : ℕ
    pub root : Option Node
    pub cache : Option State

  -- `NewCache`
  unfoldable pub new_cache : ℕ → Option State
  new_cache size = if size == 0 then none else some (C.new size)

  -- The version is a uint64; `none` is the panic of a version that is too large.
  unfoldable pub new_empty_tree : ℕ → ℕ → Option Tree
  unfolding new_cache
  new_empty_tree version cache_size =
      if leb max_uint32 version
      then none
      else some (record { version = version % 2 ^ 32; root = none; cache = new_cache cache_size })

  unfoldable pub new_tree : ℕ → Option Tree
  unfolding new_empty_tree
  new_tree cache_size = new_empty_tree 0 cache_size

  -- The initial version is a uint32.
  unfoldable pub new_with_initial_version : ℕ → ℕ → Option Tree
  unfolding new_empty_tree new_tree
  new_with_initial_version initial_version cache_size =
      if leb initial_version 1
      then new_tree cache_size
      else new_empty_tree (initial_version - 1) cache_size

  unfoldable pub is_empty : Tree → Bool
  is_empty t = elim t.root [ none ↦ true | some n ↦ false ]

  -- `if t.cache != nil`
  unfoldable pub cache_add : Bytes → Bytes → Option State → Option State
  cache_add key value none = none
  cache_add key value (some c) = some (C.add key value c)

  unfoldable pub cache_remove : Bytes → Option State → Option State
  cache_remove key none = none
  cache_remove key (some c) = some (C.remove key c)

  unfoldable pub set : Bytes → Slice → Tree → Option Tree
  set key value t = do
    let value' = bytes_of value
    (n, updated) ← set_recursive key (some value') ((t.version + 1) % 2 ^ 32) t.root
    some (record t { root = some n; cache = cache_add key value' t.cache })

  unfoldable pub remove : Bytes → Tree → Option Tree
  remove key t = do
    (value, root', new_key) ← remove_recursive key ((t.version + 1) % 2 ^ 32) t.root
    some (record t { root = root'; cache = cache_remove key t.cache })

  unfoldable pub apply_pair : KvPair → Tree → Option Tree
  apply_pair p t = if p.deletes then remove p.key t else set p.key p.value t

  unfoldable pub apply_change_set : List KvPair → Tree → Option Tree
  apply_change_set [] t = some t
  apply_change_set (p ∷ ps) t = apply_pair p t >>= apply_change_set ps

  -- The error of a version that is the largest uint32 is `none`; the tree is then as it was.
  unfoldable pub save_version : Bool → Tree → Option (Slice × ℕ) × Tree
  save_version update_hash t =
      let (hash, root') = root_hash sha256 t.root in
      let version' = (t.version + 1) % 2 ^ 32 in
      if t.version == max_uint32
      then (none, t)
      else if update_hash
      then (some (some hash, version'), record t { version = version'; root = root' })
      else (some (none, version'), record t { version = version' })

  -- `setInitialVersion`
  unfoldable pub put_initial_version : ℕ → Tree → Tree
  put_initial_version initial_version t =
      if ltb 0 t.version
      then t
      else if ltb initial_version 1
      then record t { version = 0 }
      else record t { version = initial_version - 1 }

  -- `SetInitialVersion` of an int64 that is not negative; `none` is its error.
  unfoldable pub set_initial_version : ℕ → Tree → Option Tree
  unfolding put_initial_version
  set_initial_version initial_version t =
      if leb max_uint32 initial_version then none else some (put_initial_version initial_version t)

  -- `Copy`, whose result has a cache of its own.
  unfoldable pub copy : ℕ → Tree → Tree
  unfolding new_cache
  copy cache_size t = record t { cache = new_cache cache_size }

  unfoldable pub get_with_index : Bytes → Tree → ℕ × Slice
  get_with_index key t = elim t.root [
    | none ↦ (0, none)
    | some n ↦ let (value, index) = Lookup.get key n in (index, value)
  ]

  -- The index is an int64 that is not negative.
  unfoldable pub get_by_index : ℕ → Tree → Option (Bytes × Slice)
  get_by_index index t =
      if ltb max_uint32 index
      then none
      else elim t.root [ none ↦ none | some n ↦ Lookup.get_by_index (index % 2 ^ 32) n ]

  -- The value for a miss of the cache, which then holds it.
  unfoldable pub fill_cache : Bytes → Slice → Tree → Slice × Tree
  fill_cache key none t = (none, t)
  fill_cache key (some value) t = (some value, record t { cache = cache_add key value t.cache })

  unfoldable pub get_cached : Bytes → Option Bytes → Tree → Slice × Tree
  get_cached key (some value) t = (some value, t)
  get_cached key none t = fill_cache key (get_with_index key t).1 t

  unfoldable pub get : Bytes → Tree → Slice × Tree
  get key t = elim t.cache [
    | none ↦ fill_cache key (get_with_index key t).1 t
    | some c ↦ let (hit, c') = C.get key c in get_cached key hit (record t { cache = some c' })
  ]

  unfoldable pub has : Bytes → Tree → Bool × Tree
  has key t = let (value, t') = get key t in (elim value [ none ↦ false | some x ↦ true ], t')
