-- ===== src/Memiavl/NodeCache.antt =====
-- The interface `cache.Cache` of github.com/cosmos/iavl/cache, as memiavl/tree.go uses it: an LRU
-- cache of nodes that hold a key and a value.
use cronos_store.Common.{ℕ, ◌≡◌, ◌≢◌, ◌⊎◌, Option, none, some}
use cronos_store.Common.Bytes.{Bytes}

-- `peek` is what the cache holds for a key, without the use that `get` records.
pub record Cache : Type 1 where
  pub State : Type 0
  pub new : ℕ → State
  pub add : Bytes → Bytes → State → State
  pub get : Bytes → State → Option Bytes × State
  pub remove : Bytes → State → State
  pub peek : State → Bytes → Option Bytes
  pub peek-new : (n : ℕ) (j : Bytes) → peek (new n) j ≡ none
  -- Only the entry that is added comes in; it takes the place of one with its key, and others may go.
  pub peek-add :
      (k v : Bytes) (s : State) (j x : Bytes)
      → peek (add k v s) j ≡ some x
      → ((j ≡ k) × (x ≡ v)) ⊎ ((j ≢ k) × (peek s j ≡ some x))
  pub peek-remove :
      (k : Bytes) (s : State) (j x : Bytes)
      → peek (remove k s) j ≡ some x
      → (j ≢ k) × (peek s j ≡ some x)
  -- `get` finds what the cache holds, and moves nothing in or out.
  pub get-peek : (k : Bytes) (s : State) → (get k s).0 ≡ peek s k
  pub peek-get : (k : Bytes) (s : State) (j : Bytes) → peek (get k s).1 j ≡ peek s j
