-- ===== src/Versiondb/KeyRange/Examples.antt =====
-- The theorems on `iterateWithPrefix` at a store.
use cronos_store.Common.{◌≡◌, ◌↔◌, Option, none, some, [], ◌∷◌, ◌++◌, inl, refl, arith}
use cronos_store.Common.Bytes.{Bytes, compare_bytes}
use cronos_store.Versiondb.KeyRange.{store_prefix, iterate_with_prefix}
use cronos_store.Versiondb.KeyRange.Distinct.{HasNoSlash, iterate_with_prefix-distinct}
use cronos_store.Versiondb.KeyRange.Store.{IsInRange, InStore, iterate_with_prefix-InStore}

abbrev bank : Bytes
bank = 98 ∷ 97 ∷ 110 ∷ 107 ∷ []

iterate_with_prefix-InStore_example :
    (b e : Option Bytes) × (iterate_with_prefix (store_prefix bank) (some (1 ∷ [])) none
      ≡ some (b, e))
    × ((k : Bytes) → IsInRange b e k ↔ InStore bank (some (1 ∷ [])) none k)
iterate_with_prefix-InStore_example = iterate_with_prefix-InStore bank (some (1 ∷ [])) none

key_prefix_of :
    iterate_with_prefix (store_prefix bank) none (some (2 ∷ []))
    ≡ some (some (store_prefix bank), some (store_prefix bank ++ 2 ∷ []))
unfolding iterate_with_prefix store_prefix
key_prefix_of = refl

in_range :
    IsInRange
      (some (store_prefix bank))
      (some (store_prefix bank ++ 2 ∷ []))
      (store_prefix bank ++ 1 ∷ [])
unfolding store_prefix compare_bytes
in_range = (inl refl, refl)

bank-HasNoSlash : HasNoSlash bank
bank-HasNoSlash = (omega arith, (omega arith, (omega arith, (omega arith, tt))))

iterate_with_prefix-distinct_example : bank ≡ bank
iterate_with_prefix-distinct_example =
    iterate_with_prefix-distinct bank bank none (some (2 ∷ [])) none (some (2 ∷ []))
      (some (store_prefix bank)) (some (store_prefix bank ++ 2 ∷ [])) (some (store_prefix bank))
      (some (store_prefix bank ++ 2 ∷ [])) (store_prefix bank ++ 1 ∷ []) bank-HasNoSlash
      bank-HasNoSlash key_prefix_of key_prefix_of in_range in_range
