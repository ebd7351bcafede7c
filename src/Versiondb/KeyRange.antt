-- ===== src/Versiondb/KeyRange.antt =====
-- The key ranges of the version store, versiondb/tsrocksdb/store.go: `storePrefix`, `cpIncr` and
-- `iterateWithPrefix`. A nil slice is `none`.
use cronos_store.Common.{
  ℕ, zero, suc, ◌+◌, Bool, true, false, Option, none, some, List, [], ◌∷◌, ◌++◌, ltb, if◌then◌else◌,
}
use cronos_store.Common.Bytes.{Bytes}
pub mod Store
pub mod Distinct
mod Examples

-- "s/k:%s/"
unfoldable pub store_prefix : Bytes → Bytes
store_prefix store_key = (115 ∷ 47 ∷ 107 ∷ 58 ∷ store_key) ++ (47 ∷ [])

-- The loop of `cpIncr`, from the last byte on: the bytes, and whether all of them were 0xFF.
unfoldable pub incr_bytes : Bytes → Bytes × Bool
incr_bytes [] = ([], true)
incr_bytes (x ∷ xs) =
    let (ys, carry) = incr_bytes xs in
    if carry then (if ltb x 255 then ((x + 1) ∷ ys, false) else (0 ∷ ys, true)) else (x ∷ ys, false)

-- `none` is a panic, and `some none` a nil slice.
unfoldable pub cp_incr : Bytes → Option (Option Bytes)
unfolding incr_bytes
cp_incr [] = none
cp_incr (x ∷ xs) =
    let (ret, overflow) = incr_bytes (x ∷ xs) in if overflow then some none else some (some ret)

-- The bytes of a slice; a nil slice has none.
abbrev pub bytes_of : Option Bytes → Bytes
bytes_of none = []
bytes_of (some b) = b

unfoldable pub iterate_with_prefix :
    Bytes → Option Bytes → Option Bytes → Option (Option Bytes × Option Bytes)
unfolding cp_incr
iterate_with_prefix [] begin end = some (begin, end)
iterate_with_prefix (x ∷ xs) begin end =
    let begin' = some ((x ∷ xs) ++ bytes_of begin) in
    elim end [
      | none ↦ elim (cp_incr (x ∷ xs)) [ none ↦ none | some end' ↦ some (begin', end') ]
      | some e ↦ some (begin', some ((x ∷ xs) ++ e))
    ]
