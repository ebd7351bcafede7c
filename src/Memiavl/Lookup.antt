-- ===== src/Memiavl/Lookup.antt =====
-- `Get` and `GetByIndex` of memiavl/mem_node.go. An index is a uint32.
use Prim.Native.Nat.Ordering.{lt, eq, gt}
use cronos_store.Common.{ℕ, ◌+◌, ◌-◌, ◌%◌, ◌^◌, Option, none, some, ltb, ◌==◌, if◌then◌else◌}
use cronos_store.Common.Bytes.{Bytes, compare_bytes}
use cronos_store.Memiavl.Node.{Slice, Node, leaf, branch, size}

-- `index + uint32(node.Size()) - uint32(right.Size())`
unfoldable pub shift_index : ℕ → ℕ → ℕ → ℕ
shift_index index s right_size =
    ((index + s % 2 ^ 32) % 2 ^ 32 + 2 ^ 32 - right_size % 2 ^ 32) % 2 ^ 32

unfoldable pub get : Bytes → Node → Slice × ℕ
unfolding size shift_index
get key (leaf v lkey value hash) = elim (compare_bytes lkey key) [
  | lt ↦ (none, 1)
  | gt ↦ (none, 0)
  | eq ↦ (value, 0)
]
get key (branch h s v nkey hash l r) = elim (compare_bytes key nkey) [
  | lt ↦ get key l
  | _ ↦ let (value, index) = get key r in (value, shift_index index s (size r))
]

-- `none` is the pair of a nil key and a nil value.
unfoldable pub get_by_index : ℕ → Node → Option (Bytes × Slice)
unfolding size
get_by_index index (leaf v key value hash) = if index == 0 then some (key, value) else none
get_by_index index (branch h s v nkey hash l r) =
    let left_size = size l % 2 ^ 32 in
    let below = get_by_index index l in
    let above = get_by_index (index - left_size) r in if ltb index left_size then below else above
