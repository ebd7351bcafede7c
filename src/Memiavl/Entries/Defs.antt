-- ===== src/Memiavl/Entries/Defs.antt =====
-- What a tree of memiavl/node.go stands for: the list of its leaves from left to right, sorted by
-- key, with the operations of a sorted association list.
use Prim.Native.Nat.Ordering.{lt, eq, gt}
use cronos_store.Common.{ℕ, suc, ◌≡◌, Option, none, some, List, [], ◌∷◌, ◌++◌, All}
use cronos_store.Common.Bytes.{Bytes, compare_bytes, ◌≺◌}
use cronos_store.Memiavl.Node.{Slice, Node, leaf, branch}

abbrev pub Entry : Type 0
Entry = Bytes × Slice

unfoldable pub leaves : Node → List Entry
leaves (leaf v key value hash) = (key, value) ∷ []
leaves (branch h s v key hash l r) = leaves l ++ leaves r

abbrev pub leaves_of : Option Node → List Entry
leaves_of none = []
leaves_of (some n) = leaves n

-- The keys rise strictly.
abbrev pub IsSorted : List Entry → Type 0
IsSorted [] = Unit
IsSorted (e ∷ es) = All (λ (f : Entry). e.0 ≺ f.0) es × IsSorted es

-- `none` for a key that is not there: an entry's value is not nil in a valid tree.
unfoldable pub lookup : Bytes → List Entry → Slice
lookup key [] = none
lookup key ((k, v) ∷ es) = elim (compare_bytes key k) [ eq ↦ v | _ ↦ lookup key es ]

unfoldable pub insert : Bytes → Slice → List Entry → List Entry
insert key value [] = (key, value) ∷ []
insert key value ((k, v) ∷ es) = elim (compare_bytes key k) [
  | lt ↦ (key, value) ∷ (k, v) ∷ es
  | eq ↦ (key, value) ∷ es
  | gt ↦ (k, v) ∷ insert key value es
]

unfoldable pub delete : Bytes → List Entry → List Entry
delete key [] = []
delete key ((k, v) ∷ es) = elim (compare_bytes key k) [ eq ↦ es | _ ↦ (k, v) ∷ delete key es ]

-- The number of keys below `key`.
unfoldable pub rank : Bytes → List Entry → ℕ
rank key [] = 0
rank key ((k, v) ∷ es) = elim (compare_bytes k key) [ lt ↦ suc (rank key es) | _ ↦ rank key es ]

unfoldable pub min_key : Node → Bytes
min_key (leaf v key value hash) = key
min_key (branch h s v key hash l r) = min_key l

-- The key of a branch is the least key of its right subtree.
abbrev pub IsKeyed : Node → Type 0
IsKeyed (leaf v key value hash) = Unit
IsKeyed (branch h s v key hash l r) = (key ≡ min_key r) × IsKeyed l × IsKeyed r

-- A leaf's value is not nil.
abbrev pub HasValues : List Entry → Type 0
HasValues = All (λ (e : Entry). (x : Bytes) × (e.1 ≡ some x))
