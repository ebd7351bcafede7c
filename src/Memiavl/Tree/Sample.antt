-- ===== src/Memiavl/Tree/Sample.antt =====
-- A small tree of memiavl/tree.go, with a cache of one entry and a stand-in for SHA-256, for the
-- examples.
use Prim.Native.Nat.Ordering.{eq}
use cronos_store.Common.{◌≡◌, ◌≢◌, ◌⊎◌, some, none, Option, refl, arith, length, [], ◌∷◌}
use cronos_store.Common.Bytes.{Bytes, compare_bytes, cmp_refl, eq_of_cmp}
use cronos_store.Memiavl.Node.{Node, leaf, branch, height, size}
use cronos_store.Memiavl.Entries.Defs.{leaves, min_key, lookup}
use cronos_store.Memiavl.NodeCache.{Cache}
use cronos_store.Memiavl.Tree.{Tree}
use cronos_store.Memiavl.Tree.Refine.{IsGood}

-- A cache that keeps the entry added last.
abbrev pub Slot : Type 0
Slot = Option (Bytes × Bytes)

abbrev pub peek_slot : Slot → Bytes → Option Bytes
peek_slot none j = none
peek_slot (some (k, v)) j = elim (compare_bytes j k) [ eq ↦ some v | _ ↦ none ]

abbrev pub remove_slot : Bytes → Slot → Slot
remove_slot key none = none
remove_slot key (some (k, v)) = elim (compare_bytes key k) [ eq ↦ none | _ ↦ some (k, v) ]

pub peek-remove_slot :
    (k : Bytes) (s : Slot) (j x : Bytes)
    → peek_slot (remove_slot k s) j ≡ some x
    → (j ≢ k) × (peek_slot s j ≡ some x)
peek-remove_slot k none j x e = cc
peek-remove_slot k (some (i, v)) j x e = ground (arith, eq_of_cmp j i, eq_of_cmp k i, cmp_refl i)

pub peek-add_slot :
    (k v : Bytes) (s : Slot) (j x : Bytes)
    → peek_slot (some (k, v)) j ≡ some x
    → ((j ≡ k) × (x ≡ v)) ⊎ ((j ≢ k) × (peek_slot s j ≡ some x))
peek-add_slot k v s j x e = ground (arith, eq_of_cmp j k)

abbrev pub one_entry : Cache
one_entry = record {
  State = Slot;
  new = λ n. none;
  add = λ k v s. some (k, v);
  get = λ k s. (peek_slot s k, s);
  remove = remove_slot;
  peek = peek_slot;
  peek-new = λ n j. refl;
  peek-add = peek-add_slot;
  peek-remove = peek-remove_slot;
  get-peek = λ k s. refl;
  peek-get = λ k s j. refl;
}

abbrev pub digest : Bytes → Bytes
digest bz = length bz ∷ []

abbrev pub one : Bytes
one = 1 ∷ []

abbrev pub two : Bytes
two = 2 ∷ []

abbrev pub root : Node
root = branch 1 2 5 two none (leaf 5 one (some two) none) (leaf 4 two (some []) none)

abbrev pub tree : Tree one_entry digest
tree = record { version = 5; root = some root; cache = some (some (one, two)) }

cached : (j x : Bytes) → peek_slot (some (one, two)) j ≡ some x → lookup j (leaves root) ≡ some x
unfolding lookup leaves
cached j x e = ground arith

pub tree-IsGood : IsGood one_entry digest tree
tree-IsGood = record {
  valid = record {
    balanced = unfold height size in (refl, refl, omega arith, omega arith, tt, tt);
    keyed = unfold min_key in (refl, tt, tt);
    sorted = unfold leaves compare_bytes in ((refl, tt), (tt, tt));
    values = unfold leaves in ((two, refl), (([], refl), tt));
  };
  clean = (tt, tt, tt);
  coherent = cached;
}
