-- ===== src/Memiavl/Valid.antt =====
-- The invariant of a tree of memiavl/node.go, and what `setRecursive`, `removeRecursive`, `Get` and
-- `GetByIndex` do on a tree that has it.
mod Examples
use cronos_store.Common.{
  ℕ, ◌+◌, ◌^◌, ◌<◌, ◌≡◌, some, none, Option, refl, Bool, true, false, arith, length, get_elem?, [],
  ◌∙◌, sym, ap, List,
}
use cronos_store.Common.Bytes.{Bytes}
use cronos_store.Common.Panic.{Returns, Returns-and}
use cronos_store.Memiavl.Node.{Slice, Node, leaf, branch, size, height, new_leaf_node}
use cronos_store.Memiavl.Update.{Removed, set_node, set_recursive, remove_node, remove_recursive}
use cronos_store.Memiavl.Lookup.{get, get_by_index}
use cronos_store.Memiavl.Entries.Defs.{
  Entry, leaves, leaves_of, IsKeyed, IsSorted, HasValues, insert, delete, lookup, rank,
}
use cronos_store.Memiavl.Entries.Set.{Inserted, set_node-Inserted}
use cronos_store.Memiavl.Entries.Remove.{Deleted, remove_node-Deleted}
use cronos_store.Memiavl.Entries.Lookup.{get-lookup, get_by_index-get_elem?}
use cronos_store.Memiavl.Entries.Sorted.{
  insert-IsSorted, insert-HasValues, delete-IsSorted, delete-HasValues, delete_absent,
}
use cronos_store.Memiavl.Shape.Defs.{IsBalanced, size-eq-length}
use cronos_store.Memiavl.Shape.Set.{Grows, set_node-Grows}
use cronos_store.Memiavl.Shape.Remove.{Shrinks, remove_node-Shrinks}

-- The tree is an AVL tree with exact heights and sizes, its branches hold the least key of their
-- right side, its leaves are sorted by key and hold no nil value.
pub record IsValid (t : Node) : Type 0 where
  pub balanced : IsBalanced t
  pub keyed : IsKeyed t
  pub sorted : IsSorted (leaves t)
  pub values : HasValues (leaves t)

-- The empty tree is valid.
abbrev pub IsValidRoot : Option Node → Type 0
IsValidRoot none = Unit
IsValidRoot (some t) = IsValid t

-- The tree that an update leaves, with its entries.
pub record Holds (entries : List Entry) (root : Option Node) : Type 0 where
  pub valid : IsValidRoot root
  pub content : leaves_of root ≡ entries

abbrev pub count : Option Node → ℕ
count root = length (leaves_of root)

pub set_node-Holds :
    (key x : Bytes) (version : ℕ) (t : Node)
    → IsValid t
    → length (leaves t) + 1 < 2 ^ 63
    → Returns
        (set_node key (some x) version t)
        (λ c. Holds (insert key (some x) (leaves t)) (some c.0))
set_node-Holds key x version t v fits =
    Returns-and (Grows t) (Inserted key (some x) t) _ (set_node key (some x) version t)
      (set_node-Grows key (some x) version t v.balanced
        (omega (arith, size-eq-length t v.balanced)))
      (set_node-Inserted key (some x) version t v.keyed v.sorted)
      (λ c g i. record {
        valid = record {
          balanced = grown c g;
          keyed = i.keyed;
          sorted = rw i.entries (insert-IsSorted key (some x) (leaves t) v.sorted);
          values = rw i.entries (insert-HasValues key x (leaves t) v.values);
        };
        content = i.entries;
      })
  where
    grown : (c : Node × Bool) → Grows t c → IsBalanced c.0
    grown (n, true) g = g.0
    grown (n, false) g = g.0

-- On a valid tree of fewer than 2 ^ 63 - 1 entries `setRecursive` does not panic, and returns a
-- valid tree whose entries are those before with the new one put in.
pub set_recursive-Holds :
    (key x : Bytes) (version : ℕ) (root : Option Node)
    → IsValidRoot root
    → count root + 1 < 2 ^ 63
    → Returns
        (set_recursive key (some x) version root)
        (λ c. Holds (insert key (some x) (leaves_of root)) (some c.0))
unfolding set_recursive
set_recursive-Holds key x version none v fits = record {
  valid = record {
    balanced = tt;
    keyed = tt;
    sorted = unfold leaves in (tt, tt);
    values = unfold leaves in ((x, refl), tt);
  };
  content = unfold leaves insert in refl;
}
set_recursive-Holds key x version (some t) v fits = set_node-Holds key x version t v fits

remove_node-Holds :
    (key : Bytes) (version : ℕ) (t : Node)
    → IsValid t
    → length (leaves t) < 2 ^ 63
    → Returns
        (remove_node key version t)
        (λ c. Holds (delete key (leaves t)) c.1 × (c.0 ≡ lookup key (leaves t)))
remove_node-Holds key version t v fits =
    Returns-and (Shrinks t) (Deleted key t) _ (remove_node key version t)
      (remove_node-Shrinks key version t v.balanced (omega (arith, size-eq-length t v.balanced)))
      (remove_node-Deleted key version t v.keyed v.sorted v.values) after
  where
    after :
        (c : Removed)
        → Shrinks t c
        → Deleted key t c
        → Holds (delete key (leaves t)) c.1 × (c.0 ≡ lookup key (leaves t))
    after (none, n, k) g d = (
      rw (d.0, delete_absent key (leaves t) v.values d.1) (record { valid = v; content = refl }),
      sym d.1,
    )
    after (some x, none, k) g d = (record { valid = tt; content = sym d.1 }, sym d.0)
    after (some x, some n, k) g d = (
      record {
        valid = record {
          balanced = g.0;
          keyed = d.2;
          sorted = rw d.1 (delete-IsSorted key (leaves t) v.sorted);
          values = rw d.1 (delete-HasValues key (leaves t) v.values);
        };
        content = d.1;
      },
      sym d.0,
    )

-- On a valid tree of fewer than 2 ^ 63 entries `removeRecursive` does not panic. It returns a valid
-- tree, or nil, whose entries are those before without the key, and the value that the key had.
pub remove_recursive-Holds :
    (key : Bytes) (version : ℕ) (root : Option Node)
    → IsValidRoot root
    → count root < 2 ^ 63
    → Returns
        (remove_recursive key version root)
        (λ c. Holds (delete key (leaves_of root)) c.1 × (c.0 ≡ lookup key (leaves_of root)))
unfolding remove_recursive
remove_recursive-Holds key version none v fits =
    unfold delete lookup in (record { valid = tt; content = refl }, refl)
remove_recursive-Holds key version (some t) v fits = remove_node-Holds key version t v fits

-- On a valid tree of fewer than 2 ^ 32 entries `Get` returns the value of the key, nil if it is not
-- there, and the number of smaller keys; `GetByIndex` returns the entry at an index in key order, and
-- nil behind the last.
pub get-get_by_index :
    (key : Bytes) (i : ℕ) (t : Node)
    → IsValid t
    → length (leaves t) < 2 ^ 32
    → (get key t ≡ (lookup key (leaves t), rank key (leaves t)))
      × (get_by_index i t ≡ get_elem? (leaves t) i)
get-get_by_index key i t v fits =
    let small : size t < 2 ^ 32 = omega (arith, size-eq-length t v.balanced) in
    (
      get-lookup key t v.balanced v.keyed v.sorted small,
      get_by_index-get_elem? i t v.balanced small,
    )
