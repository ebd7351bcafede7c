-- ===== src/Memiavl/Iterator/Examples.antt =====
-- The iterator at a concrete tree.
use cronos_store.Common.{◌≡◌, some, none, refl, true, false, arith, [], ◌∷◌}
use cronos_store.Common.Bytes.{Bytes, compare_bytes}
use cronos_store.Common.Panic.{◌>>=◌}
use cronos_store.Memiavl.Node.{Node, leaf, branch, height, size}
use cronos_store.Memiavl.Entries.Defs.{leaves, leaves_of, min_key}
use cronos_store.Memiavl.Valid.{IsValid}
use cronos_store.Memiavl.Iterator.{
  new_iterator, next, next_loop, take_entry, after_start, at_start, before_end, push_children,
  push_if, root_stack, stack_weight, weight,
}
use cronos_store.Memiavl.Iterator.Range.{in_range, select}
use cronos_store.Memiavl.Iterator.Pending.{order}
use cronos_store.Memiavl.Iterator.Drain.{drain, new_iterator-drain}

abbrev low : Bytes
low = 1 ∷ []

abbrev high : Bytes
high = 1 ∷ 0 ∷ []

abbrev tree : Node
tree = branch 1 2 1 high none (leaf 1 low (some low) none) (leaf 1 high (some []) none)

tree-IsValid : IsValid tree
tree-IsValid = record {
  balanced = unfold height size in (refl, refl, omega arith, omega arith, tt, tt);
  keyed = unfold min_key in (refl, tt, tt);
  sorted = unfold leaves compare_bytes in ((refl, tt), (tt, tt));
  values = unfold leaves in ((low, refl), (([], refl), tt));
}

-- The end is exclusive.
descending_run :
    (new_iterator none (some high) false (some tree) >>= drain 5) ≡ some ((low, some low) ∷ [])
unfolding new_iterator next next_loop take_entry after_start at_start before_end push_children
    push_if root_stack stack_weight weight drain compare_bytes
descending_run = refl

new_iterator-drain_example :
    (new_iterator (some low) none true (some tree) >>= drain 5)
    ≡ some (order true (select (in_range (some low) none) (leaves_of (some tree))))
new_iterator-drain_example =
    new_iterator-drain (some low) none true (some tree) 5 tree-IsValid
      (unfold select in_range leaves compare_bytes in omega arith)
