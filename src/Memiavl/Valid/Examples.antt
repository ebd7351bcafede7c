-- ===== src/Memiavl/Valid/Examples.antt =====
-- The theorems on nodes at a concrete tree, and runs of the code.
use cronos_store.Common.{◌≡◌, some, none, refl, false, arith, get_elem?, [], ◌∷◌}
use cronos_store.Common.Bytes.{Bytes, compare_bytes}
use cronos_store.Common.Panic.{Returns}
use cronos_store.Memiavl.Node.{
  Node, leaf, branch, size, height, rebalance, left_heavy, update_height_size,
}
use cronos_store.Memiavl.Update.{set_node, set_recursive, remove_recursive, finish_set}
use cronos_store.Memiavl.Lookup.{get, get_by_index}
use cronos_store.Memiavl.Entries.Defs.{leaves, min_key, insert, delete, lookup, rank}
use cronos_store.Memiavl.Valid.{
  IsValid, Holds, set_recursive-Holds, remove_recursive-Holds, get-get_by_index,
}

abbrev first : Bytes
first = 1 ∷ []

abbrev second : Bytes
second = 2 ∷ []

abbrev third : Bytes
third = 2 ∷ 7 ∷ []

abbrev pair : Node
pair = branch 1 2 5 second none (leaf 5 first (some (10 ∷ [])) none) (leaf 4 second (some []) none)

pair-IsValid : IsValid pair
unfolding height size leaves min_key compare_bytes
pair-IsValid = record {
  balanced = (refl, refl, omega arith, omega arith, tt, tt);
  keyed = (refl, tt, tt);
  sorted = ((refl, tt), (tt, tt));
  values = ((10 ∷ [], refl), (([], refl), tt));
}

-- A third key makes the tree higher by one, on the right.
set_third :
    set_recursive third (some first) 6 (some pair)
    ≡ some (
      branch 2 3 6 second none
          (leaf 5 first (some (10 ∷ [])) none)
          (branch 1 2 6 third none (leaf 4 second (some []) none) (leaf 6 third (some first) none)),
      false,
    )
unfolding set_recursive set_node compare_bytes finish_set rebalance update_height_size left_heavy
set_third = refl

set_recursive-Holds_example :
    Returns
      (set_recursive third (some first) 6 (some pair))
      (λ c. Holds (insert third (some first) (leaves pair)) (some c.0))
set_recursive-Holds_example =
    set_recursive-Holds third first 6 (some pair) pair-IsValid (unfold leaves in omega arith)

remove_recursive-Holds_example :
    Returns
      (remove_recursive first 6 (some pair))
      (λ c. Holds (delete first (leaves pair)) c.1 × (c.0 ≡ lookup first (leaves pair)))
remove_recursive-Holds_example =
    remove_recursive-Holds first 6 (some pair) pair-IsValid (unfold leaves in omega arith)

get-get_by_index_example :
    (get second pair ≡ (lookup second (leaves pair), rank second (leaves pair)))
    × (get_by_index 1 pair ≡ get_elem? (leaves pair) 1)
get-get_by_index_example =
    get-get_by_index second 1 pair pair-IsValid (unfold leaves in omega arith)
