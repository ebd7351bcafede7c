-- ===== src/Memiavl/Iterator.antt =====
-- The iterator of memiavl/iterator.go. The stack is a list with its top first. `keyCopy`,
-- `valueCopy` and `zeroCopy` decide on copies of byte slices alone, which have the same value.
pub mod Range
mod Pending
pub mod Drain
mod Examples
use Prim.Native.Nat.Ordering.{lt, eq, gt}
use cronos_store.Common.{
  ℕ, zero, suc, ◌+◌, Bool, true, false, ◌&&◌, ◌||◌, Option, none, some, List, [], ◌∷◌,
  if◌then◌else◌,
}
use cronos_store.Common.Bytes.{Bytes, compare_bytes}
use cronos_store.Common.Panic.{◌>>=◌}
use cronos_store.Memiavl.Node.{Slice, Node, leaf, branch}
use cronos_store.Memiavl.Entries.Defs.{Entry}

-- The end of the domain is exclusive; a nil bound is no bound.
pub record Iterator : Type 0 where
  pub start : Slice
  pub stop : Slice
  pub ascending : Bool
  pub key : Bytes
  pub value : Slice
  pub valid : Bool
  pub stack : List Node

-- `iter.start == nil || startCmp < 0`
unfoldable pub after_start : Slice → Bytes → Bool
after_start none key = true
after_start (some s) key = elim (compare_bytes s key) [ lt ↦ true | _ ↦ false ]

-- `startCmp == 0`, where the comparison reads a nil start as an empty slice.
unfoldable pub at_start : Slice → Bytes → Bool
at_start none key = elim (compare_bytes [] key) [ eq ↦ true | _ ↦ false ]
at_start (some s) key = elim (compare_bytes s key) [ eq ↦ true | _ ↦ false ]

-- `iter.end == nil || bytes.Compare(key, iter.end) < 0`
unfoldable pub before_end : Slice → Bytes → Bool
before_end none key = true
before_end (some e) key = elim (compare_bytes key e) [ lt ↦ true | _ ↦ false ]

unfoldable pub push_if : Bool → Node → List Node → List Node
push_if true n stack = n ∷ stack
push_if false n stack = stack

unfoldable pub push_children : Bool → Bool → Bool → Node → Node → List Node → List Node
push_children true after before l r stack = push_if after l (push_if before r stack)
push_children false after before l r stack = push_if before r (push_if after l stack)

-- The nodes of a tree, and those below a stack: each round of the loop of `Next` takes one away.
unfoldable pub weight : Node → ℕ
weight (leaf v key value hash) = 1
weight (branch h s v key hash l r) = suc (weight l + weight r)

unfoldable pub stack_weight : List Node → ℕ
stack_weight [] = 0
stack_weight (n ∷ stack) = weight n + stack_weight stack

-- The loop of `Next`: the next entry in the domain, if there is one, and the stack. `none` means that
-- the fuel ran out.
unfoldable pub next_loop : ℕ → Slice → Slice → Bool → List Node → Option (Option Entry × List Node)
next_loop zero start stop ascending stack = none
next_loop (suc fuel) start stop ascending [] = some (none, [])
next_loop (suc fuel) start stop ascending (leaf v key value hash ∷ stack) =
    let more = next_loop fuel start stop ascending stack in
    if (after_start start key || at_start start key) && before_end stop key
    then some (some (key, value), stack)
    else more
next_loop (suc fuel) start stop ascending (branch h s v key hash l r ∷ stack) =
    next_loop fuel start stop ascending
      (push_children ascending (after_start start key) (before_end stop key) l r stack)

unfoldable pub take_entry : Iterator → Option Entry × List Node → Iterator
take_entry it (none, stack) = record it { valid = false; stack = stack }
take_entry it (some (key, value), stack) = record it { key = key; value = value; stack = stack }

unfoldable pub next : Iterator → Option Iterator
next it = do
  result ← next_loop (suc (stack_weight it.stack)) it.start it.stop it.ascending it.stack
  some (take_entry it result)

-- `if root != nil { iter.stack = []Node{root} }`
unfoldable pub root_stack : Option Node → List Node
root_stack none = []
root_stack (some n) = n ∷ []

unfoldable pub new_iterator : Slice → Slice → Bool → Option Node → Option Iterator
new_iterator start stop ascending root = next (record {
  start = start;
  stop = stop;
  ascending = ascending;
  key = [];
  value = none;
  valid = true;
  stack = root_stack root;
})

unfoldable pub close : Iterator → Iterator
close it = record it { valid = false; stack = [] }
