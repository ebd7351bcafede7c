-- ===== src/Memiavl/Iterator/Pending.antt =====
-- What the stack of an iterator of memiavl/iterator.go has still to visit.
use cronos_store.Common.{
  ℕ, ◌+◌, ◌≤◌, ◌≡◌, Bool, true, false, List, [], ◌∷◌, ◌++◌, arith, refl, append_assoc,
}
use cronos_store.Common.Bytes.{Bytes}
use cronos_store.Memiavl.Node.{Slice, Node, branch}
use cronos_store.Memiavl.Entries.Defs.{Entry, leaves, IsSorted, IsKeyed}
use cronos_store.Memiavl.Entries.Lists.{IsSorted-left, IsSorted-right}
use cronos_store.Memiavl.Entries.Set.{branch_keys}
use cronos_store.Memiavl.Iterator.{
  after_start, before_end, push_if, push_children, weight, stack_weight,
}
use cronos_store.Memiavl.Iterator.Range.{in_range, select, select-append, skip_left, skip_right}
use mathlib.Core.List.{reverse, reverse-append}

-- Ascending or descending.
abbrev pub order : Bool → List Entry → List Entry
order true xs = xs
order false xs = reverse xs

-- The trees on the stack are sorted, and their branches hold the least key of their right side.
abbrev pub IsReady : List Node → Type 0
IsReady [] = Unit
IsReady (n ∷ stack) = (IsKeyed n × IsSorted (leaves n)) × IsReady stack

module _ (start stop : Slice) (ascending : Bool) where
  -- What the iterator has still to visit.
  unfoldable pub pending : List Node → List Entry
  pending [] = []
  pending (n ∷ stack) = order ascending (select (in_range start stop) (leaves n)) ++ pending stack

pub pending_if :
    (start stop : Slice) (ascending b : Bool) (n : Node) (stack : List Node)
    → (b ≡ false → select (in_range start stop) (leaves n) ≡ [])
    → pending start stop ascending (push_if b n stack)
      ≡ order ascending (select (in_range start stop) (leaves n))
        ++ pending start stop ascending stack
unfolding pending push_if
pending_if start stop ascending true n stack h = refl
pending_if start stop true false n stack h = rw (h refl)
pending_if start stop false false n stack h = rw (h refl)

IsReady-push_if :
    (b : Bool) (n : Node) (stack : List Node)
    → IsKeyed n × IsSorted (leaves n)
    → IsReady stack
    → IsReady (push_if b n stack)
unfolding push_if
IsReady-push_if true n stack h r = (h, r)
IsReady-push_if false n stack h r = r

weight-push_if :
    (b : Bool) (n : Node) (stack : List Node)
    → stack_weight (push_if b n stack) ≤ weight n + stack_weight stack
unfolding push_if stack_weight
weight-push_if true n stack = omega arith
weight-push_if false n stack = omega arith

module _ (start stop : Slice) (h s v : ℕ) (key : Bytes) (hash : Slice) (l r : Node)
    (k : IsKeyed (branch h s v key hash l r)) (sorted : IsSorted (leaves l ++ leaves r)) where
  -- Pushing the children that the tests let through leaves the same entries to visit.
  pub pending_children :
      (ascending : Bool) (stack : List Node)
      → pending start stop ascending
          (push_children ascending (after_start start key) (before_end stop key) l r stack)
        ≡ order ascending (select (in_range start stop) (leaves l ++ leaves r))
          ++ pending start stop ascending stack
  unfolding push_children
  pending_children true stack =
      let (begins, below) = branch_keys key l r k.0 sorted in
      rw (
        pending_if start stop true (after_start start key) l (push_if (before_end stop key) r stack)
            (skip_left start stop key (leaves l) below),
        pending_if start stop true (before_end stop key) r stack (
            skip_right start stop key (leaves r) (IsSorted-right (leaves l) (leaves r) sorted)
              begins),
        select-append (in_range start stop) (leaves l) (leaves r),
        append_assoc,
      )
  pending_children false stack =
      let (begins, below) = branch_keys key l r k.0 sorted in
      rw (
        pending_if start stop false (before_end stop key) r
            (push_if (after_start start key) l stack)
            (skip_right start stop key (leaves r) (IsSorted-right (leaves l) (leaves r) sorted)
              begins),
        pending_if start stop false (after_start start key) l stack
            (skip_left start stop key (leaves l) below),
        select-append (in_range start stop) (leaves l) (leaves r),
        reverse-append,
        append_assoc,
      )

  pub children-IsReady :
      (ascending a b : Bool) (stack : List Node)
      → IsReady stack
      → IsReady (push_children ascending a b l r stack)
  unfolding push_children
  children-IsReady true a b stack q =
      IsReady-push_if a l _ (k.1, IsSorted-left (leaves l) (leaves r) sorted)
        (IsReady-push_if b r stack (k.2, IsSorted-right (leaves l) (leaves r) sorted) q)
  children-IsReady false a b stack q =
      IsReady-push_if b r _ (k.2, IsSorted-right (leaves l) (leaves r) sorted)
        (IsReady-push_if a l stack (k.1, IsSorted-left (leaves l) (leaves r) sorted) q)

pub weight-children :
    (ascending a b : Bool) (l r : Node) (stack : List Node)
    → stack_weight (push_children ascending a b l r stack)
      ≤ weight l + weight r + stack_weight stack
unfolding push_children
weight-children true a b l r stack =
    omega (arith, weight-push_if a l (push_if b r stack), weight-push_if b r stack)
weight-children false a b l r stack =
    omega (arith, weight-push_if b r (push_if a l stack), weight-push_if a l stack)
