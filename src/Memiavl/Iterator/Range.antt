-- ===== src/Memiavl/Iterator/Range.antt =====
-- The domain of an iterator, said without the code's tests, and what the tests of
-- memiavl/iterator.go leave out.
use Prim.Native.Nat.Ordering.{lt}
use cronos_store.Common.{
  ◌≡◌, Bool, true, false, ◌&&◌, ◌||◌, none, some, List, [], ◌∷◌, ◌++◌, arith, refl, sym, inl, inr,
  if◌then◌else◌, All, All-imp,
}
use cronos_store.Common.Bytes.{
  Bytes, compare_bytes, ◌≺◌, ◌≼◌, lt_trans, gt_of_lt, lt_of_gt, eq_of_cmp, cmp_refl,
}
use cronos_store.Memiavl.Node.{Slice}
use cronos_store.Memiavl.Entries.Defs.{Entry, IsSorted}
use cronos_store.Memiavl.Entries.Lists.{Below, Starts}
use cronos_store.Memiavl.Iterator.{after_start, at_start, before_end}

-- The key is not below the start, and it is below the end.
unfoldable pub in_range : Slice → Slice → Bytes → Bool
in_range start stop key =
    elim start [ none ↦ true | some s ↦ elim (compare_bytes key s) [ lt ↦ false | _ ↦ true ] ]
    && elim stop [ none ↦ true | some e ↦ elim (compare_bytes key e) [ lt ↦ true | _ ↦ false ] ]

unfoldable pub select : (Bytes → Bool) → List Entry → List Entry
select p [] = []
select p (e ∷ es) = let rest = select p es in if p e.0 then e ∷ rest else rest

pub select-append :
    (p : Bytes → Bool) (xs ys : List Entry) → select p (xs ++ ys) ≡ select p xs ++ select p ys
unfolding select
select-append p [] ys = refl
select-append p (x ∷ xs) ys = ground (arith, select-append p xs ys)

pub select_nothing :
    (p : Bytes → Bool) (xs : List Entry) → All (λ (e : Entry). p e.0 ≡ false) xs → select p xs ≡ []
unfolding select
select_nothing p [] h = refl
select_nothing p (x ∷ xs) h = ground (arith, select_nothing p xs h.1)

-- The test of `Next` on a leaf.
pub leaf_test :
    (start stop : Slice) (key : Bytes)
    → ((after_start start key || at_start start key) && before_end stop key)
      ≡ in_range start stop key
unfolding after_start at_start before_end in_range
leaf_test none none key = refl
leaf_test none (some e) key = refl
leaf_test (some s) none key = ground (
  arith,
  lt_of_gt key s,
  lt_of_gt s key,
  gt_of_lt s key,
  gt_of_lt key s,
  eq_of_cmp key s,
  cmp_refl key,
)
leaf_test (some s) (some e) key = ground (
  arith,
  lt_of_gt key s,
  lt_of_gt s key,
  gt_of_lt s key,
  gt_of_lt key s,
  eq_of_cmp key s,
  cmp_refl key,
)

below_start :
    (start stop : Slice) (key j : Bytes)
    → after_start start key ≡ false
    → j ≺ key
    → in_range start stop j ≡ false
unfolding after_start in_range
below_start none stop key j e p = cc
below_start (some s) stop key j e p =
    ground (arith, lt_of_gt s key, eq_of_cmp s key, lt_trans j key s)

beyond_end :
    (start stop : Slice) (key j : Bytes)
    → before_end stop key ≡ false
    → key ≼ j
    → in_range start stop j ≡ false
unfolding before_end in_range
beyond_end start none key j e p = cc
beyond_end start (some t) key j e p = ground (arith, lt_trans key j t)

module _ (start stop : Slice) where
  -- Where the key of a branch is not after the start, nothing on its left is in the domain.
  pub skip_left :
      (key : Bytes) (xs : List Entry)
      → Below key xs
      → after_start start key ≡ false
      → select (in_range start stop) xs ≡ []
  skip_left key xs b e =
      select_nothing (in_range start stop) xs
        (All-imp (λ x p. below_start start stop key x.0 e p) xs b)

  -- Where the key of a branch is not before the end, nothing on its right is in the domain.
  pub skip_right :
      (key : Bytes) (ys : List Entry)
      → IsSorted ys
      → Starts key ys
      → before_end stop key ≡ false
      → select (in_range start stop) ys ≡ []
  skip_right key [] h s e = absurd s
  skip_right key (y ∷ ys) h s e = select_nothing (in_range start stop) (y ∷ ys) (
    beyond_end start stop key y.0 e (inr (sym s)),
    All-imp (λ x p. beyond_end start stop key x.0 e (inl (rw s at p))) ys h.0,
  )
