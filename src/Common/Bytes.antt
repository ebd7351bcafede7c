-- ===== src/Common/Bytes.antt =====
-- Byte slices and the lexicographic order of Go's `bytes.Compare` and `bytes.Equal`.
use Prim.Native.Nat.{ℕ, compare, Ordering}
use Prim.Native.Nat.Ordering.{lt, eq, gt}
use mathlib.Core.Path.{◌≡◌, refl}
use mathlib.Core.Bool.{Bool, true, false}
use mathlib.Core.Logic.{◌↔◌, ◌⊎◌, inl, inr}
use mathlib.Core.List.{List, [], ◌∷◌}
use native.Mathlib.Omega.{arith}

abbrev pub Bytes : Type 0
Bytes = List ℕ

unfoldable pub compare_bytes : Bytes → Bytes → Ordering
compare_bytes [] [] = eq
compare_bytes [] (y ∷ ys) = lt
compare_bytes (x ∷ xs) [] = gt
compare_bytes (x ∷ xs) (y ∷ ys) = elim (compare x y) [
  | lt ↦ lt
  | eq ↦ compare_bytes xs ys
  | gt ↦ gt
]

unfoldable pub equal_bytes : Bytes → Bytes → Bool
unfolding compare_bytes
equal_bytes a b = elim (compare_bytes a b) [ eq ↦ true | _ ↦ false ]

infix 50 ◌≺◌ ◌≼◌
abbrev pub ◌≺◌ : Bytes → Bytes → Type 0
a ≺ b = compare_bytes a b ≡ lt

abbrev pub ◌≼◌ : Bytes → Bytes → Type 0
a ≼ b = (a ≺ b) ⊎ (a ≡ b)

pub cmp_refl : (a : Bytes) → compare_bytes a a ≡ eq
unfolding compare_bytes
cmp_refl [] = refl
cmp_refl (x ∷ xs) = ground (arith, cmp_refl xs)

pub eq_of_cmp : (a b : Bytes) → compare_bytes a b ≡ eq → a ≡ b
unfolding compare_bytes
eq_of_cmp [] [] h = refl
eq_of_cmp [] (y ∷ ys) h = cc
eq_of_cmp (x ∷ xs) [] h = cc
eq_of_cmp (x ∷ xs) (y ∷ ys) h = ground (arith, eq_of_cmp xs ys)

pub lt_of_gt : (a b : Bytes) → compare_bytes a b ≡ gt → b ≺ a
unfolding compare_bytes
lt_of_gt [] [] h = cc
lt_of_gt [] (y ∷ ys) h = cc
lt_of_gt (x ∷ xs) [] h = refl
lt_of_gt (x ∷ xs) (y ∷ ys) h = ground (arith, lt_of_gt xs ys)

pub gt_of_lt : (a b : Bytes) → a ≺ b → compare_bytes b a ≡ gt
unfolding compare_bytes
gt_of_lt [] [] h = cc
gt_of_lt [] (y ∷ ys) h = refl
gt_of_lt (x ∷ xs) [] h = cc
gt_of_lt (x ∷ xs) (y ∷ ys) h = ground (arith, gt_of_lt xs ys)

pub lt_trans : (a b c : Bytes) → a ≺ b → b ≺ c → a ≺ c
unfolding compare_bytes
lt_trans [] [] c h k = cc
lt_trans [] (y ∷ ys) [] h k = cc
lt_trans [] (y ∷ ys) (z ∷ zs) h k = refl
lt_trans (x ∷ xs) [] c h k = cc
lt_trans (x ∷ xs) (y ∷ ys) [] h k = cc
lt_trans (x ∷ xs) (y ∷ ys) (z ∷ zs) h k = ground (arith, lt_trans xs ys zs)

pub lt_irrefl : (a : Bytes) → a ≺ a → ⊥
lt_irrefl a h = cc (cmp_refl a)

pub lt_of_lt_of_le : (a b c : Bytes) → a ≺ b → b ≼ c → a ≺ c
lt_of_lt_of_le a b c h k = ground (arith, lt_trans a b c)

pub lt_of_le_of_lt : (a b c : Bytes) → a ≼ b → b ≺ c → a ≺ c
lt_of_le_of_lt a b c h k = ground (arith, lt_trans a b c)

-- What a comparison says of its arguments.
pub compare-cases :
    (a b : Bytes)
    → ((compare_bytes a b ≡ lt) × (compare_bytes b a ≡ gt))
      ⊎ ((compare_bytes a b ≡ eq) × (a ≡ b))
      ⊎ ((compare_bytes a b ≡ gt) × (b ≺ a))
compare-cases a b = go (compare_bytes a b) refl
  where
    go :
        (o : Ordering)
        → compare_bytes a b ≡ o
        → ((compare_bytes a b ≡ lt) × (compare_bytes b a ≡ gt))
          ⊎ ((compare_bytes a b ≡ eq) × (a ≡ b))
          ⊎ ((compare_bytes a b ≡ gt) × (b ≺ a))
    go lt e = inl (e, gt_of_lt a b e)
    go eq e = inr (inl (e, eq_of_cmp a b e))
    go gt e = inr (inr (e, lt_of_gt a b e))

pub equal_bytes_iff : (a b : Bytes) → (equal_bytes a b ≡ true) ↔ (a ≡ b)
unfolding equal_bytes
equal_bytes_iff a b = (λ h. ground (arith, eq_of_cmp a b), λ h. ground (arith, cmp_refl a))
