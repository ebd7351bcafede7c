-- ===== src/Common/Slices.antt =====
-- Go's slices of a byte slice.
use Prim.Native.Nat.{ℕ, zero, suc, ◌+◌, ◌-◌, ◌≤◌}
use mathlib.Core.Path.{◌≡◌, refl, ap}
use mathlib.Core.List.{[], ◌∷◌, ◌++◌}
use native.Mathlib.Omega.{arith}
use cronos_store.Common.Lists.{length}
use cronos_store.Common.Bytes.{Bytes}

-- `bz[:n]` and `bz[n:]`, where `n` is not above the length.
unfoldable pub first : ℕ → Bytes → Bytes
first zero bz = []
first (suc n) [] = []
first (suc n) (b ∷ bz) = b ∷ first n bz

unfoldable pub from : ℕ → Bytes → Bytes
from zero bz = bz
from (suc n) [] = []
from (suc n) (b ∷ bz) = from n bz

pub length-from : (n : ℕ) (bz : Bytes) → length (from n bz) ≡ length bz - n
unfolding from
length-from zero bz = omega arith
length-from (suc n) [] = omega arith
length-from (suc n) (b ∷ bz) = omega (arith, length-from n bz)

pub from-append : (xs ys : Bytes) → from (length xs) (xs ++ ys) ≡ ys
unfolding from
from-append [] ys = refl
from-append (x ∷ xs) ys = from-append xs ys

pub first-append : (xs ys : Bytes) → first (length xs) (xs ++ ys) ≡ xs
unfolding first
first-append [] ys = refl
first-append (x ∷ xs) ys = ap (λ z. x ∷ z) (first-append xs ys)

pub from-add : (n m : ℕ) (bz : Bytes) → from (n + m) bz ≡ from m (from n bz)
unfolding from
from-add zero m bz = let e : 0 + m ≡ m = omega arith in rw e refl
from-add (suc n) m [] = let e : suc n + m ≡ suc (n + m) = omega arith in rw e (from_nil m)
  where
    from_nil : (m : ℕ) → [] ≡ from m []
    from_nil zero = refl
    from_nil (suc m) = refl
from-add (suc n) m (b ∷ bz) =
    let e : suc n + m ≡ suc (n + m) = omega arith in rw e (from-add n m bz)

pub first_short : (k : ℕ) (xs ys : Bytes) → k ≤ length xs → first k (xs ++ ys) ≡ first k xs
unfolding first
first_short zero xs ys h = refl
first_short (suc k) [] ys h = absurd (omega arith)
first_short (suc k) (x ∷ xs) ys h = ap (λ z. x ∷ z) (first_short k xs ys (omega arith))

pub first_long : (k : ℕ) (xs ys : Bytes) → first (length xs + k) (xs ++ ys) ≡ xs ++ first k ys
unfolding first
first_long k [] ys = let e : 0 + k ≡ k = omega arith in rw e refl
first_long k (x ∷ xs) ys =
    let e : suc (length xs) + k ≡ suc (length xs + k) = omega arith in
    rw e (ap (λ z. x ∷ z) (first_long k xs ys))

pub length-first : (k : ℕ) (xs : Bytes) → k ≤ length xs → length (first k xs) ≡ k
unfolding first
length-first zero xs h = refl
length-first (suc k) [] h = absurd (omega arith)
length-first (suc k) (x ∷ xs) h = ap suc (length-first k xs (omega arith))
