-- ===== src/Memiavl/Shape/Defs.antt =====
-- The AVL shape of a tree of memiavl/mem_node.go, and the bound on its height.
use cronos_store.Common.{
  ℕ, zero, suc, ◌+◌, ◌*◌, ◌^◌, ◌≤◌, ◌<◌, ◌≡◌, refl, max, ap, arith, length, length-append, ◌⊎◌, inl,
  inr,
}
use native.Mathlib.Decide.{dec_lt}
use cronos_store.Memiavl.Node.{Node, leaf, branch, height, size}
use cronos_store.Memiavl.Entries.Defs.{leaves}

-- Every branch stores one more than the height of its higher child and the sum of the sizes of its
-- children, whose heights differ by 1 at most.
abbrev pub IsBalanced : Node → Type 0
IsBalanced (leaf v key value hash) = Unit
IsBalanced (branch h s v key hash l r) =
    (h ≡ suc (max (height l) (height r)))
    × (s ≡ size l + size r)
    × (height l ≤ height r + 1)
    × (height r ≤ height l + 1)
    × IsBalanced l
    × IsBalanced r

pub size-eq-length : (t : Node) → IsBalanced t → size t ≡ length (leaves t)
unfolding size leaves
size-eq-length (leaf v key value hash) b = refl
size-eq-length (branch h s v key hash l r) b =
    omega (arith, size-eq-length l b.4, size-eq-length r b.5, length-append (leaves l) (leaves r))

-- 2 to the power n / 2.
half_pow : ℕ → ℕ
half_pow zero = 1
half_pow (suc zero) = 1
half_pow (suc (suc n)) = 2 * half_pow n

half_pow_mono : (n : ℕ) → half_pow n ≤ half_pow (suc n)
unfolding half_pow
half_pow_mono zero = omega arith
half_pow_mono (suc zero) = omega arith
half_pow_mono (suc (suc n)) = omega (arith, half_pow_mono n)

half_pow_pos : (n : ℕ) → 1 ≤ half_pow n
unfolding half_pow
half_pow_pos zero = omega arith
half_pow_pos (suc zero) = omega arith
half_pow_pos (suc (suc n)) = omega (arith, half_pow_pos n)

half_pow-le : (n m : ℕ) → n ≤ m → half_pow n ≤ half_pow m
unfolding half_pow
half_pow-le zero m h = omega (arith, half_pow_pos m)
half_pow-le (suc zero) m h = omega (arith, half_pow_pos m)
half_pow-le (suc (suc n)) zero h = absurd (omega arith)
half_pow-le (suc (suc n)) (suc zero) h = absurd (omega arith)
half_pow-le (suc (suc n)) (suc (suc m)) h = omega (arith, half_pow-le n m (omega arith))

half_pow-double : (n : ℕ) → half_pow (suc n) ≤ 2 * half_pow n
unfolding half_pow
half_pow-double zero = omega arith
half_pow-double (suc n) = omega (arith, half_pow_mono n)

half_pow_grows :
    (a b : ℕ) → a ≤ b + 1 → b ≤ a + 1 → half_pow (suc (max a b)) ≤ half_pow a + half_pow b
half_pow_grows a b h k = elim (three a b h k) [
  | inl e ↦
      let m : suc (max a b) ≡ suc b = omega arith in
      rw m (omega (arith, half_pow-double b, ap half_pow e))
  | inr (inl e) ↦
      let m : suc (max a b) ≡ suc (suc b) = omega arith in
      rw m (unfold half_pow in omega (arith, half_pow_mono b, ap half_pow e))
  | inr (inr e) ↦
      let m : suc (max a b) ≡ suc (suc a) = omega arith in
      rw m (unfold half_pow in omega (arith, half_pow_mono a, ap half_pow e))
]
  where
    three : (a b : ℕ) → a ≤ b + 1 → b ≤ a + 1 → (a ≡ b) ⊎ (a ≡ suc b) ⊎ (b ≡ suc a)
    three a b h k = grind arith

half_pow-height : (t : Node) → IsBalanced t → half_pow (height t) ≤ size t
unfolding height size
half_pow-height (leaf v key value hash) b = unfold half_pow in omega arith
half_pow-height (branch h s v key hash l r) b =
    rw (b.0, b.1)
      (omega (
        arith,
        half_pow_grows (height l) (height r) b.2 b.3,
        half_pow-height l b.4,
        half_pow-height r b.5,
      ))

-- A tree whose size fits an int64 is at most 125 high, so that a height fits a uint8.
pub height_bound : (t : Node) → IsBalanced t → size t < 2 ^ 63 → height t ≤ 125
unfolding half_pow
height_bound t b h = elim (dec_lt 125 (height t)) [
  | yes p ↦ absurd (omega (arith, half_pow-le 126 (height t) p, half_pow-height t b))
  | no p ↦ omega arith
]
