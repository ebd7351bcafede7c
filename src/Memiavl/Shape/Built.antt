-- ===== src/Memiavl/Shape/Built.antt =====
-- The balance of what `updateHeightSize` of memiavl/mem_node.go builds, once and in two levels.
use cronos_store.Common.{ℕ, suc, ◌+◌, ◌%◌, ◌^◌, ◌≤◌, ◌<◌, ◌≡◌, none, max, arith, ◌⊎◌}
use cronos_store.Common.Bytes.{Bytes}
use cronos_store.Memiavl.Node.{Slice, Node, height, size, update_height_size}
use cronos_store.Memiavl.Shape.Defs.{IsBalanced}

-- What `updateHeightSize` builds over the children `l` and `r`.
pub record Built (l r n : Node) : Type 0 where
  pub balanced : IsBalanced n
  pub sized : size n ≡ size l + size r
  pub high : height n ≡ suc (max (height l) (height r))

-- A balanced tree of size `s` over children of heights `a` and `b`.
pub record Fits (a b s : ℕ) (n : Node) : Type 0 where
  pub balanced : IsBalanced n
  pub sized : size n ≡ s
  pub low : max a b ≤ height n
  pub high : height n ≤ max a b + 1
  pub exact : (height n ≡ max a b + 1) ⊎ (a ≡ b + 2) ⊎ (b ≡ a + 2)

small_height : (a b : ℕ) → a ≤ 200 → b ≤ 200 → (max a b + 1) % 2 ^ 8 ≡ suc (max a b)
small_height a b h k = omega arith

pub update_height_size-Built :
    (v : ℕ) (key : Bytes) (hash : Slice) (l r : Node)
    → IsBalanced l
    → IsBalanced r
    → height l ≤ height r + 1
    → height r ≤ height l + 1
    → height l ≤ 200
    → height r ≤ 200
    → size l + size r < 2 ^ 64
    → Built l r (update_height_size v key hash l r)
unfolding update_height_size
update_height_size-Built v key hash l r bl br lo hi hl hr fits = record {
  balanced = (small_height _ _ hl hr, small_size, lo, hi, bl, br);
  sized = small_size;
  high = small_height _ _ hl hr;
}
  where
    small_size : (size l + size r) % 2 ^ 64 ≡ size l + size r
    small_size = omega arith

-- Two rotations: `a` and `b` are the children of the inner child, which takes the top.
pub double-Fits :
    (version v w : ℕ) (key lkey rkey : Bytes) (lhash rhash : Slice) (x a b y : Node)
    → IsBalanced x
    → IsBalanced a
    → IsBalanced b
    → IsBalanced y
    → height x ≡ height y
    → max (height a) (height b) ≡ height x
    → height a ≤ height b + 1
    → height b ≤ height a + 1
    → height x ≤ 198
    → size x + size a + (size b + size y) < 2 ^ 64
    → let n =
        update_height_size version key none
          (update_height_size v lkey lhash x a)
          (update_height_size w rkey rhash b y) in
      IsBalanced n × (size n ≡ size x + size a + (size b + size y)) × (height n ≡ height x + 2)
double-Fits version v w key lkey rkey lhash rhash x a b y bx ba bb by e m lo hi cap fits =
    let left =
      update_height_size-Built v lkey lhash x a bx ba (omega arith) (omega arith) (omega arith)
        (omega arith) (omega arith) in
    let right =
      update_height_size-Built w rkey rhash b y bb by (omega arith) (omega arith) (omega arith)
        (omega arith) (omega arith) in
    let outer =
      update_height_size-Built version key none (update_height_size v lkey lhash x a)
        (update_height_size w rkey rhash b y) left.balanced right.balanced (omega arith)
        (omega arith) (omega arith) (omega arith) (omega arith) in
    (outer.balanced, omega arith, omega arith)
