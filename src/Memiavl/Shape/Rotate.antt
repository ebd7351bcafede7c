-- ===== src/Memiavl/Shape/Rotate.antt =====
-- `rotateRight` and `rotateLeft` of memiavl/mem_node.go on a branch that one rotation balances.
use cronos_store.Common.{ℕ, ◌+◌, ◌^◌, ◌≤◌, ◌<◌, ◌≡◌, none, arith}
use cronos_store.Common.Bytes.{Bytes}
use cronos_store.Common.Panic.{Returns}
use cronos_store.Memiavl.Node.{
  Slice, Node, branch, height, size, update_height_size, rotate_right, rotate_left,
}
use cronos_store.Memiavl.Shape.Defs.{IsBalanced}
use cronos_store.Memiavl.Shape.Built.{Fits, update_height_size-Built}

pub rotate_right-Fits :
    (version v : ℕ) (key : Bytes) (hash : Slice) (lh ls lv : ℕ) (lkey : Bytes) (lhash : Slice)
    (ll lr r : Node)
    → IsBalanced (branch lh ls lv lkey lhash ll lr)
    → IsBalanced r
    → lh ≡ height r + 2
    → lh ≤ 198
    → ls + size r < 2 ^ 64
    → height lr ≤ height ll
    → Returns
        (rotate_right version v key hash (branch lh ls lv lkey lhash ll lr) r)
        (Fits lh (height r) (ls + size r))
unfolding rotate_right
rotate_right-Fits version v key hash lh ls lv lkey lhash ll lr r bl br e cap fits ge =
    let inner =
      update_height_size-Built v key hash lr r bl.5 br (omega arith) (omega arith) (omega arith)
        (omega arith) (omega arith) in
    let n = update_height_size v key hash lr r in
    let outer =
      update_height_size-Built version lkey none ll n bl.4 inner.balanced (omega arith)
        (omega arith) (omega arith) (omega arith) (omega arith) in
    record {
      balanced = outer.balanced;
      sized = omega arith;
      low = omega arith;
      high = omega arith;
      exact = omega arith;
    }

pub rotate_left-Fits :
    (version v : ℕ) (key : Bytes) (hash : Slice) (l : Node) (rh rs rv : ℕ) (rkey : Bytes)
    (rhash : Slice) (rl rr : Node)
    → IsBalanced l
    → IsBalanced (branch rh rs rv rkey rhash rl rr)
    → rh ≡ height l + 2
    → rh ≤ 198
    → size l + rs < 2 ^ 64
    → height rl ≤ height rr
    → Returns
        (rotate_left version v key hash l (branch rh rs rv rkey rhash rl rr))
        (Fits (height l) rh (size l + rs))
unfolding rotate_left
rotate_left-Fits version v key hash l rh rs rv rkey rhash rl rr bl br e cap fits ge =
    let inner =
      update_height_size-Built v key hash l rl bl br.4 (omega arith) (omega arith) (omega arith)
        (omega arith) (omega arith) in
    let n = update_height_size v key hash l rl in
    let outer =
      update_height_size-Built version rkey none n rr inner.balanced br.5 (omega arith)
        (omega arith) (omega arith) (omega arith) (omega arith) in
    record {
      balanced = outer.balanced;
      sized = omega arith;
      low = omega arith;
      high = omega arith;
      exact = omega arith;
    }
