-- ===== src/Memiavl/Shape/Rebalance.antt =====
-- `reBalance` of memiavl/mem_node.go restores the balance of a branch whose children's heights
-- differ by 2 at most.
use cronos_store.Common.{
  ℕ, ◌+◌, ◌^◌, ◌≤◌, ◌<◌, ◌≡◌, some, none, arith, true, false, Bool-cases, inl, inr, refl,
  if◌then◌else◌,
}
use cronos_store.Common.Bytes.{Bytes}
use cronos_store.Common.Panic.{Returns}
use cronos_store.Memiavl.Node.{
  Slice, Node, leaf, branch, height, size, update_height_size, rotate_right, rotate_left, rebalance,
  mutate_rotate_left, mutate_rotate_right, rebalance_left, rebalance_right, left_ge, left_heavy,
}
use cronos_store.Memiavl.Shape.Defs.{IsBalanced}
use cronos_store.Memiavl.Shape.Built.{Fits, double-Fits, update_height_size-Built}
use cronos_store.Memiavl.Shape.Rotate.{rotate_right-Fits, rotate_left-Fits}

left_ge-true : (l r : Node) → left_ge l r ≡ true → height r ≤ height l
unfolding left_ge
left_ge-true l r h = ground arith

left_ge-false : (l r : Node) → left_ge l r ≡ false → height l < height r
unfolding left_ge
left_ge-false l r h = ground arith

left_ge-leaf :
    (l : Node) (v : ℕ) (key : Bytes) (value hash : Slice) → left_ge l (leaf v key value hash) ≡ true
unfolding left_ge height
left_ge-leaf l v key value hash = ground arith

rebalance_left_single :
    (version v : ℕ) (key : Bytes) (hash : Slice) (lh ls lv : ℕ) (lkey : Bytes) (lhash : Slice)
    (ll lr r : Node)
    → left_ge ll lr ≡ true
    → rebalance_left version v key hash (branch lh ls lv lkey lhash ll lr) r
      ≡ rotate_right version v key hash (branch lh ls lv lkey lhash ll lr) r
unfolding rebalance_left
rebalance_left_single version v key hash lh ls lv lkey lhash ll lr r q = rw q

rebalance_left_double :
    (version v : ℕ) (key : Bytes) (hash : Slice) (lh ls lv : ℕ) (lkey : Bytes) (lhash : Slice)
    (ll : Node) (mh ms mv : ℕ) (mkey : Bytes) (mhash : Slice) (a b r : Node)
    → left_ge ll (branch mh ms mv mkey mhash a b) ≡ false
    → rebalance_left version v key hash
        (branch lh ls lv lkey lhash ll (branch mh ms mv mkey mhash a b))
        r
      ≡ some (
          update_height_size version mkey none
            (update_height_size version lkey none ll a)
            (update_height_size v key hash b r))
unfolding rebalance_left mutate_rotate_left rotate_left rotate_right update_height_size
rebalance_left_double version v key hash lh ls lv lkey lhash ll mh ms mv mkey mhash a b r q = rw q

rebalance_right_single :
    (version v : ℕ) (key : Bytes) (hash : Slice) (l : Node) (rh rs rv : ℕ) (rkey : Bytes)
    (rhash : Slice) (rl rr : Node)
    → left_ge rr rl ≡ true
    → rebalance_right version v key hash l (branch rh rs rv rkey rhash rl rr)
      ≡ rotate_left version v key hash l (branch rh rs rv rkey rhash rl rr)
unfolding rebalance_right
rebalance_right_single version v key hash l rh rs rv rkey rhash rl rr q = rw q

rebalance_right_double :
    (version v : ℕ) (key : Bytes) (hash : Slice) (l : Node) (rh rs rv : ℕ) (rkey : Bytes)
    (rhash : Slice) (mh ms mv : ℕ) (mkey : Bytes) (mhash : Slice) (a b rr : Node)
    → left_ge rr (branch mh ms mv mkey mhash a b) ≡ false
    → rebalance_right version v key hash l
        (branch rh rs rv rkey rhash (branch mh ms mv mkey mhash a b) rr)
      ≡ some (
          update_height_size version mkey none
            (update_height_size v key hash l a)
            (update_height_size version rkey none b rr))
unfolding rebalance_right mutate_rotate_right rotate_left rotate_right update_height_size
rebalance_right_double version v key hash l rh rs rv rkey rhash mh ms mv mkey mhash a b rr q = rw q

rebalance_left-Fits :
    (version v : ℕ) (key : Bytes) (hash : Slice) (l r : Node)
    → IsBalanced l
    → IsBalanced r
    → height l ≡ height r + 2
    → height l ≤ 198
    → size l + size r < 2 ^ 64
    → Returns (rebalance_left version v key hash l r) (Fits (height l) (height r) (size l + size r))
unfolding height size
rebalance_left-Fits version v key hash (leaf lv lkey lvalue lhash) r bl br e cap fits =
    absurd (omega arith)
rebalance_left-Fits version v key hash (branch lh ls lv lkey lhash ll (leaf mv mkey mvalue mhash)) r
      bl br e cap fits =
    rw
      (rebalance_left_single version v key hash lh ls lv lkey lhash ll (leaf mv mkey mvalue mhash) r
        (left_ge-leaf ll mv mkey mvalue mhash))
      (rotate_right-Fits version v key hash lh ls lv lkey lhash ll _ r bl br e cap fits
        (omega arith))
rebalance_left-Fits version v key hash
      (branch lh ls lv lkey lhash ll (branch mh ms mv mkey mhash a b)) r bl br e cap fits =
    elim (Bool-cases (left_ge ll (branch mh ms mv mkey mhash a b))) [
      | inl q ↦ rw (rebalance_left_single version v key hash lh ls lv lkey lhash ll _ r q) (
          rotate_right-Fits version v key hash lh ls lv lkey lhash ll _ r bl br e cap fits
            (left_ge-true ll _ q))
      | inr q ↦
          let lower = left_ge-false ll (branch mh ms mv mkey mhash a b) q in
          let (balanced, sized, high) =
            double-Fits version version v mkey lkey key none hash ll a b r bl.4 bl.5.4 bl.5.5 br
              (omega arith) (omega arith) (omega arith) (omega arith) (omega arith) (omega arith) in
          rw
            (rebalance_left_double version v key hash lh ls lv lkey lhash ll mh ms mv mkey mhash a b
              r q)
            (record {
              balanced = balanced;
              sized = omega arith;
              low = omega arith;
              high = omega arith;
              exact = omega arith;
            })
    ]

rebalance_right-Fits :
    (version v : ℕ) (key : Bytes) (hash : Slice) (l r : Node)
    → IsBalanced l
    → IsBalanced r
    → height r ≡ height l + 2
    → height r ≤ 198
    → size l + size r < 2 ^ 64
    → Returns
        (rebalance_right version v key hash l r)
        (Fits (height l) (height r) (size l + size r))
unfolding height size
rebalance_right-Fits version v key hash l (leaf rv rkey rvalue rhash) bl br e cap fits =
    absurd (omega arith)
rebalance_right-Fits version v key hash l
      (branch rh rs rv rkey rhash (leaf mv mkey mvalue mhash) rr) bl br e cap fits =
    rw
      (rebalance_right_single version v key hash l rh rs rv rkey rhash (leaf mv mkey mvalue mhash)
        rr (left_ge-leaf rr mv mkey mvalue mhash))
      (rotate_left-Fits version v key hash l rh rs rv rkey rhash _ rr bl br e cap fits
        (omega arith))
rebalance_right-Fits version v key hash l
      (branch rh rs rv rkey rhash (branch mh ms mv mkey mhash a b) rr) bl br e cap fits =
    elim (Bool-cases (left_ge rr (branch mh ms mv mkey mhash a b))) [
      | inl q ↦ rw (rebalance_right_single version v key hash l rh rs rv rkey rhash _ rr q) (
          rotate_left-Fits version v key hash l rh rs rv rkey rhash _ rr bl br e cap fits
            (left_ge-true rr _ q))
      | inr q ↦
          let lower = left_ge-false rr (branch mh ms mv mkey mhash a b) q in
          let (balanced, sized, high) =
            double-Fits version v version mkey key rkey hash none l a b rr bl br.4.4 br.4.5 br.5
              (omega arith) (omega arith) (omega arith) (omega arith) (omega arith) (omega arith) in
          rw
            (rebalance_right_double version v key hash l rh rs rv rkey rhash mh ms mv mkey mhash a b
              rr q)
            (record {
              balanced = balanced;
              sized = omega arith;
              low = omega arith;
              high = omega arith;
              exact = omega arith;
            })
    ]

left_heavy-true : (l r : Node) → left_heavy l r ≡ true → height r + 1 < height l
unfolding left_heavy
left_heavy-true l r h = ground arith

left_heavy-false : (l r : Node) → left_heavy l r ≡ false → height l ≤ height r + 1
unfolding left_heavy
left_heavy-false l r h = ground arith

rebalance_lem :
    (version : ℕ) (key : Bytes) (l r : Node)
    → rebalance version (update_height_size version key none l r) ≡ (
        if left_heavy l r
        then rebalance_left version version key none l r
        else if left_heavy r l
        then rebalance_right version version key none l r
        else some (update_height_size version key none l r))
unfolding rebalance update_height_size
rebalance_lem version key l r = refl

-- `reBalance` does not panic on children that differ by 2 in height at most, and balances them.
pub rebalance-Fits :
    (version : ℕ) (key : Bytes) (l r : Node)
    → IsBalanced l
    → IsBalanced r
    → height l ≤ height r + 2
    → height r ≤ height l + 2
    → height l ≤ 198
    → height r ≤ 198
    → size l + size r < 2 ^ 64
    → Returns
        (rebalance version (update_height_size version key none l r))
        (Fits (height l) (height r) (size l + size r))
rebalance-Fits version key l r bl br hl hr cl cr fits =
    rw (rebalance_lem version key l r) (elim (Bool-cases (left_heavy l r)) [
      | inl p ↦
          let high = left_heavy-true l r p in
          rw p (rebalance_left-Fits version version key none l r bl br (omega arith) cl fits)
      | inr p ↦ elim (Bool-cases (left_heavy r l)) [
        | inl q ↦
            let high = left_heavy-true r l q in
            rw (p, q)
              (rebalance_right-Fits version version key none l r bl br (omega arith) cr fits)
        | inr q ↦
            let lo = left_heavy-false l r p in
            let hi = left_heavy-false r l q in
            let b =
              update_height_size-Built version key none l r bl br lo hi (omega arith) (omega arith)
                fits in
            rw (p, q)
              (record {
                balanced = b.balanced;
                sized = b.sized;
                low = omega arith;
                high = omega arith;
                exact = inl (omega arith);
              })
      ]
    ])
