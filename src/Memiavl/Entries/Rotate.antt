-- ===== src/Memiavl/Entries/Rotate.antt =====
-- `reBalance` of memiavl/mem_node.go keeps the leaves, their order and the keys of the branches.
use cronos_store.Common.{ℕ, ◌≡◌, ◌++◌, some, none, arith, refl, append_assoc}
use cronos_store.Common.Bytes.{Bytes}
use cronos_store.Common.Panic.{Provided, Provided-intro}
use cronos_store.Memiavl.Node.{
  Slice, Node, leaf, branch, update_height_size, rotate_right, rotate_left, rebalance,
  mutate_rotate_left, mutate_rotate_right, rebalance_left, rebalance_right,
}
use cronos_store.Memiavl.Entries.Defs.{leaves, min_key, IsKeyed}

-- `n` has the leaves of a branch with this key over `l` and `r`, and its branches keep their keys.
pub record Joins (key : Bytes) (l r n : Node) : Type 0 where
  pub leaves_of : leaves n ≡ leaves l ++ leaves r
  pub least : min_key n ≡ min_key l
  pub keyed : key ≡ min_key r → IsKeyed l → IsKeyed r → IsKeyed n

module _ (version v : ℕ) (key : Bytes) (hash : Slice) where
  rebalance_left-Joins :
      (l r n : Node) → rebalance_left version v key hash l r ≡ some n → Joins key l r n
  unfolding rebalance_left rotate_right rotate_left mutate_rotate_left leaves min_key
      update_height_size
  rebalance_left-Joins (leaf lv lkey lvalue lhash) r n e = cc
  rebalance_left-Joins (branch lh ls lv lkey lhash ll (leaf mv mkey mvalue mhash)) r n e =
      ground (arith, append_assoc (leaves ll) (leaves (leaf mv mkey mvalue mhash)) (leaves r))
  rebalance_left-Joins (branch lh ls lv lkey lhash ll (branch mh ms mv mkey mhash a b)) r n e =
      ground (
        arith,
        append_assoc (leaves ll) (leaves a ++ leaves b) (leaves r),
        append_assoc (leaves a) (leaves b) (leaves r),
        append_assoc (leaves ll) (leaves a) (leaves b ++ leaves r),
      )

  rebalance_right-Joins :
      (l r n : Node) → rebalance_right version v key hash l r ≡ some n → Joins key l r n
  unfolding rebalance_right rotate_right rotate_left mutate_rotate_right leaves min_key
      update_height_size
  rebalance_right-Joins l (leaf rv rkey rvalue rhash) n e = cc
  rebalance_right-Joins l (branch rh rs rv rkey rhash (leaf mv mkey mvalue mhash) rr) n e =
      ground (arith, append_assoc (leaves l) (leaves (leaf mv mkey mvalue mhash)) (leaves rr))
  rebalance_right-Joins l (branch rh rs rv rkey rhash (branch mh ms mv mkey mhash a b) rr) n e =
      ground (
        arith,
        append_assoc (leaves l) (leaves a ++ leaves b) (leaves rr),
        append_assoc (leaves a) (leaves b) (leaves rr),
        append_assoc (leaves l) (leaves a) (leaves b ++ leaves rr),
      )

update-Joins :
    (version : ℕ) (key : Bytes) (hash : Slice) (l r : Node)
    → Joins key l r (update_height_size version key hash l r)
unfolding update_height_size leaves min_key
update-Joins version key hash l r = record {
  leaves_of = refl;
  least = refl;
  keyed = λ k kl kr. (k, kl, kr);
}

rebalance-some :
    (version : ℕ) (key : Bytes) (l r n : Node)
    → rebalance version (update_height_size version key none l r) ≡ some n
    → Joins key l r n
unfolding rebalance update_height_size
rebalance-some version key l r n e = ground (
  arith,
  rebalance_left-Joins version version key none l r n,
  rebalance_right-Joins version version key none l r n,
  update-Joins version key none l r,
)

pub rebalance-Joins :
    (version : ℕ) (key : Bytes) (l r : Node)
    → Provided (rebalance version (update_height_size version key none l r)) (Joins key l r)
rebalance-Joins version key l r = Provided-intro _ _ (rebalance-some version key l r)
