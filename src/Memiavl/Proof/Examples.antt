-- ===== src/Memiavl/Proof/Examples.antt =====
-- The theorems on ICS-23 proofs at a concrete tree, with a stand-in for SHA-256 of 32 bytes.
use cronos_store.Common.{ℕ, zero, suc, ◌≡◌, some, none, refl, arith, length, [], ◌∷◌}
use cronos_store.Common.Bytes.{Bytes, compare_bytes}
use cronos_store.Common.Panic.{Returns}
use cronos_store.Memiavl.Node.{Node, leaf, branch, height, size}
use cronos_store.Memiavl.Entries.Defs.{leaves, min_key, lookup}
use cronos_store.Memiavl.Valid.{IsValid}
use cronos_store.Memiavl.Proof.{create_existence_proof, get_non_membership_proof}
use cronos_store.Memiavl.Proof.Exist.{Proves, create_existence_proof-Proves}
use cronos_store.Memiavl.Proof.Absent.{Refutes, get_non_membership_proof-Refutes}

abbrev zeros : ℕ → Bytes
zeros zero = []
zeros (suc n) = 0 ∷ zeros n

abbrev blank : Bytes → Bytes
blank bz = length bz ∷ zeros 31

abbrev low : Bytes
low = 1 ∷ []

abbrev high : Bytes
high = 9 ∷ []

abbrev pair : Node
pair = branch 1 2 5 high none (leaf 5 low (some high) none) (leaf 4 high (some []) none)

pair-IsValid : IsValid pair
pair-IsValid = record {
  balanced = unfold height size in (refl, refl, omega arith, omega arith, tt, tt);
  keyed = unfold min_key in (refl, tt, tt);
  sorted = unfold leaves compare_bytes in ((refl, tt), (tt, tt));
  values = unfold leaves in ((high, refl), (([], refl), tt));
}

blank_sized : (bz : Bytes) → length (blank bz) ≡ 32
blank_sized bz = refl

create_existence_proof-Proves_example :
    Proves blank blank_sized low (some pair) (create_existence_proof blank low (some pair))
create_existence_proof-Proves_example =
    create_existence_proof-Proves blank blank_sized low (some pair) pair-IsValid (tt, tt, tt)

get_non_membership_proof-Refutes_example :
    Returns
      (get_non_membership_proof blank (5 ∷ []) (some pair))
      (Refutes blank blank_sized (5 ∷ []) pair)
get_non_membership_proof-Refutes_example =
    get_non_membership_proof-Refutes blank blank_sized (5 ∷ []) pair pair-IsValid (tt, tt, tt)
      (unfold leaves in omega arith) (unfold lookup leaves compare_bytes in refl)
