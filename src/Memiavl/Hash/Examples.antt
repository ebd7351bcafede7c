-- ===== src/Memiavl/Hash/Examples.antt =====
-- The hashes of a concrete tree, with a stand-in for SHA-256.
use cronos_store.Common.{◌≡◌, some, none, refl, arith, length, [], ◌∷◌}
use cronos_store.Common.Bytes.{Bytes, compare_bytes}
use cronos_store.Memiavl.Node.{Node, leaf, branch, height, size}
use cronos_store.Memiavl.Entries.Defs.{leaves, leaves_of, min_key}
use cronos_store.Memiavl.Hash.{root_hash}
use cronos_store.Memiavl.Hash.Clean.{IsCleanRoot}
use cronos_store.Memiavl.Hash.Cache.{fresh_root_hash, root_hash-fresh}
use cronos_store.Memiavl.Valid.{IsValid, IsValidRoot}

abbrev short_digest : Bytes → Bytes
short_digest bz = length bz ∷ []

abbrev unhashed : Node
unhashed =
    branch 1 2 3 (2 ∷ []) none (leaf 3 (1 ∷ []) (some []) none) (leaf 2 (2 ∷ []) (some []) none)

unhashed-IsValid : IsValid unhashed
unhashed-IsValid = record {
  balanced = unfold height size in (refl, refl, omega arith, omega arith, tt, tt);
  keyed = unfold min_key in (refl, tt, tt);
  sorted = unfold leaves compare_bytes in ((refl, tt), (tt, tt));
  values = unfold leaves in (([], refl), (([], refl), tt));
}

root_hash-fresh_example :
    ((root_hash short_digest (some unhashed)).0 ≡ fresh_root_hash short_digest (some unhashed))
    × IsCleanRoot short_digest (root_hash short_digest (some unhashed)).1
    × (leaves_of (root_hash short_digest (some unhashed)).1 ≡ leaves_of (some unhashed))
    × IsValidRoot (root_hash short_digest (some unhashed)).1
root_hash-fresh_example = root_hash-fresh short_digest (some unhashed) (tt, tt, tt) unhashed-IsValid
