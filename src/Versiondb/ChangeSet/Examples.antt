-- ===== src/Versiondb/ChangeSet/Examples.antt =====
-- The theorems on change set files at a concrete file of two versions.
use cronos_store.Common.{
  ℕ, ◌+◌, ◌^◌, ◌<◌, ◌≡◌, Bool, true, false, none, List, [], ◌∷◌, ◌++◌, length, arith,
}
use cronos_store.Common.Bytes.{Bytes}
use cronos_store.Common.Outcome.{Outcome, ok}
use cronos_store.Common.Varint.{put_uvarint, put_uvarint_loop}
use cronos_store.Common.Fixed.{put_uint32, put_uint64}
use cronos_store.Memiavl.Tree.{KvPair}
use cronos_store.Versiondb.ChangeSet.{
  write_change_set, read_change_set, iterate_change_sets, iterate_versions,
}
use cronos_store.Versiondb.ChangeSet.RoundTrip.{
  payload, read_result, IsWritable, read_change_set-write_change_set,
}
use cronos_store.Versiondb.ChangeSet.Iterate.{
  write_all, file, AreWritable, end_error, visit_all, iterate_change_sets-visit_all,
  iterate_versions-iterate_change_sets,
}

abbrev pairs : List KvPair
pairs =
    record { deletes = false; key = 1 ∷ 2 ∷ []; value = none }
    ∷ record { deletes = true; key = 3 ∷ []; value = none }
    ∷ []

abbrev versions : List (ℕ × List KvPair)
versions = (7, pairs) ∷ (8, []) ∷ []

pairs-IsWritable : IsWritable 7 pairs
unfolding put_uvarint put_uvarint_loop
pairs-IsWritable =
    (omega arith, ((omega arith, omega arith), ((omega arith, omega arith), tt)), omega arith)

versions-AreWritable : AreWritable versions
versions-AreWritable = (pairs-IsWritable, ((omega arith, tt, omega arith), tt))

file-length : length (file versions) < 2 ^ 63
unfolding put_uvarint put_uvarint_loop put_uint64 put_uint32
file-length = omega arith

-- A callback that collects the versions, and stops at the second.
abbrev collect : ℕ → List ℕ → List ℕ × Outcome Bool
collect version [] = (version ∷ [], ok true)
collect version (v ∷ vs) = (version ∷ v ∷ vs, ok false)

read_change_set-write_change_set_example :
    (bz : Bytes) × (write_change_set 7 pairs ≡ ok bz)
    × (length bz ≡ length (payload pairs) + 16)
    × (read_change_set true (bz ++ (9 ∷ [])) ≡ ok (read_result true 7 pairs (9 ∷ [])))
read_change_set-write_change_set_example =
    read_change_set-write_change_set true 7 pairs (9 ∷ []) pairs-IsWritable

iterate_change_sets-visit_all_example :
    (bz : Bytes) × (write_all versions ≡ ok bz)
    × (iterate_change_sets (λ version ps s. collect version s) (bz ++ (1 ∷ [])) []
        ≡ visit_all (λ version ps s. collect version s) true versions (end_error (1 ∷ [])) 0 [])
iterate_change_sets-visit_all_example =
    iterate_change_sets-visit_all (λ version ps s. collect version s) versions (1 ∷ []) []
      versions-AreWritable (omega arith) file-length

iterate_versions-iterate_change_sets_example :
    (bz : Bytes) × (write_all versions ≡ ok bz)
    × (iterate_versions collect (bz ++ []) []
        ≡ iterate_change_sets (λ version ps s. collect version s) (bz ++ []) [])
iterate_versions-iterate_change_sets_example =
    iterate_versions-iterate_change_sets collect versions [] [] versions-AreWritable (omega arith)
      file-length
