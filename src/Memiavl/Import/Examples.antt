-- ===== src/Memiavl/Import/Examples.antt =====
-- The export and the import of a concrete tree, with a stand-in for SHA-256.
use cronos_store.Common.{◌≡◌, some, none, refl, arith, length, [], ◌∷◌}
use cronos_store.Common.Bytes.{Bytes, compare_bytes}
use cronos_store.Common.Panic.{◌>>=◌}
use cronos_store.Memiavl.Node.{Node, leaf, branch, height, size}
use cronos_store.Memiavl.Entries.Defs.{leaves, min_key}
use cronos_store.Memiavl.Valid.{IsValid}
use cronos_store.Memiavl.Export.{scan_post_order}
use cronos_store.Memiavl.Import.{do_import}
use cronos_store.Memiavl.Snapshot.{write_snapshot}
use cronos_store.Memiavl.Import.Rebuild.{scan_post_order-do_import}

abbrev sum_length : Bytes → Bytes
sum_length bz = length bz ∷ []

abbrev stored : Node
stored =
    branch 1 2 5 (4 ∷ []) none (leaf 5 (3 ∷ []) (some (1 ∷ [])) none)
      (leaf 4 (4 ∷ []) (some []) none)

stored-IsValid : IsValid stored
stored-IsValid = record {
  balanced = unfold height size in (refl, refl, omega arith, omega arith, tt, tt);
  keyed = unfold min_key in (refl, tt, tt);
  sorted = unfold leaves compare_bytes in ((refl, tt), (tt, tt));
  values = unfold leaves in ((1 ∷ [], refl), (([], refl), tt));
}

scan_post_order-do_import_example :
    (scan_post_order (some stored) >>= do_import sum_length 5)
    ≡ some (write_snapshot sum_length 5 (some stored))
scan_post_order-do_import_example =
    scan_post_order-do_import sum_length 5 (some stored) (omega arith) stored-IsValid (tt, tt, tt)
      (omega arith, omega arith, omega arith) (unfold leaves in omega arith)
