-- ===== src/Memiavl/MultiTree/Sample.antt =====
-- A multi tree of one store.
use cronos_store.Common.{refl, [], ◌∷◌}
use cronos_store.Common.Bytes.{Bytes}
use cronos_store.Memiavl.Tree.Sample.{one_entry, digest, tree}
use cronos_store.Memiavl.MultiTree.State.{find_index, NamedTree, MultiTree}
use cronos_store.Memiavl.MultiTree.Upgrade.{position}
use cronos_store.Memiavl.MultiTree.Index.{IsIndexed}

abbrev pub bank : Bytes
bank = 98 ∷ []

abbrev pub acc : Bytes
acc = 97 ∷ []

abbrev pub entry : NamedTree one_entry digest
entry = record { name = bank; tree = tree }

abbrev pub stores : MultiTree one_entry digest
stores = record {
  initial_version = 4;
  cache_size = 10;
  trees = entry ∷ [];
  trees_by_name = (bank, 0) ∷ [];
  last_commit_info = record { version = 5; store_infos = [] };
}

pub stores-IsIndexed : IsIndexed one_entry digest stores
unfolding find_index position
stores-IsIndexed = record { ordered = tt; indexed = λ name. refl }
