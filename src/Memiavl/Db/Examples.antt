-- ===== src/Memiavl/Db/Examples.antt =====
-- The theorems on the pending log at a database of one store.
use cronos_store.Common.{
  ◌+◌, ◌≡◌, refl, true, false, none, some, List, [], ◌∷◌, length, map, arith, sym, All,
}
use cronos_store.Common.Bytes.{Bytes, equal_bytes}
use cronos_store.Memiavl.Entries.Defs.{leaves}
use cronos_store.Memiavl.Tree.Sample.{one_entry, digest, one, two, tree-IsGood}
use cronos_store.Memiavl.Traverse.{NamedChangeSet}
use cronos_store.Memiavl.MultiTree.State.{returns, MultiTree}
use cronos_store.Memiavl.MultiTree.Commit.{apply_change_sets}
use cronos_store.Memiavl.MultiTree.Sample.{bank, acc, entry, stores, stores-IsIndexed}
use cronos_store.Memiavl.MultiTree.Stores.{HasRoom, total_pairs, stores_of}
use cronos_store.Memiavl.Db.Pending.{
  PendingLog, not_below, insert_index, number_from, rebuild_map, set_pending_change_sets,
  merge_pending, Db, apply_to_db,
}
use cronos_store.Memiavl.Db.Merge.{Merged, merge_pending-Merged}
use cronos_store.Memiavl.Db.First.{set_pending-IsMapped}
use cronos_store.Memiavl.Db.Order.{IsInOrder, merge_pending-IsInOrder}
use cronos_store.Memiavl.Db.Search.{Splits, insert_index-Splits}
use cronos_store.Memiavl.Db.Track.{AreKnown, changed_none}
use cronos_store.Memiavl.Db.Replay.{Tracks, replay-Tracks}
use cronos_store.Memiavl.Db.Apply.{set_pending-Tracks, apply_to_db-Tracks}

abbrev empty_log : PendingLog
empty_log = record { upgrades = []; change_sets = []; cached = none; next_number = 0 }

abbrev db : Db one_entry digest
db = record { mtree = stores; pending = empty_log; read_only = false }

abbrev removal : NamedChangeSet
removal = record {
  name = bank;
  change_set = record { deletes = true; key = one; value = none } ∷ [];
}

abbrev write : NamedChangeSet
write = record {
  name = bank;
  change_set = record { deletes = false; key = two; value = some one } ∷ [];
}

abbrev change_sets : List NamedChangeSet
change_sets = removal ∷ write ∷ []

stores-HasRoom : (All (HasRoom one_entry digest (total_pairs change_sets + 2)) (entry ∷ []))
unfolding leaves
stores-HasRoom = ((tree-IsGood, omega arith), tt)

db-Tracks : Tracks one_entry digest (total_pairs change_sets + 2) stores db
db-Tracks = record {
  mapped = record { tells = tt; below = tt };
  content = λ n. sym (changed_none (stores_of one_entry digest stores n));
  known = tt;
  room = stores-HasRoom;
  indexed = stores-IsIndexed;
}

names-AreKnown : AreKnown change_sets (stores_of one_entry digest stores)
unfolding equal_bytes
names-AreKnown = ((_, refl), ((_, refl), tt))

apply_to_db-Tracks_example :
    (db' : Db one_entry digest) × (apply_to_db one_entry digest change_sets db ≡ returns db')
    × Tracks one_entry digest 2 stores db'
apply_to_db-Tracks_example =
    apply_to_db-Tracks one_entry digest 2 change_sets stores db db-Tracks refl names-AreKnown

abbrev pending_log : PendingLog
pending_log = set_pending_change_sets (removal ∷ []) empty_log

merge_pending-Merged_example : Merged write pending_log (merge_pending write pending_log)
merge_pending-Merged_example =
    merge_pending-Merged write pending_log (set_pending-IsMapped removal [] empty_log).0

abbrev replayed : PendingLog
replayed = set_pending_change_sets change_sets empty_log

changed_db :
    (t' : MultiTree one_entry digest) × (apply_change_sets one_entry digest change_sets stores
      ≡ returns t')
    × Tracks one_entry digest 2 stores
        (record { mtree = t'; pending = replayed; read_only = false })
changed_db =
    set_pending-Tracks one_entry digest 2 removal (write ∷ []) stores db db-Tracks refl
      names-AreKnown

replayed-HasRoom :
    All
      (HasRoom one_entry digest (total_pairs (map (λ x. x.1) replayed.change_sets) + 0))
      (entry ∷ [])
unfolding leaves set_pending_change_sets number_from rebuild_map
replayed-HasRoom = ((tree-IsGood, omega arith), tt)

replay-Tracks_example :
    (t' : MultiTree one_entry digest) × (apply_change_sets one_entry digest
        (map (λ x. x.1) replayed.change_sets)
        stores
      ≡ returns t')
    × ((n : Bytes) → stores_of one_entry digest t' n ≡ stores_of one_entry digest changed_db.0 n)
replay-Tracks_example =
    replay-Tracks one_entry digest 2 stores
      (record { mtree = changed_db.0; pending = replayed; read_only = false }) changed_db.2
      replayed-HasRoom stores-IsIndexed

abbrev insertion : NamedChangeSet
insertion = record { name = acc; change_set = [] }

insert_index-Splits_example :
    Splits
      (not_below pending_log.change_sets acc)
      (length pending_log.change_sets)
      (insert_index acc pending_log.change_sets)
insert_index-Splits_example = insert_index-Splits acc pending_log.change_sets

pending_log-IsInOrder : IsInOrder pending_log
unfolding set_pending_change_sets number_from rebuild_map
pending_log-IsInOrder = tt

merge_pending-IsInOrder_example : IsInOrder (merge_pending insertion pending_log)
merge_pending-IsInOrder_example =
    merge_pending-IsInOrder insertion pending_log (set_pending-IsMapped removal [] empty_log).0
      pending_log-IsInOrder
