-- ===== src/Memiavl/Db/Slow.antt =====
-- `applyChangeSet` of memiavl/db.go, and the path of `ApplyChangeSets` that merges into pending change
-- sets.
use cronos_store.Common.{
  ℕ, ◌+◌, ◌≤◌, ◌≡◌, refl, false, none, some, List, [], ◌∷◌, length, ◌==◌, Bool-cases, Option-cases,
  inl, inr, arith, sym, ◌∙◌, ap,
}
use cronos_store.Common.Bytes.{Bytes}
use cronos_store.Memiavl.Entries.Defs.{Entry}
use cronos_store.Memiavl.NodeCache.{Cache}
use cronos_store.Memiavl.Tree.{KvPair}
use cronos_store.Memiavl.Traverse.{NamedChangeSet}
use cronos_store.Memiavl.MultiTree.State.{Result, returns, errors, panics, ◌>>=◌, MultiTree}
use cronos_store.Memiavl.MultiTree.Commit
use cronos_store.Memiavl.MultiTree.Commit.{apply_change_sets}
use cronos_store.Memiavl.MultiTree.Stores.{changed, total_pairs, stores_of, less_room}
use cronos_store.Memiavl.Db.Pending.{merge_pending, Db, merge_change_set, merge_change_sets}
use cronos_store.Memiavl.Db.Objects.{pairs_for, added}
use cronos_store.Memiavl.Db.Merge.{merge_pending-Merged}
use cronos_store.Memiavl.Db.Track.{AreKnown, changed_append, changed_none, changed-AreKnown}
use cronos_store.Memiavl.Db.Replay.{IsKnown, Tracks, apply_known, content_step}

module _ (C : Cache) (sha256 : Bytes → Bytes) where
  one_by_one :
      (c : NamedChangeSet) (t t' : MultiTree C sha256)
      → apply_change_sets C sha256 (c ∷ []) t ≡ returns t'
      → Commit.apply_change_set C sha256 c t ≡ returns t'
  unfolding apply_change_sets
  one_by_one c t t' e = go (Commit.apply_change_set C sha256 c t) e
    where
      go :
          (r : Result (MultiTree C sha256))
          → (r >>= λ u. apply_change_sets C sha256 [] u) ≡ returns t'
          → r ≡ returns t'
      go (returns u) q = q
      go (errors u) q = q
      go panics q = q

  -- A name with a store in `db` has one in `b`.
  IsKnown-before :
      (rest : ℕ) (b : MultiTree C sha256) (db : Db C sha256) (n : Bytes)
      → Tracks C sha256 rest b db
      → IsKnown (stores_of C sha256 db.mtree) n
      → IsKnown (stores_of C sha256 b) n
  IsKnown-before rest b db n t (xs, e) = elim (Option-cases (stores_of C sha256 b n)) [
    | inl q ↦
        absurd (clash (sym (t.content n ∙ ap (changed (pairs_for n db.pending.change_sets)) q) ∙ e))
    | inr k ↦ k
  ]
    where
      clash : {xs : List Entry} → none ≡ some xs → ⊥
      clash q = cc

  merge_change_set-Tracks :
      (rest : ℕ) (c : NamedChangeSet) (b : MultiTree C sha256) (db : Db C sha256)
      → Tracks C sha256 (length c.change_set + rest) b db
      → db.read_only ≡ false
      → IsKnown (stores_of C sha256 db.mtree) c.name
      → (t' : MultiTree C sha256) × (Commit.apply_change_set C sha256 c db.mtree ≡ returns t')
        × Tracks C sha256 rest b (record db { mtree = t'; pending = merge_pending c db.pending })
        × ((n : Bytes)
            → stores_of C sha256 t' n ≡ changed (added c n) (stores_of C sha256 db.mtree n))
  merge_change_set-Tracks rest c b db t ro k =
      let enough =
        less_room C sha256 (length c.change_set + rest) (total_pairs (c ∷ []) + rest) db.mtree.trees
          (omega arith) t.room in
      let (t', run, a) = apply_known C sha256 rest (c ∷ []) db.mtree (k, tt) enough t.indexed in
      let merged = merge_pending-Merged c db.pending t.mapped in
      let step = content_step C sha256 rest c db.mtree t' k a in
      (
        t',
        one_by_one c db.mtree t' run,
        record {
          mapped = merged.mapped;
          content = λ n.
              step n
              ∙ ap (changed (added c n)) (t.content n)
              ∙ sym (
                  changed_append (pairs_for n db.pending.change_sets) (added c n)
                    (stores_of C sha256 b n))
              ∙ ap (λ z. changed z (stores_of C sha256 b n)) (sym (merged.pairs n));
          known =
              merged.names (IsKnown (stores_of C sha256 b))
                (IsKnown-before (length c.change_set + rest) b db c.name t k) t.known;
          room = a.good;
          indexed = a.indexed;
        },
        step,
      )

  pub less-Tracks :
      (m n : ℕ) (b : MultiTree C sha256) (db : Db C sha256)
      → n ≤ m
      → Tracks C sha256 m b db
      → Tracks C sha256 n b db
  less-Tracks m n b db h t = record {
    mapped = t.mapped;
    content = t.content;
    known = t.known;
    room = less_room C sha256 m n db.mtree.trees h t.room;
    indexed = t.indexed;
  }

  -- A change set that is merged, or one without pairs, which changes nothing.
  record Stepped (rest : ℕ) (b : MultiTree C sha256) (c : NamedChangeSet) (db db' : Db C sha256)
      : Type 0 where
    run : merge_change_set C sha256 c db ≡ returns db'
    tracks : Tracks C sha256 rest b db'
    writable : db'.read_only ≡ false
    pairs : Bytes → List KvPair
    step :
        (n : Bytes)
        → stores_of C sha256 db'.mtree n ≡ changed (pairs n) (stores_of C sha256 db.mtree n)

  merge_change_set-Stepped :
      (rest : ℕ) (c : NamedChangeSet) (b : MultiTree C sha256) (db : Db C sha256)
      → Tracks C sha256 (length c.change_set + rest) b db
      → db.read_only ≡ false
      → IsKnown (stores_of C sha256 db.mtree) c.name
      → (db' : Db C sha256) × Stepped rest b c db db'
  merge_change_set-Stepped rest c b db t ro k = elim (Bool-cases (length c.change_set == 0)) [
    | inl e ↦ (
      db,
      record {
        run = unfold merge_change_set in rw (merge_change_set, e) refl;
        tracks = less-Tracks (length c.change_set + rest) rest b db (omega arith) t;
        writable = ro;
        pairs = λ n. [];
        step = λ n. sym (changed_none (stores_of C sha256 db.mtree n));
      },
    )
    | inr e ↦
        let (t', applied, tracks, step) = merge_change_set-Tracks rest c b db t ro k in
        (
          record db { mtree = t'; pending = merge_pending c db.pending },
          record {
            run = runs c db t' e ro applied;
            tracks = tracks;
            writable = ro;
            pairs = added c;
            step = step;
          },
        )
  ]
    where
      runs :
          (c : NamedChangeSet) (db : Db C sha256) (t' : MultiTree C sha256)
          → (length c.change_set == 0) ≡ false
          → db.read_only ≡ false
          → Commit.apply_change_set C sha256 c db.mtree ≡ returns t'
          → merge_change_set C sha256 c db
            ≡ returns (record db { mtree = t'; pending = merge_pending c db.pending })
      runs c db t' e ro applied =
          unfold merge_change_set in rw (merge_change_set, e, ro, applied) refl

  merge_change_sets-next :
      (c : NamedChangeSet) (cs : List NamedChangeSet) (db db' : Db C sha256)
      → merge_change_set C sha256 c db ≡ returns db'
      → merge_change_sets C sha256 (c ∷ cs) db ≡ merge_change_sets C sha256 cs db'
  unfolding merge_change_sets
  merge_change_sets-next c cs db db' run = rw (merge_change_sets, run) refl

  pub merge_change_sets-Tracks :
      (rest : ℕ) (cs : List NamedChangeSet) (b : MultiTree C sha256) (db : Db C sha256)
      → Tracks C sha256 (total_pairs cs + rest) b db
      → db.read_only ≡ false
      → AreKnown cs (stores_of C sha256 db.mtree)
      → (db' : Db C sha256) × (merge_change_sets C sha256 cs db ≡ returns db')
        × Tracks C sha256 rest b db'
  merge_change_sets-Tracks rest [] b db t ro k =
      (db, unfold merge_change_sets in refl, less-Tracks (0 + rest) rest b db (omega arith) t)
  merge_change_sets-Tracks rest (c ∷ cs) b db t ro k =
      let enough =
        less-Tracks (total_pairs (c ∷ cs) + rest) (length c.change_set + (total_pairs cs + rest)) b
          db (omega arith) t in
      let (db1, s) = merge_change_set-Stepped (total_pairs cs + rest) c b db enough ro k.0 in
      let (db', run, tracks) = merge_change_sets-Tracks rest cs b db1 s.tracks s.writable (
        changed-AreKnown cs (stores_of C sha256 db.mtree) (stores_of C sha256 db1.mtree) s.pairs
          s.step k.1) in
      (db', merge_change_sets-next c cs db db1 s.run ∙ run, tracks)
