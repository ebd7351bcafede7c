-- ===== src/Memiavl/Db/Apply.antt =====
-- `ApplyChangeSets` of memiavl/db.go, on both of its paths.
use cronos_store.Common.{
  ℕ, ◌+◌, ◌≡◌, refl, Bool, false, List, [], ◌∷◌, if◌then◌else◌, All-imp, arith, sym, ◌∙◌, ap,
}
use cronos_store.Common.Bytes.{Bytes}
use cronos_store.Memiavl.NodeCache.{Cache}
use cronos_store.Memiavl.Traverse.{NamedChangeSet}
use cronos_store.Memiavl.MultiTree.State.{returns, MultiTree}
use cronos_store.Memiavl.MultiTree.Commit.{apply_change_sets}
use cronos_store.Memiavl.MultiTree.Stores.{changed, total_pairs, stores_of}
use cronos_store.Memiavl.Db.Pending.{
  Numbered, set_pending_change_sets, Db, merge_change_sets, apply_to_db,
}
use cronos_store.Memiavl.Db.Objects.{pairs_for}
use cronos_store.Memiavl.Db.First.{pairs_in, set_pending-IsMapped, set_pending-names}
use cronos_store.Memiavl.Db.Track.{AreKnown, changed_none}
use cronos_store.Memiavl.Db.Replay.{IsKnown, Tracks, apply_known, content_of}
use cronos_store.Memiavl.Db.Slow.{less-Tracks, merge_change_sets-Tracks}

module _ (C : Cache) (sha256 : Bytes → Bytes) where
  -- The first change sets since the commit.
  pub set_pending-Tracks :
      (rest : ℕ) (c : NamedChangeSet) (cs : List NamedChangeSet) (b : MultiTree C sha256)
      (db : Db C sha256)
      → Tracks C sha256 (total_pairs (c ∷ cs) + rest) b db
      → db.pending.change_sets ≡ []
      → AreKnown (c ∷ cs) (stores_of C sha256 db.mtree)
      → (t' : MultiTree C sha256) × (apply_change_sets C sha256 (c ∷ cs) db.mtree ≡ returns t')
        × Tracks C sha256 rest b
            (record db { mtree = t'; pending = set_pending_change_sets (c ∷ cs) db.pending })
  set_pending-Tracks rest c cs b db t e k =
      let (t', run, a) = apply_known C sha256 rest (c ∷ cs) db.mtree k t.room t.indexed in
      let (mapped, pairs) = set_pending-IsMapped c cs db.pending in
      let before : (n : Bytes) → stores_of C sha256 db.mtree n ≡ stores_of C sha256 b n = λ n.
        t.content n
        ∙ ap (λ z. changed (pairs_for n z) (stores_of C sha256 b n)) e
        ∙ changed_none (stores_of C sha256 b n) in
      (
        t',
        run,
        record {
          mapped = mapped;
          content = λ n.
              content_of C sha256 rest (c ∷ cs) db.mtree t' k a n
              ∙ ap (changed (pairs_in n (c ∷ cs))) (before n)
              ∙ ap (λ z. changed z (stores_of C sha256 b n)) (sym (pairs n));
          known =
              set_pending-names (IsKnown (stores_of C sha256 b)) c cs db.pending
                (All-imp (λ d h. (h.0, sym (before d.name) ∙ h.1)) (c ∷ cs) k);
          room = a.good;
          indexed = a.indexed;
        },
      )

  not_taken : {A : Type 0} (b : Bool) (x y : A) → b ≡ false → (if b then x else y) ≡ y
  not_taken b x y e = rw (e) refl

  not_empty :
      {A : Type 0} (l : List Numbered) (u v : A) (x : Numbered) (xs : List Numbered)
      → l ≡ x ∷ xs
      → elim l [ [] ↦ u | y ∷ ys ↦ v ] ≡ v
  not_empty l u v x xs e = rw (e) refl

  -- `ApplyChangeSets` on a writable database whose stores are those of a multi tree `b` with the
  -- pending pairs applied, where the change sets name stores and there is room for their pairs, returns
  -- nil, and leaves a database of which the same holds: what was applied is in the pending log.
  pub apply_to_db-Tracks :
      (rest : ℕ) (cs : List NamedChangeSet) (b : MultiTree C sha256) (db : Db C sha256)
      → Tracks C sha256 (total_pairs cs + rest) b db
      → db.read_only ≡ false
      → AreKnown cs (stores_of C sha256 db.mtree)
      → (db' : Db C sha256) × (apply_to_db C sha256 cs db ≡ returns db')
        × Tracks C sha256 rest b db'
  apply_to_db-Tracks rest [] b db t ro k =
      (db, unfold apply_to_db in refl, less-Tracks C sha256 (0 + rest) rest b db (omega arith) t)
  apply_to_db-Tracks rest (c ∷ cs) b db t ro k = go db.pending.change_sets refl
    where
      first :
          (t' : MultiTree C sha256)
          → db.pending.change_sets ≡ []
          → apply_change_sets C sha256 (c ∷ cs) db.mtree ≡ returns t'
          → apply_to_db C sha256 (c ∷ cs) db
            ≡ returns
                (record db { mtree = t'; pending = set_pending_change_sets (c ∷ cs) db.pending })
      first t' e run = unfold apply_to_db in not_taken db.read_only _ _ ro ∙ rw (e, run) refl

      later :
          (x : Numbered) (xs : List Numbered)
          → db.pending.change_sets ≡ x ∷ xs
          → apply_to_db C sha256 (c ∷ cs) db ≡ merge_change_sets C sha256 (c ∷ cs) db
      later x xs e =
          unfold apply_to_db in
          not_taken db.read_only _ _ ro ∙ not_empty db.pending.change_sets _ _ x xs e

      go :
          (xs : List Numbered)
          → db.pending.change_sets ≡ xs
          → (db' : Db C sha256) × (apply_to_db C sha256 (c ∷ cs) db ≡ returns db')
            × Tracks C sha256 rest b db'
      go [] e =
          let (t', run, tracks) = set_pending-Tracks rest c cs b db t e k in
          (
            record db { mtree = t'; pending = set_pending_change_sets (c ∷ cs) db.pending },
            first t' e run,
            tracks,
          )
      go (x ∷ xs) e =
          let (db', run, tracks) = merge_change_sets-Tracks C sha256 rest (c ∷ cs) b db t ro k in
          (db', later x xs e ∙ run, tracks)
