-- ===== src/Memiavl/Db/Replay.antt =====
-- The pending log of memiavl/db.go and the stores: the change sets of the log entry of a commit, replayed
-- on the multi tree that there was.
use cronos_store.Common.{
  ℕ, ◌+◌, ◌≡◌, refl, true, false, some, List, [], ◌∷◌, append-nil, map, All, sym, ◌∙◌, ap,
}
use cronos_store.Common.Bytes.{Bytes}
use cronos_store.Memiavl.Entries.Defs.{Entry}
use cronos_store.Memiavl.NodeCache.{Cache}
use cronos_store.Memiavl.Traverse.{NamedChangeSet}
use cronos_store.Memiavl.MultiTree.State.{Result, returns, errors, panics, MultiTree}
use cronos_store.Memiavl.MultiTree.Commit.{apply_change_sets}
use cronos_store.Memiavl.MultiTree.Index.{IsIndexed}
use cronos_store.Memiavl.MultiTree.Stores.{Stores, changed, total_pairs, stores_of, HasRoom}
use cronos_store.Memiavl.MultiTree.Changes.{IsApplied, Applies, apply_change_sets-Applies}
use cronos_store.Memiavl.Db.Pending.{Numbered, Db}
use cronos_store.Memiavl.Db.Objects.{pairs_for, added}
use cronos_store.Memiavl.Db.Merge.{IsMapped}
use cronos_store.Memiavl.Db.First.{pairs_in}
use cronos_store.Memiavl.Db.Track.{AreKnown, change_stores-changed, pairs_in-map}

abbrev pub IsKnown : Stores → Bytes → Type 0
IsKnown m n = (xs : List Entry) × (m n ≡ some xs)

module _ (C : Cache) (sha256 : Bytes → Bytes) where
  -- The stores of `db` are those of `b` with the pending pairs applied, the pending change sets name
  -- stores of `b`, and the trees of `db` are good, with room for `rest` more entries.
  pub record Tracks (rest : ℕ) (b : MultiTree C sha256) (db : Db C sha256) : Type 0 where
    pub mapped : IsMapped db.pending
    pub content :
        (n : Bytes)
        → stores_of C sha256 db.mtree n
          ≡ changed (pairs_for n db.pending.change_sets) (stores_of C sha256 b n)
    pub known : All (λ x. IsKnown (stores_of C sha256 b) x.1.name) db.pending.change_sets
    pub room : All (HasRoom C sha256 rest) db.mtree.trees
    pub indexed : IsIndexed C sha256 db.mtree

  pub apply_known :
      (rest : ℕ) (cs : List NamedChangeSet) (t : MultiTree C sha256)
      → AreKnown cs (stores_of C sha256 t)
      → All (HasRoom C sha256 (total_pairs cs + rest)) t.trees
      → IsIndexed C sha256 t
      → (t' : MultiTree C sha256) × (apply_change_sets C sha256 cs t ≡ returns t')
        × IsApplied C sha256 rest cs t true t'
  apply_known rest cs t k h i =
      go (apply_change_sets C sha256 cs t) refl (apply_change_sets-Applies C sha256 rest cs t h i)
    where
      clash : true ≡ false → ⊥
      clash q = cc

      go :
          (r : Result (MultiTree C sha256))
          → apply_change_sets C sha256 cs t ≡ r
          → Applies C sha256 rest cs t r
          → (t' : MultiTree C sha256) × (apply_change_sets C sha256 cs t ≡ returns t')
            × IsApplied C sha256 rest cs t true t'
      go (returns t') e a = (t', e, a)
      go (errors t') e a =
          absurd (clash (sym (change_stores-changed cs (stores_of C sha256 t) k).0 ∙ a.all_known))
      go panics e a = absurd a

  pub content_of :
      (rest : ℕ) (cs : List NamedChangeSet) (t t' : MultiTree C sha256)
      → AreKnown cs (stores_of C sha256 t)
      → IsApplied C sha256 rest cs t true t'
      → (n : Bytes) → stores_of C sha256 t' n ≡ changed (pairs_in n cs) (stores_of C sha256 t n)
  content_of rest cs t t' k a n =
      a.content n ∙ (change_stores-changed cs (stores_of C sha256 t) k).1 n

  pub content_step :
      (rest : ℕ) (c : NamedChangeSet) (t t' : MultiTree C sha256)
      → IsKnown (stores_of C sha256 t) c.name
      → IsApplied C sha256 rest (c ∷ []) t true t'
      → (n : Bytes) → stores_of C sha256 t' n ≡ changed (added c n) (stores_of C sha256 t n)
  content_step rest c t t' k a n =
      content_of rest (c ∷ []) t t' (k, tt) a n
      ∙ ap (λ z. changed z (stores_of C sha256 t n)) (append-nil (added c n))

  known_names :
      (m : Stores) (l : List Numbered)
      → All (λ x. IsKnown m x.1.name) l
      → AreKnown (map (λ x. x.1) l) m
  known_names m [] h = tt
  known_names m (x ∷ xs) h = (h.0, known_names m xs h.1)

  -- Where a database has the stores of a multi tree `b` with the pending pairs applied, all pending
  -- change sets name stores that `b` has, both are in order with good trees, the map of the database
  -- tells its pending change sets, and `b` has room for their pairs, the change sets of the pending log,
  -- applied to `b` as the replay of a log entry does, return nil and give the stores of the database.
  pub replay-Tracks :
      (rest : ℕ) (b : MultiTree C sha256) (db : Db C sha256)
      → Tracks rest b db
      → All (HasRoom C sha256 (total_pairs (map (λ x. x.1) db.pending.change_sets) + 0)) b.trees
      → IsIndexed C sha256 b
      → (t' : MultiTree C sha256) × (apply_change_sets C sha256
            (map (λ x. x.1) db.pending.change_sets)
            b
          ≡ returns t')
        × ((n : Bytes) → stores_of C sha256 t' n ≡ stores_of C sha256 db.mtree n)
  replay-Tracks rest b db t h i =
      let cs = map (λ x. x.1) db.pending.change_sets in
      let k = known_names (stores_of C sha256 b) db.pending.change_sets t.known in
      let (t', run, a) = apply_known 0 cs b k h i in
      (
        t',
        run,
        λ n.
            content_of 0 cs b t' k a n
            ∙ ap (λ z. changed z (stores_of C sha256 b n)) (pairs_in-map n db.pending.change_sets)
            ∙ sym (t.content n),
      )
