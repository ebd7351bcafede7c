-- ===== src/Memiavl/Tree/Refine.antt =====
-- `Tree` of memiavl/tree.go keeps its invariant, and its operations are those of a sorted map with a
-- version.
use cronos_store.Common.{
  ◌+◌, ◌%◌, ◌^◌, ◌≤◌, ◌<◌, ◌≡◌, inl, inr, Option, none, some, List, [], ◌∷◌, length, refl, ap, ◌∙◌,
  arith, if◌then◌else◌, Bool-cases,
}
use cronos_store.Common.Bytes.{Bytes, cmp_refl, eq_of_cmp}
use cronos_store.Common.Panic.{Returns, Returns-bind, Returns-imp, Returns-and}
use cronos_store.Memiavl.Node.{Slice, Node}
use cronos_store.Memiavl.Update.{set_recursive, remove_recursive}
use cronos_store.Memiavl.Hash.{bytes_of}
use cronos_store.Memiavl.Hash.Clean.{IsCleanRoot}
use cronos_store.Memiavl.Hash.Update.{set_recursive-IsClean, remove_recursive-IsClean}
use cronos_store.Memiavl.Entries.Defs.{Entry, leaves_of, IsSorted, insert, delete, lookup}
use cronos_store.Memiavl.Entries.Map.{lookup-insert, lookup-delete, length-insert, length-delete}
use cronos_store.Memiavl.Valid.{
  IsValidRoot, Holds, count, set_recursive-Holds, remove_recursive-Holds,
}
use cronos_store.Memiavl.NodeCache.{Cache}
use cronos_store.Memiavl.Tree.{
  Tree, KvPair, cache_add, cache_remove, set, remove, apply_pair, apply_change_set,
}

-- The change of a sorted map by one pair, and by a change set.
unfoldable pub change : KvPair → List Entry → List Entry
change p xs = if p.deletes then delete p.key xs else insert p.key (some (bytes_of p.value)) xs

unfoldable pub change_all : List KvPair → List Entry → List Entry
change_all [] xs = xs
change_all (p ∷ ps) xs = change_all ps (change p xs)

pub length-change : (p : KvPair) (xs : List Entry) → length (change p xs) ≤ length xs + 1
unfolding change
length-change p xs =
    ground
      (arith, length-delete p.key p.key xs, length-insert p.key p.key (some (bytes_of p.value)) xs)

valid-IsSorted : (root : Option Node) → IsValidRoot root → IsSorted (leaves_of root)
valid-IsSorted none v = tt
valid-IsSorted (some t) v = v.sorted

module _ (C : Cache) (sha256 : Bytes → Bytes) where
  -- All that the cache holds is in the tree.
  abbrev pub IsCoherent : Option C.State → List Entry → Type 0
  IsCoherent none xs = Unit
  IsCoherent (some c) xs = (j x : Bytes) → C.peek c j ≡ some x → lookup j xs ≡ some x

  -- The root is a valid tree without stale hashes, and the cache agrees with it.
  pub record IsGood (t : Tree C sha256) : Type 0 where
    pub valid : IsValidRoot t.root
    pub clean : IsCleanRoot sha256 t.root
    pub coherent : IsCoherent t.cache (leaves_of t.root)

  -- `t'` is a good tree with these entries and the version of `t`.
  pub record Becomes (t : Tree C sha256) (xs : List Entry) (t' : Tree C sha256) : Type 0 where
    pub good : IsGood t'
    pub entries : leaves_of t'.root ≡ xs
    pub versions : t'.version ≡ t.version

  IsCoherent-add :
      (key v : Bytes) (c : Option C.State) (xs : List Entry)
      → IsCoherent c xs
      → IsCoherent (cache_add C sha256 key v c) (insert key (some v) xs)
  unfolding cache_add
  IsCoherent-add key v none xs h = tt
  IsCoherent-add key v (some c) xs h = λ j x e.
      rw (lookup-insert key j (some v) xs) (elim (C.peek-add key v c j x e) [
        | inl (same, val) ↦ ground (arith, cmp_refl key)
        | inr (other, old) ↦ ground (arith, eq_of_cmp j key, h j x old)
      ])

  IsCoherent-remove :
      (key : Bytes) (c : Option C.State) (xs : List Entry)
      → IsSorted xs
      → IsCoherent c xs
      → IsCoherent (cache_remove C sha256 key c) (delete key xs)
  unfolding cache_remove
  IsCoherent-remove key none xs sorted h = tt
  IsCoherent-remove key (some c) xs sorted h = λ j x e.
      rw (lookup-delete key j xs sorted)
        (let (other, old) = C.peek-remove key c j x e in ground (arith, eq_of_cmp j key, h j x old))

  -- `Set` puts the entry into the map; a nil value is stored as an empty one.
  pub set-Becomes :
      (key : Bytes) (value : Slice) (t : Tree C sha256)
      → IsGood t
      → count t.root + 1 < 2 ^ 63
      → Returns
          (set C sha256 key value t)
          (Becomes t (insert key (some (bytes_of value)) (leaves_of t.root)))
  unfolding set
  set-Becomes key value t g fits =
      let x = bytes_of value in
      let version = (t.version + 1) % 2 ^ 32 in
      Returns-bind _ _ (set_recursive key (some x) version t.root) _
        (Returns-and _ _
          (λ c.
            Holds (insert key (some x) (leaves_of t.root)) (some c.0)
            × IsCleanRoot sha256 (some c.0))
          (set_recursive key (some x) version t.root)
          (set_recursive-Holds key x version t.root g.valid fits)
          (set_recursive-IsClean sha256 key (some x) version t.root g.clean) (λ c h k. (h, k)))
        (λ (n, u) h. record {
          good = record {
            valid = h.0.valid;
            clean = h.1;
            coherent = rw h.0.content (IsCoherent-add key x t.cache (leaves_of t.root) g.coherent);
          };
          entries = h.0.content;
          versions = refl;
        })

  pub remove-Becomes :
      (key : Bytes) (t : Tree C sha256)
      → IsGood t
      → count t.root < 2 ^ 63
      → Returns (remove C sha256 key t) (Becomes t (delete key (leaves_of t.root)))
  unfolding remove
  remove-Becomes key t g fits =
      let version = (t.version + 1) % 2 ^ 32 in
      Returns-bind _ _ (remove_recursive key version t.root) _
        (Returns-and _ _ (λ c. Holds (delete key (leaves_of t.root)) c.1 × IsCleanRoot sha256 c.1)
          (remove_recursive key version t.root)
          (remove_recursive-Holds key version t.root g.valid fits)
          (remove_recursive-IsClean sha256 key version t.root g.clean) (λ c h k. (h.0, k)))
        (λ (value, root, new_key) h. record {
          good = record {
            valid = h.0.valid;
            clean = h.1;
            coherent = rw h.0.content (
                IsCoherent-remove key t.cache (leaves_of t.root) (valid-IsSorted t.root g.valid)
                  g.coherent);
          };
          entries = h.0.content;
          versions = refl;
        })

  apply_pair-Becomes :
      (p : KvPair) (t : Tree C sha256)
      → IsGood t
      → count t.root + 1 < 2 ^ 63
      → Returns (apply_pair C sha256 p t) (Becomes t (change p (leaves_of t.root)))
  unfolding apply_pair change
  apply_pair-Becomes p t g fits = elim (Bool-cases p.deletes) [
    | inl e ↦ rw (e, Returns) (remove-Becomes p.key t g (omega arith))
    | inr e ↦ rw (e, Returns) (set-Becomes p.key p.value t g fits)
  ]

  -- On a good tree that stays below 2 ^ 63 entries `ApplyChangeSet` does not panic. The tree stays
  -- good, has the entries before with the pairs applied in order, and keeps its version.
  pub apply_change_set-Becomes :
      (ps : List KvPair) (t : Tree C sha256)
      → IsGood t
      → count t.root + length ps < 2 ^ 63
      → Returns (apply_change_set C sha256 ps t) (Becomes t (change_all ps (leaves_of t.root)))
  unfolding apply_change_set change_all
  apply_change_set-Becomes [] t g fits = record { good = g; entries = refl; versions = refl }
  apply_change_set-Becomes (p ∷ ps) t g fits =
      Returns-bind _ _ (apply_pair C sha256 p t) (apply_change_set C sha256 ps)
        (apply_pair-Becomes p t g (omega arith))
        (λ u b.
          Returns-imp _ _ (apply_change_set C sha256 ps u)
            (apply_change_set-Becomes ps u b.good
              (omega (arith, length-change p (leaves_of t.root), ap length b.entries)))
            (λ w d. record {
              good = d.good;
              entries = d.entries ∙ ap (change_all ps) b.entries;
              versions = d.versions ∙ b.versions;
            }))
