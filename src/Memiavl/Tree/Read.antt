-- ===== src/Memiavl/Tree/Read.antt =====
-- `Get` of memiavl/tree.go answers from the map, with or without its cache.
use cronos_store.Common.{ℕ, ◌^◌, ◌<◌, ◌≡◌, inl, inr, Option, none, some, List, refl, sym, ◌∙◌}
use cronos_store.Common.Bytes.{Bytes}
use cronos_store.Memiavl.Node.{Slice, Node}
use cronos_store.Memiavl.Lookup
use cronos_store.Memiavl.Entries.Defs.{Entry, leaves_of, lookup, rank}
use cronos_store.Memiavl.Valid.{IsValidRoot, count, get-get_by_index}
use cronos_store.Memiavl.NodeCache.{Cache}
use cronos_store.Memiavl.Tree.{Tree, get, get_cached, fill_cache, get_with_index, cache_add}
use cronos_store.Memiavl.Tree.Refine.{IsGood, IsCoherent, Becomes}

module _ (C : Cache) (sha256 : Bytes → Bytes) where
  -- On a good tree of fewer than 2 ^ 32 entries `GetWithIndex` returns the number of smaller keys
  -- and the value of the key.
  pub get_with_index_lem :
      (key : Bytes) (t : Tree C sha256)
      → IsGood C sha256 t
      → count t.root < 2 ^ 32
      → get_with_index C sha256 key t ≡ (rank key (leaves_of t.root), lookup key (leaves_of t.root))
  unfolding get_with_index
  get_with_index_lem key t g fits = go t.root g.valid fits
    where
      go :
          (root : Option Node)
          → IsValidRoot root
          → count root < 2 ^ 32
          → (let result : ℕ × Slice = elim root [
            | none ↦ (0, none)
            | some n ↦ let (value, index) = Lookup.get key n in (index, value)
          ] in
              result)
            ≡ (rank key (leaves_of root), lookup key (leaves_of root))
      go none v f = unfold rank lookup in refl
      go (some n) v f = rw ((get-get_by_index key 0 n v f).0) refl

  -- An entry of the tree may join the cache.
  IsCoherent-fill :
      (key x : Bytes) (c : Option C.State) (xs : List Entry)
      → lookup key xs ≡ some x
      → IsCoherent C sha256 c xs
      → IsCoherent C sha256 (cache_add C sha256 key x c) xs
  unfolding cache_add
  IsCoherent-fill key x none xs e h = tt
  IsCoherent-fill key x (some c) xs e h = λ j y p. elim (C.peek-add key x c j y p) [
    | inl (same, val) ↦ rw (same, val) e
    | inr (other, old) ↦ h j y old
  ]

  fill_cache-Becomes :
      (key : Bytes) (value : Slice) (t : Tree C sha256)
      → IsGood C sha256 t
      → value ≡ lookup key (leaves_of t.root)
      → ((fill_cache C sha256 key value t).0 ≡ lookup key (leaves_of t.root))
        × Becomes C sha256 t (leaves_of t.root) (fill_cache C sha256 key value t).1
  unfolding fill_cache
  fill_cache-Becomes key none t g e = (e, record { good = g; entries = refl; versions = refl })
  fill_cache-Becomes key (some x) t g e = (
    e,
    record {
      good = record {
        valid = g.valid;
        clean = g.clean;
        coherent = IsCoherent-fill key x t.cache (leaves_of t.root) (sym e) g.coherent;
      };
      entries = refl;
      versions = refl;
    },
  )

  get_cached-Becomes :
      (key : Bytes) (hit : Option Bytes) (t : Tree C sha256)
      → IsGood C sha256 t
      → count t.root < 2 ^ 32
      → ((x : Bytes) → hit ≡ some x → lookup key (leaves_of t.root) ≡ some x)
      → ((get_cached C sha256 key hit t).0 ≡ lookup key (leaves_of t.root))
        × Becomes C sha256 t (leaves_of t.root) (get_cached C sha256 key hit t).1
  unfolding get_cached
  get_cached-Becomes key (some x) t g fits h =
      (sym (h x refl), record { good = g; entries = refl; versions = refl })
  get_cached-Becomes key none t g fits h =
      fill_cache-Becomes key (get_with_index C sha256 key t).1 t g
        (rw (get_with_index_lem key t g fits) refl)

  -- On a good tree of fewer than 2 ^ 32 entries `Get` returns the value of the key, and nil for a key
  -- that is not there, whatever the cache holds. The tree stays good, with its entries and version.
  pub get-Becomes :
      (key : Bytes) (t : Tree C sha256)
      → IsGood C sha256 t
      → count t.root < 2 ^ 32
      → ((get C sha256 key t).0 ≡ lookup key (leaves_of t.root))
        × Becomes C sha256 t (leaves_of t.root) (get C sha256 key t).1
  unfolding get
  get-Becomes key t g fits = go t.cache g.coherent
    where
      go :
          (c : Option C.State)
          → IsCoherent C sha256 c (leaves_of t.root)
          → let result : Slice × Tree C sha256 = elim c [
            | none ↦ fill_cache C sha256 key (get_with_index C sha256 key t).1 t
            | some c ↦
                let (hit, c') = C.get key c in
                get_cached C sha256 key hit (record t { cache = some c' })
          ] in
            (result.0 ≡ lookup key (leaves_of t.root))
            × Becomes C sha256 t (leaves_of t.root) result.1
      go none h =
          fill_cache-Becomes key (get_with_index C sha256 key t).1 t g
            (rw (get_with_index_lem key t g fits) refl)
      go (some c) h =
          let c' = (C.get key c).1 in
          let g' : IsGood C sha256 (record t { cache = some c' }) = record {
            valid = g.valid;
            clean = g.clean;
            coherent = λ j x e. h j x (rw (C.peek-get key c j) at e);
          } in
          let (found, b) =
            get_cached-Becomes key (C.get key c).0 (record t { cache = some c' }) g' fits
              (λ x e. h key x (sym (C.get-peek key c) ∙ e)) in
          (found, record { good = b.good; entries = b.entries; versions = b.versions })
