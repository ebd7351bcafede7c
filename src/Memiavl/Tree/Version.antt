-- ===== src/Memiavl/Tree/Version.antt =====
-- `SaveVersion` and the initial version of memiavl/tree.go.
use cronos_store.Common.{
  ℕ, ◌+◌, ◌-◌, ◌%◌, ◌^◌, ◌<◌, ◌≡◌, ◌∙◌, Bool, Option, none, some, true, false, refl, arith, leb,
  leb→le, leb→lt, ◌==◌, max, Bool-cases, inl, inr, List, [], subst, sym,
}
use cronos_store.Common.Bytes.{Bytes}
use cronos_store.Common.Panic.{Returns}
use cronos_store.Memiavl.Node.{Slice}
use cronos_store.Memiavl.Hash.{root_hash}
use cronos_store.Memiavl.Hash.Cache.{fresh_root_hash, root_hash-fresh, root_hash-steady}
use cronos_store.Memiavl.Entries.Defs.{Entry, leaves_of}
use cronos_store.Memiavl.NodeCache.{Cache}
use cronos_store.Memiavl.Tree.{
  Tree, save_version, max_uint32, new_with_initial_version, new_tree, new_empty_tree, new_cache,
}
use cronos_store.Memiavl.Tree.Refine.{IsGood, IsCoherent}

module _ (C : Cache) (sha256 : Bytes → Bytes) where
  -- A good tree with the entries of `t` and the next version.
  pub record Saved (t t' : Tree C sha256) : Type 0 where
    pub good : IsGood C sha256 t'
    pub entries : leaves_of t'.root ≡ leaves_of t.root
    pub next : t'.version ≡ t.version + 1

  IsCoherent-along :
      (c : Option C.State) {xs ys : List Entry}
      → ys ≡ xs
      → IsCoherent C sha256 c xs
      → IsCoherent C sha256 c ys
  IsCoherent-along c e h = subst (IsCoherent C sha256 c) (sym e) h

  save_version-hash :
      (t : Tree C sha256)
      → t.version < max_uint32
      → save_version C sha256 true t ≡ (
        some (some (root_hash sha256 t.root).0, t.version + 1),
        record t { version = t.version + 1; root = (root_hash sha256 t.root).1 },
      )
  unfolding save_version
  save_version-hash t fits =
      let e : (t.version == max_uint32) ≡ false = ground arith in
      let small : (t.version + 1) % 2 ^ 32 ≡ t.version + 1 = omega arith in rw (e, small)

  -- On a good tree whose version is below the largest uint32 `SaveVersion(true)` returns the root hash
  -- of the tree, computed from nothing, and the next version. The tree stays good, has its entries and
  -- the next version.
  pub save_version-Saved :
      (t : Tree C sha256)
      → IsGood C sha256 t
      → t.version < max_uint32
      → ((save_version C sha256 true t).0
          ≡ some (some (fresh_root_hash sha256 t.root), t.version + 1))
        × Saved t (save_version C sha256 true t).1
  save_version-Saved t g fits =
      let (hash, clean, entries, valid) = root_hash-fresh sha256 t.root g.clean g.valid in
      rw (save_version-hash t fits) (
        rw hash,
        record {
          good = record {
            valid = valid;
            clean = clean;
            coherent = IsCoherent-along t.cache entries g.coherent;
          };
          entries = entries;
          next = refl;
        },
      )

  -- The empty tree of a version.
  unfoldable pub empty_at : ℕ → ℕ → Tree C sha256
  empty_at version cache_size = record {
    version = version;
    root = none;
    cache = new_cache C sha256 cache_size;
  }

  new_cache-IsCoherent : (cache_size : ℕ) → IsCoherent C sha256 (new_cache C sha256 cache_size) []
  unfolding new_cache
  new_cache-IsCoherent cache_size = elim (Bool-cases (cache_size == 0)) [
    | inl e ↦ rw (e, IsCoherent) tt
    | inr e ↦ rw (e, IsCoherent) (λ j x p. cc (C.peek-new cache_size j))
  ]

  new_empty_tree_lem :
      (version cache_size : ℕ)
      → version < max_uint32
      → new_empty_tree C sha256 version cache_size ≡ some (empty_at version cache_size)
  unfolding new_empty_tree empty_at
  new_empty_tree_lem version cache_size fits =
      let e : leb max_uint32 version ≡ false = ground arith in
      let small : version % 2 ^ 32 ≡ version = omega arith in rw (e, small)

  -- An empty tree, and what its first `SaveVersion` returns.
  abbrev pub StartsAt : ℕ → Tree C sha256 → Type 0
  StartsAt first t =
      IsGood C sha256 t × (t.root ≡ none) × ((save_version C sha256 false t).0 ≡ some (none, first))

  pub empty_at-StartsAt :
      (version cache_size : ℕ)
      → version < max_uint32
      → StartsAt (version + 1) (empty_at version cache_size)
  unfolding empty_at save_version
  empty_at-StartsAt version cache_size fits =
      let e : (version == max_uint32) ≡ false = ground arith in
      let small : (version + 1) % 2 ^ 32 ≡ version + 1 = omega arith in
      (
        record { valid = tt; clean = tt; coherent = new_cache-IsCoherent cache_size },
        refl,
        rw (e, small),
      )

  -- The tree that is created is the empty one of the version before.
  pub new_with_initial_version_lem :
      (initial_version cache_size : ℕ)
      → initial_version < 2 ^ 32
      → new_with_initial_version C sha256 initial_version cache_size
        ≡ some (empty_at (max 1 initial_version - 1) cache_size)
  unfolding new_with_initial_version
  new_with_initial_version_lem initial_version cache_size fits =
      elim (Bool-cases (leb initial_version 1)) [
        | inl e ↦
            let first : max 1 initial_version - 1 ≡ 0 = omega (arith, leb→le initial_version 1 e) in
            rw (e, first) (unfold new_tree in new_empty_tree_lem 0 cache_size (omega arith))
        | inr e ↦
            let low = leb→lt initial_version 1 e in
            let first : max 1 initial_version - 1 ≡ initial_version - 1 = omega arith in
            rw (e, first) (new_empty_tree_lem (initial_version - 1) cache_size (omega arith))
      ]

  -- A tree created with an initial version, a uint32, is good and empty, and the first version that
  -- it saves is the initial version, or 1 where that is 0.
  pub new_with_initial_version-StartsAt :
      (initial_version cache_size : ℕ)
      → initial_version < 2 ^ 32
      → Returns
          (new_with_initial_version C sha256 initial_version cache_size)
          (StartsAt (max 1 initial_version))
  new_with_initial_version-StartsAt initial_version cache_size fits =
      let first : max 1 initial_version - 1 + 1 ≡ max 1 initial_version = omega arith in
      rw (new_with_initial_version_lem initial_version cache_size fits) (
        subst (λ n. StartsAt n (empty_at (max 1 initial_version - 1) cache_size)) first
          (empty_at-StartsAt (max 1 initial_version - 1) cache_size (omega arith)))

  -- A tree of the given version with the entries and the hash of another.
  pub record Kept (version : ℕ) (t t' : Tree C sha256) : Type 0 where
    pub good : IsGood C sha256 t'
    pub entries : leaves_of t'.root ≡ leaves_of t.root
    pub hashes : fresh_root_hash sha256 t'.root ≡ fresh_root_hash sha256 t.root
    pub at : t'.version ≡ version

  pub Kept-trans : (v w : ℕ) (t t' t'' : Tree C sha256) → Kept v t t' → Kept w t' t'' → Kept w t t''
  Kept-trans v w t t' t'' a b = record {
    good = b.good;
    entries = b.entries ∙ a.entries;
    hashes = b.hashes ∙ a.hashes;
    at = b.at;
  }

  -- Asking for the root hash keeps a good tree.
  pub root_hash-Kept :
      (t : Tree C sha256)
      → IsGood C sha256 t
      → Kept t.version t (record t { root = (root_hash sha256 t.root).1 })
  root_hash-Kept t g =
      let (hash, clean, entries, valid) = root_hash-fresh sha256 t.root g.clean g.valid in
      record {
        good = record {
          valid = valid;
          clean = clean;
          coherent = IsCoherent-along t.cache entries g.coherent;
        };
        entries = entries;
        hashes = root_hash-steady sha256 t.root g.clean;
        at = refl;
      }

  -- `SaveVersion` of a good tree whose version is not the largest, with the hash or without it.
  pub save_version-Kept :
      (updates : Bool) (t : Tree C sha256)
      → IsGood C sha256 t
      → t.version < max_uint32
      → (r : Slice × ℕ) × ((save_version C sha256 updates t).0 ≡ some r)
        × Kept (t.version + 1) t (save_version C sha256 updates t).1
  save_version-Kept true t g fits =
      let k = root_hash-Kept t g in
      rw (save_version-hash t fits) (
        ((some (root_hash sha256 t.root).0, t.version + 1)),
        refl,
        record {
          good = record { valid = k.good.valid; clean = k.good.clean; coherent = k.good.coherent };
          entries = k.entries;
          hashes = k.hashes;
          at = refl;
        },
      )
  save_version-Kept false t g fits = rw (no_hash) (
    (none, t.version + 1),
    refl,
    record {
      good = record { valid = g.valid; clean = g.clean; coherent = g.coherent };
      entries = refl;
      hashes = refl;
      at = refl;
    },
  )
    where
      no_hash :
          save_version C sha256 false t
          ≡ (some (none, t.version + 1), record t { version = t.version + 1 })
      no_hash =
          let e : (t.version == max_uint32) ≡ false = ground arith in
          let small : (t.version + 1) % 2 ^ 32 ≡ t.version + 1 = omega arith in
          unfold save_version in rw (e, small) refl
