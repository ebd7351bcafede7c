-- ===== src/Memiavl/MultiTree/State.antt =====
-- The state of `MultiTree` of memiavl/multitree.go, its initial version and its copy. Names are the
-- bytes of strings, `treesByName` is its entries, and versions are int64s by their bit pattern.
use cronos_store.Common.{
  ℕ, suc, Bool, true, ◌&&◌, Option, none, some, List, [], ◌∷◌, map, get_elem?, ltb, leb, ◌==◌,
  if◌then◌else◌,
}
use cronos_store.Common.Bytes.{Bytes, equal_bytes}
use cronos_store.Memiavl.NodeCache.{Cache}
use cronos_store.Memiavl.Tree.{Tree, max_uint32, is_empty, put_initial_version, copy}

pub record StoreInfo : Type 0 where
  pub name : Bytes
  pub version : ℕ
  pub hash : Bytes

pub record CommitInfo : Type 0 where
  pub version : ℕ
  pub store_infos : List StoreInfo

-- An upgrade deletes a store, or renames one where `rename_from` is not empty, or adds one.
pub record TreeNameUpgrade : Type 0 where
  pub name : Bytes
  pub rename_from : Bytes
  pub deletes : Bool

-- What is left of the state by code that returns nil, or an error, or panics.
pub data Result (A : Type 0) : Type 0 where
  returns errors : A → Result A
  panics : Result A

infixl 5 ◌>>=◌
abbrev pub ◌>>=◌ : {A : Type 0} → Result A → (A → Result A) → Result A
returns a >>= f = f a
errors a >>= f = errors a
panics >>= f = panics

-- The entry of a Go map for a name.
unfoldable pub find_index : Bytes → List (Bytes × ℕ) → Option ℕ
find_index name [] = none
find_index name ((n, i) ∷ entries) =
    let more = find_index name entries in if equal_bytes n name then some i else more

module _ (C : Cache) (sha256 : Bytes → Bytes) where
  pub record NamedTree : Type 0 where
    pub name : Bytes
    pub tree : Tree C sha256

  pub record MultiTree : Type 0 where
    pub initial_version : ℕ
    pub cache_size : ℕ
    pub trees : List NamedTree
    pub trees_by_name : List (Bytes × ℕ)
    pub last_commit_info : CommitInfo

  unfoldable pub new_empty_multi_tree : ℕ → ℕ → MultiTree
  new_empty_multi_tree initial_version cache_size = record {
    initial_version = initial_version;
    cache_size = cache_size;
    trees = [];
    trees_by_name = [];
    last_commit_info = record { version = 0; store_infos = [] };
  }

  unfoldable pub tree_by_name : Bytes → MultiTree → Option NamedTree
  unfolding find_index
  tree_by_name name t = elim (find_index name t.trees_by_name) [
    | none ↦ none
    | some i ↦ get_elem? t.trees i
  ]

  unfoldable pub start_tree : ℕ → NamedTree → NamedTree
  unfolding put_initial_version
  start_tree initial_version e = record e {
    tree = put_initial_version C sha256 initial_version e.tree;
  }

  -- `setInitialVersion`
  unfoldable pub put_initial_versions : ℕ → MultiTree → MultiTree
  unfolding start_tree
  put_initial_versions initial_version t =
      if ltb 1 initial_version
      then record t {
        initial_version = initial_version;
        trees = map (start_tree initial_version) t.trees;
      }
      else record t { initial_version = initial_version }

  unfoldable pub all_empty : List NamedTree → Bool
  all_empty [] = true
  all_empty (e ∷ es) = is_empty C sha256 e.tree && all_empty es

  -- The initial version is an int64 that is not negative.
  unfoldable pub set_initial_version : ℕ → MultiTree → Result MultiTree
  unfolding put_initial_versions all_empty
  set_initial_version initial_version t =
      if leb max_uint32 initial_version
      then errors t
      else if t.last_commit_info.version == 0
      then (if all_empty t.trees
          then returns (put_initial_versions initial_version t)
          else errors t)
      else errors t

  unfoldable pub index_copies : ℕ → List NamedTree → List (Bytes × ℕ)
  index_copies i [] = []
  index_copies i (e ∷ es) = (e.name, i) ∷ index_copies (suc i) es

  unfoldable pub copy_tree : ℕ → NamedTree → NamedTree
  unfolding copy
  copy_tree cache_size e = record e { tree = copy C sha256 cache_size e.tree }

  -- `Copy`
  unfoldable pub copy_trees : ℕ → MultiTree → MultiTree
  unfolding index_copies copy_tree
  copy_trees cache_size t = record t {
    trees = map (copy_tree cache_size) t.trees;
    trees_by_name = index_copies 0 t.trees;
  }
