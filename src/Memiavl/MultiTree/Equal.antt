-- ===== src/Memiavl/MultiTree/Equal.antt =====
-- `commitInfoEqual` of memiavl/multitree.go.
use cronos_store.Common.{
  ℕ, ◌≡◌, ◌↔◌, refl, Bool, true, false, ◌&&◌, List, [], ◌∷◌, length, ◌==◌, ==_iff, sym,
}
use cronos_store.Common.Bytes.{Bytes, equal_bytes, equal_bytes_iff}
use cronos_store.Memiavl.MultiTree.State.{StoreInfo, CommitInfo}
use cronos_store.Memiavl.MultiTree.Commit.{store_infos_equal, commit_info_equal}

and-true : (a b : Bool) → (a && b) ≡ true → (a ≡ true) × (b ≡ true)
and-true true b h = (refl, h)
and-true false b h = cc

store_infos_equal_refl : (xs : List StoreInfo) → store_infos_equal xs xs ≡ true
unfolding store_infos_equal
store_infos_equal_refl [] = refl
store_infos_equal_refl (a ∷ xs) =
    let n = (equal_bytes_iff a.name a.name).1 refl in
    let v = (==_iff a.version a.version).1 refl in
    let h = (equal_bytes_iff a.hash a.hash).1 refl in rw (n, v, h, store_infos_equal_refl xs) refl

info_of : Bytes → ℕ → Bytes → StoreInfo
info_of name version hash = record { name = name; version = version; hash = hash }

info_ext : (a b : StoreInfo) → a.name ≡ b.name → a.version ≡ b.version → a.hash ≡ b.hash → a ≡ b
unfolding info_of
info_ext a b n v h =
    let l : a ≡ info_of a.name a.version a.hash = refl in
    let r : b ≡ info_of b.name b.version b.hash = refl in cc

store_infos_equal_eq : (xs ys : List StoreInfo) → store_infos_equal xs ys ≡ true → xs ≡ ys
unfolding store_infos_equal
store_infos_equal_eq [] [] h = refl
store_infos_equal_eq [] (b ∷ ys) h = cc
store_infos_equal_eq (a ∷ xs) [] h = cc
store_infos_equal_eq (a ∷ xs) (b ∷ ys) h =
    let (n, h1) = and-true (equal_bytes a.name b.name) _ h in
    let (v, h2) = and-true (a.version == b.version) _ h1 in
    let (k, h3) = and-true (equal_bytes a.hash b.hash) (store_infos_equal xs ys) h2 in
    let rest = store_infos_equal_eq xs ys h3 in
    let first =
      info_ext a b ((equal_bytes_iff a.name b.name).0 n) ((==_iff a.version b.version).0 v)
        ((equal_bytes_iff a.hash b.hash).0 k) in
    cc

commit_of : ℕ → List StoreInfo → CommitInfo
commit_of version infos = record { version = version; store_infos = infos }

-- `commitInfoEqual` returns nil exactly for commit infos that are equal.
pub commit_info_equal_iff : (a b : CommitInfo) → (commit_info_equal a b ≡ true) ↔ (a ≡ b)
unfolding commit_info_equal commit_of
commit_info_equal_iff a b = (
  λ h.
      let (v, h1) = and-true (a.version == b.version) _ h in
      let (n, h2) = and-true (length a.store_infos == length b.store_infos) _ h1 in
      let vs = (==_iff a.version b.version).0 v in
      let is = store_infos_equal_eq a.store_infos b.store_infos h2 in
      let l : a ≡ commit_of a.version a.store_infos = refl in
      let r : b ≡ commit_of b.version b.store_infos = refl in cc,
  λ e. rw (sym e) (same a),
)
  where
    same : (a : CommitInfo) → commit_info_equal a a ≡ true
    same a =
        let v = (==_iff a.version a.version).1 refl in
        let n = (==_iff (length a.store_infos) (length a.store_infos)).1 refl in
        rw (v, n, store_infos_equal_refl a.store_infos) refl
