-- ===== src/Versiondb/KeyRange/Distinct.antt =====
-- The key ranges of different stores in versiondb/tsrocksdb/store.go.
use cronos_store.Common.{
  ◌≢◌, All, ◌≡◌, refl, Option, none, some, [], ◌∷◌, ◌++◌, append_assoc, sym, ◌∙◌, ap, subst,
}
use cronos_store.Common.Bytes.{Bytes}
use cronos_store.Versiondb.KeyRange.{store_prefix, iterate_with_prefix}
use cronos_store.Versiondb.KeyRange.Store.{
  IsInRange, InStore, append-inj, iterate_with_prefix-InStore,
}

-- A name without "/".
abbrev pub HasNoSlash : Bytes → Type 0
HasNoSlash name = All (λ x. x ≢ 47) name

store_key_inj :
    (a b r s : Bytes) → HasNoSlash a → HasNoSlash b → a ++ (47 ∷ r) ≡ b ++ (47 ∷ s) → a ≡ b
store_key_inj [] [] r s h k e = refl
store_key_inj [] (y ∷ b) r s h k e = absurd (k.0 cc)
store_key_inj (x ∷ a) [] r s h k e = absurd (h.0 cc)
store_key_inj (x ∷ a) (y ∷ b) r s h k e = let rest = store_key_inj a b r s h.1 k.1 cc in cc

ends_of : Option (Option Bytes × Option Bytes) → Option Bytes × Option Bytes
ends_of none = (none, none)
ends_of (some p) = p

range-InStore :
    (store_key : Bytes) (begin end b e : Option Bytes) (k : Bytes)
    → iterate_with_prefix (store_prefix store_key) begin end ≡ some (b, e)
    → IsInRange b e k
    → InStore store_key begin end k
unfolding ends_of
range-InStore name begin end b e k run h =
    let (b', e', run', same) = iterate_with_prefix-InStore name begin end in
    let ends : (b, e) ≡ (b', e') = ap ends_of (sym run ∙ run') in
    (same k).0 (subst (λ p. IsInRange p.0 p.1 k) ends h)

-- The ranges that `iterateWithPrefix` gives for stores whose names have no "/" have a key in common
-- only where the stores are the same.
pub iterate_with_prefix-distinct :
    (store_key other : Bytes) (begin end begin' end' b e b' e' : Option Bytes) (k : Bytes)
    → HasNoSlash store_key
    → HasNoSlash other
    → iterate_with_prefix (store_prefix store_key) begin end ≡ some (b, e)
    → iterate_with_prefix (store_prefix other) begin' end' ≡ some (b', e')
    → IsInRange b e k
    → IsInRange b' e' k
    → store_key ≡ other
unfolding store_prefix
iterate_with_prefix-distinct a c begin end begin' end' b e b' e' k h i run run' p q =
    let (r, l, u) = range-InStore a begin end b e k run p in
    let (s, m, w) = range-InStore c begin' end' b' e' k run' q in
    store_key_inj a c r s h i (
      sym (append_assoc a (47 ∷ []) r)
      ∙ append-inj (115 ∷ 47 ∷ 107 ∷ 58 ∷ []) _ _ (sym l ∙ m)
      ∙ append_assoc c (47 ∷ []) s)
