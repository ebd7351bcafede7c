-- ===== src/Versiondb/KeyRange/Store.antt =====
-- The key range of a store in versiondb/tsrocksdb/store.go.
use cronos_store.Common.{
  ℕ, ◌+◌, ◌<◌, ◌≡◌, ◌↔◌, ◌⊎◌, inl, inr, refl, true, false, Option, none, some, [], ◌∷◌, ◌++◌,
  append_assoc, ltb, arith, sym, ◌∙◌, ap, subst,
}
use cronos_store.Common.Bytes.{Bytes, compare_bytes, ◌≺◌, ◌≼◌}
use cronos_store.Versiondb.KeyRange.{
  store_prefix, incr_bytes, cp_incr, bytes_of, iterate_with_prefix,
}

-- Below the end of a range, which nil leaves open.
abbrev pub IsBelow : Option Bytes → Bytes → Type 0
IsBelow none k = Unit
IsBelow (some e) k = k ≺ e

abbrev pub IsInRange : Option Bytes → Option Bytes → Bytes → Type 0
IsInRange begin end k = (bytes_of begin ≼ k) × IsBelow end k

compare-append : (p a b : Bytes) → compare_bytes (p ++ a) (p ++ b) ≡ compare_bytes a b
unfolding compare_bytes
compare-append [] a b = refl
compare-append (x ∷ p) a b = ground (arith, compare-append p a b)

le-append : (p a b : Bytes) → a ≼ b → (p ++ a) ≼ (p ++ b)
le-append p a b (inl h) = inl (compare-append p a b ∙ h)
le-append p a b (inr e) = inr (ap (λ z. p ++ z) e)

pub append-inj : (p a b : Bytes) → p ++ a ≡ p ++ b → a ≡ b
append-inj [] a b e = e
append-inj (x ∷ p) a b e = append-inj p a b cc

le_of_append : (p a b : Bytes) → (p ++ a) ≼ (p ++ b) → a ≼ b
le_of_append p a b (inl h) = inl (sym (compare-append p a b) ∙ h)
le_of_append p a b (inr e) = inr (append-inj p a b e)

incr_bytes-last :
    (q : Bytes) (x : ℕ)
    → ltb x 255 ≡ true
    → incr_bytes (q ++ (x ∷ [])) ≡ (q ++ ((x + 1) ∷ []), false)
unfolding incr_bytes
incr_bytes-last [] x h = rw h refl
incr_bytes-last (y ∷ q) x h = rw (incr_bytes-last q x h) refl

cons_lt : (x y : ℕ) (a b : Bytes) → (x ∷ a) ≺ (y ∷ b) → (x < y) ⊎ ((x ≡ y) × (a ≺ b))
unfolding compare_bytes
cons_lt x y a b h = ground arith

cons_le : (x y : ℕ) (a b : Bytes) → (x ∷ a) ≼ (y ∷ b) → (x < y) ⊎ ((x ≡ y) × (a ≼ b))
cons_le x y a b (inl h) = elim (cons_lt x y a b h) [ inl q ↦ inl q | inr q ↦ inr (q.0, inl q.1) ]
cons_le x y a b (inr e) = inr (cc, inr cc)

nothing_below : (a : Bytes) → a ≺ [] → ⊥
unfolding compare_bytes
nothing_below [] h = cc
nothing_below (x ∷ a) h = cc

not_empty : (x : ℕ) (a : Bytes) → (x ∷ a) ≼ [] → ⊥
not_empty x a (inl h) = nothing_below (x ∷ a) h
not_empty x a (inr e) = cc

first_byte : (x y : ℕ) (a ys : Bytes) → (x ∷ a) ≼ (y ∷ ys) → (y ∷ ys) ≺ ((x + 1) ∷ []) → y ≡ x
first_byte x y a ys h l = elim (cons_le x y a ys h) [
  | inl p ↦ elim (cons_lt y (x + 1) ys [] l) [
    | inl q ↦ absurd (omega arith)
    | inr q ↦ absurd (nothing_below ys q.1)
  ]
  | inr p ↦ sym p.0
]

-- A key from `q`, `x` and more on, and below `q` and the next byte, starts with `q` and `x`.
starts_with :
    (q : Bytes) (x : ℕ) (a k : Bytes)
    → (q ++ (x ∷ a)) ≼ k
    → k ≺ (q ++ ((x + 1) ∷ []))
    → (r : Bytes) × (k ≡ q ++ (x ∷ r))
starts_with [] x a [] h l = absurd (not_empty x a h)
starts_with [] x a (y ∷ ys) h l = (ys, ap (λ z. z ∷ ys) (first_byte x y a ys h l))
starts_with (z ∷ q) x a [] h l = absurd (not_empty z (q ++ (x ∷ a)) h)
starts_with (z ∷ q) x a (y ∷ ys) h l = elim (cons_le z y (q ++ (x ∷ a)) ys h) [
  | inl p ↦ elim (cons_lt y z ys (q ++ ((x + 1) ∷ [])) l) [
    | inl m ↦ absurd (omega arith)
    | inr m ↦ absurd (let e = m.0 in omega arith)
  ]
  | inr p ↦ elim (cons_lt y z ys (q ++ ((x + 1) ∷ [])) l) [
    | inl m ↦ absurd (let e = p.0 in omega arith)
    | inr m ↦ let (r, e) = starts_with q x a ys p.1 m.1 in (r, cc)
  ]
]

-- A key between a prefix with one tail and with another starts with the prefix.
between : (p a b k : Bytes) → (p ++ a) ≼ k → k ≺ (p ++ b) → (r : Bytes) × (k ≡ p ++ r)
between [] a b k h l = (k, refl)
between (z ∷ p) a b [] h l = absurd (not_empty z (p ++ a) h)
between (z ∷ p) a b (y ∷ ys) h l = elim (cons_le z y (p ++ a) ys h) [
  | inl q ↦ elim (cons_lt y z ys (p ++ b) l) [
    | inl m ↦ absurd (omega arith)
    | inr m ↦ absurd (let e = m.0 in omega arith)
  ]
  | inr q ↦ elim (cons_lt y z ys (p ++ b) l) [
    | inl m ↦ absurd (let e = q.0 in omega arith)
    | inr m ↦ let (r, e) = between p a b ys q.1 m.1 in (r, cc)
  ]
]

below_next : (q : Bytes) (x : ℕ) (r : Bytes) → (q ++ (x ∷ r)) ≺ (q ++ ((x + 1) ∷ []))
unfolding compare_bytes
below_next q x r = compare-append q (x ∷ r) ((x + 1) ∷ []) ∙ ground arith

bounded_range :
    (p b e k : Bytes)
    → (((p ++ b) ≼ k) × (k ≺ (p ++ e))) ↔ ((r : Bytes) × (k ≡ p ++ r) × ((b ≼ r) × (r ≺ e)))
bounded_range p b e k = (
  λ h.
      let (r, q) = between p b e k h.0 h.1 in
      (
        r,
        q,
        (
          le_of_append p b r (subst (λ z. (p ++ b) ≼ z) q h.0),
          sym (compare-append p r e) ∙ subst (λ z. z ≺ (p ++ e)) q h.1,
        ),
      ),
  λ h. (
    subst (λ z. (p ++ b) ≼ z) (sym h.1) (le-append p b h.0 h.2.0),
    subst (λ z. z ≺ (p ++ e)) (sym h.1) (compare-append p h.0 e ∙ h.2.1),
  ),
)

open_range :
    (q : Bytes) (x : ℕ) (b k : Bytes)
    → ((((q ++ (x ∷ [])) ++ b) ≼ k) × (k ≺ (q ++ ((x + 1) ∷ []))))
      ↔ ((r : Bytes) × (k ≡ (q ++ (x ∷ [])) ++ r) × ((b ≼ r) × IsBelow none r))
open_range q x b k = (
  λ h.
      let (r, e) = starts_with q x b k (subst (λ z. z ≼ k) (append_assoc q (x ∷ []) b) h.0) h.1 in
      let e' : k ≡ (q ++ (x ∷ [])) ++ r = e ∙ sym (append_assoc q (x ∷ []) r) in
      (
        r,
        e',
        (le_of_append (q ++ (x ∷ [])) b r (subst (λ z. ((q ++ (x ∷ [])) ++ b) ≼ z) e' h.0), tt),
      ),
  λ h.
      let (r, e, (le, u)) = h in
      (
        subst (λ z. ((q ++ (x ∷ [])) ++ b) ≼ z) (sym e) (le-append (q ++ (x ∷ [])) b r le),
        subst (λ z. z ≺ (q ++ ((x + 1) ∷ []))) (sym (e ∙ append_assoc q (x ∷ []) r))
            (below_next q x r),
      ),
)

-- The name of a store with what stands before it.
abbrev head_of : Bytes → Bytes
head_of store_key = 115 ∷ 47 ∷ 107 ∷ 58 ∷ store_key

-- The keys of a range of a store, with the prefix of the store.
abbrev pub InStore : Bytes → Option Bytes → Option Bytes → Bytes → Type 0
InStore store_key begin end k =
    (r : Bytes) × (k ≡ store_prefix store_key ++ r) × IsInRange begin end r

-- The range that `iterateWithPrefix` gives for a store, with any begin and end, has a key just when the
-- key is the prefix of the store, its name between "s/k:" and "/", followed by a key from the begin on
-- and below the end.
pub iterate_with_prefix-InStore :
    (store_key : Bytes) (begin end : Option Bytes)
    → (b e : Option Bytes) × (iterate_with_prefix (store_prefix store_key) begin end ≡ some (b, e))
      × ((k : Bytes) → IsInRange b e k ↔ InStore store_key begin end k)
unfolding iterate_with_prefix store_prefix cp_incr
iterate_with_prefix-InStore name begin none = (
  some ((head_of name ++ (47 ∷ [])) ++ bytes_of begin),
  some (head_of name ++ (48 ∷ [])),
  rw (iterate_with_prefix, cp_incr, incr_bytes-last (head_of name) 47 refl) refl,
  λ k. open_range (head_of name) 47 (bytes_of begin) k,
)
iterate_with_prefix-InStore name begin (some e) = (
  some ((head_of name ++ (47 ∷ [])) ++ bytes_of begin),
  some ((head_of name ++ (47 ∷ [])) ++ e),
  refl,
  λ k. bounded_range (head_of name ++ (47 ∷ [])) (bytes_of begin) e k,
)
