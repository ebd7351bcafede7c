-- ===== src/Memiavl/Db/Objects.antt =====
-- The numbers of the change sets of a pending log, and the pairs that the log has for a name.
use cronos_store.Common.{
  ℕ, zero, suc, ◌≡◌, ◌⊎◌, refl, true, false, none, some, List, [], ◌∷◌, ◌++◌, append_assoc,
  append-nil, ◌==◌, ==_iff, if◌then◌else◌, All, All-imp, Bool-cases, inl, inr, sym, ◌∙◌, ap,
}
use cronos_store.Common.Bytes.{Bytes, equal_bytes, equal_bytes_iff}
use cronos_store.Memiavl.Tree.{KvPair}
use cronos_store.Memiavl.Traverse.{NamedChangeSet}
use cronos_store.Memiavl.MultiTree.State.{find_index}
use cronos_store.Memiavl.Db.Pending.{Numbered, append_pairs, insert_at}

-- The pairs for a name, in the order of the log.
abbrev pub pairs_for : Bytes → List Numbered → List KvPair
pairs_for n [] = []
pairs_for n ((i, c) ∷ cs) =
    if equal_bytes c.name n then c.change_set ++ pairs_for n cs else pairs_for n cs

-- No change set has the name.
abbrev pub IsAbsent : Bytes → List Numbered → Type 0
IsAbsent name cs = All (λ x. equal_bytes x.1.name name ≡ false) cs

-- No change set has the number.
abbrev pub IsFresh : ℕ → List Numbered → Type 0
IsFresh i cs = All (λ x. (x.0 == i) ≡ false) cs

-- The number is that of one change set alone, which is the last of the name.
abbrev pub IsLast : Bytes → ℕ → List Numbered → Type 0
IsLast name i [] = ⊥
IsLast name i ((j, c) ∷ cs) =
    ((j ≡ i) × (c.name ≡ name) × IsAbsent name cs × IsFresh i cs)
    ⊎ (((j == i) ≡ false) × IsLast name i cs)

-- The map has the last change set of every name, and no other name.
abbrev pub HasLast : List (Bytes × ℕ) → List Numbered → Type 0
HasLast m cs =
    (name : Bytes)
    → ((find_index name m ≡ none) × IsAbsent name cs)
      ⊎ ((i : ℕ) × (find_index name m ≡ some i) × IsLast name i cs)

pub find_entry :
    (name : Bytes) (n : Bytes) (i : ℕ) (m : List (Bytes × ℕ))
    → find_index name ((n, i) ∷ m) ≡ (if equal_bytes n name then some i else find_index name m)
unfolding find_index
find_entry name n i m = refl

pub pairs_for-IsAbsent :
    (name : Bytes) (cs : List Numbered) → IsAbsent name cs → pairs_for name cs ≡ []
pairs_for-IsAbsent name [] a = refl
pairs_for-IsAbsent name ((i, c) ∷ cs) a = rw a.0 (pairs_for-IsAbsent name cs a.1)

append_pairs-IsFresh :
    (i : ℕ) (ps : List KvPair) (cs : List Numbered) → IsFresh i cs → append_pairs i ps cs ≡ cs
unfolding append_pairs
append_pairs-IsFresh i ps [] f = refl
append_pairs-IsFresh i ps ((j, c) ∷ cs) f = rw (f.0, append_pairs-IsFresh i ps cs f.1) refl

-- The pairs that a change adds for a name.
abbrev pub added : NamedChangeSet → Bytes → List KvPair
added c n = if equal_bytes c.name n then c.change_set else []

IsAbsent-along :
    (a b n : Bytes) (cs : List Numbered) → a ≡ b → a ≡ n → IsAbsent b cs → IsAbsent n cs
IsAbsent-along a b n cs p q h =
    All-imp (λ x k. ap (λ z. equal_bytes x.1.name z) (sym q ∙ p) ∙ k) cs h

pub pairs_for-append_pairs :
    (c : NamedChangeSet) (i : ℕ) (cs : List Numbered) (n : Bytes)
    → IsLast c.name i cs
    → pairs_for n (append_pairs i c.change_set cs) ≡ pairs_for n cs ++ added c n
unfolding append_pairs
pairs_for-append_pairs c i [] n l = absurd l
pairs_for-append_pairs c i ((j, d) ∷ cs) n (inl (e, name, absent, fresh)) =
    let same : (j == i) ≡ true = (==_iff j i).1 e in
    let other : equal_bytes c.name n ≡ equal_bytes d.name n =
      ap (λ z. equal_bytes z n) (sym name) in
    elim (Bool-cases (equal_bytes d.name n)) [
      | inl q ↦
          let gone =
            pairs_for-IsAbsent n cs
              (IsAbsent-along d.name c.name n cs name ((equal_bytes_iff d.name n).0 q) absent) in
          rw
            (
              same,
              append_pairs-IsFresh i c.change_set cs fresh,
              other,
              q,
              gone,
              append-nil d.change_set,
              append-nil (d.change_set ++ c.change_set),
            )
            refl
      | inr q ↦
          rw
            (
              same,
              append_pairs-IsFresh i c.change_set cs fresh,
              other,
              q,
              append-nil (pairs_for n cs),
            )
            refl
    ]
pairs_for-append_pairs c i ((j, d) ∷ cs) n (inr (e, l)) =
    let rest = pairs_for-append_pairs c i cs n l in
    elim (Bool-cases (equal_bytes d.name n)) [
      | inl q ↦ rw (e, q, rest) (sym (append_assoc d.change_set (pairs_for n cs) (added c n)))
      | inr q ↦ rw (e, q) rest
    ]

pairs_for-first :
    (i : ℕ) (c : NamedChangeSet) (cs : List Numbered) (n : Bytes)
    → IsAbsent c.name cs
    → pairs_for n ((i, c) ∷ cs) ≡ pairs_for n cs ++ added c n
pairs_for-first i c cs n a = elim (Bool-cases (equal_bytes c.name n)) [
  | inl q ↦
      let name : c.name ≡ n = (equal_bytes_iff c.name n).0 q in
      let gone = pairs_for-IsAbsent n cs (IsAbsent-along c.name c.name n cs refl name a) in
      rw (q, gone, append-nil c.change_set) refl
  | inr q ↦ rw (q, append-nil (pairs_for n cs)) refl
]

pub pairs_for-insert_at :
    (i k : ℕ) (c : NamedChangeSet) (cs : List Numbered) (n : Bytes)
    → IsAbsent c.name cs
    → pairs_for n (insert_at k (i, c) cs) ≡ pairs_for n cs ++ added c n
unfolding insert_at
pairs_for-insert_at i k c [] n a = pairs_for-first i c [] n a
pairs_for-insert_at i zero c (x ∷ cs) n a = pairs_for-first i c (x ∷ cs) n a
pairs_for-insert_at i (suc k) c ((j, d) ∷ cs) n a =
    let rest = pairs_for-insert_at i k c cs n a.1 in
    elim (Bool-cases (equal_bytes d.name n)) [
      | inl q ↦ rw (q, rest) (sym (append_assoc d.change_set (pairs_for n cs) (added c n)))
      | inr q ↦ rw q rest
    ]

append_pairs-IsAbsent :
    (name : Bytes) (i : ℕ) (ps : List KvPair) (cs : List Numbered)
    → IsAbsent name cs
    → IsAbsent name (append_pairs i ps cs)
unfolding append_pairs
append_pairs-IsAbsent name i ps [] a = tt
append_pairs-IsAbsent name i ps ((j, c) ∷ cs) a = elim (Bool-cases (j == i)) [
  | inl e ↦ rw e (a.0, append_pairs-IsAbsent name i ps cs a.1)
  | inr e ↦ rw e (a.0, append_pairs-IsAbsent name i ps cs a.1)
]

pub append_pairs-IsBelow :
    (P : ℕ → Type 0) (i : ℕ) (ps : List KvPair) (cs : List Numbered)
    → All (λ x. P x.0) cs
    → All (λ x. P x.0) (append_pairs i ps cs)
unfolding append_pairs
append_pairs-IsBelow P i ps [] a = tt
append_pairs-IsBelow P i ps ((j, c) ∷ cs) a = elim (Bool-cases (j == i)) [
  | inl e ↦ rw e (a.0, append_pairs-IsBelow P i ps cs a.1)
  | inr e ↦ rw e (a.0, append_pairs-IsBelow P i ps cs a.1)
]

pub append_pairs-names :
    (P : Bytes → Type 0) (i : ℕ) (ps : List KvPair) (cs : List Numbered)
    → All (λ x. P x.1.name) cs
    → All (λ x. P x.1.name) (append_pairs i ps cs)
unfolding append_pairs
append_pairs-names P i ps [] a = tt
append_pairs-names P i ps ((j, c) ∷ cs) a = elim (Bool-cases (j == i)) [
  | inl e ↦ rw e (a.0, append_pairs-names P i ps cs a.1)
  | inr e ↦ rw e (a.0, append_pairs-names P i ps cs a.1)
]

append_pairs-IsLast :
    (name : Bytes) (k i : ℕ) (ps : List KvPair) (cs : List Numbered)
    → IsLast name k cs
    → IsLast name k (append_pairs i ps cs)
unfolding append_pairs
append_pairs-IsLast name k i ps [] l = l
append_pairs-IsLast name k i ps ((j, c) ∷ cs) (inl (e, n, a, f)) =
    let rest = append_pairs-IsAbsent name i ps cs a in
    let fresh = append_pairs-IsBelow (λ x. (x == k) ≡ false) i ps cs f in
    elim (Bool-cases (j == i)) [
      | inl q ↦ rw q (inl (e, n, rest, fresh))
      | inr q ↦ rw q (inl (e, n, rest, fresh))
    ]
append_pairs-IsLast name k i ps ((j, c) ∷ cs) (inr (e, l)) =
    let rest = append_pairs-IsLast name k i ps cs l in
    elim (Bool-cases (j == i)) [ inl q ↦ rw q (inr (e, rest)) | inr q ↦ rw q (inr (e, rest)) ]

-- The objects keep their places and names, so that the map stays right.
pub append_pairs-HasLast :
    (m : List (Bytes × ℕ)) (i : ℕ) (ps : List KvPair) (cs : List Numbered)
    → HasLast m cs
    → HasLast m (append_pairs i ps cs)
append_pairs-HasLast m i ps cs h = λ name. elim (h name) [
  | inl (f, a) ↦ inl (f, append_pairs-IsAbsent name i ps cs a)
  | inr (k, f, l) ↦ inr (k, f, append_pairs-IsLast name k i ps cs l)
]

pub insert_at-All :
    (P : Numbered → Type 0) (k : ℕ) (x : Numbered) (cs : List Numbered)
    → P x
    → All P cs
    → All P (insert_at k x cs)
unfolding insert_at
insert_at-All P k x [] p a = (p, tt)
insert_at-All P zero x (y ∷ ys) p a = (p, a)
insert_at-All P (suc k) x (y ∷ ys) p a = (a.0, insert_at-All P k x ys p a.1)

pub insert_at-IsLast :
    (name : Bytes) (i k : ℕ) (x : Numbered) (cs : List Numbered)
    → equal_bytes x.1.name name ≡ false
    → (x.0 == i) ≡ false
    → IsLast name i cs
    → IsLast name i (insert_at k x cs)
unfolding insert_at
insert_at-IsLast name i k x [] n e l = absurd l
insert_at-IsLast name i zero x (y ∷ ys) n e l = inr (e, l)
insert_at-IsLast name i (suc k) x (y ∷ ys) n e (inl (q, m, a, f)) = inl (
  q,
  m,
  insert_at-All (λ x. equal_bytes x.1.name name ≡ false) k x ys n a,
  insert_at-All (λ x. (x.0 == i) ≡ false) k x ys e f,
)
insert_at-IsLast name i (suc k) x (y ∷ ys) n e (inr (q, l)) =
    inr (q, insert_at-IsLast name i k x ys n e l)

pub insert_at-new :
    (i k : ℕ) (c : NamedChangeSet) (cs : List Numbered)
    → IsAbsent c.name cs
    → IsFresh i cs
    → IsLast c.name i (insert_at k (i, c) cs)
unfolding insert_at
insert_at-new i k c [] a f = inl (refl, refl, tt, tt)
insert_at-new i zero c (y ∷ ys) a f = inl (refl, refl, a, f)
insert_at-new i (suc k) c (y ∷ ys) a f = inr (f.0, insert_at-new i k c ys a.1 f.1)
