-- ===== src/Memiavl/Proof/Absent.antt =====
-- A non-existence proof of memiavl/proof.go holds the existence proofs of the two neighbours of the
-- key.
use cronos_store.Common.{
  ℕ, zero, suc, ◌-◌, ◌^◌, ◌≤◌, ◌<◌, ◌≡◌, true, Option, none, some, List, length, arith, refl, sym,
  ◌∙◌, get_elem?, leb, if◌then◌else◌,
}
use cronos_store.Common.Bytes.{Bytes, ◌≺◌}
use cronos_store.Common.Panic.{◌>>=◌, Returns, Returns-bind}
use cronos_store.Memiavl.Node.{Node}
use cronos_store.Memiavl.Entries.Defs.{Entry, leaves, lookup, rank, IsSorted}
use cronos_store.Memiavl.Entries.Neighbours.{
  All-get_elem?, lookup-get_elem?, below_rank, above_rank,
}
use cronos_store.Memiavl.Valid.{IsValid, get-get_by_index}
use cronos_store.Memiavl.Hash.Clean.{IsClean, fresh_hash}
use cronos_store.Memiavl.Proof.{
  ExistenceProof, NonExistenceProof, create_existence_proof, neighbour_proof, refute,
  get_non_membership_proof,
}
use cronos_store.Memiavl.Proof.Ops.{calculate}
use cronos_store.Memiavl.Proof.Exist.{Proves, create_existence_proof-Proves}

-- The entry before an index.
abbrev pub previous : List Entry → ℕ → Option Entry
previous xs zero = none
previous xs (suc i) = get_elem? xs i

module _ (sha256 : Bytes → Bytes) (sized : (bz : Bytes) → length (sha256 bz) ≡ 32) where
  -- A proof of this entry, with the root hash of the tree; none where there is no entry.
  abbrev pub Witnesses : Node → Option Entry → Option ExistenceProof → Type 0
  Witnesses t none none = Unit
  Witnesses t none (some p) = ⊥
  Witnesses t (some e) none = ⊥
  Witnesses t (some e) (some p) =
      (p.key ≡ e.0) × (p.value ≡ e.1) × (calculate sha256 p ≡ fresh_hash sha256 t)

  neighbour_proof-Witnesses :
      (t : Node) (i : ℕ) (o : Option Entry)
      → IsValid t
      → IsClean sha256 t
      → get_elem? (leaves t) i ≡ o
      → Returns (neighbour_proof sha256 o t) (Witnesses t o)
  unfolding neighbour_proof
  neighbour_proof-Witnesses t i none v c e = tt
  neighbour_proof-Witnesses t i (some (key, value)) v c e =
      made (create_existence_proof sha256 key (some t))
        (create_existence_proof-Proves sha256 sized key (some t) v c)
    where
      same : lookup key (leaves t) ≡ value
      same = lookup-get_elem? (leaves t) i (key, value) v.sorted e

      held : (x : Bytes) × (value ≡ some x)
      held =
          All-get_elem? (λ (f : Entry). (x : Bytes) × (f.1 ≡ some x)) (leaves t) i (key, value)
            v.values e

      made :
          (o : Option ExistenceProof)
          → Proves sha256 sized key (some t) o
          → Returns (o >>= λ p. some (some p)) (Witnesses t (some (key, value)))
      made none p = absurd (cc (same, held.1))
      made (some p) q = (q.0, sym q.1 ∙ same, q.2)

-- The entry, if there is one, satisfies `P`.
abbrev pub IfSome : (Entry → Type 0) → Option Entry → Type 0
IfSome P none = Unit
IfSome P (some e) = P e

IfSome-intro :
    (P : Entry → Type 0) (o : Option Entry) → ((e : Entry) → o ≡ some e → P e) → IfSome P o
IfSome-intro P none h = tt
IfSome-intro P (some e) h = h e refl

before_previous :
    (xs : List Entry) (i : ℕ) → (if leb 1 i then get_elem? xs (i - 1) else none) ≡ previous xs i
before_previous xs zero = refl
before_previous xs (suc i) =
    let low : leb 1 (suc i) ≡ true = ground arith in
    let e : suc i - 1 ≡ i = omega arith in rw (low, e)

previous_below :
    (key : Bytes) (xs : List Entry)
    → IsSorted xs
    → (i : ℕ) → i ≤ rank key xs
    → IfSome (λ e. e.0 ≺ key) (previous xs i)
previous_below key xs h zero f = tt
previous_below key xs h (suc i) f =
    IfSome-intro _ (get_elem? xs i) (λ e g. below_rank key xs i e h f g)

module _ (sha256 : Bytes → Bytes) (sized : (bz : Bytes) → length (sha256 bz) ≡ 32) where
  -- A non-existence proof of `key`: the neighbours in key order, each with its existence proof.
  pub record Refutes (key : Bytes) (t : Node) (p : NonExistenceProof) : Type 0 where
    pub asked : p.key ≡ key
    pub below : IfSome (λ e. e.0 ≺ key) (previous (leaves t) (rank key (leaves t)))
    pub above : IfSome (λ e. key ≺ e.0) (get_elem? (leaves t) (rank key (leaves t)))
    pub left : Witnesses sha256 sized t (previous (leaves t) (rank key (leaves t))) p.left
    pub right : Witnesses sha256 sized t (get_elem? (leaves t) (rank key (leaves t))) p.right

  previous-Witnesses :
      (t : Node) (i : ℕ)
      → IsValid t
      → IsClean sha256 t
      → Returns
          (neighbour_proof sha256 (previous (leaves t) i) t)
          (Witnesses sha256 sized t (previous (leaves t) i))
  previous-Witnesses t zero v c = unfold neighbour_proof in tt
  previous-Witnesses t (suc i) v c =
      neighbour_proof-Witnesses sha256 sized t i (get_elem? (leaves t) i) v c refl

  refute-Refutes :
      (key : Bytes) (t : Node)
      → IsValid t
      → IsClean sha256 t
      → length (leaves t) < 2 ^ 32
      → lookup key (leaves t) ≡ none
      → Returns (refute sha256 key t (none, rank key (leaves t))) (Refutes key t)
  unfolding refute
  refute-Refutes key t v c fits absent =
      let i = rank key (leaves t) in
      let at = (get-get_by_index key i t v fits).1 in
      let before = (get-get_by_index key (i - 1) t v fits).1 in
      rw (at, before, before_previous (leaves t) i)
        (Returns-bind _ _ (neighbour_proof sha256 (previous (leaves t) i) t) _
          (previous-Witnesses t i v c)
          (λ l wl.
            Returns-bind _ _ (neighbour_proof sha256 (get_elem? (leaves t) i) t) _
              (neighbour_proof-Witnesses sha256 sized t i (get_elem? (leaves t) i) v c refl)
              (λ r wr. record {
                asked = refl;
                below = previous_below key (leaves t) v.sorted i (omega arith);
                above =
                    IfSome-intro _ (get_elem? (leaves t) i) (λ e g.
                      above_rank key (leaves t) i e v.sorted v.values absent (omega arith) g);
                left = wl;
                right = wr;
              })))

  -- For a key that is not in a valid tree of fewer than 2 ^ 32 entries without stale hashes,
  -- `GetNonMembershipProof` returns a proof with the existence proofs of the entry just below the key
  -- and of the one just above, each where there is one; both stand for the root hash of the tree.
  -- SHA-256 has 32 bytes.
  pub get_non_membership_proof-Refutes :
      (key : Bytes) (t : Node)
      → IsValid t
      → IsClean sha256 t
      → length (leaves t) < 2 ^ 32
      → lookup key (leaves t) ≡ none
      → Returns (get_non_membership_proof sha256 key (some t)) (Refutes key t)
  unfolding get_non_membership_proof
  get_non_membership_proof-Refutes key t v c fits absent =
      rw ((get-get_by_index key 0 t v fits).0, absent) (refute-Refutes key t v c fits absent)
