-- ===== src/Memiavl/MultiTree/Stores.antt =====
-- The stores of a `MultiTree` as a map from names to sorted maps, and one change set for one of them.
use cronos_store.Common.{
  ℕ, zero, suc, ◌+◌, ◌^◌, ◌<◌, ◌≤◌, ◌≡◌, ◌⊎◌, refl, Bool, true, false, Option, none, some, List, [],
  ◌∷◌, length, All, All-imp, Bool-cases, if◌then◌else◌, inl, inr, arith, sym, ◌∙◌, ap,
}
use cronos_store.Common.Bytes.{Bytes, equal_bytes, equal_bytes_iff}
use cronos_store.Common.Panic.{Returns-value}
use cronos_store.Memiavl.Entries.Defs.{Entry, leaves_of}
use cronos_store.Memiavl.Valid.{count}
use cronos_store.Memiavl.NodeCache.{Cache}
use cronos_store.Memiavl.Tree.{Tree, KvPair}
use cronos_store.Memiavl.Tree
use cronos_store.Memiavl.Tree.Refine.{
  IsGood, Becomes, change, change_all, length-change, apply_change_set-Becomes,
}
use cronos_store.Memiavl.Traverse.{NamedChangeSet}
use cronos_store.Memiavl.MultiTree.State.{NamedTree, MultiTree}
use cronos_store.Memiavl.MultiTree.Upgrade.{position}
use cronos_store.Memiavl.MultiTree.Commit.{apply_at}
use cronos_store.Memiavl.MultiTree.Index.{IsOrdered, IsOrderedFrom, next_place, position_lem}

-- The stores as a map from names to sorted maps.
abbrev pub Stores : Type 0
Stores = Bytes → Option (List Entry)

-- The change sets up to the first that names no store, and whether there is none that does.
unfoldable pub change_stores : List NamedChangeSet → Stores → Bool × Stores
change_stores [] m = (true, m)
change_stores (c ∷ cs) m = elim (m c.name) [
  | none ↦ (false, m)
  | some xs ↦
      change_stores cs
        (λ name. if equal_bytes c.name name then some (change_all c.change_set xs) else m name)
]

length-change_all :
    (ps : List KvPair) (xs : List Entry) → length (change_all ps xs) ≤ length xs + length ps
unfolding change_all
length-change_all [] xs = omega arith
length-change_all (p ∷ ps) xs =
    omega (arith, length-change p xs, length-change_all ps (change p xs))

-- The pairs of the change sets together.
abbrev pub total_pairs : List NamedChangeSet → ℕ
total_pairs [] = 0
total_pairs (c ∷ cs) = length c.change_set + total_pairs cs

-- A store after pairs for it.
abbrev pub changed : List KvPair → Option (List Entry) → Option (List Entry)
changed ps none = none
changed ps (some xs) = some (change_all ps xs)

module _ (C : Cache) (sha256 : Bytes → Bytes) where
  abbrev pub find_store : Bytes → List (NamedTree C sha256) → Option (List Entry)
  find_store name [] = none
  find_store name (e ∷ es) =
      if equal_bytes e.name name then some (leaves_of e.tree.root) else find_store name es

  abbrev pub stores_of : MultiTree C sha256 → Stores
  stores_of t name = find_store name t.trees

  -- A good tree that has room for more entries.
  abbrev pub HasRoom : ℕ → NamedTree C sha256 → Type 0
  HasRoom more e = IsGood C sha256 e.tree × (count e.tree.root + more < 2 ^ 63)

  pub less_room :
      (m n : ℕ) (es : List (NamedTree C sha256)) → n ≤ m → All (HasRoom m) es → All (HasRoom n) es
  less_room m n es h a = All-imp (λ e g. (g.0, let k = g.1 in omega arith)) es a

  position-inv :
      (name : Bytes) (e : NamedTree C sha256) (es : List (NamedTree C sha256))
      → ((equal_bytes e.name name ≡ true) × (position C sha256 name (e ∷ es) ≡ some 0))
        ⊎ ((equal_bytes e.name name ≡ false)
            × (position C sha256 name (e ∷ es) ≡ next_place (position C sha256 name es)))
  position-inv name e es = elim (Bool-cases (equal_bytes e.name name)) [
    | inl q ↦ inl (q, rw (position_lem C sha256 name e es, q) refl)
    | inr q ↦ inr (q, rw (position_lem C sha256 name e es, q) refl)
  ]

  -- A name has a place exactly where it has a store.
  pub position-find_store :
      (name : Bytes) (es : List (NamedTree C sha256))
      → ((position C sha256 name es ≡ none) × (find_store name es ≡ none))
        ⊎ ((i : ℕ) × (xs : List Entry) × (position C sha256 name es ≡ some i)
            × (find_store name es ≡ some xs))
  position-find_store name [] = inl (unfold position in refl, refl)
  position-find_store name (e ∷ es) = elim (position-inv name e es) [
    | inl (q, p) ↦ inr (0, leaves_of e.tree.root, p, rw q refl)
    | inr (q, p) ↦ elim (position-find_store name es) [
      | inl (r, s) ↦ inl (p ∙ ap next_place r, rw q s)
      | inr (i, xs, r, s) ↦ inr (suc i, xs, p ∙ ap next_place r, rw q s)
    ]
  ]

  -- The trees after a change set for a name.
  pub record Changed (name : Bytes) (ps : List KvPair) (rest : ℕ)
      (es es' : List (NamedTree C sha256)) : Type 0 where
    pub content :
        (n : Bytes)
        → find_store n es'
          ≡ (if equal_bytes name n then changed ps (find_store n es) else find_store n es)
    pub room : All (HasRoom rest) es'
    pub positions : (n : Bytes) → position C sha256 n es' ≡ position C sha256 n es
    pub ordered_from : (m : Bytes) → IsOrderedFrom C sha256 m es → IsOrderedFrom C sha256 m es'
    pub ordered : IsOrdered C sha256 es → IsOrdered C sha256 es'

  Changed-first :
      (name : Bytes) (ps : List KvPair) (rest : ℕ) (e : NamedTree C sha256)
      (es : List (NamedTree C sha256)) (t : Tree C sha256)
      → e.name ≡ name
      → Becomes C sha256 e.tree (change_all ps (leaves_of e.tree.root)) t
      → count e.tree.root + (length ps + rest) < 2 ^ 63
      → All (HasRoom (length ps + rest)) es
      → Changed name ps rest (e ∷ es) (record e { tree = t } ∷ es)
  Changed-first name ps rest e es t same b fits h = record {
    content = λ n. elim (Bool-cases (equal_bytes name n)) [
      | inl q ↦ rw (r n, q, b.entries) refl
      | inr q ↦ rw (r n, q) refl
    ];
    room = (
      (b.good, omega (arith, ap length b.entries, length-change_all ps (leaves_of e.tree.root))),
      All-imp (λ f g. (g.0, let k = g.1 in omega arith)) es h,
    );
    positions = λ n.
        rw (position_lem C sha256 n e es, position_lem C sha256 n (record e { tree = t }) es) refl;
    ordered_from = λ m o. o;
    ordered = λ o. o;
  }
    where
      r : (n : Bytes) → equal_bytes e.name n ≡ equal_bytes name n
      r n = ap (λ z. equal_bytes z n) same

  Changed-later :
      (name : Bytes) (ps : List KvPair) (rest : ℕ) (e : NamedTree C sha256)
      (es es' : List (NamedTree C sha256))
      → equal_bytes e.name name ≡ false
      → HasRoom (length ps + rest) e
      → Changed name ps rest es es'
      → Changed name ps rest (e ∷ es) (e ∷ es')
  Changed-later name ps rest e es es' other h c = record {
    content = λ n. elim (Bool-cases (equal_bytes e.name n)) [
      | inl q ↦ rw (q, skip n q) refl
      | inr q ↦ rw q (c.content n)
    ];
    room = ((h.0, let k = h.1 in omega arith), c.room);
    positions =
        λ n. rw (position_lem C sha256 n e es, position_lem C sha256 n e es', c.positions n) refl;
    ordered_from = λ m o. (o.0, c.ordered_from e.name o.1);
    ordered = λ o. c.ordered_from e.name o;
  }
    where
      skip : (n : Bytes) → equal_bytes e.name n ≡ true → equal_bytes name n ≡ false
      skip n q = elim (Bool-cases (equal_bytes name n)) [
        | inl p ↦
            let a : e.name ≡ n = (equal_bytes_iff e.name n).0 q in
            let b : name ≡ n = (equal_bytes_iff name n).0 p in
            let k : equal_bytes e.name name ≡ true = (equal_bytes_iff e.name name).1 (a ∙ sym b) in
            cc
        | inr p ↦ p
      ]

  apply_at-first :
      (ps : List KvPair) (e : NamedTree C sha256) (es : List (NamedTree C sha256))
      (t : Tree C sha256)
      → Tree.apply_change_set C sha256 ps e.tree ≡ some t
      → apply_at C sha256 0 ps (e ∷ es) ≡ some (record e { tree = t } ∷ es)
  unfolding apply_at
  apply_at-first ps e es t run = rw (apply_at, run) refl

  apply_at-later :
      (i : ℕ) (ps : List KvPair) (e : NamedTree C sha256) (es es' : List (NamedTree C sha256))
      → apply_at C sha256 i ps es ≡ some es'
      → apply_at C sha256 (suc i) ps (e ∷ es) ≡ some (e ∷ es')
  unfolding apply_at
  apply_at-later i ps e es es' run = rw (apply_at, run) refl

  pub apply_at-Changed :
      (name : Bytes) (ps : List KvPair) (rest i : ℕ) (es : List (NamedTree C sha256))
      → position C sha256 name es ≡ some i
      → All (HasRoom (length ps + rest)) es
      → (es' : List (NamedTree C sha256)) × (apply_at C sha256 i ps es ≡ some es')
        × Changed name ps rest es es'
  apply_at-Changed name ps rest i [] p h = absurd (unfold position in nothing p)
    where
      nothing : none ≡ some i → ⊥
      nothing q = cc
  apply_at-Changed name ps rest zero (e ∷ es) p h = elim (position-inv name e es) [
    | inl (q, r) ↦
        let (t, run, b) =
          Returns-value (Becomes C sha256 e.tree (change_all ps (leaves_of e.tree.root)))
            (Tree.apply_change_set C sha256 ps e.tree)
            (apply_change_set-Becomes C sha256 ps e.tree h.0.0 (let k = h.0.1 in omega arith)) in
        (
          record e { tree = t } ∷ es,
          apply_at-first ps e es t run,
          Changed-first name ps rest e es t ((equal_bytes_iff e.name name).0 q) b h.0.1 h.1,
        )
    | inr (q, r) ↦ absurd (never (position C sha256 name es) (sym r ∙ p))
  ]
    where
      never : (o : Option ℕ) → next_place o ≡ some 0 → ⊥
      never none k = cc
      never (some j) k = ground arith
  apply_at-Changed name ps rest (suc i) (e ∷ es) p h = elim (position-inv name e es) [
    | inl (q, r) ↦ absurd (never (sym r ∙ p))
    | inr (q, r) ↦
        let (es', run, c) =
          apply_at-Changed name ps rest i es (before (position C sha256 name es) (sym r ∙ p)) h.1 in
        (e ∷ es', apply_at-later i ps e es es' run, Changed-later name ps rest e es es' q h.0 c)
  ]
    where
      never : {j : ℕ} → some 0 ≡ some (suc j) → ⊥
      never k = ground arith

      before : (o : Option ℕ) → next_place o ≡ some (suc i) → o ≡ some i
      before none k = cc
      before (some j) k = ground arith
