-- ===== src/Memiavl/Entries/Lists.antt =====
-- The sorted association list under `++`: an operation on the entries of a branch is the operation
-- on the entries of one child.
use cronos_store.Common.{
  ◌+◌, ◌≡◌, none, arith, refl, List, [], ◌∷◌, ◌++◌, All, All-imp, All-append_left, All-append_right,
  length,
}
use cronos_store.Common.Bytes.{Bytes, ◌≺◌, ◌≼◌, lt_trans, gt_of_lt, lt_of_lt_of_le}
use cronos_store.Memiavl.Node.{Slice}
use cronos_store.Memiavl.Entries.Defs.{Entry, IsSorted, insert, delete, lookup, rank}

abbrev pub Below : Bytes → List Entry → Type 0
Below key = All (λ (e : Entry). e.0 ≺ key)

abbrev pub Above : Bytes → List Entry → Type 0
Above key = All (λ (e : Entry). key ≺ e.0)

-- The first key of a list, where there is one, is `key`.
abbrev pub Starts : Bytes → List Entry → Type 0
Starts key [] = ⊥
Starts key (e ∷ es) = e.0 ≡ key

pub Starts-append : (key : Bytes) (xs ys : List Entry) → Starts key xs → Starts key (xs ++ ys)
Starts-append key [] ys h = absurd h
Starts-append key (x ∷ xs) ys h = h

pub IsSorted-left : (xs ys : List Entry) → IsSorted (xs ++ ys) → IsSorted xs
IsSorted-left [] ys h = tt
IsSorted-left (x ∷ xs) ys h = (All-append_left _ xs ys h.0, IsSorted-left xs ys h.1)

pub IsSorted-right : (xs ys : List Entry) → IsSorted (xs ++ ys) → IsSorted ys
IsSorted-right [] ys h = h
IsSorted-right (x ∷ xs) ys h = IsSorted-right xs ys h.1

-- In a sorted list `xs ++ ys` all of `xs` is below the first key of `ys`.
pub Below-start :
    (key : Bytes) (xs ys : List Entry) → IsSorted (xs ++ ys) → Starts key ys → Below key xs
Below-start key [] ys h s = tt
Below-start key (x ∷ xs) [] h s = absurd s
Below-start key (x ∷ xs) (y ∷ ys) h s = (
  ground (arith, (All-append_right (λ (e : Entry). x.0 ≺ e.0) xs (y ∷ ys) h.0).0),
  Below-start key xs (y ∷ ys) h.1 s,
)

module _ (key : Bytes) where
  pub insert-append_left :
      (value : Slice) (xs ys : List Entry) (start : Bytes)
      → Starts start ys
      → key ≺ start
      → insert key value (xs ++ ys) ≡ insert key value xs ++ ys
  unfolding insert
  insert-append_left value [] [] start s h = absurd s
  insert-append_left value [] (y ∷ ys) start s h = ground arith
  insert-append_left value (x ∷ xs) ys start s h =
      ground (arith, insert-append_left value xs ys start s h)

  pub insert-append_right :
      (value : Slice) (xs ys : List Entry)
      → Below key xs
      → insert key value (xs ++ ys) ≡ xs ++ insert key value ys
  unfolding insert
  insert-append_right value [] ys b = refl
  insert-append_right value (x ∷ xs) ys b =
      ground (arith, gt_of_lt x.0 key b.0, insert-append_right value xs ys b.1)

  -- A key below the first is not there.
  pub delete-Above : (ys : List Entry) → Above key ys → delete key ys ≡ ys
  unfolding delete
  delete-Above [] h = refl
  delete-Above (y ∷ ys) h = ground (arith, delete-Above ys h.1)

  pub delete-append_left :
      (xs ys : List Entry) → Above key ys → delete key (xs ++ ys) ≡ delete key xs ++ ys
  unfolding delete
  delete-append_left [] ys h = delete-Above ys h
  delete-append_left (x ∷ xs) ys h = ground (arith, delete-append_left xs ys h)

  pub delete-append_right :
      (xs ys : List Entry) → Below key xs → delete key (xs ++ ys) ≡ xs ++ delete key ys
  unfolding delete
  delete-append_right [] ys h = refl
  delete-append_right (x ∷ xs) ys h =
      ground (arith, gt_of_lt x.0 key h.0, delete-append_right xs ys h.1)

  pub lookup-Above : (ys : List Entry) → Above key ys → lookup key ys ≡ none
  unfolding lookup
  lookup-Above [] h = refl
  lookup-Above (y ∷ ys) h = ground (arith, lookup-Above ys h.1)

  pub lookup-append_left :
      (xs ys : List Entry) → Above key ys → lookup key (xs ++ ys) ≡ lookup key xs
  unfolding lookup
  lookup-append_left [] ys h = lookup-Above ys h
  lookup-append_left (x ∷ xs) ys h = ground (arith, lookup-append_left xs ys h)

  pub lookup-append_right :
      (xs ys : List Entry) → Below key xs → lookup key (xs ++ ys) ≡ lookup key ys
  unfolding lookup
  lookup-append_right [] ys h = refl
  lookup-append_right (x ∷ xs) ys h =
      ground (arith, gt_of_lt x.0 key h.0, lookup-append_right xs ys h.1)

  pub rank-Above : (ys : List Entry) → Above key ys → rank key ys ≡ 0
  unfolding rank
  rank-Above [] h = refl
  rank-Above (y ∷ ys) h = ground (arith, gt_of_lt key y.0 h.0, rank-Above ys h.1)

  pub rank-append_left : (xs ys : List Entry) → Above key ys → rank key (xs ++ ys) ≡ rank key xs
  unfolding rank
  rank-append_left [] ys h = rank-Above ys h
  rank-append_left (x ∷ xs) ys h = ground (arith, rank-append_left xs ys h)

  pub rank-append_right :
      (xs ys : List Entry) → Below key xs → rank key (xs ++ ys) ≡ length xs + rank key ys
  unfolding rank
  rank-append_right [] ys h = omega arith
  rank-append_right (x ∷ xs) ys h = ground (arith, rank-append_right xs ys h.1)

-- The first key of a sorted list is the least.
pub Above-start :
    (key start : Bytes) (ys : List Entry)
    → IsSorted ys
    → Starts start ys
    → key ≺ start
    → Above key ys
Above-start key start [] h s lt_start = absurd s
Above-start key start (y ∷ ys) h s lt_start =
    let first : key ≺ y.0 = ground arith in
    (first, All-imp (λ e p. lt_trans key y.0 e.0 first p) ys h.0)

pub Below-le : (start key : Bytes) (xs : List Entry) → Below start xs → start ≼ key → Below key xs
Below-le start key xs h le = All-imp (λ e p. lt_of_lt_of_le e.0 start key p le) xs h
