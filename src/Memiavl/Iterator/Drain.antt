-- ===== src/Memiavl/Iterator/Drain.antt =====
-- The iterator of memiavl/iterator.go visits the entries of its domain, each once and in order.
use cronos_store.Common.{
  ℕ, zero, suc, ◌<◌, ◌≡◌, Bool, true, false, Option, none, some, List, [], ◌∷◌, arith, refl, sym,
  ap, ◌∙◌, if◌then◌else◌, append-nil, Bool-cases, inl, inr, length, subst,
}
use cronos_store.Common.Bytes.{Bytes}
use cronos_store.Common.Panic.{◌>>=◌, Returns, Returns-bind, Returns-imp, Returns-value}
use cronos_store.Memiavl.Node.{Slice, Node, leaf, branch}
use cronos_store.Memiavl.Entries.Defs.{Entry, leaves, leaves_of}
use cronos_store.Memiavl.Valid.{IsValidRoot}
use cronos_store.Memiavl.Iterator.{
  Iterator, after_start, before_end, push_children, weight, stack_weight, next_loop, take_entry,
  next, new_iterator, root_stack,
}
use cronos_store.Memiavl.Iterator.Range.{in_range, select, leaf_test}
use cronos_store.Memiavl.Iterator.Pending.{
  order, IsReady, pending, pending_children, children-IsReady, weight-children,
}

-- What the loop of `Next` finds on a stack: the first entry that is still to visit, or none.
abbrev pub Finds : Slice → Slice → Bool → List Node → Option Entry × List Node → Type 0
Finds start stop ascending stack (none, stack') = pending start stop ascending stack ≡ []
Finds start stop ascending stack (some e, stack') =
    (pending start stop ascending stack ≡ e ∷ pending start stop ascending stack') × IsReady stack'

Finds-along :
    (start stop : Slice) (ascending : Bool) (stack stack' : List Node)
    → pending start stop ascending stack' ≡ pending start stop ascending stack
    → (c : Option Entry × List Node) → Finds start stop ascending stack' c
    → Finds start stop ascending stack c
Finds-along start stop ascending stack stack' e (none, _) f = sym e ∙ f
Finds-along start stop ascending stack stack' e (some x, _) f = (sym e ∙ f.0, f.1)

pending_leaf :
    (start stop : Slice) (ascending : Bool) (v : ℕ) (key : Bytes) (value hash : Slice)
    (stack : List Node)
    → pending start stop ascending (leaf v key value hash ∷ stack) ≡ (
        if in_range start stop key
        then (key, value) ∷ pending start stop ascending stack
        else pending start stop ascending stack)
unfolding pending leaves select
pending_leaf start stop true v key value hash stack = ground arith
pending_leaf start stop false v key value hash stack = ground arith

next_loop-Finds :
    (fuel : ℕ) (start stop : Slice) (ascending : Bool) (stack : List Node)
    → IsReady stack
    → stack_weight stack < fuel
    → Returns (next_loop fuel start stop ascending stack) (Finds start stop ascending stack)
unfolding next_loop
next_loop-Finds zero start stop ascending stack q f = absurd (omega arith)
next_loop-Finds (suc fuel) start stop ascending [] q f = unfold pending in refl
next_loop-Finds (suc fuel) start stop ascending (leaf v key value hash ∷ stack) q f =
    elim (Bool-cases (in_range start stop key)) [
      | inl e ↦
          rw (leaf_test start stop key ∙ e, Returns, next_loop)
            (rw (pending_leaf start stop ascending v key value hash stack) (rw e (refl, q.1)))
      | inr e ↦
          rw (leaf_test start stop key ∙ e, Returns, next_loop)
            (Returns-imp _ _ (next_loop fuel start stop ascending stack)
              (next_loop-Finds fuel start stop ascending stack q.1
                (unfold stack_weight weight in omega arith))
              (Finds-along start stop ascending (leaf v key value hash ∷ stack) stack
                (sym (pending_leaf start stop ascending v key value hash stack ∙ rw e))))
    ]
next_loop-Finds (suc fuel) start stop ascending (branch h s v key hash l r ∷ stack) q f =
    let stack' = push_children ascending (after_start start key) (before_end stop key) l r stack in
    Returns-imp _ _ (next_loop fuel start stop ascending stack')
      (next_loop-Finds fuel start stop ascending stack'
        (children-IsReady start stop h s v key hash l r q.0.0 (unfold leaves in q.0.1) ascending
          (after_start start key) (before_end stop key) stack q.1)
        (unfold stack_weight weight in
          omega (
            arith,
            weight-children ascending (after_start start key) (before_end stop key) l r stack,
          )))
      (Finds-along start stop ascending (branch h s v key hash l r ∷ stack) stack' (
        unfold pending leaves in
        pending_children start stop h s v key hash l r q.0.0 q.0.1 ascending stack))

-- `for ; it.Valid(); it.Next()` collects what the iterator visits; `none` means that the fuel ran out.
unfoldable pub drain : ℕ → Iterator → Option (List Entry)
drain zero it = none
drain (suc fuel) it = elim it.valid [
  | true ↦ do it' ← next it; entries ← drain fuel it'; some ((it.key, it.value) ∷ entries)
  | false ↦ some []
]

-- The iterator stands on an entry, or at the end.
abbrev Stands : Iterator → List Entry → Type 0
Stands it [] = it.valid ≡ false
Stands it (e ∷ es) =
    (it.valid ≡ true)
    × ((it.key, it.value) ≡ e)
    × IsReady it.stack
    × (pending it.start it.stop it.ascending it.stack ≡ es)

next-Stands :
    (it : Iterator)
    → it.valid ≡ true
    → IsReady it.stack
    → Returns (next it) (λ it'. Stands it' (pending it.start it.stop it.ascending it.stack))
unfolding next take_entry
next-Stands it v q =
    Returns-bind _ _
      (next_loop (suc (stack_weight it.stack)) it.start it.stop it.ascending it.stack) _
      (next_loop-Finds (suc (stack_weight it.stack)) it.start it.stop it.ascending it.stack q
        (omega arith))
      after
  where
    after :
        (c : Option Entry × List Node)
        → Finds it.start it.stop it.ascending it.stack c
        → Stands (take_entry it c) (pending it.start it.stop it.ascending it.stack)
    after (none, stack) f = rw f refl
    after (some e, stack) f = rw f.0 (v, refl, f.1, refl)

drain_step :
    (fuel : ℕ) (it it' : Iterator) (es : List Entry)
    → it.valid ≡ true
    → next it ≡ some it'
    → drain fuel it' ≡ some es
    → drain (suc fuel) it ≡ some ((it.key, it.value) ∷ es)
unfolding drain
drain_step fuel it it' es v n r = ground arith

drain-Stands :
    (es : List Entry) (fuel : ℕ) (it : Iterator)
    → Stands it es
    → length es < fuel
    → drain fuel it ≡ some es
unfolding drain
drain-Stands es zero it h f = absurd (omega arith)
drain-Stands [] (suc fuel) it h f = rw h
drain-Stands (e ∷ es) (suc fuel) it h f =
    let (it', found, stands) = Returns-value _ (next it) (next-Stands it h.0 h.2) in
    let rest : drain fuel it' ≡ some es =
      drain-Stands es fuel it' (subst (Stands it') h.3 stands) (omega arith) in
    drain_step fuel it it' es h.0 found rest ∙ ap (λ x. some (x ∷ es)) h.1

module _ (start stop : Slice) where
  root_pending :
      (ascending : Bool) (root : Option Node)
      → pending start stop ascending (root_stack root)
        ≡ order ascending (select (in_range start stop) (leaves_of root))
  unfolding root_stack pending select
  root_pending true none = refl
  root_pending false none = refl
  root_pending ascending (some n) = append-nil _

  root_IsReady : (root : Option Node) → IsValidRoot root → IsReady (root_stack root)
  unfolding root_stack
  root_IsReady none v = tt
  root_IsReady (some n) v = ((v.keyed, v.sorted), tt)

  -- From a valid tree `NewIterator` and `Next` visit the entries whose keys are not below the start
  -- and are below the end, each once, in ascending or descending order of the keys, and no other.
  -- The fuel of the collecting loop exceeds their number, and `Next` never runs out of its own.
  pub new_iterator-drain :
      (ascending : Bool) (root : Option Node) (fuel : ℕ)
      → IsValidRoot root
      → length (order ascending (select (in_range start stop) (leaves_of root))) < fuel
      → (new_iterator start stop ascending root >>= drain fuel)
        ≡ some (order ascending (select (in_range start stop) (leaves_of root)))
  unfolding new_iterator
  new_iterator-drain ascending root fuel v f =
      let it : Iterator = record {
        start = start;
        stop = stop;
        ascending = ascending;
        key = [];
        value = none;
        valid = true;
        stack = root_stack root;
      } in
      let (it', found, stands) =
        Returns-value _ (next it) (next-Stands it refl (root_IsReady root v)) in
      ap (λ m. m >>= drain fuel) found
      ∙ drain-Stands _ fuel it' (subst (Stands it') (root_pending ascending root) stands) f
