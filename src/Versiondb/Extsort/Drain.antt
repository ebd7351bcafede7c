-- ===== src/Versiondb/Extsort/Drain.antt =====
-- Reading the merge of versiondb/extsort to its end gives the items of all streams in order.
use mathlib.Core.List.{Permᴰ}
use mathlib.Core.List.Permᴰ.{nil, cons, trans}
use cronos_store.Common.{
  ℕ, zero, suc, ◌<◌, ◌≡◌, refl, sym, ap, subst, Bool, false, none, some, List, [], ◌∷◌, ◌++◌, All,
  All-append, All-imp, length, arith,
}
use cronos_store.Common.Bytes.{Bytes}
use cronos_store.Common.Outcome.{Outcome, ok, failed, ◌>>=◌}
use cronos_store.Versiondb.Extsort.Merge.{HeapEntry, Heap, settle, merge_next}
use cronos_store.Versiondb.Extsort.Content.{
  IsOrdered, HoldsItems, Content, Content-Perm, All-Perm, length-Perm,
}

module _ (less : Bytes → Bytes → Bool) (heap : Heap less) where
  open heap use {IsHeap}

  -- The loop of `Spawn` that reads the merge up to nil. `failed` where the fuel runs out.
  unfoldable pub drain_merge : ℕ → List HeapEntry → Outcome (List Bytes)
  unfolding merge_next
  drain_merge zero entries = failed
  drain_merge (suc fuel) entries = do
    (item, entries') ← merge_next less heap entries
    let more = drain_merge fuel entries'
    elim item [ none ↦ ok [] | some x ↦ (do xs ← more; ok (x ∷ xs)) ]

  -- The items in order, each as often as it is there.
  abbrev pub Sorts : List Bytes → Outcome (List Bytes) → Type 0
  Sorts items o =
      (result : List Bytes) × (o ≡ ok result) × Permᴰ items result × IsOrdered less result

  module _
      (less_trans : (x y z : Bytes) → less y x ≡ false → less z y ≡ false → less z x ≡ false) where
    Content-above :
        (v : Bytes) (es : List HeapEntry) (out : List Bytes)
        → All (λ e. less e.value v ≡ false) es
        → Content less es out
        → All (λ y. less y v ≡ false) out
    Content-above v [] out h c = subst (All (λ y. less y v ≡ false)) (sym c) tt
    Content-above v (e ∷ es) out h (items, more, k, c, o) =
        subst (All (λ y. less y v ≡ false)) (sym o) (
          h.0,
          All-append (λ y. less y v ≡ false) items more
              (All-imp (λ y b. less_trans v e.value y h.0 b) items k.ordered.0)
              (Content-above v es more h.1 c),
        )

    drain_step :
        (fuel : ℕ) (v : Bytes) (es es' : List HeapEntry) (out out' : List Bytes)
        → merge_next less heap es ≡ ok (some v, es')
        → Permᴰ out out'
        → All (λ y. less y v ≡ false) out
        → Sorts out' (drain_merge fuel es')
        → Sorts (v ∷ out) (drain_merge (suc fuel) es)
    unfolding drain_merge
    drain_step fuel v es es' out out' e p a (result, r, q, o) = (
      v ∷ result,
      rw (e, r) refl,
      cons refl (trans p q),
      (All-Perm less (λ y. less y v ≡ false) (trans p q) a, o),
    )

    pub drain_merge-Sorts :
        (fuel : ℕ) (es : List HeapEntry) (out : List Bytes)
        → IsHeap es
        → Content less es out
        → length out < fuel
        → Sorts out (drain_merge fuel es)
    drain_merge-Sorts zero es out h c f = absurd (omega arith)
    drain_merge-Sorts (suc fuel) [] out h c f =
        ([], unfold drain_merge merge_next in refl, subst (λ x. Permᴰ x []) (sym c) nil, tt)
    drain_merge-Sorts (suc fuel) (e ∷ es) out h ([], more, k, c, o) f =
        let (s', y) = k.yields in
        let (out', c', p) = Content-Perm less (heap.remove-Perm e es) more c in
        let short : length out' < fuel = omega (arith, length-Perm less p, ap length o) in
        subst (λ x. Sorts x (drain_merge (suc fuel) (e ∷ es))) (sym o)
          (drain_step fuel e.value (e ∷ es) (heap.remove (e ∷ es)) more out'
            (unfold merge_next settle in rw y refl) p
            (Content-above e.value es more (heap.least e es h) c)
            (drain_merge-Sorts fuel (heap.remove (e ∷ es)) out' (heap.remove-IsHeap e e es h) c'
              short))
    drain_merge-Sorts (suc fuel) (e ∷ es) out h (x ∷ xs, more, k, c, o) f =
        let (s', y, ys) = k.yields in
        let e' : HeapEntry = record { value = x; stream = s' } in
        let now : HoldsItems less e' xs = record { yields = ys; ordered = k.ordered.1 } in
        let (out', c', p) =
          Content-Perm less (heap.fix-Perm (e' ∷ es)) (x ∷ xs ++ more) (xs, more, now, c, refl) in
        let short : length out' < fuel = omega (arith, length-Perm less p, ap length o) in
        subst (λ z. Sorts z (drain_merge (suc fuel) (e ∷ es))) (sym o)
          (drain_step fuel e.value (e ∷ es) (heap.fix (e' ∷ es)) (x ∷ xs ++ more) out'
            (unfold merge_next settle in rw y refl) p
            (All-append (λ z. less z e.value ≡ false) (x ∷ xs) more k.ordered.0
              (Content-above e.value es more (heap.least e es h) c))
            (drain_merge-Sorts fuel (heap.fix (e' ∷ es)) out' (heap.fix-IsHeap e e' es h) c' short))
