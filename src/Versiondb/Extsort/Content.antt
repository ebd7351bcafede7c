-- ===== src/Versiondb/Extsort/Content.antt =====
-- What the streams below a heap of versiondb/extsort still hold.
use mathlib.Core.List.{Permᴰ}
use mathlib.Core.List.Permᴰ.{nil, cons, swap, trans}
use mathlib.Core.List.Permᴰ
use cronos_store.Common.{
  suc, ◌≡◌, refl, sym, ap, ◌∙◌, subst, Bool, false, List, [], ◌∷◌, ◌++◌, All, length,
}
use cronos_store.Common.Bytes.{Bytes}
use cronos_store.Versiondb.Extsort.Merge.{HeapEntry}
use cronos_store.Versiondb.Extsort.RoundTrip.{Yields}

module _ (less : Bytes → Bytes → Bool) where
  -- No item is less than one before it.
  abbrev pub IsOrdered : List Bytes → Type 0
  IsOrdered [] = Unit
  IsOrdered (x ∷ xs) = All (λ y. less y x ≡ false) xs × IsOrdered xs

  -- The entry has its value and the stream these items, in order.
  pub record HoldsItems (e : HeapEntry) (items : List Bytes) : Type 0 where
    pub yields : Yields e.stream items
    pub ordered : IsOrdered (e.value ∷ items)

  -- The items of all entries.
  abbrev pub Content : List HeapEntry → List Bytes → Type 0
  Content [] out = out ≡ []
  Content (e ∷ es) out =
      (items : List Bytes) × (more : List Bytes) × HoldsItems e items
      × Content es more
      × (out ≡ e.value ∷ items ++ more)

  swap_blocks : (xs ys zs : List Bytes) → Permᴰ (xs ++ (ys ++ zs)) (ys ++ (xs ++ zs))
  swap_blocks [] ys zs = Permᴰ.refl (ys ++ zs)
  swap_blocks (x ∷ xs) ys zs =
      trans (cons refl (swap_blocks xs ys zs)) (Permᴰ.symm (Permᴰ.middle x ys (xs ++ zs)))

  -- A rearranged heap has the same items.
  pub Content-Perm :
      {es fs : List HeapEntry}
      → Permᴰ es fs
      → (out : List Bytes) → Content es out
      → (out' : List Bytes) × Content fs out' × Permᴰ out out'
  Content-Perm nil out c = (out, c, Permᴰ.refl out)
  Content-Perm (cons {b = b} {l₂ = l₂} e d) out (items, more, h, c, o) =
      let (more', c', p) = Content-Perm d more c in
      (
        b.value ∷ items ++ more',
        (items, more', subst (λ x. HoldsItems x items) e h, c', refl),
        subst (λ x. Permᴰ x (b.value ∷ items ++ more')) (sym o)
            (cons (ap (λ x. x.value) e) (Permᴰ.append_left items p)),
      )
  Content-Perm (swap {a' = a'} {b' = b'} e₁ e₂) out (xs, more, h, (ys, rest, k, c, o₂), o₁) = (
    a'.value ∷ ys ++ (b'.value ∷ xs ++ rest),
    (
      ys,
      b'.value ∷ xs ++ rest,
      subst (λ x. HoldsItems x ys) e₂ k,
      (xs, rest, subst (λ x. HoldsItems x xs) e₁ h, c, refl),
      refl,
    ),
    subst (λ x. Permᴰ x (a'.value ∷ ys ++ (b'.value ∷ xs ++ rest))) (sym (rw (o₁, o₂, e₁, e₂) refl))
        (swap_blocks (b'.value ∷ xs) (a'.value ∷ ys) rest),
  )
  Content-Perm (trans d₁ d₂) out c =
      let (out', c', p) = Content-Perm d₁ out c in
      let (out'', c'', q) = Content-Perm d₂ out' c' in (out'', c'', trans p q)

  pub All-Perm : (P : Bytes → Type 0) {xs ys : List Bytes} → Permᴰ xs ys → All P xs → All P ys
  All-Perm P nil h = h
  All-Perm P (cons e d) h = (subst P e h.0, All-Perm P d h.1)
  All-Perm P (swap e₁ e₂) h = (subst P e₂ h.1.0, (subst P e₁ h.0, h.1.1))
  All-Perm P (trans d₁ d₂) h = All-Perm P d₂ (All-Perm P d₁ h)

  pub length-Perm : {xs ys : List Bytes} → Permᴰ xs ys → length xs ≡ length ys
  length-Perm nil = refl
  length-Perm (cons e d) = ap suc (length-Perm d)
  length-Perm (swap e₁ e₂) = refl
  length-Perm (trans d₁ d₂) = length-Perm d₁ ∙ length-Perm d₂
