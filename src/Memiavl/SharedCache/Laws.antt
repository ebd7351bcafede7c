-- ===== src/Memiavl/SharedCache/Laws.antt =====
-- `sharedCache` of memiavl/tree.go is a cache: it fills the interface that `Tree` works on.
use cronos_store.Common.{
  ℕ, ◌≡◌, ◌≢◌, ◌⊎◌, refl, sym, ap, ◌∙◌, Bool, true, false, Option, none, some, ◌==◌, if◌then◌else◌,
  Bool-cases, inl, inr, arith,
}
use cronos_store.Common.Bytes.{Bytes}
use cronos_store.Memiavl.NodeCache.{Cache}
use cronos_store.Memiavl.SharedCache.{
  Shared, new_shared_cache, shard_for_key, put_shard, shared_add, shared_get, shared_remove,
}

same_number : (a b : ℕ) → (a == b) ≡ true → a ≡ b
same_number a b h = ground arith

other_number : (a b : ℕ) → (a == b) ≡ false → a ≢ b
other_number a b h = λ e. ground arith

module _ (C : Cache) (hash_key : Bytes → ℕ) where
  -- What a shard holds for a key.
  abbrev peek_in : Option C.State → Bytes → Option Bytes
  peek_in none key = none
  peek_in (some c) key = C.peek c key

  unfoldable pub shared_peek : Shared C hash_key → Bytes → Option Bytes
  shared_peek s key = peek_in (s.shards (shard_for_key C hash_key key s)) key

  module _ (s : Shared C hash_key) where
    abbrev index : Bytes → ℕ
    index key = shard_for_key C hash_key key s

    put-same :
        (k j : Bytes) (c : C.State)
        → (index j == index k) ≡ true
        → shared_peek (put_shard C hash_key (index k) (some c) s) j ≡ C.peek c j
    unfolding shared_peek put_shard shard_for_key
    put-same k j c e = rw e refl

    put-other :
        (k j : Bytes) (c : C.State)
        → (index j == index k) ≡ false
        → shared_peek (put_shard C hash_key (index k) (some c) s) j ≡ shared_peek s j
    unfolding shared_peek put_shard shard_for_key
    put-other k j c e = rw e refl

    peek-shard :
        (k j : Bytes) (c : C.State)
        → s.shards (index k) ≡ some c
        → (index j == index k) ≡ true
        → shared_peek s j ≡ C.peek c j
    unfolding shared_peek
    peek-shard k j c h e =
        let q = ap s.shards (same_number (index j) (index k) e) ∙ h in ap (λ o. peek_in o j) q

    peek-missing :
        (k j : Bytes) (x : Bytes) → s.shards (index k) ≡ none → shared_peek s j ≡ some x → j ≢ k
    unfolding shared_peek
    peek-missing k j x h e = λ q.
        let n : shared_peek s k ≡ none = ap (λ o. peek_in o k) h in
        let m : shared_peek s j ≡ shared_peek s k = ap (shared_peek s) q in
        let c : some x ≡ none = sym e ∙ m ∙ n in cc

    apart : (k j : Bytes) → (index j == index k) ≡ false → j ≢ k
    apart k j e = λ q. other_number (index j) (index k) e (ap index q)

    pub add_law :
        (k v j x : Bytes) (o : Option C.State)
        → s.shards (index k) ≡ o
        → shared_peek (shared_add C hash_key k v s) j ≡ some x
        → ((j ≡ k) × (x ≡ v)) ⊎ ((j ≢ k) × (shared_peek s j ≡ some x))
    unfolding shared_add
    add_law k v j x none h e =
        let same : shared_add C hash_key k v s ≡ s = rw (shared_add, h) refl in
        let p : shared_peek s j ≡ some x = sym (ap (λ z. shared_peek z j) same) ∙ e in
        inr (peek-missing k j x h p, p)
    add_law k v j x (some c) h e =
        let c' = C.add k v c in
        let now : shared_add C hash_key k v s ≡ put_shard C hash_key (index k) (some c') s =
          rw (shared_add, h) refl in
        let p = sym (ap (λ z. shared_peek z j) now) ∙ e in
        elim (Bool-cases (index j == index k)) [
          | inl q ↦ elim (C.peek-add k v c j x (sym (put-same k j c' q) ∙ p)) [
            | inl a ↦ inl a
            | inr (n, a) ↦ inr (n, peek-shard k j c h q ∙ a)
          ]
          | inr q ↦ inr (apart k j q, sym (put-other k j c' q) ∙ p)
        ]

    pub remove_law :
        (k j x : Bytes) (o : Option C.State)
        → s.shards (index k) ≡ o
        → shared_peek (shared_remove C hash_key k s) j ≡ some x
        → (j ≢ k) × (shared_peek s j ≡ some x)
    unfolding shared_remove
    remove_law k j x none h e =
        let same : shared_remove C hash_key k s ≡ s = rw (shared_remove, h) refl in
        let p : shared_peek s j ≡ some x = sym (ap (λ z. shared_peek z j) same) ∙ e in
        (peek-missing k j x h p, p)
    remove_law k j x (some c) h e =
        let c' = C.remove k c in
        let now : shared_remove C hash_key k s ≡ put_shard C hash_key (index k) (some c') s =
          rw (shared_remove, h) refl in
        let p = sym (ap (λ z. shared_peek z j) now) ∙ e in
        elim (Bool-cases (index j == index k)) [
          | inl q ↦
              let (n, a) = C.peek-remove k c j x (sym (put-same k j c' q) ∙ p) in
              (n, peek-shard k j c h q ∙ a)
          | inr q ↦ (apart k j q, sym (put-other k j c' q) ∙ p)
        ]

    pub get_law :
        (k j : Bytes) (o : Option C.State)
        → s.shards (index k) ≡ o
        → ((shared_get C hash_key k s).0 ≡ shared_peek s k)
          × (shared_peek (shared_get C hash_key k s).1 j ≡ shared_peek s j)
    unfolding shared_get
    get_law k j none h =
        let same : shared_get C hash_key k s ≡ (none, s) = rw (shared_get, h) refl in
        let n : shared_peek s k ≡ none = unfold shared_peek in ap (λ o. peek_in o k) h in
        (ap (λ z. z.0) same ∙ sym n, ap (λ z. shared_peek z.1 j) same)
    get_law k j (some c) h =
        let c' = (C.get k c).1 in
        let now : shared_get C hash_key k s
            ≡ ((C.get k c).0, put_shard C hash_key (index k) (some c') s) =
          rw (shared_get, h) refl in
        let n : shared_peek s k ≡ C.peek c k = unfold shared_peek in ap (λ o. peek_in o k) h in
        (
          ap (λ z. z.0) now ∙ C.get-peek k c ∙ sym n,
          ap (λ z. shared_peek z.1 j) now ∙ elim (Bool-cases (index j == index k)) [
            | inl q ↦ put-same k j c' q ∙ C.peek-get k c j ∙ sym (peek-shard k j c h q)
            | inr q ↦ put-other k j c' q
          ],
        )

  pub new_law : (size : ℕ) (j : Bytes) → shared_peek (new_shared_cache C hash_key size) j ≡ none
  unfolding shared_peek new_shared_cache
  new_law size j = fresh _ _ (C.peek-new _ j)
    where
      fresh :
          (b : Bool) (c : C.State)
          → C.peek c j ≡ none
          → peek_in (if b then some c else none) j ≡ none
      fresh true c h = h
      fresh false c h = refl

  -- The cache that `NewCache` makes.
  abbrev pub shared_cache : Cache
  shared_cache = record {
    State = Shared C hash_key;
    new = new_shared_cache C hash_key;
    add = shared_add C hash_key;
    get = shared_get C hash_key;
    remove = shared_remove C hash_key;
    peek = shared_peek;
    peek-new = new_law;
    peek-add = λ k v s j x h. add_law s k v j x (s.shards (shard_for_key C hash_key k s)) refl h;
    peek-remove = λ k s j x h. remove_law s k j x (s.shards (shard_for_key C hash_key k s)) refl h;
    get-peek = λ k s. (get_law s k k (s.shards (shard_for_key C hash_key k s)) refl).0;
    peek-get = λ k s j. (get_law s k j (s.shards (shard_for_key C hash_key k s)) refl).1;
  }
