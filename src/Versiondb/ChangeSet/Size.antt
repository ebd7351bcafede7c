-- ===== src/Versiondb/ChangeSet/Size.antt =====
-- `uvarintSize` of versiondb/client/changeset.go is the length of the varint that is written.
use cronos_store.Common.{
  ℕ, zero, suc, ◌+◌, ◌*◌, ◌/◌, ◌%◌, ◌^◌, ◌<◌, ◌≤◌, ◌≡◌, refl, false, length, ltb, ◌==◌,
  if◌then◌else◌, Bool-cases, inl, inr, arith, sym, ap,
}
use cronos_store.Common.Varint.{put_uvarint, put_uvarint_loop}
use cronos_store.Versiondb.ChangeSet.{len64, uvarint_size}

-- The numbers below which a loop of `PutUvarint` has enough rounds.
below : ℕ → ℕ
below zero = 2
below (suc n) = 128 * below n

-- The bytes for a number of bits.
bytes_for : ℕ → ℕ
bytes_for b = if ltb 0 (b % 7) then b / 7 + 1 else if b / 7 == 0 then b / 7 + 1 else b / 7

bytes_for-more :
    (b : ℕ) → 1 ≤ b → bytes_for (suc (suc (suc (suc (suc (suc (suc b))))))) ≡ suc (bytes_for b)
unfolding bytes_for
bytes_for-more b h = ground arith

bytes_for-one : (b : ℕ) → b ≤ 7 → bytes_for b ≡ 1
unfolding bytes_for
bytes_for-one b h = ground arith

len64-pos : (f x : ℕ) → 1 ≤ x → 1 ≤ len64 (suc f) x
unfolding len64
len64-pos f x h = let e : (x == 0) ≡ false = ground arith in rw e (omega arith)

len64_zero : (f : ℕ) → len64 f 0 ≡ 0
unfolding len64
len64_zero zero = refl
len64_zero (suc f) = refl

len64-half : (f k x : ℕ) → len64 f (x / 2) ≤ k → len64 (suc f) x ≤ suc k
unfolding len64
len64-half f k x h = elim (Bool-cases (x == 0)) [
  | inl e ↦ rw e (omega arith)
  | inr e ↦ rw e (omega arith)
]

len64-next : (f x : ℕ) → 1 ≤ x → len64 (suc f) x ≡ suc (len64 f (x / 2))
unfolding len64
len64-next f x h = let e : (x == 0) ≡ false = ground arith in rw e refl

len64-seven :
    (f x : ℕ)
    → 128 ≤ x
    → len64 (suc (suc (suc (suc (suc (suc (suc f))))))) x
      ≡ suc (suc (suc (suc (suc (suc (suc (len64 f (x / 128))))))))
len64-seven f x h =
    let e : x / 2 / 2 / 2 / 2 / 2 / 2 / 2 ≡ x / 128 = omega arith in
    rw
      (
        len64-next (suc (suc (suc (suc (suc (suc f)))))) x (omega arith),
        len64-next (suc (suc (suc (suc (suc f))))) (x / 2) (omega arith),
        len64-next (suc (suc (suc (suc f)))) (x / 2 / 2) (omega arith),
        len64-next (suc (suc (suc f))) (x / 2 / 2 / 2) (omega arith),
        len64-next (suc (suc f)) (x / 2 / 2 / 2 / 2) (omega arith),
        len64-next (suc f) (x / 2 / 2 / 2 / 2 / 2) (omega arith),
        len64-next f (x / 2 / 2 / 2 / 2 / 2 / 2) (omega arith),
        e,
      )
      refl

len64-small : (f x : ℕ) → x < 128 → len64 (suc (suc (suc (suc (suc (suc (suc f))))))) x ≤ 7
len64-small f x h =
    let e : x / 2 / 2 / 2 / 2 / 2 / 2 / 2 ≡ 0 = omega arith in
    len64-half _ 6 x (
      len64-half _ 5 _ (
        len64-half _ 4 _ (
          len64-half _ 3 _ (
            len64-half _ 2 _
              (len64-half _ 1 _ (len64-half _ 0 _ (rw (e, len64_zero f) (omega arith))))))))

loop-length :
    (n x : ℕ) → x < below n → length (put_uvarint_loop n x) ≡ bytes_for (len64 (7 * n + 1) x)
unfolding put_uvarint_loop below
loop-length zero x h =
    let small : len64 1 x ≤ 1 = unfold len64 in len64-half 0 0 x (omega arith) in
    sym (bytes_for-one (len64 1 x) (omega arith))
loop-length (suc n) x h =
    let fuel : 7 * suc n + 1 ≡ suc (suc (suc (suc (suc (suc (suc (7 * n + 1))))))) = omega arith in
    elim (Bool-cases (ltb x 128)) [
      | inl e ↦
          let small = len64-small (7 * n + 1) x (ground arith) in
          rw (fuel, e) (sym (bytes_for-one _ small))
      | inr e ↦
          let big : 128 ≤ x = ground arith in
          let one : 7 * n + 1 ≡ suc (7 * n) = omega arith in
          let pos : 1 ≤ len64 (7 * n + 1) (x / 128) =
            rw one (len64-pos (7 * n) (x / 128) (omega arith)) in
          rw
            (
              fuel,
              e,
              len64-seven (7 * n + 1) x big,
              bytes_for-more (len64 (7 * n + 1) (x / 128)) pos,
            )
            (ap suc (loop-length n (x / 128) (omega arith)))
    ]

pub uvarint_size_lem : (x : ℕ) → x < 2 ^ 64 → uvarint_size x ≡ length (put_uvarint x)
unfolding uvarint_size put_uvarint below bytes_for
uvarint_size_lem x h = sym (loop-length 9 x h)
