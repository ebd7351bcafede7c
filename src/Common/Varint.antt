-- ===== src/Common/Varint.antt =====
-- Go's `encoding/binary` varints, and `io.ReadFull`, on a byte stream.
use Prim.Native.Nat.{ℕ, zero, suc, ◌+◌, ◌*◌, ◌/◌, ◌%◌, ◌^◌, ◌<◌, ◌≤◌}
use mathlib.Core.Path.{◌≡◌, refl, subst}
use mathlib.Core.Logic.{inl, inr}
use mathlib.Core.Bool.{true, false, ◌&&◌}
use mathlib.Core.List.{[], ◌∷◌, ◌++◌}
use native.Mathlib.Omega.{arith}
use cronos_store.Common.Tests.{ltb, ◌==◌, if◌then◌else◌, Bool-cases}
use cronos_store.Common.Lists.{length}
use cronos_store.Common.Bytes.{Bytes}
use cronos_store.Common.Slices.{first}
use cronos_store.Common.Outcome.{Outcome, ok, eof, failed, panics, ◌>>=◌}

-- `binary.PutUvarint`: seven bits a byte, lowest first, at most ten bytes for a uint64.
unfoldable pub put_uvarint_loop : ℕ → ℕ → Bytes
put_uvarint_loop zero x = x % 256 ∷ []
put_uvarint_loop (suc fuel) x =
    let rest = put_uvarint_loop fuel (x / 128) in
    if ltb x 128 then x ∷ [] else (x % 128 + 128) ∷ rest

unfoldable pub put_uvarint : ℕ → Bytes
unfolding put_uvarint_loop
put_uvarint x = put_uvarint_loop 9 x

-- `binary.PutVarint` of an int64 that is not negative.
unfoldable pub put_varint : ℕ → Bytes
unfolding put_uvarint
put_varint x = put_uvarint (2 * x % 2 ^ 64)

-- The bits of a byte below those that follow.
add_low : ℕ → Outcome (ℕ × Bytes) → Outcome (ℕ × Bytes)
add_low b o = o >>= λ (x, rest). ok (b % 128 + 128 * x, rest)

-- The rounds of `binary.ReadUvarint` that are left. The tenth byte may be 1 at most.
read_uvarint_loop : ℕ → Bytes → Outcome (ℕ × Bytes)
unfolding add_low
read_uvarint_loop zero bz = failed
read_uvarint_loop (suc n) [] = failed
read_uvarint_loop (suc n) (b ∷ bz) =
    let more = read_uvarint_loop n bz in
    if ltb b 128 then (if (n == 0) && ltb 1 b then failed else ok (b, bz)) else add_low b more

-- `binary.ReadUvarint`: `io.EOF` only where there is no byte at all.
unfoldable pub read_uvarint : Bytes → Outcome (ℕ × Bytes)
unfolding read_uvarint_loop
read_uvarint [] = eof
read_uvarint (b ∷ bz) = read_uvarint_loop 10 (b ∷ bz)

-- `io.ReadFull` of a number of bytes: `io.EOF` only where there is no byte at all.
unfoldable pub read_full : ℕ → Bytes → Outcome (Bytes × Bytes)
read_full zero bz = ok ([], bz)
read_full (suc n) [] = eof
read_full (suc n) (b ∷ bz) = elim (read_full n bz) [
  | ok (item, rest) ↦ ok (b ∷ item, rest)
  | panics ↦ panics
  | _ ↦ failed
]

pub read_full-append : (bz rest : Bytes) → read_full (length bz) (bz ++ rest) ≡ ok (bz, rest)
unfolding read_full
read_full-append [] rest = refl
read_full-append (b ∷ bz) rest = rw (read_full-append bz rest) refl

bound : ℕ → ℕ
bound zero = 2
bound (suc n) = 128 * bound n

read-put_loop :
    (n x : ℕ) (rest : Bytes)
    → x < bound n
    → read_uvarint_loop (suc n) (put_uvarint_loop n x ++ rest) ≡ ok (x, rest)
unfolding read_uvarint_loop put_uvarint_loop add_low bound
read-put_loop zero x rest h =
    let e : x % 256 ≡ x = omega arith in
    let a : ltb x 128 ≡ true = ground arith in
    let b : ltb 1 x ≡ false = ground arith in rw (e, a, b) refl
read-put_loop (suc n) x rest h = elim (Bool-cases (ltb x 128)) [
  | inl e ↦ let last : (suc n == 0) ≡ false = ground arith in rw (e, e, last) refl
  | inr e ↦
      let big : ltb (x % 128 + 128) 128 ≡ false = ground arith in
      let low : (x % 128 + 128) % 128 + 128 * (x / 128) ≡ x = omega arith in
      rw (e, big, read-put_loop n (x / 128) rest (omega arith), low) refl
]

read_uvarint_lem :
    (bz : Bytes) (r : ℕ × Bytes) → read_uvarint_loop 10 bz ≡ ok r → read_uvarint bz ≡ ok r
unfolding read_uvarint read_uvarint_loop
read_uvarint_lem [] r e = cc
read_uvarint_lem (b ∷ bz) r e = e

pub read_uvarint-put_uvarint :
    (x : ℕ) (rest : Bytes) → x < 2 ^ 64 → read_uvarint (put_uvarint x ++ rest) ≡ ok (x, rest)
unfolding put_uvarint bound
read_uvarint-put_uvarint x rest h =
    read_uvarint_lem (put_uvarint_loop 9 x ++ rest) (x, rest) (read-put_loop 9 x rest h)

-- An outcome without a value.
abbrev pub Fails : {A : Type 0} → Outcome A → Type 0
Fails (ok a) = ⊥
Fails _ = Unit

add_low-Fails : (b : ℕ) (o : Outcome (ℕ × Bytes)) → Fails o → Fails (add_low b o)
unfolding add_low
add_low-Fails b (ok a) h = absurd h
add_low-Fails b eof h = tt
add_low-Fails b failed h = tt
add_low-Fails b panics h = tt

read-put_prefix :
    (n x k : ℕ)
    → k < length (put_uvarint_loop n x)
    → Fails (read_uvarint_loop (suc n) (first k (put_uvarint_loop n x)))
unfolding read_uvarint_loop put_uvarint_loop first
read-put_prefix n x zero h = tt
read-put_prefix zero x (suc k) h = absurd (omega arith)
read-put_prefix (suc n) x (suc k) h = elim (Bool-cases (ltb x 128)) [
  | inl e ↦ absurd (
      short (
        subst
          (λ b.
            suc k < length (if b then x ∷ [] else (x % 128 + 128) ∷ put_uvarint_loop n (x / 128)))
          e h))
  | inr e ↦
      let big : ltb (x % 128 + 128) 128 ≡ false = ground arith in
      let h' : suc k < suc (length (put_uvarint_loop n (x / 128))) =
        subst
          (λ b.
            suc k < length (if b then x ∷ [] else (x % 128 + 128) ∷ put_uvarint_loop n (x / 128)))
          e h in
      rw (e, big) (add_low-Fails _ _ (read-put_prefix n (x / 128) k (omega arith)))
]
  where
    short : {k : ℕ} → suc k < 1 → ⊥
    short h = omega arith

read_uvarint-Fails : (bz : Bytes) → Fails (read_uvarint_loop 10 bz) → Fails (read_uvarint bz)
unfolding read_uvarint
read_uvarint-Fails [] h = tt
read_uvarint-Fails (b ∷ bz) h = h

-- A varint that is cut short does not read.
pub read_uvarint-prefix :
    (x k : ℕ) → k < length (put_uvarint x) → Fails (read_uvarint (first k (put_uvarint x)))
unfolding put_uvarint
read_uvarint-prefix x k h =
    read_uvarint-Fails (first k (put_uvarint_loop 9 x)) (read-put_prefix 9 x k h)

put_uvarint_loop-length : (n x : ℕ) → 1 ≤ length (put_uvarint_loop n x)
unfolding put_uvarint_loop
put_uvarint_loop-length zero x = omega arith
put_uvarint_loop-length (suc n) x = elim (Bool-cases (ltb x 128)) [
  | inl e ↦ rw e (omega arith)
  | inr e ↦ rw e (omega arith)
]

pub put_uvarint-length : (x : ℕ) → 1 ≤ length (put_uvarint x)
unfolding put_uvarint
put_uvarint-length x = put_uvarint_loop-length 9 x
