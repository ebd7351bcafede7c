-- ===== src/Common/Fixed.antt =====
-- Go's fixed-width little-endian numbers, and a buffer that is filled in place.
use Prim.Native.Nat.{ℕ, zero, suc, ◌+◌, ◌*◌, ◌/◌, ◌%◌, ◌^◌, ◌<◌}
use mathlib.Core.Path.{◌≡◌, refl, ap}
use mathlib.Core.List.{[], ◌∷◌, ◌++◌}
use native.Mathlib.Omega.{arith}
use cronos_store.Common.Lists.{length}
use cronos_store.Common.Tests.{ltb, if◌then◌else◌}
use cronos_store.Common.Bytes.{Bytes}
use cronos_store.Common.Outcome.{Outcome, ok, panics}

-- `binary.LittleEndian.PutUint32` and `PutUint64`.
unfoldable pub put_uint32 : ℕ → Bytes
put_uint32 n = n % 256 ∷ n / 2 ^ 8 % 256 ∷ n / 2 ^ 16 % 256 ∷ n / 2 ^ 24 % 256 ∷ []

unfoldable pub put_uint64 : ℕ → Bytes
unfolding put_uint32
put_uint64 n = put_uint32 n ++ put_uint32 (n / 2 ^ 32)

-- `binary.LittleEndian.Uint32` and `Uint64` of bytes that are enough: the lowest byte first.
unfoldable pub little_endian : Bytes → ℕ
little_endian [] = 0
little_endian (b ∷ bz) = b % 256 + 256 * little_endian bz

pub little_endian-put_uint32 : (n : ℕ) → n < 2 ^ 32 → little_endian (put_uint32 n) ≡ n
unfolding little_endian put_uint32
little_endian-put_uint32 n fits = omega arith

pub little_endian-put_uint64 : (n : ℕ) → n < 2 ^ 64 → little_endian (put_uint64 n) ≡ n
unfolding little_endian put_uint64 put_uint32
little_endian-put_uint64 n fits = omega arith

-- `make([]byte, n)`
unfoldable pub zeros : ℕ → Bytes
zeros zero = []
zeros (suc n) = 0 ∷ zeros n

-- `copy(buf, bz)`: no more than the buffer has room for.
unfoldable pub copy_into : Bytes → Bytes → Bytes
copy_into [] buf = buf
copy_into (b ∷ bz) [] = []
copy_into (b ∷ bz) (c ∷ buf) = b ∷ copy_into bz buf

-- `copy(buf[offset:], bz)`; a slice from behind the end panics.
unfoldable pub copy_at : ℕ → Bytes → Bytes → Outcome Bytes
unfolding copy_into
copy_at zero bz buf = ok (copy_into bz buf)
copy_at (suc offset) bz [] = panics
copy_at (suc offset) bz (c ∷ buf) = elim (copy_at offset bz buf) [
  | ok out ↦ ok (c ∷ out)
  | _ ↦ panics
]

-- Writes of an index, as those of `PutUvarint`, panic where there is no room.
unfoldable pub put_at : ℕ → Bytes → Bytes → Outcome Bytes
unfolding copy_at
put_at offset bz buf =
    if ltb (length buf) (offset + length bz) then panics else copy_at offset bz buf

copy_into-zeros : (bz : Bytes) (n : ℕ) → copy_into bz (zeros (length bz + n)) ≡ bz ++ zeros n
unfolding copy_into zeros
copy_into-zeros [] n = let e : 0 + n ≡ n = omega arith in rw e refl
copy_into-zeros (b ∷ bz) n =
    let e : suc (length bz) + n ≡ suc (length bz + n) = omega arith in
    rw (e, zeros) (ap (λ z. b ∷ z) (copy_into-zeros bz n))

pub length-zeros : (n : ℕ) → length (zeros n) ≡ n
unfolding zeros
length-zeros zero = refl
length-zeros (suc n) = ap suc (length-zeros n)

-- What was written so far stays, and the zeros behind it make room.
pub copy_at-zeros :
    (done bz : Bytes) (n : ℕ)
    → copy_at (length done) bz (done ++ zeros (length bz + n)) ≡ ok (done ++ (bz ++ zeros n))
unfolding copy_at
copy_at-zeros [] bz n = ap ok (copy_into-zeros bz n)
copy_at-zeros (d ∷ done) bz n = rw (copy_at, copy_at-zeros done bz n) refl
