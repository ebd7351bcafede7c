-- ===== src/Memiavl/Wal/Entries.antt =====
-- A binary log file of memiavl/wal.go that a writer was stopped in reads as its whole entries.
use cronos_store.Common.{
  ℕ, zero, suc, ◌+◌, ◌-◌, ◌^◌, ◌<◌, ◌≤◌, ◌≡◌, refl, ap, ◌∙◌, Bool, true, false, none, some, List,
  [], ◌∷◌, ◌++◌, append_assoc, append-nil, All, length, length-append, ltb, Bool-cases, inl, inr,
  arith,
}
use native.Mathlib.Decide.{dec_lt}
use cronos_store.Common.Bytes.{Bytes}
use cronos_store.Common.Slices.{
  first, from, first-append, from-append, first_short, first_long, length-first,
}
use cronos_store.Common.Panic.{◌>>=◌}
use cronos_store.Common.Outcome.{Outcome, ok, eof, failed, panics}
use cronos_store.Common.Varint.{
  put_uvarint, read_uvarint, read_uvarint-put_uvarint, read_uvarint-prefix, put_uvarint-length,
  Fails,
}
use cronos_store.Memiavl.Wal.{
  load_next_binary_entry, read_entries, read_wal_entries, intact_length, truncate_corrupted_tail,
}

-- What the log writes for an entry, and for entries in order.
unfoldable pub frame : Bytes → Bytes
frame e = put_uvarint (length e) ++ e

unfoldable pub frames : List Bytes → Bytes
unfolding frame
frames [] = []
frames (e ∷ es) = frame e ++ frames es

load-frame :
    (e rest : Bytes)
    → length e < 2 ^ 63
    → load_next_binary_entry (frame e ++ rest)
      ≡ some (length (frame e), length (put_uvarint (length e)))
unfolding load_next_binary_entry frame
load-frame e rest fits =
    let p = put_uvarint (length e) in
    let a : ltb (length (e ++ rest)) (length e) ≡ false =
      let k = length-append e rest in ground arith in
    let b : length (frame e ++ rest) - length (e ++ rest) ≡ length p =
      omega (arith, length-append (p ++ e) rest, length-append p e, length-append e rest) in
    let c : length (frame e) ≡ length p + length e = length-append p e in
    rw
      (
        append_assoc p e rest,
        load_next_binary_entry,
        read_uvarint-put_uvarint (length e) (e ++ rest) (omega arith),
        a,
        b,
        c,
      )
      refl

load_failed : (bz : Bytes) → Fails (read_uvarint bz) → load_next_binary_entry bz ≡ none
unfolding load_next_binary_entry
load_failed bz h = go (read_uvarint bz) refl h
  where
    go :
        (o : Outcome (ℕ × Bytes)) → read_uvarint bz ≡ o → Fails o → load_next_binary_entry bz ≡ none
    go (ok r) e h = absurd h
    go eof e h = rw (load_next_binary_entry, e) refl
    go failed e h = rw (load_next_binary_entry, e) refl
    go panics e h = rw (load_next_binary_entry, e) refl

-- An entry that is cut short does not load.
load-cut :
    (e : Bytes) (k : ℕ)
    → length e < 2 ^ 63
    → k < length (frame e)
    → load_next_binary_entry (first k (frame e)) ≡ none
unfolding frame
load-cut e k fits h =
    let p = put_uvarint (length e) in
    elim (dec_lt k (length p)) [
      | yes q ↦
          rw (first_short k p e (omega arith))
            (load_failed (first k p) (read_uvarint-prefix (length e) k q))
      | no q ↦
          let j = k - length p in
          let whole : k ≡ length p + j = omega arith in
          let size : length (first j e) ≡ j = length-first j e (omega (arith, length-append p e)) in
          let a : ltb (length (first j e)) (length e) ≡ true =
            let l = length-append p e in ground arith in
          rw (whole, first_long j p e)
            (unfold load_next_binary_entry in
              rw
                (
                  load_next_binary_entry,
                  read_uvarint-put_uvarint (length e) (first j e) (omega arith),
                  a,
                )
                refl)
    ]

-- Whether there are bytes.
abbrev has_bytes : Bytes → Bool
has_bytes [] = false
has_bytes (b ∷ bz) = true

read_entries_step :
    (fuel : ℕ) (bz : Bytes) (n header : ℕ)
    → load_next_binary_entry bz ≡ some (n, header)
    → read_entries (suc fuel) bz
      ≡ (read_entries fuel (from n bz) >>= λ (es, torn). some (from header (first n bz) ∷ es, torn))
unfolding read_entries
read_entries_step fuel [] n header h =
    let e : load_next_binary_entry [] ≡ none = unfold load_next_binary_entry read_uvarint in refl in
    cc
read_entries_step fuel (b ∷ bz) n header h = rw (read_entries, h) refl

intact_length_step :
    (fuel : ℕ) (bz : Bytes) (n header : ℕ)
    → load_next_binary_entry bz ≡ some (n, header)
    → intact_length (suc fuel) bz ≡ (intact_length fuel (from n bz) >>= λ pos. some (n + pos))
unfolding intact_length
intact_length_step fuel [] n header h =
    let e : load_next_binary_entry [] ≡ none = unfold load_next_binary_entry read_uvarint in refl in
    cc
intact_length_step fuel (b ∷ bz) n header h = rw (intact_length, h) refl

pub frame-length : (e : Bytes) → suc (length e) ≤ length (frame e)
unfolding frame
frame-length e =
    omega (arith, length-append (put_uvarint (length e)) e, put_uvarint-length (length e))

from-frame : (e : Bytes) → from (length (put_uvarint (length e))) (frame e) ≡ e
unfolding frame
from-frame e = from-append (put_uvarint (length e)) e

read_entries-frames :
    (es : List Bytes) (t : Bytes) (fuel : ℕ)
    → All (λ e. length e < 2 ^ 63) es
    → load_next_binary_entry t ≡ none
    → length (frames es ++ t) < fuel
    → (read_entries fuel (frames es ++ t) ≡ some (es, has_bytes t))
      × (intact_length fuel (frames es ++ t) ≡ some (length (frames es)))
unfolding frames
read_entries-frames es t zero fits cut enough = absurd (omega arith)
read_entries-frames [] [] (suc fuel) fits cut enough =
    unfold read_entries intact_length in (refl, refl)
read_entries-frames [] (b ∷ t) (suc fuel) fits cut enough =
    unfold read_entries intact_length in (rw (read_entries, cut) refl, rw (intact_length, cut) refl)
read_entries-frames (e ∷ es) t (suc fuel) fits cut enough =
    let rest = frames es ++ t in
    let bz = frame e ++ rest in
    let l = load-frame e rest fits.0 in
    let assoc = append_assoc (frame e) (frames es) t in
    let fewer : length rest < fuel =
      omega (arith, ap length assoc, length-append (frame e) rest, frame-length e) in
    let (reads, intact) = read_entries-frames es t fuel fits.1 cut fewer in
    (
      rw
          (
            assoc,
            read_entries_step fuel bz (length (frame e)) (length (put_uvarint (length e))) l,
            from-append (frame e) rest,
            reads,
            first-append (frame e) rest,
            from-frame e,
          )
          refl,
      rw
          (
            assoc,
            intact_length_step fuel bz (length (frame e)) (length (put_uvarint (length e))) l,
            from-append (frame e) rest,
            intact,
            length-append (frame e) (frames es),
          )
          refl,
    )

no_bytes : (t : Bytes) → length t ≡ 0 → t ≡ []
no_bytes [] h = refl
no_bytes (b ∷ t) h = absurd (omega arith)

has_bytes-first : (k : ℕ) (bz : Bytes) → k < length bz → has_bytes (first k bz) ≡ ltb 0 k
unfolding first
has_bytes-first zero bz h = ground arith
has_bytes-first (suc k) [] h = absurd (omega arith)
has_bytes-first (suc k) (b ∷ bz) h = ground arith

-- On a file of whole entries and the first bytes of one more, fewer than it has, `readWALEntries`
-- returns the whole entries and reports a torn tail where there is a byte of the other, and
-- `truncateCorruptedTail` leaves the whole entries. An entry has fewer than 2 ^ 63 bytes.
pub read_wal_entries-truncate_corrupted_tail :
    (es : List Bytes) (e : Bytes) (k : ℕ)
    → All (λ x. length x < 2 ^ 63) es
    → length e < 2 ^ 63
    → k < length (frame e)
    → (read_wal_entries (frames es ++ first k (frame e)) ≡ some (es, ltb 0 k))
      × (truncate_corrupted_tail (frames es ++ first k (frame e)) ≡ some (frames es))
unfolding read_wal_entries truncate_corrupted_tail
read_wal_entries-truncate_corrupted_tail es e k fits small h =
    let t = first k (frame e) in
    let file = frames es ++ t in
    let (reads, intact) =
      read_entries-frames es t (suc (length file)) fits (load-cut e k small h) (omega arith) in
    let kept : truncate_corrupted_tail file ≡ some (frames es) =
      elim (Bool-cases (ltb (length (frames es)) (length file))) [
        | inl q ↦ rw (intact, q) (ap some (first-append (frames es) t))
        | inr q ↦
            let empty : t ≡ [] = no_bytes t (let l = length-append (frames es) t in ground arith) in
            rw (intact, q) (ap some (ap (λ z. frames es ++ z) empty ∙ append-nil (frames es)))
      ] in
    (reads ∙ rw (has_bytes-first k (frame e) h) refl, kept)
