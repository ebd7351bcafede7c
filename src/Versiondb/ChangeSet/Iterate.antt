-- ===== src/Versiondb/ChangeSet/Iterate.antt =====
-- `IterateChangeSets` and `IterateVersions` of versiondb/client/changeset.go visit the change sets of
-- a file.
use cronos_store.Common.{
  ℕ, zero, suc, ◌+◌, ◌%◌, ◌^◌, ◌<◌, ◌≡◌, refl, Bool, true, false, List, [], ◌∷◌, ◌++◌, append_assoc,
  length, length-append, All, arith, sym, ◌∙◌,
}
use cronos_store.Common.Bytes.{Bytes}
use cronos_store.Common.Outcome.{Outcome, ok, eof, failed, panics, ◌>>=◌}
use cronos_store.Common.Varint.{read_full}
use cronos_store.Memiavl.Tree.{KvPair}
use cronos_store.Versiondb.ChangeSet.{
  write_change_set, read_change_set, IterateResult, finish_iterate, after_callback, iterate_loop,
  iterate_change_sets, iterate_versions,
}
use cronos_store.Versiondb.ChangeSet.RoundTrip.{
  payload, parsed, written, written-length, IsWritable, write_change_set_lem,
  read_change_set-written,
}

-- The versions with their change sets, written one after another.
unfoldable pub write_all : List (ℕ × List KvPair) → Outcome Bytes
write_all [] = ok []
write_all ((version, ps) ∷ cs) = do
  bz ← write_change_set version ps
  more ← write_all cs
  ok (bz ++ more)

abbrev pub file : List (ℕ × List KvPair) → Bytes
file [] = []
file ((version, ps) ∷ cs) = written version ps ++ file cs

abbrev pub AreWritable : List (ℕ × List KvPair) → Type 0
AreWritable cs = All (λ c. IsWritable c.0 c.1) cs

write_all_lem : (cs : List (ℕ × List KvPair)) → AreWritable cs → write_all cs ≡ ok (file cs)
unfolding write_all
write_all_lem [] w = refl
write_all_lem ((version, ps) ∷ cs) w =
    rw (write_all, write_change_set_lem version ps w.0.1, write_all_lem cs w.1) refl

-- The error at the end of a file: a part of a header is one.
abbrev pub end_error : Bytes → Outcome Unit
end_error [] = ok tt
end_error (b ∷ bz) = failed

read_full_short : (n b : ℕ) (bz : Bytes) → suc (length bz) < n → read_full n (b ∷ bz) ≡ failed
unfolding read_full
read_full_short zero b bz h = absurd (omega arith)
read_full_short (suc zero) b bz h = absurd (omega arith)
read_full_short (suc (suc n)) b [] h = refl
read_full_short (suc (suc n)) b (c ∷ bz) h =
    rw (read_full, read_full_short (suc n) c bz (omega arith)) refl

module _ {S : Type 0} (fn : ℕ → List KvPair → S → S × Outcome Bool) where
  -- Where the visits stop: at the callback's word, behind its change set, and at its error, before it.
  visit_rest : ℕ → ℕ → S → Outcome Bool → IterateResult S → IterateResult S
  visit_rest offset done s (ok true) rest = rest
  visit_rest offset done s (ok false) rest = record {
    last_complete_offset = done;
    result = s;
    error = ok tt;
  }
  visit_rest offset done s eof rest = record {
    last_complete_offset = offset;
    result = s;
    error = ok tt;
  }
  visit_rest offset done s failed rest = record {
    last_complete_offset = offset;
    result = s;
    error = failed;
  }
  visit_rest offset done s panics rest = record {
    last_complete_offset = offset;
    result = s;
    error = panics;
  }

  after_callback-visit_rest :
      (offset done : ℕ) (s : S) (cont : Outcome Bool) (rest : IterateResult S)
      → after_callback offset done s cont rest ≡ visit_rest offset done s cont rest
  unfolding after_callback visit_rest finish_iterate
  after_callback-visit_rest offset done s (ok true) rest = refl
  after_callback-visit_rest offset done s (ok false) rest = refl
  after_callback-visit_rest offset done s eof rest = refl
  after_callback-visit_rest offset done s failed rest = refl
  after_callback-visit_rest offset done s panics rest = refl

  -- The visits of the callback one after another, as long as it says to go on, from an offset.
  unfoldable pub visit_all : Bool → List (ℕ × List KvPair) → Outcome Unit → ℕ → S → IterateResult S
  unfolding visit_rest
  visit_all parses [] end offset s = record {
    last_complete_offset = offset;
    result = s;
    error = end;
  }
  visit_all parses ((version, ps) ∷ cs) end offset s =
      let (s', cont) = fn version (parsed parses ps) s in
      let done = offset + (length (payload ps) + 16) in
      visit_rest offset done s' cont (visit_all parses cs end done s')

  iterate_loop-end :
      (parses : Bool) (fuel offset : ℕ) (rest : Bytes) (s : S)
      → length rest < 16
      → iterate_loop fn parses (suc fuel) rest offset s
        ≡ record { last_complete_offset = offset; result = s; error = end_error rest }
  unfolding iterate_loop read_change_set finish_iterate read_full
  iterate_loop-end parses fuel offset [] s short = refl
  iterate_loop-end parses fuel offset (b ∷ bz) s short =
      rw (iterate_loop, read_change_set, read_full_short 16 b bz (omega arith)) refl

  iterate_loop-round :
      (parses : Bool) (version : ℕ) (ps : List KvPair) (fuel offset : ℕ) (rest : Bytes) (s : S)
      → IsWritable version ps
      → offset + (length (payload ps) + 16) < 2 ^ 63
      → (let (s', cont) = fn version (parsed parses ps) s in
          let done = offset + (length (payload ps) + 16) in
          iterate_loop fn parses (suc fuel) (written version ps ++ rest) offset s
          ≡ visit_rest offset done s' cont (iterate_loop fn parses fuel rest done s'))
  unfolding iterate_loop
  iterate_loop-round parses version ps fuel offset rest s w small =
      let next : (offset + (length (payload ps) + 16)) % 2 ^ 64
          ≡ offset + (length (payload ps) + 16) =
        omega arith in
      rw (iterate_loop, read_change_set-written parses version ps rest w, next)
        (after_callback-visit_rest offset (offset + (length (payload ps) + 16)) _ _ _)

  iterate_loop-visit_all :
      (parses : Bool) (cs : List (ℕ × List KvPair)) (fuel offset : ℕ) (rest : Bytes) (s : S)
      → AreWritable cs
      → length rest < 16
      → length (file cs) < fuel
      → offset + length (file cs) < 2 ^ 63
      → iterate_loop fn parses fuel (file cs ++ rest) offset s
        ≡ visit_all parses cs (end_error rest) offset s
  unfolding visit_all
  iterate_loop-visit_all parses cs zero offset rest s w short enough small = absurd (omega arith)
  iterate_loop-visit_all parses [] (suc fuel) offset rest s w short enough small =
      iterate_loop-end parses fuel offset rest s short
  iterate_loop-visit_all parses ((version, ps) ∷ cs) (suc fuel) offset rest s w short enough small =
      let total = length-append (written version ps) (file cs) in
      let len = written-length version ps in
      let done = offset + (length (payload ps) + 16) in
      let (s', cont) = fn version (parsed parses ps) s in
      rw
        (
          append_assoc (written version ps) (file cs) rest,
          iterate_loop-round parses version ps fuel offset (file cs ++ rest) s w.0 (omega arith),
          iterate_loop-visit_all parses cs fuel done rest s' w.1 short (omega arith) (omega arith),
        )
        refl

  -- On a file of change sets that were written and then fewer bytes than a header has,
  -- `IterateChangeSets` gives the callback every version with its pairs, in order, as long as the
  -- callback says to go on. The offset is the one behind the last change set that is done, an
  -- `io.EOF` of the callback ends the loop without an error, and bytes behind the last change set are
  -- an error. A file has fewer than 2 ^ 63 bytes.
  pub iterate_change_sets-visit_all :
      (cs : List (ℕ × List KvPair)) (rest : Bytes) (s : S)
      → AreWritable cs
      → length rest < 16
      → length (file cs) < 2 ^ 63
      → (bz : Bytes) × (write_all cs ≡ ok bz)
        × (iterate_change_sets fn (bz ++ rest) s ≡ visit_all true cs (end_error rest) 0 s)
  unfolding iterate_change_sets
  iterate_change_sets-visit_all cs rest s w short small = (
    file cs,
    write_all_lem cs w,
    iterate_loop-visit_all true cs (suc (length (file cs ++ rest))) 0 rest s w short
        (omega (arith, length-append (file cs) rest)) (omega arith),
  )

module _ {S : Type 0} (fn : ℕ → S → S × Outcome Bool) where
  skip_pairs : ℕ → List KvPair → S → S × Outcome Bool
  skip_pairs version pairs s = fn version s

  visit_all-skip_pairs :
      (cs : List (ℕ × List KvPair)) (end : Outcome Unit) (offset : ℕ) (s : S)
      → visit_all skip_pairs false cs end offset s ≡ visit_all skip_pairs true cs end offset s
  unfolding visit_all skip_pairs
  visit_all-skip_pairs [] end offset s = refl
  visit_all-skip_pairs ((version, ps) ∷ cs) end offset s =
      rw (visit_all-skip_pairs cs end (offset + (length (payload ps) + 16)) (fn version s).0) refl

  -- On a file as above `IterateVersions`, which skips the payloads, gives its callback the versions
  -- that `IterateChangeSets` gives, and ends at the same offset with the same error.
  pub iterate_versions-iterate_change_sets :
      (cs : List (ℕ × List KvPair)) (rest : Bytes) (s : S)
      → AreWritable cs
      → length rest < 16
      → length (file cs) < 2 ^ 63
      → (bz : Bytes) × (write_all cs ≡ ok bz)
        × (iterate_versions fn (bz ++ rest) s
            ≡ iterate_change_sets (λ version pairs s. fn version s) (bz ++ rest) s)
  unfolding iterate_change_sets iterate_versions skip_pairs
  iterate_versions-iterate_change_sets cs rest s w short small =
      let fuel = suc (length (file cs ++ rest)) in
      let enough : length (file cs) < suc (length (file cs ++ rest)) =
        omega (arith, length-append (file cs) rest) in
      (
        file cs,
        write_all_lem cs w,
        iterate_loop-visit_all skip_pairs false cs fuel 0 rest s w short enough (omega arith)
            ∙ visit_all-skip_pairs cs (end_error rest) 0 s
            ∙ sym (
                iterate_loop-visit_all skip_pairs true cs fuel 0 rest s w short enough
                  (omega arith)),
      )
