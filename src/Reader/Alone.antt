-- ===== src/Reader/Alone.antt =====
-- A reader that no writer disturbs, also while a writer has stopped on its way.
use turbo_hash.Common.{
  ℕ, ◌+◌, ◌^◌, ◌<◌, ◌≡◌, refl, Bool, true, false, ◌&&◌, ◌==◌, List, [], ◌∷◌, Option, none, some,
  arith, Bool-cases, inl, inr,
}
use turbo_hash.BitSet.{positions}
use turbo_hash.Hasher.{h2_of}
use turbo_hash.Cell.{Cell, HashSlot, load_version, match_bitset}
use turbo_hash.SlotFormat.{SlotFormat}
use turbo_hash.Bucket.{first_match, slot_matches, match_slot}
use turbo_hash.Bucket.Valid.{hash}
use turbo_hash.Reader.{
  seen, retries, idle, tags_loaded, scanning, h1_equal, key_equal, h1_copied, copied, hit, miss,
  State, Step, load_tags, load_ver, same_h1, other_h1, same_key, other_key, copy_h1, copy_entry,
  accept, no_match,
}
use turbo_hash.Reader.Check.{seq, seq-memory}

module _ {K V E : Type 0} (f : SlotFormat K V E) (q : K) where
  -- Steps that change neither the cell nor a writer: those of the reader.
  pub data Alone (s : State K V E) : State K V E → Type 0 where
    itself : Alone s s
    after :
        {t u : State K V E}
        → Alone s t
        → Step f q t u
        → u.cell ≡ t.cell
        → u.writer ≡ t.writer
        → Alone s u

  -- What `findSlot` returns for the matching slot of the cell.
  abbrev pub Returns : Cell E → Option ℕ → State K V E → Type 0
  Returns c (some i) t = (meta : Cell E) × (t.reader ≡ hit meta i (c.slots i))
  Returns c none t = (meta : Cell E) × (t.reader ≡ miss meta)

  abbrev test : Cell E → ℕ → Bool
  test c i = slot_matches f q (hash f q) (c.slots i)

  test_lem :
      (s : HashSlot E)
      → slot_matches f q (hash f q) s ≡ (s.h1 == f.h1_of q (hash f q)) && f.slot_key_equal q s
  unfolding slot_matches
  test_lem s = refl

  -- The slot of a match.
  found_alone :
      (s0 s : State K V E)
      → Alone s0 s
      → (meta : Cell E) (i : ℕ) → s.reader ≡ key_equal meta i
      → retries (load_version meta) (load_version (seen f s)) ≡ false
      → (t : State K V E) × Alone s0 t × Returns (seen f s) (some i) t
  found_alone s0 s run meta i reads passes =
      let r = (seen f s).slots i in
      let s1 = record s { reader = h1_copied meta i r.h1 } in
      let s2 = record s { reader = copied meta i r } in
      (
        record s { reader = hit meta i r },
        after {t = s2}
            (after {t = s1} (after run (copy_h1 meta i reads) refl refl)
              (copy_entry meta i r.h1 refl) refl refl)
            (accept meta i r refl passes) refl refl,
        (meta, refl),
      )

  scan_alone :
      (s0 s : State K V E)
      → Alone s0 s
      → (meta : Cell E) (is : List ℕ) → s.reader ≡ scanning meta is
      → retries (load_version meta) (load_version (seen f s)) ≡ false
      → (t : State K V E) × Alone s0 t × Returns (seen f s) (first_match (test (seen f s)) is) t
  unfolding first_match
  scan_alone s0 s run meta [] reads passes =
      (record s { reader = miss meta }, after run (no_match meta reads) refl refl, (meta, refl))
  scan_alone s0 s run meta (i ∷ is) reads passes =
      let on = record s { reader = scanning meta is } in
      elim (Bool-cases (((seen f s).slots i).h1 == f.h1_of q (hash f q))) [
        | inr other ↦
            let fails : test (seen f s) i ≡ false =
              ground (arith, test_lem ((seen f s).slots i), other) in
            rw fails (
              scan_alone s0 on (after run (other_h1 meta i is reads other) refl refl) meta is refl
                passes)
        | inl word ↦
            let s1 = record s { reader = h1_equal meta i is } in
            let run1 = after run (same_h1 meta i is reads word) refl refl in
            elim (Bool-cases (f.slot_key_equal q ((seen f s).slots i))) [
              | inr other ↦
                  let fails : test (seen f s) i ≡ false =
                    ground (arith, test_lem ((seen f s).slots i), other) in
                  rw fails (
                    scan_alone s0 on
                      (after {t = s1} run1 (other_key meta i is refl other) refl refl) meta is refl
                      passes)
              | inl key ↦
                  let matches : test (seen f s) i ≡ true =
                    ground (arith, test_lem ((seen f s).slots i), word, key) in
                  rw matches (
                    found_alone s0 (record s { reader = key_equal meta i })
                      (after {t = s1} run1 (same_key meta i is refl key) refl refl) meta i refl
                      passes)
            ]
      ]

  fresh : (c : Cell E) → seq c + 1 < 2 ^ 32 → retries (load_version c) (load_version c) ≡ false
  unfolding retries
  fresh c room = ground (arith, room)

  -- From any state in which a read begins, writers that have stopped at any point included, the
  -- steps of the reader alone lead to its return, provided that the sequence number is not the
  -- largest one of 32 bits; and it returns the record that `find_slot` takes from the memory of the
  -- cell as it is, or finds no match where `find_slot` finds none.
  pub read_alone :
      (s : State K V E)
      → s.reader ≡ idle
      → seq s.cell + 1 < 2 ^ 32
      → (t : State K V E) × Alone s t × Returns (seen f s) (match_slot f q (hash f q) (seen f s)) t
  unfolding match_slot
  read_alone s reads room =
      let tags = (seen f s).tags in
      let is = positions (match_bitset (seen f s) (h2_of (hash f q))) in
      let s1 = record s { reader = tags_loaded tags } in
      let run =
        after {t = s1} (after itself (load_tags reads) refl refl) (load_ver tags refl) refl refl in
      scan_alone s _ run (seen f s) is refl
        (fresh (seen f s) (rw (seq-memory f s.cell s.writer) room))
