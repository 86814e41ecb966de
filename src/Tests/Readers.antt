-- ===== src/Tests/Readers.antt =====
-- Reads of cell 1 of `with_5`, whose slot 1 has key 5, alone and while writers go on.
use turbo_hash.Common.{
  ℕ, ◌+◌, ◌^◌, ◌<◌, ◌≤◌, ◌≡◌, ◌≢◌, ◌↔◌, refl, sym, ◌∙◌, true, false, ◌==◌, [], ◌∷◌, arith,
}
use turbo_hash.Common.Bits.{test_bit, test_bit-pow}
use turbo_hash.Hasher.{hash_int, h2_of}
use turbo_hash.Cell.{Cell, HashSlot, load_version}
use turbo_hash.Cell.Live.{live}
use turbo_hash.Bucket.{Target, match_slot, insert_to_slot}
use turbo_hash.Bucket.Valid.{Holds}
use turbo_hash.Format.Flat.{flat}
use turbo_hash.Reader.{
  chosen, h1_stored, entry_stored, tag_stored, Writer, putting, Chooses, for_update, empty_slot,
  meta_of, seen, retries, tags_loaded, scanning, h1_equal, key_equal, h1_copied, copied, hit, miss,
  State, start, to_store, choose, store_h1, store_entry, store_tag, publish, load_tags, load_ver,
  same_h1, same_key, copy_h1, copy_entry, accept, Reach, here, later,
}
use turbo_hash.Reader.Sound.{IsSound}
use turbo_hash.Reader.Safety.{hit-Holds}
use turbo_hash.Reader.Torn.{torn_read}
use turbo_hash.Reader.Missed.{missed_read}
use turbo_hash.Reader.Check.{seq, retries_iff}
use turbo_hash.Reader.Alone.{Alone, Returns, read_alone}
use turbo_hash.Tests.Runs.{program, with_5}
use turbo_hash.Tests.Examples.{with_5-Puts}

abbrev cell : Cell ℕ
cell = with_5.cells 1

cell-IsSound : IsSound flat cell
unfolding program
cell-IsSound = record {
  cell = with_5-Puts.valid.sound 1 (omega arith);
  filled = λ j alive. with_5-Puts.valid.filled 1 j (omega arith) alive;
}

-- The update of key 5 to 60, which takes slot 2.
abbrev update_5 : Target
update_5 = record { cell = 1; slot = 2; equal_key = true; old_slot = 1 }

update_5-Chooses : Chooses flat 5 cell update_5
unfolding program
update_5-Chooses = for_update update_5 refl refl refl

abbrev State' : Type 0
State' = State ℕ ℕ ℕ

-- A read of key 5 until the keys are compared.
abbrev meta : Cell ℕ
meta = meta_of flat cell.tags cell

abbrev compared : State'
compared = record (start flat cell) { reader = key_equal meta 1 }

compared-Reach : Reach flat 5 (start flat cell) compared
unfolding program
compared-Reach =
    let r1 : State' = record (start flat cell) { reader = tags_loaded cell.tags } in
    let r2 : State' = record (start flat cell) { reader = scanning meta (1 ∷ []) } in
    let r3 : State' = record (start flat cell) { reader = h1_equal meta 1 [] } in
    let run1 : Reach flat 5 (start flat cell) r1 = later here (load_tags refl) in
    let run2 : Reach flat 5 (start flat cell) r2 = later run1 (load_ver cell.tags refl) in
    let run3 : Reach flat 5 (start flat cell) r3 = later run2 (same_h1 meta 1 [] refl refl) in
    later run3 (same_key meta 1 [] refl refl)

-- The update of the key, begun and ended while the reader is at the comparison.
abbrev with_60 : Cell ℕ
with_60 = (insert_to_slot flat (hash_int 5) 5 60 cell update_5).0

abbrev writing : Writer ℕ ℕ → State'
writing w = record compared { writer = w; begun = 1 }

abbrev updated : State'
updated = record compared { cell = with_60; begun = 1; published = 1 }

updated-Reach : Reach flat 5 (start flat cell) updated
updated-Reach =
    let run1 : Reach flat 5 (start flat cell) (writing (putting chosen 5 60 update_5)) =
      later compared-Reach (choose 5 60 update_5 refl update_5-Chooses refl) in
    let run2 : Reach flat 5 (start flat cell) (writing (putting h1_stored 5 60 update_5)) =
      later run1 (store_h1 5 60 update_5 refl) in
    let run3 : Reach flat 5 (start flat cell) (writing (putting entry_stored 5 60 update_5)) =
      later run2 (store_entry 5 60 update_5 refl) in
    let run4 : Reach flat 5 (start flat cell) (writing (putting tag_stored 5 60 update_5)) =
      later run3 (store_tag 5 60 update_5 refl) in
    later run4 (publish 5 60 update_5 refl)

-- The record copied after that.
abbrev record_5 : HashSlot ℕ
record_5 = to_store flat 5 50

abbrev copied_5 : State'
copied_5 = record updated { reader = copied meta 1 record_5 }

copied_5-Reach : Reach flat 5 (start flat cell) copied_5
unfolding program
copied_5-Reach =
    let run1 : Reach flat 5 (start flat cell) (record updated { reader = h1_copied meta 1 5 }) =
      later updated-Reach (copy_h1 meta 1 refl) in
    later run1 (copy_entry meta 1 5 refl)

passes : retries (load_version meta) (load_version with_60) ≡ false
unfolding program retries
passes = refl

hit_5 : Reach flat 5 (start flat cell) (record copied_5 { reader = hit meta 1 record_5 })
hit_5 = later copied_5-Reach (accept meta 1 record_5 refl passes)

hit-Holds_example : (live meta 1 ≡ true) × ((v : ℕ) × Holds flat record_5 5 v)
hit-Holds_example =
    hit-Holds flat 5 cell cell-IsSound (record copied_5 { reader = hit meta 1 record_5 }) hit_5 meta
      1 record_5 refl (omega arith)

-- Key 6 then takes slot 1.
abbrev insert_6 : Target
insert_6 = record { cell = 1; slot = 1; equal_key = false; old_slot = 0 }

insert_6-Chooses : Chooses flat 6 with_60 insert_6
unfolding program
insert_6-Chooses = empty_slot insert_6 refl refl refl

torn_read_example :
    (r : State') × Reach flat 5 (start flat cell) r × (r.reader ≡ hit meta 1 (to_store flat 6 70))
torn_read_example =
    torn_read flat 5 (start flat cell) updated updated-Reach meta 1 refl refl passes 6 70 insert_6
      insert_6-Chooses refl refl

seq-meta : seq meta + 1 < 2 ^ 32
unfolding program
seq-meta = omega arith

retries_iff_example :
    (retries (load_version meta) (load_version with_60) ≡ false)
    ↔ ((1 ≤ 1) × (seq meta + 1 < 2 ^ 32))
retries_iff_example = retries_iff flat 5 cell copied_5 copied_5-Reach meta 1 record_5 refl seq-meta

-- A read alone, while the update has stopped after its first store.
read_alone_example :
    (t : State') × Alone flat 5
      (record (start flat cell) { writer = putting h1_stored 5 60 update_5 })
      t
    × Returns flat 5
        (seen flat (record (start flat cell) { writer = putting h1_stored 5 60 update_5 }))
        (match_slot flat 5
          (hash_int 5)
          (seen flat (record (start flat cell) { writer = putting h1_stored 5 60 update_5 })))
        t
read_alone_example =
    read_alone flat 5 (record (start flat cell) { writer = putting h1_stored 5 60 update_5 }) refl
      seq-meta

-- Slot 1 is the only live one.
cell_bitmap : (load_version cell).bitmap ≡ 2 ^ 1
unfolding program
cell_bitmap = refl

live-cell : (j : ℕ) → live cell j ≡ true → (1 == j) ≡ true
live-cell j alive =
    let bit : test_bit (load_version cell).bitmap j ≡ true = ground (arith, alive) in
    sym (test_bit-pow 1 j) ∙ (rw cell_bitmap at bit)

cell_tag : cell.tags 2 ≢ h2_of (hash_int 5)
unfolding program
cell_tag = omega arith

missed_read_example :
    (s : State') × Reach flat 5 (start flat cell) s
    × ((m : Cell ℕ) × (s.reader ≡ miss m))
    × (live cell 1 ≡ true)
    × ((w : ℕ) × Holds flat (cell.slots 1) 5 w)
    × (live s.cell 2 ≡ true)
    × Holds flat (s.cell.slots 2) 5 60
unfolding program
missed_read_example =
    missed_read flat 5 cell cell-IsSound 60 refl update_5 refl refl refl cell_tag
      (λ j alive other tag. let same = live-cell j alive in cc)
