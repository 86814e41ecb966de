-- ===== src/Tests/Pins.antt =====
-- The decision of `insertSlot` with PIN_KEY_TO_THREAD, at a cell with one key and at a full one.
use turbo_hash.Common.{ℕ, ◌≡◌, refl, arith, false, inl}
use turbo_hash.Common.Bits.{test_bit, test_bit_high}
use turbo_hash.BitSet.{valid_count}
use turbo_hash.Hasher.{hash_int}
use turbo_hash.Cell.{Cell, full, load_version, backup_bitset}
use turbo_hash.Bucket.{Target}
use turbo_hash.Bucket.Valid.{IsCell}
use turbo_hash.Bucket.Write.{written}
use turbo_hash.Format.Flat.{flat}
use turbo_hash.Reader.Sound.{IsSound}
use turbo_hash.Pinned.{settle, at_slot}
use turbo_hash.Pinned.Settle.{Fits, Settles, settle-Settles}
use turbo_hash.Pinned.Spare.{lost_spare}
use turbo_hash.Tests.Runs.{program, with_5}
use turbo_hash.Tests.Examples.{with_5-Puts}

abbrev one_key : Cell ℕ
one_key = with_5.cells 1

one_key-IsSound : IsSound flat one_key
unfolding program
one_key-IsSound = record {
  cell = with_5-Puts.valid.sound 1 (omega arith);
  filled = λ j alive. with_5-Puts.valid.filled 1 j (omega arith) alive;
}

-- Another thread has taken slot 1 since the search.
abbrev insert_at_1 : Target
insert_at_1 = record { cell = 1; slot = 1; equal_key = false; old_slot = 0 }

insert_at_1-Fits : Fits one_key insert_at_1
unfolding program
insert_at_1-Fits = record {
  range = (omega arith, omega arith);
  new = λ e. inl refl;
  old = λ e. absurd (cc);
}

settle-Settles_example : Settles flat 6 70 one_key insert_at_1 (settle one_key insert_at_1)
settle-Settles_example =
    settle-Settles flat 6 70 one_key insert_at_1 one_key-IsSound refl insert_at_1-Fits

-- The slots 1 to 6 are occupied.
abbrev six_keys : Cell ℕ
six_keys = record { word = 0x7E; tags = λ i. 0; slots = λ i. record { h1 = i; entry = 0 } }

six_keys_deleted : (load_version six_keys).bitmap_deleted ≡ 0
unfolding program
six_keys_deleted = refl

six_keys-IsCell : IsCell six_keys
unfolding program
six_keys-IsCell = record {
  erased = λ i gone.
      let none : test_bit (load_version six_keys).bitmap_deleted i ≡ false =
        rw six_keys_deleted (test_bit_high 0 0 i (omega arith) (omega arith)) in
      absurd (ground (arith, gone, none));
  spare = omega arith;
}

abbrev insert_at_7 : Target
insert_at_7 = record { cell = 1; slot = 7; equal_key = false; old_slot = 0 }

lost_spare_example :
    (settle six_keys insert_at_7 ≡ at_slot 7)
    × (full (written flat (hash_int 9) 9 90 six_keys insert_at_7) ≡ false)
    × (valid_count (backup_bitset (written flat (hash_int 9) 9 90 six_keys insert_at_7)) ≡ 0)
unfolding program test_bit
lost_spare_example =
    lost_spare flat 9 90 six_keys insert_at_7 six_keys-IsCell refl refl (omega arith, omega arith)
      refl
