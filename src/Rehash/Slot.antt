-- ===== src/Rehash/Slot.antt =====
-- What `moveSlot` does to a cell.
use turbo_hash.Common.{ℕ, ◌+◌, ◌%◌, ◌^◌, ◌<◌, ◌≡◌, refl, false, ◌==◌, ◌||◌, bit_or, arith}
use turbo_hash.Common.Bits.{test_bit-bit_or, test_bit-pow, bit_or-lt}
use turbo_hash.Probe.Path.{pow_mono}
use turbo_hash.Cell.{Cell, HashSlot, of_data}
use turbo_hash.Cell.Live.{occupied, deleted, occupied_masked, deleted_masked}
use turbo_hash.Cell.Spare.{occupied_count, occupied_count_change}
use turbo_hash.Rehash.{move_slot}

module _ {E : Type 0} (c : Cell E) (i : ℕ) (low : 0 < i) (high : i < 8) (slot : HashSlot E)
    (tag : ℕ) where
  abbrev new_cell : Cell E
  new_cell = move_slot c i slot tag

  bitmap_lem :
      ((of_data new_cell.word).bitmap ≡ bit_or (of_data c.word).bitmap (2 ^ i))
      × ((of_data new_cell.word).bitmap_deleted ≡ (of_data c.word).bitmap_deleted)
  unfolding of_data move_slot
  bitmap_lem =
      let small =
        bit_or-lt 8 (c.word % 2 ^ 8) (2 ^ i) (omega arith) (ground (arith, pow_mono i 7)) in
      (omega arith, omega arith)

  -- `moveSlot` sets the occupied bit of the slot, and nothing else in the bitmaps.
  pub move_slot_lem :
      (j : ℕ)
      → (occupied new_cell j ≡ (i == j || occupied c j)) × (deleted new_cell j ≡ deleted c j)
  move_slot_lem j =
      let (bitmap, bitmap_deleted) = bitmap_lem in
      (
        rw
            (
              occupied_masked new_cell j,
              occupied_masked c j,
              bitmap,
              test_bit-bit_or (of_data c.word).bitmap (2 ^ i) j,
              test_bit-pow i j,
            )
            (ground arith),
        rw (deleted_masked new_cell j, deleted_masked c j, bitmap_deleted) refl,
      )

  pub occupied_count-move_slot :
      occupied c i ≡ false → occupied_count new_cell ≡ occupied_count c + 1
  occupied_count-move_slot free = ground (
    arith,
    occupied_count_change new_cell c i high (λ j ne. ground (arith, move_slot_lem j)),
    move_slot_lem i,
  )
