-- ===== src/Pmem/Cell/Bitsets.antt =====
-- The bitsets of CellMeta256V2 in terms of the slots.
use turbo_hash.Common.{ℕ, ◌^◌, ◌<◌, ◌≡◌, arith, bit_and, ◌&&◌, not, ◌==◌}
use turbo_hash.Common.Bits.{test_bit, bit_not, test_bit-bit_and, test_bit-bit_not, test_bit_high}
use turbo_hash.Cell.{Cell, movemask}
use turbo_hash.Cell.Live.{test_bit-movemask}
use turbo_hash.Pmem.Cell.{load_version, bit_map_mask, match_bitset, erase_bitset, backup_bitset}
use turbo_hash.Pmem.Cell.Live.{
  occupied, deleted, live, is_slot, low_mask, occupied_lem, deleted_lem,
}
use turbo_hash.Pmem.Cell.Change.{bitmap-lt, bitmap_deleted-lt}

masked : (b i : ℕ) → test_bit (bit_and b bit_map_mask) i ≡ (test_bit b i && is_slot i)
masked b i = ground (arith, test_bit-bit_and b 0xFFFC i, low_mask i, test_bit_high 16 0xFFFC i)

module _ {E : Type 0} (c : Cell E) (h2 i : ℕ) where
  flipped : (b : ℕ) → b < 2 ^ 16 → i < 16 → test_bit (bit_not 32 b) i ≡ not (test_bit b i)
  flipped b small h = test_bit-bit_not 32 b i (omega arith) (omega arith)

  -- `MatchBitSet` is the set of the live slots whose tag is the given one, `EraseBitSet` the set of
  -- the deleted slots, and `BackupBitSet` the set of the slots 2 to 15 that are not occupied.
  pub bitsets_lem :
      (test_bit (match_bitset c h2) i ≡ (live c.word i && h2 == c.tags i))
      × (test_bit (erase_bitset c) i ≡ deleted c.word i)
      × (test_bit (backup_bitset c) i ≡ (not (occupied c.word i) && is_slot i))
  unfolding match_bitset erase_bitset backup_bitset
  bitsets_lem =
      let v = load_version c.word in
      let mask = movemask 16 (λ i. h2 == c.tags i) in
      let of_deleted = flipped v.bitmap_deleted (bitmap_deleted-lt c.word) in
      let of_occupied = flipped v.bitmap (bitmap-lt c.word) in
      (
        ground (
          arith,
          masked (bit_and (bit_and mask v.bitmap) (bit_not 32 v.bitmap_deleted)) i,
          test_bit-bit_and (bit_and mask v.bitmap) (bit_not 32 v.bitmap_deleted) i,
          test_bit-bit_and mask v.bitmap i,
          test_bit-movemask 16 (λ i. h2 == c.tags i) i,
          of_deleted,
          occupied_lem c.word i,
        ),
        ground (arith, masked v.bitmap_deleted i, deleted_lem c.word i),
        ground (arith, masked (bit_not 32 v.bitmap) i, of_occupied),
      )
