-- ===== src/Cell/Spare.antt =====
-- The spare slot of a cell: `Full`, `BackupBitSet` and `EraseBitSet`.
use turbo_hash.Common.{
  ℕ, zero, suc, ◌+◌, ◌/◌, ◌%◌, ◌^◌, ◌≤◌, ◌<◌, ◌≡◌, ◌≢◌, sym, ap, ◌∙◌, arith, bit_and, true, false,
  ◌==◌, Bool-cases, inl, inr,
}
use turbo_hash.Common.Bits.{test_bit, to_bit, test_bit_high, test_bit_ext, bit_and-lt}
use turbo_hash.BitSet.{popcount, ctz, lowest, valid_count}
use turbo_hash.BitSet.Laws.{popcount_change, popcount_congr}
use turbo_hash.Cell.{Cell, load_version, full, backup_bitset, erase_bitset, bit_map_mask}
use turbo_hash.Cell.Live.{
  test_bit_mask, test_bit_masked, occupied, deleted, occupied_range, test_bit-backup_bitset,
  test_bit-erase_bitset,
}
use native.Mathlib.Nat.{pow-suc}

-- A word that is not 0 has its lowest 1-bit at `operator*`.
ctz_lem : (w b : ℕ) → 0 < b → b < 2 ^ w → test_bit b (ctz w b) ≡ true
unfolding ctz test_bit
ctz_lem zero b p h = absurd (omega arith)
ctz_lem (suc w) b p h = elim (Bool-cases (b % 2 == 1)) [
  | inl odd ↦ rw (odd) odd
  | inr even ↦ rw even (ctz_lem w (b / 2) (ground arith) (omega (arith, pow-suc 2 w)))
]

pub lowest_lem : (b : ℕ) → 0 < b → b < 2 ^ 32 → test_bit b (lowest b) ≡ true
unfolding lowest
lowest_lem b p h = ctz_lem 32 b p h

-- The population count that `Full` compares with 6.
abbrev pub occupied_count : {E : Type 0} → Cell E → ℕ
occupied_count c = popcount 32 (bit_and (load_version c).bitmap bit_map_mask)

module _ {E : Type 0} (c : Cell E) where
  counted_bit : (j : ℕ) → test_bit (bit_and (load_version c).bitmap bit_map_mask) j ≡ occupied c j
  counted_bit j = ground (arith, test_bit_masked (load_version c).bitmap j, occupied_range c j)

  pub full_iff : (full c ≡ true → occupied_count c ≡ 6) × (full c ≡ false → occupied_count c ≢ 6)
  unfolding full
  full_iff = ground arith

module _ {E : Type 0} (c d : Cell E) where
  pub occupied_count_change :
      (i : ℕ)
      → i < 8
      → ((j : ℕ) → j ≢ i → occupied c j ≡ occupied d j)
      → occupied_count c + to_bit (occupied d i) ≡ occupied_count d + to_bit (occupied c i)
  occupied_count_change i p h =
      rw (counted_bit c i, counted_bit d i) at
        (popcount_change 32 _ _ i (omega arith)
          (λ j q r. counted_bit c j ∙ h j r ∙ sym (counted_bit d j)))

  pub occupied_count_congr :
      ((j : ℕ) → occupied c j ≡ occupied d j) → occupied_count c ≡ occupied_count d
  occupied_count_congr h =
      popcount_congr 32 _ _ (λ j q. counted_bit c j ∙ h j ∙ sym (counted_bit d j))

module _ {E : Type 0} (c : Cell E) where
  backup_bitset-lt : backup_bitset c < 2 ^ 8
  unfolding backup_bitset
  backup_bitset-lt = bit_and-lt 8 _ 0xFE (omega arith)

  erase_bitset-lt : erase_bitset c < 2 ^ 32
  unfolding erase_bitset
  erase_bitset-lt = omega (arith, bit_and-lt 8 (load_version c).bitmap_deleted 0xFE (omega arith))

  -- All seven slots are occupied if no backup slot is left.
  all_occupied : backup_bitset c ≡ 0 → occupied_count c ≡ 7
  unfolding popcount
  all_occupied e = ap (popcount 32) all
    where
      all : bit_and (load_version c).bitmap bit_map_mask ≡ 0xFE
      all = test_bit_ext 8 _ 0xFE (bit_and-lt 8 _ 0xFE (omega arith)) (omega arith) λ i. ground (
        arith,
        counted_bit c i,
        occupied_range c i,
        rw e at (test_bit-backup_bitset c i),
        test_bit_high 0 0 i,
        test_bit_mask i,
        test_bit_high 8 0xFE i,
      )

  -- With at most six slots occupied, `*BackupBitSet ()` is a free slot between 1 and 7.
  pub backup_lem :
      occupied_count c ≤ 6
      → (occupied c (lowest (backup_bitset c)) ≡ false)
        × (0 < lowest (backup_bitset c))
        × (lowest (backup_bitset c) < 8)
  backup_lem h = ground (
    arith,
    all_occupied,
    lowest_lem (backup_bitset c),
    backup_bitset-lt,
    test_bit-backup_bitset c (lowest (backup_bitset c)),
  )

  pub erase_lem :
      (valid_count (erase_bitset c) == 0) ≡ false → (deleted c (lowest (erase_bitset c)) ≡ true)
  unfolding valid_count popcount
  erase_lem h =
      let b = erase_bitset c in
      rw (test_bit-erase_bitset c (lowest b)) at
        (lowest_lem b (ground (arith, nonzero)) erase_bitset-lt)
    where
      nonzero : erase_bitset c ≡ 0 → ⊥
      nonzero e = cc (rw e at h)
