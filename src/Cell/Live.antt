-- ===== src/Cell/Live.antt =====
-- The slots that a cell holds, and the bitsets of `CellMeta128` in terms of them.
use turbo_hash.Common.{
  ℕ, zero, suc, ◌⊎◌, ◌-◌, ◌^◌, ◌<◌, ◌≡◌, refl, arith, bit_and, Bool, true, false, ◌&&◌, not, ◌==◌,
  ltb,
}
use turbo_hash.Common.Bits.{
  test_bit, bit_not, to_bit, test_bit-bit_and, test_bit-bit_not, test_bit_high, test_bit-add_mul,
}
use native.Mathlib.Nat.{pow-suc}
use turbo_hash.Cell.{
  of_data, Cell, load_version, movemask, match_bitset, erase_bitset, backup_bitset, valid_bitset,
}
use turbo_hash.Cell.Word.{load_version_lem, load_version-IsVersion}

-- The mask 0xFE has the bits of the slots 1 to 7.
pub test_bit_mask : (i : ℕ) → i < 8 → test_bit 0xFE i ≡ not (i == 0)
unfolding test_bit
test_bit_mask zero h = refl
test_bit_mask (suc zero) h = refl
test_bit_mask (suc (suc zero)) h = refl
test_bit_mask (suc (suc (suc zero))) h = refl
test_bit_mask (suc (suc (suc (suc zero)))) h = refl
test_bit_mask (suc (suc (suc (suc (suc zero))))) h = refl
test_bit_mask (suc (suc (suc (suc (suc (suc zero)))))) h = refl
test_bit_mask (suc (suc (suc (suc (suc (suc (suc zero))))))) h = refl
test_bit_mask (suc (suc (suc (suc (suc (suc (suc (suc i)))))))) h = absurd (omega arith)

-- Bit `i` of a masked byte.
pub test_bit_masked :
    (b i : ℕ) → test_bit (bit_and b 0xFE) i ≡ (test_bit b i && (not (i == 0) && ltb i 8))
test_bit_masked b i =
    ground (arith, test_bit-bit_and b 0xFE i, test_bit_mask i, test_bit_high 8 0xFE i)

to_bit-test_bit : (b : Bool) (i : ℕ) → test_bit (to_bit b) i ≡ (b && i == 0)
unfolding test_bit
to_bit-test_bit true zero = refl
to_bit-test_bit true (suc i) = ground (arith, test_bit_high 0 0 i)
to_bit-test_bit false zero = refl
to_bit-test_bit false (suc i) = test_bit_high 0 0 i (omega arith) (omega arith)

split_last : (i n : ℕ) → (i < n) ⊎ (i ≡ n) ⊎ (n < i)
split_last i n = omega arith

pub test_bit-movemask :
    (n : ℕ) (p : ℕ → Bool) (i : ℕ)
    → (movemask n p < 2 ^ n) × (test_bit (movemask n p) i ≡ (ltb i n && p i))
unfolding movemask
test_bit-movemask zero p i = (omega arith, ground (arith, test_bit_high 0 0 i))
test_bit-movemask (suc n) p i =
    let (small, rest) = test_bit-movemask n p i in
    (
      ground (arith, pow-suc 2 n),
      ground (
        arith,
        test_bit-add_mul n (to_bit (p n)) (movemask n p) i small,
        to_bit-test_bit (p n) (i - n),
        split_last i n,
      ),
    )

-- The slot is occupied in the snapshot of the cell, and marked as deleted in it.
abbrev pub occupied : {E : Type 0} → Cell E → ℕ → Bool
occupied c i = test_bit (load_version c).bitmap i

abbrev pub deleted : {E : Type 0} → Cell E → ℕ → Bool
deleted c i = test_bit (load_version c).bitmap_deleted i

-- The slot holds a record.
abbrev pub live : {E : Type 0} → Cell E → ℕ → Bool
live c i = occupied c i && not (deleted c i)

module _ {E : Type 0} (c : Cell E) where
  pub occupied_masked :
      (i : ℕ) → occupied c i ≡ (test_bit (of_data c.word).bitmap i && (not (i == 0) && ltb i 8))
  occupied_masked i = rw (load_version_lem c) (test_bit_masked (of_data c.word).bitmap i)

  pub deleted_masked :
      (i : ℕ)
      → deleted c i ≡ (test_bit (of_data c.word).bitmap_deleted i && (not (i == 0) && ltb i 8))
  deleted_masked i = rw (load_version_lem c) (test_bit_masked (of_data c.word).bitmap_deleted i)

  pub occupied_range : (i : ℕ) → occupied c i ≡ true → (0 < i) × (i < 8)
  occupied_range i h = ground (arith, occupied_masked i)

  pub deleted_range : (i : ℕ) → deleted c i ≡ true → (0 < i) × (i < 8)
  deleted_range i h = ground (arith, deleted_masked i)

  not-deleted :
      (i : ℕ) → i < 8 → test_bit (bit_not 32 (load_version c).bitmap_deleted) i ≡ not (deleted c i)
  not-deleted i h =
      test_bit-bit_not 32 (load_version c).bitmap_deleted i
        (omega (arith, load_version-IsVersion c)) (omega arith)

  not-occupied :
      (i : ℕ) → i < 8 → test_bit (bit_not 32 (load_version c).bitmap) i ≡ not (occupied c i)
  not-occupied i h =
      test_bit-bit_not 32 (load_version c).bitmap i (omega (arith, load_version-IsVersion c))
        (omega arith)

  -- `ValidBitSet` is the set of the live slots.
  pub test_bit-valid_bitset : (i : ℕ) → test_bit (valid_bitset c) i ≡ live c i
  unfolding valid_bitset
  test_bit-valid_bitset i = ground (
    arith,
    test_bit_masked (bit_and (load_version c).bitmap (bit_not 32 (load_version c).bitmap_deleted))
        i,
    test_bit-bit_and (load_version c).bitmap (bit_not 32 (load_version c).bitmap_deleted) i,
    not-deleted i,
    occupied_range i,
  )

  -- `EraseBitSet` is the set of the deleted slots.
  pub test_bit-erase_bitset : (i : ℕ) → test_bit (erase_bitset c) i ≡ deleted c i
  unfolding erase_bitset
  test_bit-erase_bitset i =
      ground (arith, test_bit_masked (load_version c).bitmap_deleted i, deleted_range i)

  -- `BackupBitSet` is the set of the slots 1 to 7 that are not occupied.
  pub test_bit-backup_bitset :
      (i : ℕ) → test_bit (backup_bitset c) i ≡ (not (occupied c i) && (not (i == 0) && ltb i 8))
  unfolding backup_bitset
  test_bit-backup_bitset i =
      ground (arith, test_bit_masked (bit_not 32 (load_version c).bitmap) i, not-occupied i)

  -- `MatchBitSet` is the set of the live slots whose tag is the given one.
  pub test_bit-match_bitset :
      (h2 i : ℕ) → test_bit (match_bitset c h2) i ≡ (live c i && h2 == c.tags i)
  unfolding match_bitset
  test_bit-match_bitset h2 i =
      let v = load_version c in
      let mask = movemask 8 (λ i. h2 == c.tags i) in
      ground (
        arith,
        test_bit_masked (bit_and (bit_and mask v.bitmap) (bit_not 32 v.bitmap_deleted)) i,
        test_bit-bit_and (bit_and mask v.bitmap) (bit_not 32 v.bitmap_deleted) i,
        test_bit-bit_and mask v.bitmap i,
        test_bit-movemask 8 (λ i. h2 == c.tags i) i,
        not-deleted i,
        occupied_range i,
      )
