-- ===== src/Pinned/Count.antt =====
-- What the tests of the decision say of the cell.
use turbo_hash.Common.{
  ℕ, zero, suc, ◌+◌, ◌/◌, ◌^◌, ◌<◌, ◌≡◌, refl, ap, arith, bit_and, true, not, ◌==◌, Bool-cases, inl,
  inr,
}
use turbo_hash.Common.Bits.{
  test_bit, to_bit, test_bit-bit_and, test_bit-pow, test_bit-div, test_bit_ext, test_bit_high,
  bit_and_mask, bit_and-lt,
}
use native.Mathlib.Nat.{one-le-pow}
use turbo_hash.BitSet.{popcount, valid_count}
use turbo_hash.Cell.{Cell, load_version, occupy, is_deleted, backup_bitset, bit_map_mask}
use turbo_hash.Cell.Live.{
  occupied, deleted, occupied_range, test_bit_masked, test_bit_mask, test_bit-backup_bitset,
}
use turbo_hash.Cell.Spare.{occupied_count}
use turbo_hash.Cell.Change.{pow-lt}

-- Two words that share the bits of a third.
popcount_split :
    (w a b m : ℕ)
    → ((i : ℕ) → i < w → to_bit (test_bit a i) + to_bit (test_bit b i) ≡ to_bit (test_bit m i))
    → popcount w a + popcount w b ≡ popcount w m
unfolding popcount test_bit
popcount_split zero a b m h = refl
popcount_split (suc w) a b m h =
    ground (arith, h 0, popcount_split w (a / 2) (b / 2) (m / 2) (λ i p. h (suc i) (omega arith)))

-- `w & (1 << i)` is 0 exactly if bit `i` of `w` is.
bit_and-pow : (w i : ℕ) → (bit_and w (2 ^ i) == 0) ≡ not (test_bit w i)
bit_and-pow w i =
    let itself = test_bit-bit_and w (2 ^ i) i in
    elim (Bool-cases (test_bit w i)) [
      | inl set ↦
          let one : test_bit (bit_and w (2 ^ i)) i ≡ true =
            ground (arith, itself, set, test_bit-pow i i) in
          let nonzero : bit_and w (2 ^ i) ≡ 0 → ⊥ = λ e.
            let none = rw e at one in
            let low = test_bit_high 0 0 i (omega arith) (omega arith) in cc in
          ground (arith, set, nonzero)
      | inr clear ↦
          let zero_word : bit_and w (2 ^ i) ≡ 0 =
            test_bit_ext (suc i) (bit_and w (2 ^ i)) 0
              (bit_and-lt (suc i) w (2 ^ i) (pow-lt i (suc i) (omega arith)))
              (omega (arith, one-le-pow (suc i) 2))
              (λ j. ground (
                arith,
                test_bit-bit_and w (2 ^ i) j,
                test_bit-pow i j,
                test_bit_high 0 0 j,
                bit_eq w i j,
                clear,
              )) in
          ground (arith, clear, zero_word)
    ]
  where
    bit_eq : (w i j : ℕ) → (i == j) ≡ true → test_bit w i ≡ test_bit w j
    bit_eq w i j e = let same : i ≡ j = ground (arith, e) in ap (test_bit w) same

module _ {E : Type 0} (c : Cell E) where
  -- A slot is occupied or a backup slot.
  pub backup_count : valid_count (backup_bitset c) + occupied_count c ≡ 7
  unfolding valid_count popcount
  backup_count =
      popcount_split 32 (backup_bitset c) (bit_and (load_version c).bitmap bit_map_mask) 0xFE
        (λ i p. ground (
          arith,
          test_bit-backup_bitset c i,
          test_bit_masked (load_version c).bitmap i,
          occupied_range c i,
          test_bit_mask i,
          test_bit_high 8 0xFE i,
        ))

  pub is_deleted_lem : (i : ℕ) → is_deleted c i ≡ deleted c i
  unfolding is_deleted test_bit
  is_deleted_lem i = ground (
    arith,
    bit_and_mask 1 ((load_version c).bitmap_deleted / 2 ^ i),
    test_bit-div i (load_version c).bitmap_deleted 0,
  )

  pub occupy_lem : (i : ℕ) → occupy c i ≡ occupied c i
  unfolding occupy
  occupy_lem i = ground (arith, bit_and-pow (load_version c).bitmap i)
