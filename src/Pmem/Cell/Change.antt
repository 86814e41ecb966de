-- ===== src/Pmem/Cell/Change.antt =====
-- How the writers of CellMeta256V2 change the slots that are live.
use turbo_hash.Common.{
  ℕ, ◌%◌, ◌^◌, ◌<◌, ◌≡◌, refl, arith, bit_and, bit_or, bit_xor, true, false, ◌&&◌, ◌||◌, not, xor,
  ◌==◌, ltb, if◌then◌else◌,
}
use turbo_hash.Common.Bits.{
  test_bit, bit_not, test_bit-bit_and, test_bit-bit_or, test_bit-bit_xor, test_bit-bit_not,
  test_bit-mod, test_bit-pow,
}
use turbo_hash.Cell.Change.{pow-lt}
use turbo_hash.Pmem.Cell.{
  Version, of_data, to_data, load_version, set_slot, exchange_slot, mark_deleted,
}
use turbo_hash.Pmem.Cell.Live.{
  occupied, deleted, live, is_slot, occupied_lem, deleted_lem, stored_occupied, stored_deleted,
}

module _ (w : ℕ) where
  abbrev version : Version
  version = load_version w

  pub bitmap-lt : version.bitmap < 2 ^ 16
  unfolding load_version of_data
  bitmap-lt = omega arith

  pub bitmap_deleted-lt : version.bitmap_deleted < 2 ^ 16
  unfolding load_version of_data
  bitmap_deleted-lt = omega arith

module _ (w i : ℕ) (slot : is_slot i ≡ true) (j : ℕ) where
  cleared : j < 16 → test_bit (bit_not 32 (2 ^ i)) j ≡ not (i == j)
  cleared h =
      rw
        (
          test_bit-bit_not 32 (2 ^ i) j (pow-lt i 32 (ground (arith, slot))) (omega arith),
          test_bit-pow i j,
        )
        refl

  -- The deleted bitmap that both insertions write.
  cleared_lem :
      test_bit (bit_and (load_version w).bitmap_deleted (bit_not 32 (2 ^ i)) % 2 ^ 16) j
      ≡ (if ltb j 16 then deleted w j && not (i == j) else false)
  cleared_lem = ground (
    arith,
    test_bit-mod 16 (bit_and (load_version w).bitmap_deleted (bit_not 32 (2 ^ i))) j,
    test_bit-bit_and (load_version w).bitmap_deleted (bit_not 32 (2 ^ i)) j,
    cleared,
  )

  pub live_set : live (to_data (set_slot (load_version w) i)) j ≡ (i == j || live w j)
  unfolding set_slot
  live_set =
      let v = set_slot (load_version w) i in
      ground (
        arith,
        slot,
        stored_occupied v (omega arith) (omega arith) j,
        stored_deleted v (omega arith) (omega arith) j,
        occupied_lem w j,
        deleted_lem w j,
        test_bit-mod 16 (bit_or (load_version w).bitmap (2 ^ i)) j,
        test_bit-bit_or (load_version w).bitmap (2 ^ i) j,
        test_bit-pow i j,
        cleared_lem,
      )

  pub live_exchange :
      (old : ℕ)
      → live w old ≡ true
      → (i == old) ≡ false
      → live (to_data (exchange_slot (load_version w) i old)) j
        ≡ (i == j || live w j && not (old == j))
  unfolding exchange_slot xor
  live_exchange old alive apart =
      let v = exchange_slot (load_version w) i old in
      let of_old : (old == j) ≡ true → occupied w j ≡ true = λ e.
        let same : old ≡ j = ground (arith, e) in
        let there : occupied w old ≡ true = ground (arith, alive) in rw same at there in
      ground (
        arith,
        slot,
        apart,
        of_old,
        stored_occupied v (omega arith) (omega arith) j,
        stored_deleted v (omega arith) (omega arith) j,
        occupied_lem w j,
        deleted_lem w j,
        test_bit-mod 16 (bit_xor (bit_or (load_version w).bitmap (2 ^ i)) (2 ^ old)) j,
        test_bit-bit_xor (bit_or (load_version w).bitmap (2 ^ i)) (2 ^ old) j,
        test_bit-bit_or (load_version w).bitmap (2 ^ i) j,
        test_bit-pow i j,
        test_bit-pow old j,
        cleared_lem,
      )

  pub live_mark : live (to_data (mark_deleted (load_version w) i)) j ≡ (live w j && not (i == j))
  unfolding mark_deleted
  live_mark =
      let v = mark_deleted (load_version w) i in
      ground (
        arith,
        slot,
        bitmap-lt w,
        stored_occupied v (bitmap-lt w) (omega arith) j,
        stored_deleted v (bitmap-lt w) (omega arith) j,
        occupied_lem w j,
        deleted_lem w j,
        test_bit-mod 16 (bit_or (load_version w).bitmap_deleted (2 ^ i)) j,
        test_bit-bit_or (load_version w).bitmap_deleted (2 ^ i) j,
        test_bit-pow i j,
      )
