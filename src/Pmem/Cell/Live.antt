-- ===== src/Pmem/Cell/Live.antt =====
-- The slots that a version word of CellMeta256V2 says are live, and how the writers change it.
use turbo_hash.Common.{
  ℕ, ◌+◌, ◌-◌, ◌*◌, ◌/◌, ◌^◌, ◌<◌, ◌≡◌, sym, arith, bit_and, Bool, ◌&&◌, not, ltb, if◌then◌else◌,
}
use turbo_hash.Common.Bits.{
  test_bit, test_bit-bit_and, test_bit-mod, test_bit-div, test_bit-add_mul, test_bit_high,
  test_bit-ones,
}
use turbo_hash.Pmem.Cell.{Version, of_data, to_data, load_version}

abbrev pub occupied : ℕ → ℕ → Bool
occupied w i = test_bit (load_version w).bitmap i

abbrev pub deleted : ℕ → ℕ → Bool
deleted w i = test_bit (load_version w).bitmap_deleted i

abbrev pub live : ℕ → ℕ → Bool
live w i = occupied w i && not (deleted w i)

-- The slots of a cell.
abbrev pub is_slot : ℕ → Bool
is_slot i = ltb 1 i && ltb i 16

pub low_mask : (i : ℕ) → i < 16 → test_bit 0xFFFC i ≡ ltb 1 i
low_mask i h =
    let split : test_bit 0xFFFC i
        ≡ (if ltb i 2 then test_bit 0 i else test_bit (2 ^ 14 - 1) (i - 2)) =
      test_bit-add_mul 2 (2 ^ 14 - 1) 0 i (omega arith) in
    ground (arith, split, test_bit_high 0 0 i, test_bit-ones 14 (i - 2))

word_mask : (i : ℕ) → i < 16 → test_bit 0xFFFF_FFFF_FFFC_FFFC i ≡ ltb 1 i
word_mask i h =
    let split : test_bit 0xFFFF_FFFF_FFFC_FFFC i
        ≡ (if ltb i 16 then test_bit 0xFFFC i else test_bit 0xFFFF_FFFF_FFFC (i - 16)) =
      test_bit-add_mul 16 0xFFFF_FFFF_FFFC 0xFFFC i (omega arith) in
    ground (arith, split, low_mask i h)

word_mask_high : (i : ℕ) → i < 16 → test_bit 0xFFFF_FFFF_FFFC_FFFC (16 + i) ≡ ltb 1 i
word_mask_high i h =
    let high : test_bit 0xFFFF_FFFF_FFFC_FFFC (16 + i) ≡ test_bit 0xFFFF_FFFF_FFFC i =
      sym (test_bit-div 16 0xFFFF_FFFF_FFFC_FFFC i) in
    let split : test_bit 0xFFFF_FFFF_FFFC i
        ≡ (if ltb i 16 then test_bit 0xFFFC i else test_bit 0xFFFF_FFFF (i - 16)) =
      test_bit-add_mul 16 0xFFFF_FFFF 0xFFFC i (omega arith) in
    ground (arith, high, split, low_mask i h)

-- What `LoadVersion` reads of a word.
pub occupied_lem : (w i : ℕ) → occupied w i ≡ (is_slot i && test_bit w i)
unfolding load_version of_data
occupied_lem w i = ground (
  arith,
  test_bit-mod 16 (bit_and w 0xFFFF_FFFF_FFFC_FFFC) i,
  test_bit-bit_and w 0xFFFF_FFFF_FFFC_FFFC i,
  word_mask i,
)

pub deleted_lem : (w i : ℕ) → deleted w i ≡ (is_slot i && test_bit w (16 + i))
unfolding load_version of_data
deleted_lem w i = ground (
  arith,
  test_bit-mod 16 (bit_and w 0xFFFF_FFFF_FFFC_FFFC / 2 ^ 16) i,
  test_bit-div 16 (bit_and w 0xFFFF_FFFF_FFFC_FFFC) i,
  test_bit-bit_and w 0xFFFF_FFFF_FFFC_FFFC (16 + i),
  word_mask_high i,
)

module _ (v : Version) (b : v.bitmap < 2 ^ 16) (d : v.bitmap_deleted < 2 ^ 16) (i : ℕ) where
  pub stored_occupied : occupied (to_data v) i ≡ (is_slot i && test_bit v.bitmap i)
  unfolding to_data
  stored_occupied = ground (
    arith,
    occupied_lem (to_data v) i,
    test_bit-add_mul 16 (v.seq_no * 2 ^ 16 + v.bitmap_deleted) v.bitmap i b,
  )

  pub stored_deleted : deleted (to_data v) i ≡ (is_slot i && test_bit v.bitmap_deleted i)
  unfolding to_data
  stored_deleted =
      let back : 16 + i - 16 ≡ i = omega arith in
      ground (
        arith,
        back,
        deleted_lem (to_data v) i,
        test_bit-add_mul 16 (v.seq_no * 2 ^ 16 + v.bitmap_deleted) v.bitmap (16 + i) b,
        test_bit-add_mul 16 v.seq_no v.bitmap_deleted i d,
      )
