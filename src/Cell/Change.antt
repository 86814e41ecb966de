-- ===== src/Cell/Change.antt =====
-- How the writes of a version change the slots of a cell.
use turbo_hash.Common.{
  ℕ, zero, suc, ◌^◌, ◌<◌, ◌≡◌, refl, arith, bit_and, bit_or, bit_xor, false, ◌&&◌, ◌||◌, not, xor,
  ◌==◌, ltb, if◌then◌else◌,
}
use turbo_hash.Common.Bits.{
  test_bit, bit_not, test_bit-bit_and, test_bit-bit_or, test_bit-bit_xor, test_bit-bit_not,
  test_bit-mod, test_bit-pow,
}
use turbo_hash.Cell.{
  Version, Cell, load_version, store_version, set_slot, exchange_slot, mark_deleted,
}
use turbo_hash.Cell.Word.{IsVersion, load_version-store_version, load_version-IsVersion}
use turbo_hash.Cell.Live.{test_bit_masked, occupied, deleted, occupied_range, deleted_range}
use native.Mathlib.Nat.{pow-suc, one-le-pow}

module _ {E : Type 0} (c : Cell E) (v : Version) (h : IsVersion v) where
  pub occupied-store_version :
      (j : ℕ) → occupied (store_version c v) j ≡ (test_bit v.bitmap j && (not (j == 0) && ltb j 8))
  occupied-store_version j = rw (load_version-store_version c v h) (test_bit_masked v.bitmap j)

  pub deleted-store_version :
      (j : ℕ)
      → deleted (store_version c v) j ≡ (test_bit v.bitmap_deleted j && (not (j == 0) && ltb j 8))
  deleted-store_version j =
      rw (load_version-store_version c v h) (test_bit_masked v.bitmap_deleted j)

pub pow-lt : (i w : ℕ) → i < w → 2 ^ i < 2 ^ w
pow-lt i zero h = absurd (omega arith)
pow-lt zero (suc w) h = omega (arith, pow-suc 2 w, one-le-pow w 2)
pow-lt (suc i) (suc w) h = omega (arith, pow-suc 2 w, pow-suc 2 i, pow-lt i w (omega arith))

module _ (v : Version) (i : ℕ) where
  pub set_slot-IsVersion : IsVersion v → IsVersion (set_slot v i)
  unfolding set_slot
  set_slot-IsVersion h = omega arith

  pub exchange_slot-IsVersion : (old : ℕ) → IsVersion v → IsVersion (exchange_slot v i old)
  unfolding exchange_slot
  exchange_slot-IsVersion old h = omega arith

  pub mark_deleted-IsVersion : IsVersion v → IsVersion (mark_deleted v i)
  unfolding mark_deleted
  mark_deleted-IsVersion h = omega arith

mark_deleted-bitmap : (v : Version) (i : ℕ) → (mark_deleted v i).bitmap ≡ v.bitmap
unfolding mark_deleted
mark_deleted-bitmap v i = refl

module _ (v : Version) (i : ℕ) (high : i < 8) (j : ℕ) where
  test_bit_cleared : j < 8 → test_bit (bit_not 32 (2 ^ i)) j ≡ not (i == j)
  test_bit_cleared h =
      rw (test_bit-bit_not 32 (2 ^ i) j (pow-lt i 32 (omega arith)) (omega arith), test_bit-pow i j)

  set_slot-bitmap :
      test_bit (set_slot v i).bitmap j ≡ (if ltb j 8 then test_bit v.bitmap j || i == j else false)
  unfolding set_slot
  set_slot-bitmap = rw (
    test_bit-mod 8 (bit_or v.bitmap (2 ^ i)) j,
    test_bit-bit_or v.bitmap (2 ^ i) j,
    test_bit-pow i j,
  )

  set_slot-deleted :
      test_bit (set_slot v i).bitmap_deleted j
      ≡ (if ltb j 8 then test_bit v.bitmap_deleted j && not (i == j) else false)
  unfolding set_slot
  set_slot-deleted = ground (
    arith,
    test_bit-mod 8 (bit_and v.bitmap_deleted (bit_not 32 (2 ^ i))) j,
    test_bit-bit_and v.bitmap_deleted (bit_not 32 (2 ^ i)) j,
    test_bit_cleared,
  )

  exchange_slot-deleted :
      (old : ℕ)
      → test_bit (exchange_slot v i old).bitmap_deleted j
        ≡ (if ltb j 8 then test_bit v.bitmap_deleted j && not (i == j) else false)
  unfolding exchange_slot set_slot
  exchange_slot-deleted old = set_slot-deleted

  exchange_slot-bitmap :
      (old : ℕ)
      → test_bit (exchange_slot v i old).bitmap j
        ≡ (if ltb j 8 then xor (test_bit v.bitmap j || i == j) (old == j) else false)
  unfolding exchange_slot
  exchange_slot-bitmap old = rw (
    test_bit-mod 8 (bit_xor (bit_or v.bitmap (2 ^ i)) (2 ^ old)) j,
    test_bit-bit_xor (bit_or v.bitmap (2 ^ i)) (2 ^ old) j,
    test_bit-bit_or v.bitmap (2 ^ i) j,
    test_bit-pow i j,
    test_bit-pow old j,
  )

  mark_deleted-deleted :
      test_bit (mark_deleted v i).bitmap_deleted j
      ≡ (if ltb j 8 then test_bit v.bitmap_deleted j || i == j else false)
  unfolding mark_deleted
  mark_deleted-deleted = rw (
    test_bit-mod 8 (bit_or v.bitmap_deleted (2 ^ i)) j,
    test_bit-bit_or v.bitmap_deleted (2 ^ i) j,
    test_bit-pow i j,
  )

module _ {E : Type 0} (c : Cell E) (i : ℕ) (low : 0 < i) (high : i < 8) (j : ℕ) where
  abbrev version : Version
  version = load_version c

  abbrev is_version : IsVersion version
  is_version = load_version-IsVersion c

  pub set_slot_lem :
      (occupied (store_version c (set_slot version i)) j ≡ (i == j || occupied c j))
      × (deleted (store_version c (set_slot version i)) j ≡ (deleted c j && not (i == j)))
  set_slot_lem =
      let v = set_slot version i in
      let h = set_slot-IsVersion version i is_version in
      (
        ground (
          arith,
          occupied-store_version c v h j,
          set_slot-bitmap version i high j,
          occupied_range c j,
        ),
        ground (
          arith,
          deleted-store_version c v h j,
          set_slot-deleted version i high j,
          deleted_range c j,
        ),
      )

  -- After the update of a key, for slots between 1 and 7, the new slot is occupied, the occupied bit
  -- of the old slot is toggled, the new slot is not deleted, and every other slot is as before.
  pub exchange_slot_lem :
      (old : ℕ)
      → 0 < old
      → old < 8
      → (occupied (store_version c (exchange_slot version i old)) j
          ≡ xor (i == j || occupied c j) (old == j))
        × (deleted (store_version c (exchange_slot version i old)) j
            ≡ (deleted c j && not (i == j)))
  unfolding xor
  exchange_slot_lem old low' high' =
      let v = exchange_slot version i old in
      let h = exchange_slot-IsVersion version i old is_version in
      (
        ground (
          arith,
          occupied-store_version c v h j,
          exchange_slot-bitmap version i high j old,
          occupied_range c j,
        ),
        ground (
          arith,
          deleted-store_version c v h j,
          exchange_slot-deleted version i high j old,
          deleted_range c j,
        ),
      )

  pub mark_deleted_lem :
      (occupied (store_version c (mark_deleted version i)) j ≡ occupied c j)
      × (deleted (store_version c (mark_deleted version i)) j ≡ (deleted c j || i == j))
  mark_deleted_lem =
      let v = mark_deleted version i in
      let h = mark_deleted-IsVersion version i is_version in
      (
        ground (
          arith,
          occupied-store_version c v h j,
          occupied_range c j,
          mark_deleted-bitmap version i,
        ),
        ground (
          arith,
          deleted-store_version c v h j,
          mark_deleted-deleted version i high j,
          deleted_range c j,
        ),
      )
