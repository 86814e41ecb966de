-- ===== src/BucketMeta/Fields.antt =====
-- The fields of a bucket's word, and `Reset` as a write of the thread that has the bucket lock.
use turbo_hash.Common.{
  ℕ, zero, suc, ◌+◌, ◌-◌, ◌*◌, ◌/◌, ◌%◌, ◌^◌, ◌<◌, ◌≡◌, refl, ap, arith, bit_and, bit_or, true,
}
use turbo_hash.Common.Bits.{test_bit, bit_and_mask, test_bit-mod, zero-bit_or}
use native.Mathlib.Nat.{pow-suc, one-le-pow}
use turbo_hash.Probe.Path.{pow_mono}
use turbo_hash.Common.Fields.{bit_or-zero, bit_or-add, bit_or_fields}
use turbo_hash.BitSet.{ctz}
use turbo_hash.BitLock.{lock_busy, Step, System, holding, write}
use turbo_hash.BitLock.Word.{lock_busy-bit}
use turbo_hash.BucketMeta.{new_meta, address, cell_count, cell_count_mask, reset}

pub ctz-pow : (w s : ℕ) → s < w → ctz w (2 ^ s) ≡ s
unfolding ctz
ctz-pow zero s h = absurd (omega arith)
ctz-pow (suc w) zero h = refl
ctz-pow (suc w) (suc s) h =
    let half : 2 ^ suc s / 2 ≡ 2 ^ s = omega (arith, pow-suc 2 s) in
    rw half (ground (arith, pow-suc 2 s, ctz-pow w s (omega arith)))

-- What a bucket's word says.
pub record Says (low addr s w : ℕ) : Type 0 where
  pub fits : w < 2 ^ 64
  pub lock_byte : w % 2 ^ 8 ≡ low
  pub at : address w ≡ addr
  pub cells : cell_count w ≡ 2 ^ s
  pub mask : cell_count_mask w ≡ 2 ^ s - 1

module _ (low addr s w : ℕ) (small : low < 2 ^ 8) (short : addr < 2 ^ 48) (few : s < 32)
    (fields : w ≡ addr * 2 ^ 16 + (s * 2 ^ 8 + low)) where
  shift_of : bit_and (w / 2 ^ 8) 0xFF ≡ s
  shift_of = omega (arith, bit_and_mask 8 (w / 2 ^ 8))

  count_of : cell_count w ≡ 2 ^ s
  unfolding cell_count
  count_of = rw shift_of (omega (arith, pow_mono s 31 (omega arith)))

  fields-Says : Says low addr s w
  unfolding address cell_count_mask
  fields-Says = record {
    fits = omega arith;
    lock_byte = omega arith;
    at = omega arith;
    cells = count_of;
    mask = rw count_of (omega (arith, pow_mono s 31 (omega arith), one-le-pow s 2));
  }

reset_fields :
    (w addr s : ℕ)
    → addr < 2 ^ 48
    → s < 32
    → reset w addr (2 ^ s) ≡ addr * 2 ^ 16 + (s * 2 ^ 8 + w % 2 ^ 8)
unfolding reset
reset_fields w addr s short few =
    let moved : addr * 2 ^ 16 % 2 ^ 64 ≡ addr * 2 ^ 16 = omega arith in
    let locks : bit_and w 0xFF ≡ w % 2 ^ 8 = bit_and_mask 8 w in
    let low = bit_or-add 16 addr (w % 2 ^ 8) (omega arith) in
    let both = bit_or_fields 16 addr (w % 2 ^ 8) 0 (s * 2 ^ 8) (omega arith) (omega arith) in
    let none : 0 * 2 ^ 16 + s * 2 ^ 8 ≡ s * 2 ^ 8 = omega arith in
    let both' : bit_or (addr * 2 ^ 16 + w % 2 ^ 8) (s * 2 ^ 8)
        ≡ bit_or addr 0 * 2 ^ 16 + bit_or (w % 2 ^ 8) (s * 2 ^ 8) =
      rw none at both in
    rw (ctz-pow 32 s few, moved, locks, low, both', bit_or-zero addr)
      (omega (arith, bit_or-add 8 s (w % 2 ^ 8) (omega arith)))

new_fields :
    (addr s : ℕ) → addr < 2 ^ 48 → s < 32 → new_meta addr (2 ^ s) ≡ addr * 2 ^ 16 + (s * 2 ^ 8 + 0)
unfolding new_meta
new_fields addr s short few =
    let moved : addr * 2 ^ 16 % 2 ^ 64 ≡ addr * 2 ^ 16 + 0 = omega arith in
    let both = bit_or_fields 16 addr 0 0 (s * 2 ^ 8) (omega arith) (omega arith) in
    let none : 0 * 2 ^ 16 + s * 2 ^ 8 ≡ s * 2 ^ 8 = omega arith in
    let both' : bit_or (addr * 2 ^ 16 + 0) (s * 2 ^ 8)
        ≡ bit_or addr 0 * 2 ^ 16 + bit_or 0 (s * 2 ^ 8) =
      rw none at both in
    rw (ctz-pow 32 s few, moved, both', bit_or-zero addr) (omega (arith, zero-bit_or (s * 2 ^ 8)))

-- The lock bits are those of the low byte.
lock_busy-low :
    (w v p : ℕ)
    → p < 8
    → w % 2 ^ 8 ≡ v % 2 ^ 8
    → lock_busy (w % 2 ^ 32) p ≡ lock_busy (v % 2 ^ 32) p
lock_busy-low w v p low same = ground (
  arith,
  lock_busy-bit (w % 2 ^ 32) p (omega arith),
  lock_busy-bit (v % 2 ^ 32) p (omega arith),
  test_bit-mod 32 w p,
  test_bit-mod 32 v p,
  test_bit-mod 8 w p,
  test_bit-mod 8 v p,
  ap (λ (t : ℕ). test_bit t p) same,
)

module _ (w addr s : ℕ) (short : addr < 2 ^ 48) (few : s < 32) where
  -- For an address of 48 bits and 2 ^ s cells, s below 32, `Address`, `CellCount` and
  -- `CellCountMask` after `Reset` give them back, the low byte of the word stays, and so do all
  -- lock bits in it; a word that the constructor makes says the same with the low byte 0.
  pub reset-Says :
      Says (w % 2 ^ 8) addr s (reset w addr (2 ^ s))
      × ((p : ℕ) → p < 8 → lock_busy (reset w addr (2 ^ s) % 2 ^ 32) p ≡ lock_busy (w % 2 ^ 32) p)
      × Says 0 addr s (new_meta addr (2 ^ s))
  reset-Says =
      let says =
        fields-Says (w % 2 ^ 8) addr s (reset w addr (2 ^ s)) (omega arith) short few
          (reset_fields w addr s short few) in
      (
        says,
        λ p low. lock_busy-low (reset w addr (2 ^ s)) w p low says.lock_byte,
        fields-Says 0 addr s (new_meta addr (2 ^ s)) (omega arith) short few
            (new_fields addr s short few),
      )

  -- `Reset` by the thread that has the lock of bit `p`, below 8, is a write that the locks allow.
  pub reset-Step :
      (p i : ℕ) (t : System)
      → p < 8
      → t.word ≡ w % 2 ^ 32
      → t.pc i ≡ holding
      → lock_busy t.word p ≡ true
      → Step (λ j. p) t (record t { word = reset w addr (2 ^ s) % 2 ^ 32 })
  reset-Step p i t low same at busy =
      write i (reset w addr (2 ^ s) % 2 ^ 32) at (omega arith)
        (ground (arith, reset-Says.1 p low, rw same at busy))
