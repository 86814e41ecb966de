-- ===== src/BitLock/Word.antt =====
-- The bits of a lock word under the tests and writes of the lock functions.
use turbo_hash.Common.{
  ℕ, ◌^◌, ◌<◌, ◌≡◌, refl, false, ◌&&◌, ◌||◌, not, ◌==◌, bit_and, arith, Bool-cases, inl, inr,
  ==_iff,
}
use turbo_hash.Common.Bits.{
  test_bit, bit_not, test_bit-bit_and, test_bit-bit_or, test_bit-bit_not, test_bit-pow,
  test_bit_high, test_bit_ext, bit_and-lt, bit_or-lt,
}
use turbo_hash.Probe.Path.{pow_mono}
use turbo_hash.BitLock.{lock_busy, set_lock, clear_lock}

pub pow_small : (p : ℕ) → p < 32 → 2 ^ p < 2 ^ 32
pow_small p h = omega (arith, pow_mono p 31 (omega arith))

pub zero_bit : (i : ℕ) → test_bit 0 i ≡ false
zero_bit i = test_bit_high 0 0 i (omega arith) (omega arith)

only_bit : (v p i : ℕ) → test_bit (bit_and v (2 ^ p)) i ≡ (test_bit v i && (p == i))
only_bit v p i = ground (arith, test_bit-bit_and v (2 ^ p) i, test_bit-pow p i)

no_bit : (v p : ℕ) → p < 32 → test_bit v p ≡ false → bit_and v (2 ^ p) ≡ 0
no_bit v p small h =
    test_bit_ext 32 (bit_and v (2 ^ p)) 0 (bit_and-lt 32 v (2 ^ p) (pow_small p small))
      (omega arith)
      (λ i. elim (Bool-cases (p == i)) [
        | inl e ↦
            let same : p ≡ i = ground arith in
            ground (arith, only_bit v p i, zero_bit i, rw same at h)
        | inr e ↦ ground (arith, only_bit v p i, zero_bit i)
      ])

-- The test of the lock functions reads the bit.
pub lock_busy-bit : (v p : ℕ) → p < 32 → lock_busy v p ≡ test_bit v p
unfolding lock_busy
lock_busy-bit v p small = elim (Bool-cases (test_bit v p)) [
  | inl h ↦ elim (Bool-cases (bit_and v (2 ^ p) == 0)) [
    | inl e ↦
        let none : bit_and v (2 ^ p) ≡ 0 = (==_iff _ 0).0 e in
        absurd (ground (arith, rw none at (only_bit v p p), zero_bit p, h, (==_iff p p).1 refl))
    | inr e ↦ rw (e, h) refl
  ]
  | inr h ↦ rw (no_bit v p small h, h) refl
]

pub test_bit-set_lock : (v p i : ℕ) → test_bit (set_lock v p) i ≡ (test_bit v i || (p == i))
unfolding set_lock
test_bit-set_lock v p i = ground (arith, test_bit-bit_or v (2 ^ p) i, test_bit-pow p i)

pub test_bit-clear_lock :
    (v p i : ℕ) → p < 32 → i < 32 → test_bit (clear_lock v p) i ≡ (test_bit v i && not (p == i))
unfolding clear_lock
test_bit-clear_lock v p i small h = ground (
  arith,
  test_bit-bit_and v (bit_not 32 (2 ^ p)) i,
  test_bit-bit_not 32 (2 ^ p) i (pow_small p small) h,
  test_bit-pow p i,
)

pub set_lock-lt : (v p : ℕ) → v < 2 ^ 32 → p < 32 → set_lock v p < 2 ^ 32
unfolding set_lock
set_lock-lt v p h small = bit_or-lt 32 v (2 ^ p) h (pow_small p small)

pub clear_lock-lt : (v p : ℕ) → clear_lock v p < 2 ^ 32
unfolding clear_lock
clear_lock-lt v p = bit_and-lt 32 v (bit_not 32 (2 ^ p)) (omega arith)
