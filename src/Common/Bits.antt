-- ===== src/Common/Bits.antt =====
-- `&`, `|`, `^`, `<<` and `~` of machine words, read bit by bit.
use Prim.Native.Nat.{ℕ, zero, suc, ◌+◌, ◌-◌, ◌*◌, ◌/◌, ◌%◌, ◌^◌, ◌≤◌, ◌<◌}
use Prim.Native.Nat.{bit_and, bit_or, bit_xor}
use Prim.Native.Nat.{bit_and-bitwise, bit_or-bitwise, bit_xor-bitwise}
use mathlib.Core.Path.{◌≡◌, refl, ap}
use mathlib.Core.Bool.{Bool, true, false, ◌&&◌, ◌||◌, not, xor}
use native.Mathlib.Nat.{le_refl, pow-suc, one-le-pow, mod-lt}
use native.Mathlib.Omega.{arith}
use turbo_hash.Common.Tests.{ltb, ◌==◌, if◌then◌else◌}
use turbo_hash.Common.Digits.{bit_and_step, bit_or_step, bit_xor_step, differ_lem}

-- The value of a Boolean as a binary digit.
abbrev pub to_bit : Bool → ℕ
to_bit true = 1
to_bit false = 0

-- Bit `i` of `w`.
unfoldable pub test_bit : ℕ → ℕ → Bool
test_bit w zero = w % 2 == 1
test_bit w (suc i) = test_bit (w / 2) i

-- The bits of `a & b`, `a | b` and `a / 2`.
pub test_bit-bit_and : (a b i : ℕ) → test_bit (bit_and a b) i ≡ (test_bit a i && test_bit b i)
unfolding test_bit
test_bit-bit_and a b zero = ground (arith, bit_and_step a b)
test_bit-bit_and a b (suc i) =
    let h : bit_and a b / 2 ≡ bit_and (a / 2) (b / 2) = omega (arith, bit_and_step a b) in
    rw h (test_bit-bit_and (a / 2) (b / 2) i)

pub test_bit-bit_or : (a b i : ℕ) → test_bit (bit_or a b) i ≡ (test_bit a i || test_bit b i)
unfolding test_bit
test_bit-bit_or a b zero = ground (arith, bit_or_step a b)
test_bit-bit_or a b (suc i) =
    let h : bit_or a b / 2 ≡ bit_or (a / 2) (b / 2) = omega (arith, bit_or_step a b) in
    rw h (test_bit-bit_or (a / 2) (b / 2) i)

zero-test_bit : (i : ℕ) → test_bit 0 i ≡ false
unfolding test_bit
zero-test_bit zero = refl
zero-test_bit (suc i) = zero-test_bit i

-- Bit `j` of `1 << i`.
pub test_bit-pow : (i j : ℕ) → test_bit (2 ^ i) j ≡ (i == j)
unfolding test_bit
test_bit-pow zero zero = refl
test_bit-pow zero (suc j) = ground (arith, zero-test_bit j)
test_bit-pow (suc i) zero = ground (arith, pow-suc 2 i)
test_bit-pow (suc i) (suc j) =
    let h : 2 ^ suc i / 2 ≡ 2 ^ i = omega (arith, pow-suc 2 i) in
    rw h (ground (arith, test_bit-pow i j))

-- A word of `w` bits has no bit from `w` on.
pub test_bit_high : (w a i : ℕ) → a < 2 ^ w → w ≤ i → test_bit a i ≡ false
unfolding test_bit
test_bit_high zero a i h p = let e : a ≡ 0 = omega arith in rw e (zero-test_bit i)
test_bit_high (suc w) a zero h p = absurd (omega arith)
test_bit_high (suc w) a (suc i) h p =
    test_bit_high w (a / 2) i (omega (arith, pow-suc 2 w)) (omega arith)

-- The word whose `w` low bits are set has exactly those.
pub test_bit-ones : (w i : ℕ) → i < w → test_bit (2 ^ w - 1) i ≡ true
unfolding test_bit
test_bit-ones zero i h = absurd (omega arith)
test_bit-ones (suc w) zero h = ground (arith, pow-suc 2 w, one-le-pow w 2)
test_bit-ones (suc w) (suc i) h =
    let e : (2 ^ suc w - 1) / 2 ≡ 2 ^ w - 1 = omega (arith, pow-suc 2 w, one-le-pow w 2) in
    rw e (test_bit-ones w i (omega arith))

-- Two words with the same bits are the same number.
pub test_bit_ext :
    (w a b : ℕ) → a < 2 ^ w → b < 2 ^ w → ((i : ℕ) → test_bit a i ≡ test_bit b i) → a ≡ b
unfolding test_bit
test_bit_ext zero a b p q h = omega arith
test_bit_ext (suc w) a b p q h =
    let e =
      test_bit_ext w (a / 2) (b / 2) (omega (arith, pow-suc 2 w)) (omega (arith, pow-suc 2 w))
        (λ i. h (suc i)) in
    ground (arith, h 0)

pub zero-bit_and : (b : ℕ) → bit_and 0 b ≡ 0
zero-bit_and b = bit_and-bitwise 0 b

below_pow : (a : ℕ) → a < 2 ^ a
below_pow zero = omega arith
below_pow (suc a) = omega (arith, pow-suc 2 a, below_pow a)

bit_and-zero_width : (w a : ℕ) → a < 2 ^ w → bit_and a 0 ≡ 0
bit_and-zero_width zero a p = let none : a ≡ 0 = omega arith in rw none refl
bit_and-zero_width (suc w) a p =
    let high = bit_and-zero_width w (a / 2) (omega (arith, pow-suc 2 w)) in
    omega (arith, bit_and_step a 0, high)

pub bit_and-zero : (a : ℕ) → bit_and a 0 ≡ 0
bit_and-zero a = bit_and-zero_width a a (below_pow a)

pub bit_and-lt : (w a b : ℕ) → b < 2 ^ w → bit_and a b < 2 ^ w
bit_and-lt zero a b h = let e : b ≡ 0 = omega arith in rw (e, bit_and-zero a) (omega arith)
bit_and-lt (suc w) a b h = omega (
  arith,
  bit_and_step a b,
  pow-suc 2 w,
  bit_and-lt w (a / 2) (b / 2) (omega (arith, pow-suc 2 w)),
)

pub zero-bit_or : (b : ℕ) → bit_or 0 b ≡ b
zero-bit_or b = bit_or-bitwise 0 b

pub bit_or-lt : (w a b : ℕ) → a < 2 ^ w → b < 2 ^ w → bit_or a b < 2 ^ w
bit_or-lt zero a b h k = let e : a ≡ 0 = omega arith in rw (e, zero-bit_or b) k
bit_or-lt (suc w) a b h k = omega (
  arith,
  bit_or_step a b,
  pow-suc 2 w,
  bit_or-lt w (a / 2) (b / 2) (omega (arith, pow-suc 2 w)) (omega (arith, pow-suc 2 w)),
)

zero-bit_xor : (b : ℕ) → bit_xor 0 b ≡ b
zero-bit_xor b = bit_xor-bitwise 0 b

pub test_bit-bit_xor : (a b i : ℕ) → test_bit (bit_xor a b) i ≡ xor (test_bit a i) (test_bit b i)
unfolding test_bit xor
test_bit-bit_xor a b zero = ground (arith, bit_xor_step a b, differ_lem a b)
test_bit-bit_xor a b (suc i) =
    let h : bit_xor a b / 2 ≡ bit_xor (a / 2) (b / 2) =
      omega (arith, bit_xor_step a b, differ_lem a b) in
    rw h (test_bit-bit_xor (a / 2) (b / 2) i)

pub bit_xor-lt : (w a b : ℕ) → a < 2 ^ w → b < 2 ^ w → bit_xor a b < 2 ^ w
bit_xor-lt zero a b h k = let e : a ≡ 0 = omega arith in rw (e, zero-bit_xor b) k
bit_xor-lt (suc w) a b h k = omega (
  arith,
  bit_xor_step a b,
  differ_lem a b,
  pow-suc 2 w,
  bit_xor-lt w (a / 2) (b / 2) (omega (arith, pow-suc 2 w)) (omega (arith, pow-suc 2 w)),
)

-- `~a` in a word of `w` bits.
abbrev pub bit_not : ℕ → ℕ → ℕ
bit_not w a = 2 ^ w - 1 - a

pub test_bit-bit_not :
    (w a i : ℕ) → a < 2 ^ w → i < w → test_bit (bit_not w a) i ≡ not (test_bit a i)
unfolding test_bit
test_bit-bit_not zero a i h p = absurd (omega arith)
test_bit-bit_not (suc w) a zero h p = ground (arith, pow-suc 2 w, one-le-pow w 2)
test_bit-bit_not (suc w) a (suc i) h p =
    let e : (2 ^ suc w - 1 - a) / 2 ≡ 2 ^ w - 1 - a / 2 = omega (arith, pow-suc 2 w) in
    rw e (test_bit-bit_not w (a / 2) i (omega (arith, pow-suc 2 w)) (omega arith))

-- The bits of two fields side by side.
pub test_bit-add_mul :
    (k q r i : ℕ)
    → r < 2 ^ k
    → test_bit (q * 2 ^ k + r) i ≡ (if ltb i k then test_bit r i else test_bit q (i - k))
unfolding test_bit
test_bit-add_mul zero q r i h = let e : q * 2 ^ 0 + r ≡ q = omega arith in rw e (ground arith)
test_bit-add_mul (suc k) q r zero h =
    ground (arith, pow-suc 2 k, ap (λ (t : ℕ). q * t) (pow-suc 2 k))
test_bit-add_mul (suc k) q r (suc i) h =
    let e : (q * 2 ^ suc k + r) / 2 ≡ q * 2 ^ k + r / 2 =
      omega (arith, ap (λ (t : ℕ). q * t) (pow-suc 2 k), pow-suc 2 k) in
    rw e (ground (arith, test_bit-add_mul k q (r / 2) i (omega (arith, pow-suc 2 k))))

split_pow : (k a : ℕ) → (a / 2 ^ k * 2 ^ k + a % 2 ^ k ≡ a) × (a % 2 ^ k < 2 ^ k)
split_pow k a = (grind (arith, one-le-pow k 2), mod-lt a (one-le-pow k 2 (omega arith)))

-- The bits of a remainder by a power of two, and of a right shift.
pub test_bit-mod : (k a i : ℕ) → test_bit (a % 2 ^ k) i ≡ (if ltb i k then test_bit a i else false)
test_bit-mod k a i =
    let (e, h) = split_pow k a in
    let split = test_bit-add_mul k (a / 2 ^ k) (a % 2 ^ k) i h in
    let split' : test_bit a i
        ≡ (if ltb i k then test_bit (a % 2 ^ k) i else test_bit (a / 2 ^ k) (i - k)) =
      rw e at split in
    ground (arith, test_bit_high k (a % 2 ^ k) i)

pub test_bit-div : (k a i : ℕ) → test_bit (a / 2 ^ k) i ≡ test_bit a (k + i)
test_bit-div k a i =
    let (e, h) = split_pow k a in
    let split = test_bit-add_mul k (a / 2 ^ k) (a % 2 ^ k) (k + i) h in
    let split' : test_bit a (k + i) ≡ (
        if ltb (k + i) k then test_bit (a % 2 ^ k) (k + i) else test_bit (a / 2 ^ k) (k + i - k)) =
      rw e at split in
    let cancel : k + i - k ≡ i = omega arith in ground arith

-- `&` works field by field.
pub bit_and_fields :
    (k q r q' r' : ℕ)
    → r < 2 ^ k
    → r' < 2 ^ k
    → bit_and (q * 2 ^ k + r) (q' * 2 ^ k + r') ≡ bit_and q q' * 2 ^ k + bit_and r r'
bit_and_fields zero q r q' r' h h' =
    let e : r ≡ 0 = omega arith in
    let e' : r' ≡ 0 = omega arith in
    let p : q * 2 ^ 0 + 0 ≡ q = omega arith in
    let p' : q' * 2 ^ 0 + 0 ≡ q' = omega arith in rw (e, e', p, p', zero-bit_and 0) (omega arith)
bit_and_fields (suc k) q r q' r' h h' = ground (
  arith,
  bit_and_step (q * 2 ^ suc k + r) (q' * 2 ^ suc k + r'),
  bit_and_step r r',
  pow-suc 2 k,
  ap (λ (t : ℕ). q * t) (pow-suc 2 k),
  ap (λ (t : ℕ). q' * t) (pow-suc 2 k),
  ap (λ (t : ℕ). bit_and q q' * t) (pow-suc 2 k),
  bit_and_fields k q (r / 2) q' (r' / 2) (omega (arith, pow-suc 2 k)) (omega (arith, pow-suc 2 k)),
)

bit_and-ones : (k r : ℕ) → r < 2 ^ k → bit_and r (2 ^ k - 1) ≡ r
bit_and-ones zero r h = rw (bit_and-zero r) (omega arith)
bit_and-ones (suc k) r h =
    let e : (2 ^ suc k - 1) / 2 ≡ 2 ^ k - 1 = omega (arith, pow-suc 2 k, one-le-pow k 2) in
    ground
      (arith, bit_and_step r (2 ^ suc k - 1), pow-suc 2 k, one-le-pow k 2, bit_and-ones k (r / 2))

-- A mask of `k` low bits is the remainder by `2 ^ k`.
pub bit_and_mask : (k a : ℕ) → bit_and a (2 ^ k - 1) ≡ a % 2 ^ k
bit_and_mask k a =
    let (e, h) = split_pow k a in
    let pos = one-le-pow k 2 (omega arith) in
    let fields = bit_and_fields k (a / 2 ^ k) (a % 2 ^ k) 0 (2 ^ k - 1) h (omega arith) in
    let low : 0 * 2 ^ k + (2 ^ k - 1) ≡ 2 ^ k - 1 = omega arith in
    let fields' : bit_and a (2 ^ k - 1) ≡ 0 * 2 ^ k + bit_and (a % 2 ^ k) (2 ^ k - 1) =
      rw (e, low, bit_and-zero (a / 2 ^ k)) at fields in
    omega (arith, bit_and-ones k (a % 2 ^ k) h)

pub bit_xor-zero : (a : ℕ) → bit_xor a 0 ≡ a
bit_xor-zero a = bit_xor-zero_fuel a a (le_refl a)
  where
    bit_xor-zero_fuel : (n a : ℕ) → a ≤ n → bit_xor a 0 ≡ a
    bit_xor-zero_fuel n zero h = refl
    bit_xor-zero_fuel zero (suc a) h = absurd (omega arith)
    bit_xor-zero_fuel (suc n) (suc a) h = omega (
      arith,
      bit_xor_step (suc a) 0,
      differ_lem (suc a) 0,
      bit_xor-zero_fuel n (suc a / 2) (omega arith),
    )

-- Two words that share no bit enter an exclusive or together or one after the other.
pub bit_xor_fields :
    (k h q r : ℕ) → r < 2 ^ k → bit_xor (bit_xor h (q * 2 ^ k)) r ≡ bit_xor h (q * 2 ^ k + r)
bit_xor_fields zero h q r p =
    let e : r ≡ 0 = omega arith in
    let e' : q * 2 ^ 0 + 0 ≡ q * 2 ^ 0 = omega arith in rw (e, e') (bit_xor-zero _)
bit_xor_fields (suc k) h q r p =
    let double : q * 2 ^ suc k ≡ 2 * (q * 2 ^ k) =
      omega (arith, ap (λ (t : ℕ). q * t) (pow-suc 2 k)) in
    let high : q * 2 ^ suc k / 2 ≡ q * 2 ^ k = omega arith in
    let both : (q * 2 ^ suc k + r) / 2 ≡ q * 2 ^ k + r / 2 = omega arith in
    let inner : bit_xor h (q * 2 ^ suc k) / 2 ≡ bit_xor (h / 2) (q * 2 ^ k) =
      rw (← high) (omega (arith, bit_xor_step h (q * 2 ^ suc k), differ_lem h (q * 2 ^ suc k))) in
    let left = rw (inner) at (bit_xor_step (bit_xor h (q * 2 ^ suc k)) r) in
    let right = rw (both) at (bit_xor_step h (q * 2 ^ suc k + r)) in
    omega (
      arith,
      left,
      right,
      differ_lem (bit_xor h (q * 2 ^ suc k)) r,
      differ_lem h (q * 2 ^ suc k + r),
      bit_xor_step h (q * 2 ^ suc k),
      differ_lem h (q * 2 ^ suc k),
      bit_xor_fields k (h / 2) q (r / 2) (omega (arith, pow-suc 2 k)),
    )
