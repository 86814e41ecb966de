-- ===== src/Common/Fields.antt =====
-- `|` of words that are made of fields side by side.
use Prim.Native.Nat.{ℕ, zero, suc, ◌+◌, ◌*◌, ◌/◌, ◌%◌, ◌^◌, ◌≤◌, ◌<◌, bit_or}
use mathlib.Core.Path.{◌≡◌, refl, ap}
use native.Mathlib.Nat.{le_refl, pow-suc}
use native.Mathlib.Omega.{arith}
use turbo_hash.Common.Digits.{bit_or_step}
use turbo_hash.Common.Bits.{zero-bit_or}

bit_or-zero_fuel : (n a : ℕ) → a ≤ n → bit_or a 0 ≡ a
bit_or-zero_fuel n zero h = refl
bit_or-zero_fuel zero (suc a) h = absurd (omega arith)
bit_or-zero_fuel (suc n) (suc a) h =
    omega (arith, bit_or_step (suc a) 0, bit_or-zero_fuel n (suc a / 2) (omega arith))

pub bit_or-zero : (a : ℕ) → bit_or a 0 ≡ a
bit_or-zero a = bit_or-zero_fuel a a (le_refl a)

-- `|` works field by field.
pub bit_or_fields :
    (k q r q' r' : ℕ)
    → r < 2 ^ k
    → r' < 2 ^ k
    → bit_or (q * 2 ^ k + r) (q' * 2 ^ k + r') ≡ bit_or q q' * 2 ^ k + bit_or r r'
bit_or_fields zero q r q' r' h h' =
    let e : r ≡ 0 = omega arith in
    let e' : r' ≡ 0 = omega arith in
    let p : q * 2 ^ 0 + 0 ≡ q = omega arith in
    let p' : q' * 2 ^ 0 + 0 ≡ q' = omega arith in rw (e, e', p, p', zero-bit_or 0) (omega arith)
bit_or_fields (suc k) q r q' r' h h' =
    let double = λ (t : ℕ). ap (λ (u : ℕ). t * u) (pow-suc 2 k) in
    let half : (q * 2 ^ suc k + r) / 2 ≡ q * 2 ^ k + r / 2 = omega (arith, double q, pow-suc 2 k) in
    let half' : (q' * 2 ^ suc k + r') / 2 ≡ q' * 2 ^ k + r' / 2 =
      omega (arith, double q', pow-suc 2 k) in
    let odd : (q * 2 ^ suc k + r) % 2 ≡ r % 2 = omega (arith, double q, pow-suc 2 k) in
    let odd' : (q' * 2 ^ suc k + r') % 2 ≡ r' % 2 = omega (arith, double q', pow-suc 2 k) in
    let one =
      rw (half, half', odd, odd') at (bit_or_step (q * 2 ^ suc k + r) (q' * 2 ^ suc k + r')) in
    omega (
      arith,
      one,
      bit_or_step r r',
      double (bit_or q q'),
      bit_or_fields k q (r / 2) q' (r' / 2) (omega (arith, pow-suc 2 k))
          (omega (arith, pow-suc 2 k)),
    )

-- A field above a smaller number.
pub bit_or-add : (k q r : ℕ) → r < 2 ^ k → bit_or r (q * 2 ^ k) ≡ q * 2 ^ k + r
bit_or-add k q r h =
    let low : 0 * 2 ^ k + r ≡ r = omega arith in
    let high : q * 2 ^ k + 0 ≡ q * 2 ^ k = omega arith in
    let fields = rw (low, high) at (bit_or_fields k 0 r q 0 h (omega arith)) in
    omega (arith, fields, zero-bit_or q, bit_or-zero r, ap (λ (t : ℕ). t * 2 ^ k) (zero-bit_or q))
