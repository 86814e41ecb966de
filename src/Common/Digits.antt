-- ===== src/Common/Digits.antt =====
-- One step of the native operations on binary digits, as an equation for the lowest digit.
use Prim.Native.Nat.{ℕ, zero, suc, ◌+◌, ◌-◌, ◌*◌, ◌/◌, ◌%◌, ◌≤◌, min, max}
use Prim.Native.Nat.{bit_and, bit_or, bit_xor, digits, bitwise, differ}
use Prim.Native.Nat.{bit_and-bitwise, bit_or-bitwise, bit_xor-bitwise}
use mathlib.Core.Path.{◌≡◌, refl, sym, ap, ◌∙◌}
use mathlib.Core.Logic.{◌⊎◌, inl, inr}
use native.Mathlib.Omega.{arith}

-- One round more than needed changes nothing.
spare_round :
    (z : ℕ → ℕ) (f : ℕ → ℕ → ℕ) (a rounds b : ℕ)
    → a ≤ rounds
    → digits z f (suc rounds) a b ≡ digits z f rounds a b
spare_round z f zero zero b h = refl
spare_round z f zero (suc rounds) b h = refl
spare_round z f (suc a) zero b h = absurd (omega arith)
spare_round z f (suc a) (suc rounds) b h =
    ap (λ (high : ℕ). high * 2 + f (suc a % 2) (b % 2))
      (spare_round z f (suc a / 2) rounds (b / 2) (omega arith))

-- `a` plus any number of rounds are as good as `a` rounds.
spare_rounds :
    (z : ℕ → ℕ) (f : ℕ → ℕ → ℕ) (more a b : ℕ) → digits z f (more + a) a b ≡ bitwise z f a b
spare_rounds z f zero a b = let e : 0 + a ≡ a = omega arith in rw e refl
spare_rounds z f (suc more) a b =
    let e : suc more + a ≡ suc (more + a) = omega arith in
    rw e (spare_round z f a (more + a) b (omega arith) ∙ spare_rounds z f more a b)

-- The highest digits of a bitwise operation are the operation on the highest digits.
bitwise_digit :
    (z : ℕ → ℕ) (f : ℕ → ℕ → ℕ) (a b : ℕ)
    → bitwise z f (suc a) b ≡ bitwise z f (suc a / 2) (b / 2) * 2 + f (suc a % 2) (b % 2)
bitwise_digit z f a b =
    let enough : a - suc a / 2 + suc a / 2 ≡ a = omega arith in
    ap (λ (high : ℕ). high * 2 + f (suc a % 2) (b % 2))
      (rw enough at (spare_rounds z f (a - suc a / 2) (suc a / 2) (b / 2)))

pub bit_and_step : (a b : ℕ) → bit_and a b ≡ bit_and (a / 2) (b / 2) * 2 + min (a % 2) (b % 2)
bit_and_step zero b = rw (bit_and-bitwise 0 b, bit_and-bitwise (0 / 2) (b / 2)) (omega arith)
bit_and_step (suc a) b =
    bit_and-bitwise (suc a) b
    ∙ bitwise_digit (λ y. 0) min a b
    ∙ ap (λ (high : ℕ). high * 2 + min (suc a % 2) (b % 2))
        (sym (bit_and-bitwise (suc a / 2) (b / 2)))

pub bit_or_step : (a b : ℕ) → bit_or a b ≡ bit_or (a / 2) (b / 2) * 2 + max (a % 2) (b % 2)
bit_or_step zero b = rw (bit_or-bitwise 0 b, bit_or-bitwise (0 / 2) (b / 2)) (omega arith)
bit_or_step (suc a) b =
    bit_or-bitwise (suc a) b
    ∙ bitwise_digit (λ y. y) max a b
    ∙ ap (λ (high : ℕ). high * 2 + max (suc a % 2) (b % 2))
        (sym (bit_or-bitwise (suc a / 2) (b / 2)))

pub bit_xor_step : (a b : ℕ) → bit_xor a b ≡ bit_xor (a / 2) (b / 2) * 2 + differ (a % 2) (b % 2)
bit_xor_step zero b = simp bit_xor-bitwise (omega arith)
bit_xor_step (suc a) b = simp bit_xor-bitwise (bitwise_digit (λ y. y) differ a b)

digit-cases : (a : ℕ) → (a % 2 ≡ 0) ⊎ (a % 2 ≡ 1)
digit-cases a = omega arith

pub differ_lem : (a b : ℕ) → differ (a % 2) (b % 2) ≡ (a % 2 + b % 2) % 2
differ_lem a b = elim (digit-cases a) [
  | inl p ↦ elim (digit-cases b) [ inl q ↦ rw (p, q) refl | inr q ↦ rw (p, q) refl ]
  | inr p ↦ elim (digit-cases b) [ inl q ↦ rw (p, q) refl | inr q ↦ rw (p, q) refl ]
]
