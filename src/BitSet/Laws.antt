-- ===== src/BitSet/Laws.antt =====
-- What the iteration over a BitSet yields, and what the built-ins count.
use turbo_hash.Common.{
  ℕ, zero, suc, ◌+◌, ◌-◌, ◌*◌, ◌/◌, ◌%◌, ◌^◌, ◌≤◌, ◌<◌, min, ◌≡◌, ◌≢◌, refl, true, false, List, [],
  ◌∷◌, map, ◌==◌, bit_and, arith, ◌⊎◌, inl, inr, Bool-cases, ◌↔◌, length, length-map, In,
}
use turbo_hash.Common.Digits.{bit_and_step}
use turbo_hash.Common.Bits.{zero-bit_and, test_bit, to_bit}
use native.Mathlib.Nat.{pow-suc}
use turbo_hash.BitSet.{popcount, ctz, advance, to_bool, lowest, collect, positions, set_bits}

bit_and-self_fuel : (n a : ℕ) → a ≤ n → bit_and a a ≡ a
bit_and-self_fuel n zero h = refl
bit_and-self_fuel zero (suc a) h = absurd (omega arith)
bit_and-self_fuel (suc n) (suc a) h =
    omega (arith, bit_and_step (suc a) (suc a), bit_and-self_fuel n (suc a / 2) (omega arith))

bit_and_self : (a : ℕ) → bit_and a a ≡ a
bit_and_self a = bit_and-self_fuel a a (omega arith)

-- Subtraction on a word that is not 0, and both digits of the result.
advance_lem : (b : ℕ) → 0 < b → b < 2 ^ 32 → advance b ≡ bit_and b (b - 1)
unfolding advance
advance_lem b p h = let e : (b + 2 ^ 32 - 1) % 2 ^ 32 ≡ b - 1 = omega arith in rw e

bit_and-digits :
    (a b p q : ℕ) (r s : ℕ)
    → a ≡ p * 2 + r
    → b ≡ q * 2 + s
    → r < 2
    → s < 2
    → bit_and a b ≡ bit_and p q * 2 + min r s
bit_and-digits a b p q r s e f hr hs =
    let d : a / 2 ≡ p = omega arith in
    let d' : b / 2 ≡ q = omega arith in
    let m : a % 2 ≡ r = omega arith in
    let m' : b % 2 ≡ s = omega arith in rw (bit_and_step a b, d, d', m, m')

-- Removing the lowest 1-bit: of an odd word, and of an even one.
advance_odd : (q : ℕ) → q * 2 + 1 < 2 ^ 32 → advance (q * 2 + 1) ≡ q * 2
advance_odd q h = omega (
  arith,
  advance_lem (q * 2 + 1) (omega arith) h,
  bit_and-digits (q * 2 + 1) (q * 2 + 1 - 1) q q 1 0 (omega arith) (omega arith) (omega arith)
      (omega arith),
  bit_and_self q,
)

advance_even : (q : ℕ) → 0 < q → q * 2 < 2 ^ 32 → advance (q * 2) ≡ advance q * 2
advance_even q p h = omega (
  arith,
  advance_lem (q * 2) (omega arith) h,
  advance_lem q p (omega arith),
  bit_and-digits (q * 2) (q * 2 - 1) q (q - 1) 0 1 (omega arith) (omega arith) (omega arith)
      (omega arith),
)

-- The iteration at any width, so that an induction can halve the word.
pub collect_at : ℕ → ℕ → ℕ → List ℕ
collect_at w zero b = []
collect_at w (suc fuel) b = elim (to_bool b) [
  | true ↦ ctz w b ∷ collect_at w fuel (advance b)
  | false ↦ []
]

pub collect-eq-collect_at : (fuel b : ℕ) → collect fuel b ≡ collect_at 32 fuel b
unfolding collect collect_at lowest
collect-eq-collect_at zero b = refl
collect-eq-collect_at (suc fuel) b = ground (arith, collect-eq-collect_at fuel (advance b))

bit_and-le_fuel : (n a b : ℕ) → a ≤ n → bit_and a b ≤ a
bit_and-le_fuel n zero b h = omega (arith, zero-bit_and b)
bit_and-le_fuel zero (suc a) b h = absurd (omega arith)
bit_and-le_fuel (suc n) (suc a) b h =
    omega (arith, bit_and_step (suc a) b, bit_and-le_fuel n (suc a / 2) (b / 2) (omega arith))

pub advance-le : (b : ℕ) → advance b ≤ b
unfolding advance
advance-le b = bit_and-le_fuel b b _ (omega arith)

pub to_bool_pos : (b : ℕ) → 0 < b → to_bool b ≡ true
to_bool_pos b h = ground arith

ctz_even : (w q : ℕ) → ctz (suc w) (q * 2) ≡ suc (ctz w q)
unfolding ctz
ctz_even w q =
    let d : q * 2 / 2 ≡ q = omega arith in let m : q * 2 % 2 ≡ 0 = omega arith in rw (d, m)

ctz_odd : (w q : ℕ) → ctz (suc w) (q * 2 + 1) ≡ 0
unfolding ctz
ctz_odd w q = let m : (q * 2 + 1) % 2 ≡ 1 = omega arith in rw m

pub collect_at_pos :
    (w fuel b : ℕ) → 0 < b → collect_at w (suc fuel) b ≡ ctz w b ∷ collect_at w fuel (advance b)
unfolding collect_at
collect_at_pos w fuel b h = rw (to_bool_pos b h, collect_at)

collect_at_even :
    (w fuel q : ℕ)
    → q * 2 < 2 ^ 32
    → collect_at (suc w) fuel (q * 2) ≡ map suc (collect_at w fuel q)
unfolding collect_at ctz
collect_at_even w zero q h = refl
collect_at_even w (suc fuel) zero h = refl
collect_at_even w (suc fuel) (suc q) h = rw (
  collect_at_pos (suc w) fuel (suc q * 2) (omega arith),
  collect_at_pos w fuel (suc q) (omega arith),
  advance_even (suc q) (omega arith) h,
  ctz_even w (suc q),
  collect_at_even w fuel (advance (suc q)) (omega (arith, advance-le (suc q))),
)

collect_at_zero : (w fuel : ℕ) → collect_at w fuel 0 ≡ []
unfolding collect_at
collect_at_zero w zero = refl
collect_at_zero w (suc fuel) = refl

collect_at_odd :
    (w fuel q : ℕ)
    → q * 2 + 1 < 2 ^ 32
    → collect_at (suc w) (suc fuel) (q * 2 + 1) ≡ 0 ∷ map suc (collect_at w fuel q)
collect_at_odd w fuel q h = rw (
  collect_at_pos (suc w) fuel (q * 2 + 1) (omega arith),
  ctz_odd w q,
  advance_odd q h,
  collect_at_even w fuel q (omega arith),
)

set_bits_even : (w q : ℕ) → set_bits (suc w) (q * 2) ≡ map suc (set_bits w q)
set_bits_even w q =
    let d : q * 2 / 2 ≡ q = omega arith in let m : q * 2 % 2 ≡ 0 = omega arith in rw (d, m)

set_bits_odd : (w q : ℕ) → set_bits (suc w) (q * 2 + 1) ≡ 0 ∷ map suc (set_bits w q)
set_bits_odd w q =
    let d : (q * 2 + 1) / 2 ≡ q = omega arith in
    let m : (q * 2 + 1) % 2 ≡ 1 = omega arith in rw (d, m)

parity : (b : ℕ) → ((q : ℕ) × (b ≡ q * 2)) ⊎ ((q : ℕ) × (b ≡ q * 2 + 1))
parity b = elim (Bool-cases (b % 2 == 1)) [
  | inl odd ↦ inr (b / 2, ground arith)
  | inr even ↦ inl (b / 2, ground arith)
]

pub collect_at-set_bits :
    (w b fuel : ℕ) → b < 2 ^ 32 → b < 2 ^ w → w ≤ fuel → collect_at w fuel b ≡ set_bits w b
collect_at-set_bits zero b fuel p h f =
    let e : b ≡ 0 = omega arith in rw (e, collect_at_zero 0 fuel)
collect_at-set_bits (suc w) b zero p h f = absurd (omega arith)
collect_at-set_bits (suc w) b (suc fuel) p h f = elim (parity b) [
  | inl (q, e) ↦ rw (
    e,
    collect_at_even w (suc fuel) q (omega arith),
    set_bits_even w q,
    collect_at-set_bits w q (suc fuel) (omega arith) (omega (arith, pow-suc 2 w)) (omega arith),
  )
  | inr (q, e) ↦ rw (
    e,
    collect_at_odd w fuel q (omega arith),
    set_bits_odd w q,
    collect_at-set_bits w q fuel (omega arith) (omega (arith, pow-suc 2 w)) (omega arith),
  )
]

-- A range `for` over a BitSet visits the positions of its 1-bits, each once and in ascending
-- order, and 32 rounds are enough for every word of 32 bits.
pub positions-eq-set_bits : (b : ℕ) → b < 2 ^ 32 → positions b ≡ set_bits 32 b
unfolding positions
positions-eq-set_bits b h =
    rw (collect-eq-collect_at 32 b) (collect_at-set_bits 32 b 32 h h (omega arith))

pub In-map-suc : (i : ℕ) (xs : List ℕ) → In (suc i) (map suc xs) ↔ In i xs
In-map-suc i [] = (λ h. h, λ h. h)
In-map-suc i (x ∷ xs) = (
  elim [ inl e ↦ inl (omega arith) | inr h ↦ inr ((In-map-suc i xs).0 h) ],
  elim [ inl e ↦ inl (omega arith) | inr h ↦ inr ((In-map-suc i xs).1 h) ],
)

pub not_In-map-suc : (xs : List ℕ) → In 0 (map suc xs) → ⊥
not_In-map-suc [] h = h
not_In-map-suc (x ∷ xs) (inl e) = omega arith
not_In-map-suc (x ∷ xs) (inr h) = not_In-map-suc xs h

pub In-set_bits : (w b i : ℕ) → In i (set_bits w b) ↔ ((i < w) × (test_bit b i ≡ true))
unfolding test_bit
In-set_bits zero b i = (λ h. absurd h, λ h. omega arith)
In-set_bits (suc w) b zero = elim (Bool-cases (b % 2 == 1)) [
  | inl odd ↦ rw odd (λ _. (omega arith, refl), λ _. inl refl)
  | inr even ↦ rw even (λ h. absurd (not_In-map-suc (set_bits w (b / 2)) h), λ h. cc)
]
In-set_bits (suc w) b (suc i) =
    let rec = In-set_bits w (b / 2) i in
    let shift = In-map-suc i (set_bits w (b / 2)) in
    elim (Bool-cases (b % 2 == 1)) [
      | inl odd ↦ rw odd (
        elim [
          | inl e ↦ absurd (omega arith)
          | inr h ↦ let (p, q) = rec.0 (shift.0 h) in (omega arith, q)
        ],
        λ (p, q). inr (shift.1 (rec.1 (omega arith, q))),
      )
      | inr even ↦ rw even (
        λ h. let (p, q) = rec.0 (shift.0 h) in (omega arith, q),
        λ (p, q). shift.1 (rec.1 (omega arith, q)),
      )
    ]

-- The built-in population count is the number of positions.
popcount-eq-length : (w b : ℕ) → popcount w b ≡ length (set_bits w b)
unfolding popcount
popcount-eq-length zero b = refl
popcount-eq-length (suc w) b =
    ground (arith, popcount-eq-length w (b / 2), length-map (set_bits w (b / 2)) suc)

pub popcount_congr :
    (w a b : ℕ) → ((j : ℕ) → j < w → test_bit a j ≡ test_bit b j) → popcount w a ≡ popcount w b
unfolding popcount test_bit
popcount_congr zero a b h = refl
popcount_congr (suc w) a b h =
    ground (arith, h 0, popcount_congr w (a / 2) (b / 2) (λ j p. h (suc j) (omega arith)))

-- One bit more or less changes the count by one.
pub popcount_change :
    (w a b i : ℕ)
    → i < w
    → ((j : ℕ) → j < w → j ≢ i → test_bit a j ≡ test_bit b j)
    → popcount w a + to_bit (test_bit b i) ≡ popcount w b + to_bit (test_bit a i)
unfolding popcount test_bit
popcount_change zero a b i p h = absurd (omega arith)
popcount_change (suc w) a b zero p h =
    ground (arith, popcount_congr w (a / 2) (b / 2) (λ j q. h (suc j) (omega arith) (omega arith)))
popcount_change (suc w) a b (suc i) p h = ground (
  arith,
  h 0,
  popcount_change w (a / 2) (b / 2) i (omega arith)
      (λ j q r. h (suc j) (omega arith) (omega arith)),
)
