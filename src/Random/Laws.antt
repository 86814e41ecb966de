-- ===== src/Random/Laws.antt =====
-- What `Next` computes.
use turbo_hash.Common.{
  ℕ, ◌+◌, ◌*◌, ◌/◌, ◌%◌, ◌^◌, ◌≤◌, ◌<◌, ◌≡◌, refl, inl, inr, arith, bit_and, ltb, Bool-cases,
}
use turbo_hash.Common.Bits.{bit_and_mask}
use turbo_hash.Random.{m, a, reduce, next}

-- The residue of a product: the sum of its two parts is congruent to it.
residue : (p : ℕ) → p < 2 ^ 31 * a → 0 < p % m → reduce ((p / 2 ^ 31 + p % 2 ^ 31) % 2 ^ 32) ≡ p % m
residue p lt some_left =
    let high : p / 2 ^ 31 < a = omega (arith, lt) in
    let whole : (p / 2 ^ 31 + p % 2 ^ 31) % 2 ^ 32 ≡ p / 2 ^ 31 + p % 2 ^ 31 =
      omega (arith, high) in
    rw whole (elim (Bool-cases (ltb m (p / 2 ^ 31 + p % 2 ^ 31))) [
      | inl over ↦
          let gt : m < p / 2 ^ 31 + p % 2 ^ 31 = ground (arith, over) in
          rw over (omega (arith, gt, high))
      | inr under ↦
          let le : p / 2 ^ 31 + p % 2 ^ 31 ≤ m = ground (arith, under) in
          rw under (omega (arith, le, high, some_left))
    ])

-- No multiple of `A` by a seed is one of `M`.
not_zero : (s : ℕ) → 0 < s → s < m → 0 < s * a % m
not_zero s pos lt = omega arith

-- From a seed above 0 and below `M`, `Next` draws the seed times `A` modulo `M`, and the next seed is
-- again above 0 and below `M`.
next_lem :
    (seed : ℕ)
    → 0 < seed
    → seed < m
    → (next seed ≡ seed * a % m) × (0 < next seed) × (next seed < m)
unfolding next
next_lem seed pos lt =
    let product = seed * a in
    let small : product % 2 ^ 64 ≡ product = omega (arith, lt) in
    let low : bit_and product m ≡ product % 2 ^ 31 = bit_and_mask 31 product in
    let some_left = not_zero seed pos lt in
    rw (small, low, residue product (omega (arith, lt)) some_left) (refl, some_left, omega arith)
