-- ===== src/BitSet/Loop.antt =====
-- The positions of a BitSet as a loop goes through them.
use turbo_hash.Common.{
  In, ℕ, zero, suc, ◌/◌, ◌%◌, ◌^◌, ◌≤◌, ◌<◌, ◌≡◌, refl, sym, ap, ◌∙◌, true, List, [], ◌∷◌, map,
  length, length-map, ◌↔◌, inl, inr, arith, ◌==◌, Bool-cases,
}
use turbo_hash.Common.Bits.{test_bit, test_bit_high}
use turbo_hash.BitSet.{advance, lowest, collect, positions, set_bits}
use turbo_hash.BitSet.Laws.{
  In-set_bits, In-map-suc, not_In-map-suc, collect_at_pos, collect-eq-collect_at,
  collect_at-set_bits, positions-eq-set_bits,
}

-- The first round, and the rounds after it.
pub positions_pos : (b : ℕ) → 0 < b → b < 2 ^ 32 → positions b ≡ lowest b ∷ positions (advance b)
unfolding positions lowest
positions_pos b p h =
    positions-eq-set_bits b h
    ∙ sym (collect_at-set_bits 32 b 33 h h (omega arith))
    ∙ collect_at_pos 32 32 b p
    ∙ ap (λ rest. lowest b ∷ rest) (sym (collect-eq-collect_at 32 (advance b)))

pub positions_zero : positions 0 ≡ []
unfolding positions collect
positions_zero = refl

length-set_bits : (w b : ℕ) → length (set_bits w b) ≤ w
length-set_bits zero b = omega arith
length-set_bits (suc w) b =
    ground (arith, length-set_bits w (b / 2), length-map (set_bits w (b / 2)) suc)

pub length-positions : (b : ℕ) → b < 2 ^ 32 → length (positions b) ≤ 32
length-positions b h = rw (positions-eq-set_bits b h) (length-set_bits 32 b)

pub In-positions : (b i : ℕ) → b < 2 ^ 32 → In i (positions b) ↔ (test_bit b i ≡ true)
In-positions b i h = rw (positions-eq-set_bits b h) (
  λ p. ((In-set_bits 32 b i).0 p).1,
  λ t. (In-set_bits 32 b i).1 (ground (arith, test_bit_high 32 b i), t),
)

abbrev pub Distinct : List ℕ → Type 0
Distinct [] = Unit
Distinct (x ∷ xs) = (In x xs → ⊥) × Distinct xs

Distinct-map-suc : (xs : List ℕ) → Distinct xs → Distinct (map suc xs)
Distinct-map-suc [] d = tt
Distinct-map-suc (x ∷ xs) d = (λ p. d.0 ((In-map-suc x xs).0 p), Distinct-map-suc xs d.1)

Distinct-set_bits : (w b : ℕ) → Distinct (set_bits w b)
Distinct-set_bits zero b = tt
Distinct-set_bits (suc w) b =
    let rest = Distinct-map-suc (set_bits w (b / 2)) (Distinct-set_bits w (b / 2)) in
    elim (Bool-cases (b % 2 == 1)) [
      | inl odd ↦ rw odd (not_In-map-suc (set_bits w (b / 2)), rest)
      | inr even ↦ rw even rest
    ]

pub Distinct-positions : (b : ℕ) → b < 2 ^ 32 → Distinct (positions b)
Distinct-positions b h = rw (positions-eq-set_bits b h) (Distinct-set_bits 32 b)
