-- ===== src/Hasher/Tail.antt =====
-- The switch of MurmurHash64A on the bytes left, and the bounds of the hash.
use turbo_hash.Common.{
  ℕ, zero, suc, ◌+◌, ◌*◌, ◌/◌, ◌%◌, ◌^◌, ◌<◌, ◌≡◌, sym, ap, ◌∙◌, List, [], ◌∷◌, arith, bit_xor,
  get_or,
}
use turbo_hash.Common.Bits.{bit_xor-lt, bit_and_mask, bit_xor-zero, bit_xor_fields}
use native.Mathlib.Nat.{pow-suc, one-le-pow}
use turbo_hash.Hasher.{read_le, murmur_cases, finalize, h2_of}

-- Every byte is below 256.
abbrev pub AreBytes : List ℕ → Type 0
AreBytes [] = Unit
AreBytes (b ∷ bs) = (b < 2 ^ 8) × AreBytes bs

-- The parts of a hash that the table uses: the tag is the third byte, and the bucket hash is the
-- upper half, so that they share no bit.
pub h2_of_lem : (hash : ℕ) → (h2_of hash ≡ hash / 2 ^ 16 % 2 ^ 8) × (h2_of hash < 2 ^ 8)
unfolding h2_of
h2_of_lem hash = omega (arith, bit_and_mask 16 (hash / 2 ^ 16))

pow_byte : (n : ℕ) → 2 ^ (8 * suc n) ≡ 2 ^ 8 * 2 ^ (8 * n)
pow_byte n =
    let e : 8 * suc n ≡ suc (suc (suc (suc (suc (suc (suc (suc (8 * n)))))))) = omega arith in
    rw e (simp pow-suc (omega arith))

read_le-suc :
    (n : ℕ) (bs : List ℕ) → read_le (suc n) bs ≡ get_or bs n 0 * 2 ^ (8 * n) + read_le n bs
read_le-suc zero [] = omega arith
read_le-suc (suc n) [] = omega arith
read_le-suc zero (b ∷ bs) = omega arith
read_le-suc (suc n) (b ∷ bs) =
    omega (arith, read_le-suc n bs, ap (λ (t : ℕ). get_or bs n 0 * t) (pow_byte n))

read_le-lt : (n : ℕ) (bs : List ℕ) → AreBytes bs → read_le n bs < 2 ^ (8 * n)
read_le-lt zero bs h = omega arith
read_le-lt (suc n) [] h = omega (arith, one-le-pow (8 * suc n) 2)
read_le-lt (suc n) (b ∷ bs) h = omega (arith, pow_byte n, read_le-lt n bs h.1)

-- The switch: the fall-through cases add the bytes one by one, from the highest, and together
-- they are an exclusive or with the little-endian number of the bytes left.
pub murmur_cases-read_le :
    (n : ℕ) (bs : List ℕ) (h : ℕ) → AreBytes bs → murmur_cases n bs h ≡ bit_xor h (read_le n bs)
unfolding murmur_cases
murmur_cases-read_le zero bs h b = sym (bit_xor-zero h)
murmur_cases-read_le (suc n) bs h b =
    murmur_cases-read_le n bs (bit_xor h (get_or bs n 0 * 2 ^ (8 * n))) b
    ∙ bit_xor_fields (8 * n) h (get_or bs n 0) (read_le n bs) (read_le-lt n bs b)
    ∙ ap (bit_xor h) (sym (read_le-suc n bs))

finalize-lt : (h : ℕ) → h < 2 ^ 64 → finalize h < 2 ^ 64
unfolding finalize
finalize-lt h p = bit_xor-lt 64 _ _ (omega arith) (omega arith)
