-- ===== src/Hasher.antt =====
-- src/turbo/turbo_hash.h: class util::Hasher (MurmurHash64A, hash_int) and struct PartialHash.
-- A size_t or uint64_t is a number below 2 ^ 64; a key's bytes are a list of numbers below 256.
pub mod Tail
use turbo_hash.Common.{
  ℕ, zero, suc, ◌+◌, ◌-◌, ◌*◌, ◌/◌, ◌%◌, ◌^◌, List, [], ◌∷◌, ◌==◌, bit_and, bit_xor, if◌then◌else◌,
  length, get_or,
}

abbrev u64 : ℕ → ℕ
u64 n = n % 2 ^ 64

-- `umul128`: the low half of the product, and the high half
pub umul128 : ℕ → ℕ → ℕ × ℕ
umul128 a b = (u64 (a * b), u64 (a * b / 2 ^ 64))

-- `hash_int`
unfoldable pub hash_int : ℕ → ℕ
unfolding umul128
hash_int obj = let (l, h) = umul128 obj 0xde5f_b9d2_6304_58e9 in u64 (h + l)

abbrev pub murmur_m : ℕ
murmur_m = 0xc6a4_a793_5bd1_e995

-- `*data`: eight bytes, the lowest first
abbrev pub read_le : ℕ → List ℕ → ℕ
read_le zero bs = 0
read_le (suc n) [] = 0
read_le (suc n) (b ∷ bs) = b + 2 ^ 8 * read_le n bs

abbrev pub drop : ℕ → List ℕ → List ℕ
drop zero bs = bs
drop (suc n) [] = []
drop (suc n) (b ∷ bs) = drop n bs

-- `k *= m; k ^= k >> r; k *= m`
unfoldable pub scramble : ℕ → ℕ
scramble k = let k' = u64 (k * murmur_m) in u64 (bit_xor k' (k' / 2 ^ 47) * murmur_m)

-- The loop over the whole words, `n` of them.
unfoldable pub murmur_words : ℕ → List ℕ → ℕ → ℕ
murmur_words zero data' h = h
murmur_words (suc n) data' h =
    murmur_words n (drop 8 data') (u64 (bit_xor h (scramble (read_le 8 data')) * murmur_m))

-- The cases `n` to 1 of the switch, which fall through: `h ^= data2[n - 1] << 8 * (n - 1)`, …
unfoldable pub murmur_cases : ℕ → List ℕ → ℕ → ℕ
murmur_cases zero data2 h = h
murmur_cases (suc n) data2 h = murmur_cases n data2 (bit_xor h (get_or data2 n 0 * 2 ^ (8 * n)))

-- The switch on the bytes left, with the `h *= m` at the end of case 1.
unfoldable pub murmur_tail : ℕ → List ℕ → ℕ → ℕ
murmur_tail left data2 h = if left == 0 then h else u64 (murmur_cases left data2 h * murmur_m)

-- `h ^= h >> r; h *= m; h ^= h >> r`
unfoldable pub finalize : ℕ → ℕ
finalize h = let h' = u64 (bit_xor h (h / 2 ^ 47) * murmur_m) in bit_xor h' (h' / 2 ^ 47)

-- `MurmurHash64A`; `len` is the length of the key, below 2 ^ 31
unfoldable pub murmur_hash64_a : List ℕ → ℕ
murmur_hash64_a key =
    let len = length key in
    let h = bit_xor 0xe17a_1465 (u64 (len * murmur_m)) in
    finalize (murmur_tail (bit_and len 7) (drop (len / 8 * 8) key) (murmur_words (len / 8) key h))

-- `PartialHash (key, hash)`: H1 is kept by the caller; `H2_` is a uint8_t, `bucket_hash_` 32 bits
unfoldable pub h2_of : ℕ → ℕ
h2_of hash = bit_and (hash / 2 ^ 16) 0xFFFF % 2 ^ 8

unfoldable pub bucket_hash_of : ℕ → ℕ
bucket_hash_of hash = hash / 2 ^ 32 % 2 ^ 32
