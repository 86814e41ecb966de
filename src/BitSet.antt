-- ===== src/BitSet.antt =====
-- src/turbo/turbo_hash.h, class util::BitSet, and the compiler built-ins that it calls.
-- A BitSet is its word `bits_`, below 2 ^ 32. A range `for` over it is `collect`.
pub mod Laws
pub mod Loop
use turbo_hash.Common.{
  ℕ, zero, suc, ◌+◌, ◌-◌, ◌/◌, ◌%◌, ◌^◌, Bool, true, false, List, [], ◌∷◌, map, ◌==◌, bit_and,
  if◌then◌else◌,
}

-- `__builtin_popcount` and `__builtin_ctz` on a word of `w` bits.
unfoldable pub popcount : ℕ → ℕ → ℕ
popcount zero b = 0
popcount (suc w) b = b % 2 + popcount w (b / 2)

unfoldable pub ctz : ℕ → ℕ → ℕ
ctz zero b = 0
ctz (suc w) b = let rest = ctz w (b / 2) in if b % 2 == 1 then 0 else suc rest

-- `validCount`
unfoldable pub valid_count : ℕ → ℕ
valid_count b = popcount 32 b

-- `operator++`: removes the lowest 1-bit
unfoldable pub advance : ℕ → ℕ
advance b = bit_and b ((b + 2 ^ 32 - 1) % 2 ^ 32)

-- `operator bool`
abbrev pub to_bool : ℕ → Bool
to_bool b = if b == 0 then false else true

-- `operator*`: counts the trailing zero bits
unfoldable pub lowest : ℕ → ℕ
lowest b = ctz 32 b

-- `for (int i : bitset)`, with the number of rounds as fuel: what `i` is in each round.
unfoldable pub collect : ℕ → ℕ → List ℕ
collect zero b = []
collect (suc fuel) b = elim (to_bool b) [ true ↦ lowest b ∷ collect fuel (advance b) | false ↦ [] ]

-- A word of 32 bits is used up in at most 32 rounds.
unfoldable pub positions : ℕ → List ℕ
positions b = collect 32 b

-- The positions of the 1-bits among the `w` lowest, in ascending order.
abbrev pub set_bits : ℕ → ℕ → List ℕ
set_bits zero b = []
set_bits (suc w) b =
    let rest = map suc (set_bits w (b / 2)) in if b % 2 == 1 then 0 ∷ rest else rest

-- `isPowerOfTwo`
unfoldable pub is_power_of_two : ℕ → Bool
is_power_of_two n = if n == 0 then false else popcount 32 n == 1
