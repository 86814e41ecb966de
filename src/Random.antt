-- ===== src/Random.antt =====
-- src/util/random.h, class Random: the generator on its seed of 32 bits. A call that draws returns
-- the number and the next seed.
pub mod Laws
use turbo_hash.Common.{ℕ, ◌+◌, ◌-◌, ◌*◌, ◌/◌, ◌%◌, ◌^◌, Bool, ◌==◌, bit_and, ltb, if◌then◌else◌}

-- `M` and `A`
abbrev pub m : ℕ
m = 2147483647

abbrev pub a : ℕ
a = 16807

-- `GoodSeed`, for the constructor and `Reset`
unfoldable pub good_seed : ℕ → ℕ
good_seed s = if bit_and s m == 0 then 1 else bit_and s m

-- `seed_ -= M` where it is larger
abbrev pub reduce : ℕ → ℕ
reduce seed = if ltb m seed then seed - m else seed

-- `Next`: the next seed, which is also the number drawn
unfoldable pub next : ℕ → ℕ
next seed =
    let product = seed * a % 2 ^ 64 in reduce ((product / 2 ^ 31 + bit_and product m) % 2 ^ 32)

-- `Uniform`, where `n` is not negative
unfoldable pub uniform : ℕ → ℕ → ℕ × ℕ
uniform n seed = let drawn = next seed in (drawn % n, drawn)

-- `OneIn` and `MInN`
unfoldable pub one_in : ℕ → ℕ → Bool × ℕ
one_in n seed = let drawn = next seed in (drawn % n == 0, drawn)

unfoldable pub m_in_n : ℕ → ℕ → ℕ → Bool × ℕ
m_in_n k n seed = let drawn = next seed in (ltb (drawn % n) k, drawn)

-- `Skewed`: draws twice
unfoldable pub skewed : ℕ → ℕ → ℕ × ℕ
skewed max_log seed = let (base, seed') = uniform (max_log + 1) seed in uniform (2 ^ base) seed'
