-- ===== src/Slice.antt =====
-- src/turbo/turbo_hash.h, class util::Slice: a view of bytes, here the list of them. `memcmp` is the
-- C library's: it compares the first `n` bytes, as unsigned numbers.
pub mod Order
use turbo_hash.Common.{
  ℕ, zero, suc, ◌+◌, ◌==◌, ◌&&◌, not, Bool, true, false, List, [], ◌∷◌, length, ltb, if◌then◌else◌,
}

-- The sign of an `int`.
pub data Sign : Type 0 where
  negative : Sign
  null : Sign
  positive : Sign

-- `memcmp (x, y, n)`, where both have `n` bytes
unfoldable pub memcmp : ℕ → List ℕ → List ℕ → Sign
memcmp zero xs ys = null
memcmp (suc n) [] ys = null
memcmp (suc n) (x ∷ xs) [] = null
memcmp (suc n) (x ∷ xs) (y ∷ ys) =
    let rest = memcmp n xs ys in if ltb x y then negative else (if ltb y x then positive else rest)

-- `const size_t min_len = (size_ < b.size_) ? size_ : b.size_`
abbrev pub min_len : List ℕ → List ℕ → ℕ
min_len a b = if ltb (length a) (length b) then length a else length b

-- What `compare` makes of the sign that `memcmp` returns.
abbrev pub by_length : Sign → List ℕ → List ℕ → Sign
by_length null a b =
    if ltb (length a) (length b)
    then negative
    else (if ltb (length b) (length a) then positive else null)
by_length negative a b = negative
by_length positive a b = positive

-- `compare`
unfoldable pub compare : List ℕ → List ℕ → Sign
compare a b = by_length (memcmp (min_len a b) a b) a b

-- `operator<` and `operator>`
abbrev pub is_negative : Sign → Bool
is_negative negative = true
is_negative _ = false

abbrev pub is_positive : Sign → Bool
is_positive positive = true
is_positive _ = false

unfoldable pub less : List ℕ → List ℕ → Bool
less a b = is_negative (compare a b)

unfoldable pub greater : List ℕ → List ℕ → Bool
greater a b = is_positive (compare a b)

abbrev pub is_null : Sign → Bool
is_null null = true
is_null _ = false

-- `operator==` and `operator!=`
unfoldable pub equal : List ℕ → List ℕ → Bool
equal x y = length x == length y && is_null (memcmp (length x) x y)

unfoldable pub differs : List ℕ → List ℕ → Bool
differs x y = not (equal x y)

-- `empty`
abbrev pub empty : List ℕ → Bool
empty a = length a == 0
