-- ===== src/Bytes.antt =====
-- The memory that records are written to: a byte for each address. A number is stored with its
-- lowest byte first, as the code's casts of `char*` do on its platform.
pub mod Laws
use turbo_hash.Common.{
  ℕ, zero, suc, ◌+◌, ◌*◌, ◌/◌, ◌%◌, ◌^◌, ◌<◌, ◌==◌, List, [], ◌∷◌, if◌then◌else◌,
}
use turbo_hash.Cell.{update}

abbrev pub Memory : Type 0
Memory = ℕ → ℕ

-- `*reinterpret_cast<T*> (addr) = v` for a number of `n` bytes
unfoldable pub store_number : ℕ → ℕ → ℕ → Memory → Memory
store_number zero addr v m = m
store_number (suc n) addr v m = store_number n (addr + 1) (v / 2 ^ 8) (update m addr (v % 2 ^ 8))

-- `*reinterpret_cast<T*> (addr)`
unfoldable pub load_number : ℕ → ℕ → Memory → ℕ
load_number zero addr m = 0
load_number (suc n) addr m = m addr + 2 ^ 8 * load_number n (addr + 1) m

-- `memcpy (addr, s.data (), s.size ())`
unfoldable pub copy_in : ℕ → List ℕ → Memory → Memory
copy_in addr [] m = m
copy_in addr (b ∷ bs) m = copy_in (addr + 1) bs (update m addr b)

-- The bytes of `Slice (addr, n)`.
unfoldable pub copy_out : ℕ → ℕ → Memory → List ℕ
copy_out zero addr m = []
copy_out (suc n) addr m = m addr ∷ copy_out n (addr + 1) m

-- Every element is a byte.
abbrev pub AreBytes : List ℕ → Type 0
AreBytes [] = Unit
AreBytes (b ∷ bs) = (b < 2 ^ 8) × AreBytes bs
