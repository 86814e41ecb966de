-- ===== src/Pmem/Flush.antt =====
-- src/turbo/turbo_hash_pmem.h, TURBO_PMEM_CLFLUSH: the cache lines that a range of bytes needs.
pub mod Lines
use mathlib.Core.Option
use turbo_hash.Common.{
  ℕ, zero, suc, ◌+◌, ◌-◌, ◌/◌, ◌%◌, ◌^◌, Option, none, some, List, [], ◌∷◌, ltb, bit_and,
  if◌then◌else◌,
}
use turbo_hash.Common.Bits.{bit_not}

abbrev pub cache_line_size : ℕ
cache_line_size = 64

-- `(unsigned long)data & ~(TURBO_PMEM_CACHE_LINE_SIZE - 1)`
unfoldable pub line_of : ℕ → ℕ
line_of addr = bit_and addr (bit_not 64 (cache_line_size - 1))

-- `data + len`, a pointer of 64 bits, where `int len` has the low 32 bits of the caller's size: from
-- 2 ^ 31 on they are a negative number.
unfoldable pub end_of : ℕ → ℕ → ℕ
end_of addr size =
    let len = size % 2 ^ 32 in
    if ltb len (2 ^ 31) then (addr + len) % 2 ^ 64 else (addr + 2 ^ 64 - (2 ^ 32 - len)) % 2 ^ 64

-- The loop, on fuel: the addresses that it flushes. The pointer starts again at 0 after the last line
-- of the addresses.
unfoldable pub flush_loop : ℕ → ℕ → ℕ → Option (List ℕ)
flush_loop zero ptr end = none
flush_loop (suc fuel) ptr end =
    let rest = flush_loop fuel ((ptr + cache_line_size) % 2 ^ 64) end in
    if ltb ptr end then Option.map (λ ls. ptr ∷ ls) rest else some []

-- `TURBO_PMEM_CLFLUSH`
unfoldable pub clflush : ℕ → ℕ → Option (List ℕ)
clflush addr size = flush_loop (suc (size / cache_line_size + 2)) (line_of addr) (end_of addr size)
