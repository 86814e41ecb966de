-- ===== src/BucketMeta.antt =====
-- src/turbo/turbo_hash.h, class BucketMeta: the word of a bucket, with the lock bits 0 and 1, the
-- logarithm of the number of cells in bits 8 to 15, and the address of the cells in bits 16 to 63.
pub mod Fields
use turbo_hash.Common.{ℕ, ◌+◌, ◌-◌, ◌*◌, ◌/◌, ◌%◌, ◌^◌, bit_and, bit_or}
use turbo_hash.BitSet.{ctz}

-- `((uint64_t)addr) << 16`
abbrev pub address_field : ℕ → ℕ
address_field addr = addr * 2 ^ 16 % 2 ^ 64

-- `BucketMeta (addr, cell_count)`
unfoldable pub new_meta : ℕ → ℕ → ℕ
new_meta addr cell_count = bit_or (address_field addr) (ctz 32 cell_count * 2 ^ 8)

-- `Address`
unfoldable pub address : ℕ → ℕ
address w = w / 2 ^ 16

-- `CellCount`; it returns 32 bits
unfoldable pub cell_count : ℕ → ℕ
cell_count w = 2 ^ bit_and (w / 2 ^ 8) 0xFF % 2 ^ 32

-- `CellCountMask`
unfoldable pub cell_count_mask : ℕ → ℕ
cell_count_mask w = (cell_count w + 2 ^ 32 - 1) % 2 ^ 32

-- `Reset`
unfoldable pub reset : ℕ → ℕ → ℕ → ℕ
reset w addr cell_count =
    bit_or (bit_or (bit_and w 0xFF) (address_field addr)) (ctz 32 cell_count * 2 ^ 8)
