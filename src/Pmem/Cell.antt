-- ===== src/Pmem/Cell.antt =====
-- src/turbo/turbo_hash_pmem.h, class CellMeta256V2: a cell of 14 slots, 2 to 15, behind a version
-- word with two bitmaps of 16 bits. The cell's memory is that of `Cell`.
pub mod Live
pub mod Change
pub mod Bitsets
use turbo_hash.Common.{ℕ, ◌+◌, ◌*◌, ◌/◌, ◌%◌, ◌^◌, ◌==◌, bit_and, bit_or, bit_xor}
use turbo_hash.Common.Bits.{bit_not}
use turbo_hash.Cell.{Cell, movemask}

-- `union { struct { bitmap_; bitmap_deleted_; seq_no_; }; data_ }`
pub record Version : Type 0 where
  pub bitmap : ℕ
  pub bitmap_deleted : ℕ
  pub seq_no : ℕ

-- `Version (uint64_t data)`
unfoldable pub of_data : ℕ → Version
of_data d = record {
  bitmap = d % 2 ^ 16;
  bitmap_deleted = d / 2 ^ 16 % 2 ^ 16;
  seq_no = d / 2 ^ 32 % 2 ^ 32;
}

-- `data_`
unfoldable pub to_data : Version → ℕ
to_data v = (v.seq_no * 2 ^ 16 + v.bitmap_deleted) * 2 ^ 16 + v.bitmap

abbrev pub bit_map_mask : ℕ
bit_map_mask = 0xFFFC

-- `LoadVersion`, of the word
unfoldable pub load_version : ℕ → Version
load_version d = of_data (bit_and d 0xFFFF_FFFF_FFFC_FFFC)

-- `MatchBitSet`
unfoldable pub match_bitset : {E : Type 0} → Cell E → ℕ → ℕ
match_bitset c h2 =
    let v = load_version c.word in
    let mask = movemask 16 (λ i. h2 == c.tags i) in
    bit_and (bit_and (bit_and mask v.bitmap) (bit_not 32 v.bitmap_deleted)) bit_map_mask

-- `EraseBitSet`
unfoldable pub erase_bitset : {E : Type 0} → Cell E → ℕ
erase_bitset c = bit_and (load_version c.word).bitmap_deleted bit_map_mask

-- `BackupBitSet`
unfoldable pub backup_bitset : {E : Type 0} → Cell E → ℕ
backup_bitset c = bit_and (bit_not 32 (load_version c.word).bitmap) bit_map_mask

-- The new version of `insertToSlotAndGC` for a new key.
unfoldable pub set_slot : Version → ℕ → Version
set_slot v i = record v {
  bitmap = bit_or v.bitmap (2 ^ i) % 2 ^ 16;
  bitmap_deleted = bit_and v.bitmap_deleted (bit_not 32 (2 ^ i)) % 2 ^ 16;
  seq_no = (v.seq_no + 1) % 2 ^ 32;
}

-- The same for a key that the cell holds.
unfoldable pub exchange_slot : Version → ℕ → ℕ → Version
exchange_slot v i old = record v {
  bitmap = bit_xor (bit_or v.bitmap (2 ^ i)) (2 ^ old) % 2 ^ 16;
  bitmap_deleted = bit_and v.bitmap_deleted (bit_not 32 (2 ^ i)) % 2 ^ 16;
  seq_no = (v.seq_no + 1) % 2 ^ 32;
}

-- The new version of `deleteSlot`.
unfoldable pub mark_deleted : Version → ℕ → Version
mark_deleted v i = record v {
  bitmap_deleted = bit_or v.bitmap_deleted (2 ^ i) % 2 ^ 16;
  seq_no = (v.seq_no + 1) % 2 ^ 32;
}
