-- ===== src/Cell.antt =====
-- src/turbo/turbo_hash.h, class CellMeta128: a cell of seven slots behind a word of meta data.
-- A cell's memory is its version word, its hash tags and its slots, by slot index. The methods
-- read a snapshot of the meta data (`CellMeta meta (cell_addr)`), here `load_version`.
pub mod Word
pub mod Live
pub mod Change
pub mod Spare
use turbo_hash.Common.{
  ℕ, zero, suc, ◌+◌, ◌*◌, ◌/◌, ◌%◌, ◌^◌, Bool, true, false, ◌==◌, bit_and, bit_or, bit_xor,
  if◌then◌else◌,
}
use turbo_hash.Common.Bits.{bit_not, to_bit}
use turbo_hash.BitSet.{popcount}

-- `union { struct { bitmap_; bitmap_deleted_; _none; seq_no_; }; data_ }`
pub record Version : Type 0 where
  pub bitmap : ℕ
  pub bitmap_deleted : ℕ
  pub none_half : ℕ
  pub seq_no : ℕ

-- `Version (uint64_t data)`: the fields of the word, lowest byte first
unfoldable pub of_data : ℕ → Version
of_data d = record {
  bitmap = d % 2 ^ 8;
  bitmap_deleted = d / 2 ^ 8 % 2 ^ 8;
  none_half = d / 2 ^ 16 % 2 ^ 16;
  seq_no = d / 2 ^ 32 % 2 ^ 32;
}

-- `data_`
unfoldable pub to_data : Version → ℕ
to_data v = ((v.seq_no * 2 ^ 16 + v.none_half) * 2 ^ 8 + v.bitmap_deleted) * 2 ^ 8 + v.bitmap

-- `HashSlot`: H1 and the entry, a value or the address of a record
pub record HashSlot (E : Type 0) : Type 0 where
  pub h1 : ℕ
  pub entry : E

pub record Cell (E : Type 0) : Type 0 where
  pub word : ℕ
  pub tags : ℕ → ℕ
  pub slots : ℕ → HashSlot E

abbrev pub bit_map_mask : ℕ
bit_map_mask = 0xFE

abbrev pub start_slot_pos : ℕ
start_slot_pos = 1

abbrev pub slot_max_range : ℕ
slot_max_range = 7

abbrev pub slot_count : ℕ
slot_count = 7

-- `LoadVersion`
unfoldable pub load_version : {E : Type 0} → Cell E → Version
load_version c = of_data (bit_and c.word 0xFFFF_FFFF_0000_FEFE)

-- `StoreVersion`
unfoldable pub store_version : {E : Type 0} → Cell E → Version → Cell E
store_version c v = record c { word = to_data v }

-- `IsPosValid`
unfoldable pub is_pos_valid : Version → ℕ → Bool
is_pos_valid v i =
    if bit_and (bit_and v.bitmap (bit_not 32 v.bitmap_deleted)) (2 ^ i) == 0 then false else true

-- `_mm_cmpeq_pi8` and `_mm_movemask_pi8`: bit `i` of the result is the test of byte `i`.
unfoldable pub movemask : ℕ → (ℕ → Bool) → ℕ
movemask zero p = 0
movemask (suc n) p = to_bit (p n) * 2 ^ n + movemask n p

-- `MatchBitSet`
unfoldable pub match_bitset : {E : Type 0} → Cell E → ℕ → ℕ
match_bitset c h2 =
    let v = load_version c in
    let mask = movemask 8 (λ i. h2 == c.tags i) in
    bit_and (bit_and (bit_and mask v.bitmap) (bit_not 32 v.bitmap_deleted)) bit_map_mask

-- `EraseBitSet`
unfoldable pub erase_bitset : {E : Type 0} → Cell E → ℕ
erase_bitset c = bit_and (load_version c).bitmap_deleted bit_map_mask

-- `BackupBitSet`
unfoldable pub backup_bitset : {E : Type 0} → Cell E → ℕ
backup_bitset c = bit_and (bit_not 32 (load_version c).bitmap) bit_map_mask

-- `ValidBitSet`
unfoldable pub valid_bitset : {E : Type 0} → Cell E → ℕ
valid_bitset c =
    let v = load_version c in bit_and (bit_and v.bitmap (bit_not 32 v.bitmap_deleted)) bit_map_mask

-- `IsDeleted`
unfoldable pub is_deleted : {E : Type 0} → Cell E → ℕ → Bool
is_deleted c i = bit_and ((load_version c).bitmap_deleted / 2 ^ i) 1 == 1

-- `Full`
unfoldable pub full : {E : Type 0} → Cell E → Bool
full c = popcount 32 (bit_and (load_version c).bitmap bit_map_mask) == 6

-- `Occupy`
unfoldable pub occupy : {E : Type 0} → Cell E → ℕ → Bool
occupy c i = if bit_and (load_version c).bitmap (2 ^ i) == 0 then false else true

-- `OccupyCount`
unfoldable pub occupy_count : {E : Type 0} → Cell E → ℕ
occupy_count c = popcount 32 (load_version c).bitmap

-- A write to one index of an array.
abbrev pub update : {A : Type 0} → (ℕ → A) → ℕ → A → ℕ → A
update f i a j = if i == j then a else f j

-- The new version of `insertToSlotAndGC` for a new key: sets the slot and clears its deleted bit.
unfoldable pub set_slot : Version → ℕ → Version
set_slot v i = record v {
  bitmap = bit_or v.bitmap (2 ^ i) % 2 ^ 8;
  bitmap_deleted = bit_and v.bitmap_deleted (bit_not 32 (2 ^ i)) % 2 ^ 8;
  seq_no = (v.seq_no + 1) % 2 ^ 32;
}

-- The same for a key that the cell holds: sets the new slot and toggles the old one.
unfoldable pub exchange_slot : Version → ℕ → ℕ → Version
exchange_slot v i old = record v {
  bitmap = bit_xor (bit_or v.bitmap (2 ^ i)) (2 ^ old) % 2 ^ 8;
  bitmap_deleted = bit_and v.bitmap_deleted (bit_not 32 (2 ^ i)) % 2 ^ 8;
  seq_no = (v.seq_no + 1) % 2 ^ 32;
}

-- The new version of `deleteSlot`.
unfoldable pub mark_deleted : Version → ℕ → Version
mark_deleted v i = record v {
  bitmap_deleted = bit_or v.bitmap_deleted (2 ^ i) % 2 ^ 8;
  seq_no = (v.seq_no + 1) % 2 ^ 32;
}
