-- ===== src/Cell/Word.antt =====
-- What `LoadVersion` reads back of a word that `StoreVersion` wrote.
use turbo_hash.Common.{ℕ, ◌+◌, ◌*◌, ◌/◌, ◌%◌, ◌^◌, ◌<◌, ◌≡◌, arith, bit_and}
use turbo_hash.Common.Bits.{bit_and_fields, bit_and-zero, bit_and_mask, bit_and-lt}
use turbo_hash.Cell.{Version, of_data, to_data, Cell, load_version, store_version}

-- Each field fits its bytes.
pub record IsVersion (v : Version) : Type 0 where
  pub bitmap_byte : v.bitmap < 2 ^ 8
  pub deleted_byte : v.bitmap_deleted < 2 ^ 8
  pub none_half_word : v.none_half < 2 ^ 16
  pub seq_no_word : v.seq_no < 2 ^ 32

-- The mask of `LoadVersion` acts on each field.
masked_word :
    (b d n s : ℕ)
    → b < 2 ^ 8
    → d < 2 ^ 8
    → n < 2 ^ 16
    → bit_and (((s * 2 ^ 16 + n) * 2 ^ 8 + d) * 2 ^ 8 + b) 0xFFFF_FFFF_0000_FEFE
      ≡ (s % 2 ^ 32 * 2 ^ 16 * 2 ^ 8 + bit_and d 0xFE) * 2 ^ 8 + bit_and b 0xFE
masked_word b d n s hb hd hn = omega (
  arith,
  bit_and_fields 8 ((s * 2 ^ 16 + n) * 2 ^ 8 + d) b 0xFFFF_FFFF_0000_FE 0xFE hb (omega arith),
  bit_and_fields 8 (s * 2 ^ 16 + n) d 0xFFFF_FFFF_0000 0xFE hd (omega arith),
  bit_and_fields 16 s n 0xFFFF_FFFF 0 hn (omega arith),
  bit_and_mask 32 s,
  bit_and-zero n,
)

-- For a version whose fields fit their widths, `LoadVersion` after `StoreVersion` clears bit 0 of both bitmaps and the unused half word, and
-- gives the rest back.
pub load_version-store_version :
    {E : Type 0} (c : Cell E) (v : Version)
    → IsVersion v
    → load_version (store_version c v) ≡ record v {
      bitmap = bit_and v.bitmap 0xFE;
      bitmap_deleted = bit_and v.bitmap_deleted 0xFE;
      none_half = 0;
    }
unfolding load_version store_version of_data to_data
load_version-store_version c v h = ground (
  arith,
  masked_word v.bitmap v.bitmap_deleted v.none_half v.seq_no h.bitmap_byte h.deleted_byte
      h.none_half_word,
  bit_and-lt 8 v.bitmap 0xFE (omega arith),
  bit_and-lt 8 v.bitmap_deleted 0xFE (omega arith),
)

split_word :
    (w : ℕ)
    → ((w / 2 ^ 32 * 2 ^ 16 + w / 2 ^ 16 % 2 ^ 16) * 2 ^ 8 + w / 2 ^ 8 % 2 ^ 8) * 2 ^ 8 + w % 2 ^ 8
      ≡ w
split_word w = omega arith

masked :
    (w : ℕ)
    → bit_and w 0xFFFF_FFFF_0000_FEFE
      ≡ (w / 2 ^ 32 % 2 ^ 32 * 2 ^ 16 * 2 ^ 8 + bit_and (w / 2 ^ 8 % 2 ^ 8) 0xFE) * 2 ^ 8
        + bit_and (w % 2 ^ 8) 0xFE
masked w = rw (split_word w) at (
    masked_word (w % 2 ^ 8) (w / 2 ^ 8 % 2 ^ 8) (w / 2 ^ 16 % 2 ^ 16) (w / 2 ^ 32) (omega arith)
      (omega arith) (omega arith))

-- What `LoadVersion` gives of any word: the two bitmaps with bit 0 cleared.
pub load_version_lem :
    {E : Type 0} (c : Cell E)
    → load_version c ≡ record (of_data c.word) {
      bitmap = bit_and (of_data c.word).bitmap 0xFE;
      bitmap_deleted = bit_and (of_data c.word).bitmap_deleted 0xFE;
      none_half = 0;
    }
unfolding load_version of_data
load_version_lem c = ground (
  arith,
  masked c.word,
  bit_and-lt 8 (c.word % 2 ^ 8) 0xFE (omega arith),
  bit_and-lt 8 (c.word / 2 ^ 8 % 2 ^ 8) 0xFE (omega arith),
)

pub load_version-IsVersion : {E : Type 0} (c : Cell E) → IsVersion (load_version c)
unfolding load_version of_data
load_version-IsVersion c = omega arith
