-- ===== src/Record/Layout.antt =====
-- What it means that a record stores its values, and the parts that the proofs share.
use turbo_hash.Common.{ℕ, ◌+◌, ◌*◌, ◌^◌, ◌≤◌, ◌<◌, ◌≡◌, ◌⊎◌, ◌∙◌, List, length}
use turbo_hash.Bytes.{Memory, store_number, load_number, copy_in, copy_out}
use turbo_hash.Bytes.Laws.{Agree, load_number-Agree, copy_out-Agree, load-store, copy_out-copy_in}
use turbo_hash.Record.{
  Value, num, str, Kind, numeric, string, size1, length1, decode1, size2, length2, decode2_first,
  decode2_second,
}

abbrev pub kind_of : Value → Kind
kind_of (num w v) = numeric w
kind_of (str t) = string

-- A number fits the bytes of its type, and a length is less than 2 ^ n.
abbrev pub Fits : ℕ → Value → Type 0
Fits n (num w v) = (v < 2 ^ (8 * w)) × (w ≤ 16)
Fits n (str t) = length t < 2 ^ n

-- The lengths in a record of two strings have 32 bits.
abbrev pub Fits2 : Value → Value → Type 0
Fits2 (str t1) (str t2) = Fits 32 (str t1) × Fits 32 (str t2)
Fits2 a b = Fits 63 a × Fits 63 b

-- A number and bytes that were stored, in a memory that still has them.
pub number_back :
    (n addr v : ℕ) (m m' : Memory)
    → v < 2 ^ (8 * n)
    → Agree addr n m' (store_number n addr v m)
    → load_number n addr m' ≡ v
number_back n addr v m m' fits same =
    load_number-Agree n addr m' (store_number n addr v m) same ∙ load-store n addr v m fits

pub bytes_back :
    (bs : List ℕ) (n addr : ℕ) (m m' : Memory)
    → n ≡ length bs
    → Agree addr (length bs) m' (copy_in addr bs m)
    → copy_out n addr m' ≡ bs
bytes_back bs n addr m m' e same =
    rw e (copy_out-Agree (length bs) addr m' (copy_in addr bs m) same ∙ copy_out-copy_in bs addr m)

-- What a layout promises: of the record's length at `addr` and of the memory `r` after the encoding
-- of `a` and `b` in `m`.
pub record Stores2 (a b : Value) (addr : ℕ) (m r : Memory) : Type 0 where
  pub outside : (i : ℕ) → (i < addr) ⊎ (addr + length2 a b ≤ i) → r i ≡ m i
  pub first :
      (m' : Memory)
      → Agree addr (length2 a b) m' r
      → decode2_first (kind_of a) (kind_of b) addr m' ≡ a
  pub second :
      (m' : Memory)
      → Agree addr (length2 a b) m' r
      → decode2_second (kind_of a) (kind_of b) addr m' ≡ b
  pub sized :
      (m' : Memory)
      → Agree addr (length2 a b) m' r
      → size2 (kind_of a) (kind_of b) addr m' ≡ length2 a b

pub record Stores1 (a : Value) (addr : ℕ) (m r : Memory) : Type 0 where
  pub outside : (i : ℕ) → (i < addr) ⊎ (addr + length1 a ≤ i) → r i ≡ m i
  pub value : (m' : Memory) → Agree addr (length1 a) m' r → decode1 (kind_of a) addr m' ≡ a
  pub sized : (m' : Memory) → Agree addr (length1 a) m' r → size1 (kind_of a) addr m' ≡ length1 a
