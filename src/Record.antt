-- ===== src/Record.antt =====
-- src/turbo/turbo_hash.h: the layouts of records, Record1Size, Record1Format, EncodeToRecord1 and
-- DecodeInRecord1 for one value, and Record2Size, Record2Format, EncodeToRecord2 and
-- DecodeInRecord2 for two. A numeric type is its number of bytes; a Slice is its bytes. A copy of no
-- bytes changes nothing, so the tests of `t2.size ()` before a copy are left out.
pub mod Layout
pub mod Strings
pub mod Mixed
pub mod RoundTrip
use turbo_hash.Common.{ℕ, ◌+◌, ◌%◌, ◌^◌, List, length}
use turbo_hash.Bytes.{Memory, store_number, load_number, copy_in, copy_out}

abbrev pub u64 : ℕ → ℕ
u64 n = n % 2 ^ 64

-- A value of a numeric type of `w` bytes, or a std::string.
pub data Value : Type 0 where
  num : (w v : ℕ) → Value
  str : List ℕ → Value

pub data Kind : Type 0 where
  numeric : (w : ℕ) → Kind
  string : Kind

-- Record1, case 1: |   T1  |
abbrev pub size_n : ℕ → ℕ → Memory → ℕ
size_n w addr m = w

abbrev pub length_n : ℕ → ℕ
length_n w = w

abbrev pub encode_n : ℕ → ℕ → ℕ → Memory → Memory
encode_n w v addr m = store_number w addr v m

abbrev pub decode_n : ℕ → ℕ → Memory → ℕ
decode_n w addr m = load_number w addr m

-- Record1, case 2: |  len1  | buffer1
abbrev pub size_s : ℕ → Memory → ℕ
size_s addr m = let len1 = load_number 8 addr m in u64 (8 + len1)

abbrev pub length_s : List ℕ → ℕ
length_s t1 = u64 (8 + length t1)

abbrev pub encode_s : List ℕ → ℕ → Memory → Memory
encode_s t1 addr m = copy_in (addr + 8) t1 (store_number 8 addr (length t1) m)

abbrev pub decode_s : ℕ → Memory → List ℕ
decode_s addr m = let len1 = load_number 8 addr m in copy_out len1 (addr + 8) m

-- Record2, case 1: |   T1  |   T2  |
abbrev pub size_nn : ℕ → ℕ → ℕ → Memory → ℕ
size_nn w1 w2 addr m = u64 (w1 + w2)

abbrev pub length_nn : ℕ → ℕ → ℕ
length_nn w1 w2 = u64 (w1 + w2)

abbrev pub encode_nn : ℕ → ℕ → ℕ → ℕ → ℕ → Memory → Memory
encode_nn w1 t1 w2 t2 addr m = store_number w2 (addr + w1) t2 (store_number w1 addr t1 m)

abbrev pub first_nn : ℕ → ℕ → Memory → ℕ
first_nn w1 addr m = load_number w1 addr m

abbrev pub second_nn : ℕ → ℕ → ℕ → Memory → ℕ
second_nn w1 w2 addr m = load_number w2 (addr + w1) m

-- Record2, case 2: |   T1  |   len2  |   buffer2
abbrev pub size_ns : ℕ → ℕ → Memory → ℕ
size_ns w1 addr m = let len2 = load_number 8 (addr + w1) m in u64 (w1 + 8 + len2)

abbrev pub length_ns : ℕ → List ℕ → ℕ
length_ns w1 t2 = u64 (w1 + 8 + length t2)

abbrev pub encode_ns : ℕ → ℕ → List ℕ → ℕ → Memory → Memory
encode_ns w1 t1 t2 addr m =
    copy_in (addr + (w1 + 8)) t2
      (store_number 8 (addr + w1) (length t2) (store_number w1 addr t1 m))

abbrev pub first_ns : ℕ → ℕ → Memory → ℕ
first_ns w1 addr m = load_number w1 addr m

abbrev pub second_ns : ℕ → ℕ → Memory → List ℕ
second_ns w1 addr m = let len2 = load_number 8 (addr + w1) m in copy_out len2 (addr + w1 + 8) m

-- Record2, case 3: |  len1  |   T2  |   buffer1
abbrev pub size_sn : ℕ → ℕ → Memory → ℕ
size_sn w2 addr m = let len1 = load_number 8 addr m in u64 (8 + w2 + len1)

abbrev pub length_sn : List ℕ → ℕ → ℕ
length_sn t1 w2 = u64 (8 + w2 + length t1)

abbrev pub encode_sn : List ℕ → ℕ → ℕ → ℕ → Memory → Memory
encode_sn t1 w2 t2 addr m =
    copy_in (addr + (8 + w2)) t1 (store_number w2 (addr + 8) t2 (store_number 8 addr (length t1) m))

abbrev pub first_sn : ℕ → ℕ → Memory → List ℕ
first_sn w2 addr m = let len1 = load_number 8 addr m in copy_out len1 (addr + 8 + w2) m

abbrev pub second_sn : ℕ → ℕ → Memory → ℕ
second_sn w2 addr m = load_number w2 (addr + 8) m

-- Record2, case 4: |  len1  |  len2  | buffer1 | buffer2 |, with lengths of 32 bits
abbrev pub size_ss : ℕ → Memory → ℕ
size_ss addr m =
    let len1 = load_number 4 addr m in
    let len2 = load_number 4 (addr + 4) m in u64 (4 + 4 + len1 + len2)

abbrev pub length_ss : List ℕ → List ℕ → ℕ
length_ss t1 t2 = u64 (4 + 4 + length t1 + length t2)

abbrev pub encode_ss : List ℕ → List ℕ → ℕ → Memory → Memory
encode_ss t1 t2 addr m = copy_in (addr + 8 + length t1) t2 (
    copy_in (addr + 8) t1
      (store_number 4 (addr + 4) (length t2) (store_number 4 addr (length t1) m)))

abbrev pub first_ss : ℕ → Memory → List ℕ
first_ss addr m = let len1 = load_number 4 addr m in copy_out len1 (addr + 4 + 4) m

abbrev pub second_ss : ℕ → Memory → List ℕ
second_ss addr m =
    let len1 = load_number 4 addr m in
    let len2 = load_number 4 (addr + 4) m in copy_out len2 (addr + 4 + 4 + len1) m

-- The specialisation that the types of the values select.
unfoldable pub size1 : Kind → ℕ → Memory → ℕ
size1 (numeric w) addr m = size_n w addr m
size1 string addr m = size_s addr m

unfoldable pub length1 : Value → ℕ
length1 (num w v) = length_n w
length1 (str t) = length_s t

unfoldable pub encode1 : Value → ℕ → Memory → Memory
encode1 (num w v) addr m = encode_n w v addr m
encode1 (str t) addr m = encode_s t addr m

unfoldable pub decode1 : Kind → ℕ → Memory → Value
decode1 (numeric w) addr m = num w (decode_n w addr m)
decode1 string addr m = str (decode_s addr m)

unfoldable pub size2 : Kind → Kind → ℕ → Memory → ℕ
size2 (numeric w1) (numeric w2) addr m = size_nn w1 w2 addr m
size2 (numeric w1) string addr m = size_ns w1 addr m
size2 string (numeric w2) addr m = size_sn w2 addr m
size2 string string addr m = size_ss addr m

unfoldable pub length2 : Value → Value → ℕ
length2 (num w1 v1) (num w2 v2) = length_nn w1 w2
length2 (num w1 v1) (str t2) = length_ns w1 t2
length2 (str t1) (num w2 v2) = length_sn t1 w2
length2 (str t1) (str t2) = length_ss t1 t2

unfoldable pub encode2 : Value → Value → ℕ → Memory → Memory
encode2 (num w1 v1) (num w2 v2) addr m = encode_nn w1 v1 w2 v2 addr m
encode2 (num w1 v1) (str t2) addr m = encode_ns w1 v1 t2 addr m
encode2 (str t1) (num w2 v2) addr m = encode_sn t1 w2 v2 addr m
encode2 (str t1) (str t2) addr m = encode_ss t1 t2 addr m

unfoldable pub decode2_first : Kind → Kind → ℕ → Memory → Value
decode2_first (numeric w1) (numeric w2) addr m = num w1 (first_nn w1 addr m)
decode2_first (numeric w1) string addr m = num w1 (first_ns w1 addr m)
decode2_first string (numeric w2) addr m = str (first_sn w2 addr m)
decode2_first string string addr m = str (first_ss addr m)

unfoldable pub decode2_second : Kind → Kind → ℕ → Memory → Value
decode2_second (numeric w1) (numeric w2) addr m = num w2 (second_nn w1 w2 addr m)
decode2_second (numeric w1) string addr m = str (second_ns w1 addr m)
decode2_second string (numeric w2) addr m = num w2 (second_sn w2 addr m)
decode2_second string string addr m = str (second_ss addr m)
