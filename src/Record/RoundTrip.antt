-- ===== src/Record/RoundTrip.antt =====
-- What is decoded from a record is what was encoded in it.
use turbo_hash.Common.{ℕ, ◌+◌, ◌≡◌, refl, ap, ◌∙◌, inl, length, arith}
use turbo_hash.Bytes.{Memory, store_number, load_number, copy_in}
use turbo_hash.Bytes.Laws.{Agree, store_number-outside, copy_in-outside}
use turbo_hash.Record.{u64, Value, num, str, size1, length1, encode1, decode1, encode2}
use turbo_hash.Record.Layout.{Fits, Fits2, number_back, bytes_back, Stores2, Stores1}
use turbo_hash.Record.Strings.{Stores2-ss}
use turbo_hash.Record.Mixed.{Stores2-nn, Stores2-ns, Stores2-sn}

-- For numbers that fit their types of at most 16 bytes and strings shorter than 2 ^ 63, or 2 ^ 32
-- in a record of two strings, EncodeToRecord2 writes only the bytes of Record2Format's length, and
-- from every memory that has these bytes DecodeInRecord2 gives both values back and Record2Size
-- gives that length.
pub encode2-Stores2 :
    (a b : Value) (addr : ℕ) (m : Memory) → Fits2 a b → Stores2 a b addr m (encode2 a b addr m)
encode2-Stores2 (num w1 v1) (num w2 v2) addr m fits = Stores2-nn w1 v1 w2 v2 addr m fits
encode2-Stores2 (num w1 v1) (str t2) addr m fits = Stores2-ns w1 v1 t2 addr m fits
encode2-Stores2 (str t1) (num w2 v2) addr m fits = Stores2-sn t1 w2 v2 addr m fits
encode2-Stores2 (str t1) (str t2) addr m fits = Stores2-ss t1 t2 addr m fits

-- For a number that fits its type of at most 16 bytes or a string shorter than 2 ^ 63, EncodeToRecord1 writes only the
-- bytes of Record1Format's length, and from every memory that has these bytes DecodeInRecord1 gives
-- the value back and Record1Size gives that length.
encode1-Stores1 :
    (a : Value) (addr : ℕ) (m : Memory) → Fits 63 a → Stores1 a addr m (encode1 a addr m)
unfolding encode1 length1 decode1 size1
encode1-Stores1 (num w v) addr m fits = record {
  outside = λ i out. store_number-outside w addr v m i out;
  value = λ m' same. ap (num w) (number_back w addr v m m' fits.0 same);
  sized = λ m' same. refl;
}
encode1-Stores1 (str t) addr m fits = record {
  outside = λ i out.
      copy_in-outside t (addr + 8) (store_number 8 addr (length t) m) i (omega (arith, out))
      ∙ store_number-outside 8 addr (length t) m i (omega (arith, out));
  value = λ m' same. ap str (
      bytes_back t (load_number 8 addr m') (addr + 8) (store_number 8 addr (length t) m) m'
        (len1 m' same) (λ i le lt. same i (omega arith) (omega arith)));
  sized = λ m' same. ap (λ (n : ℕ). u64 (8 + n)) (len1 m' same);
}
  where
    len1 :
        (m' : Memory)
        → Agree addr
            (u64 (8 + length t))
            m'
            (copy_in (addr + 8) t (store_number 8 addr (length t) m))
        → load_number 8 addr m' ≡ length t
    len1 m' same = number_back 8 addr (length t) m m' (omega arith) (λ i le lt.
        same i le (omega arith)
        ∙ copy_in-outside t (addr + 8) (store_number 8 addr (length t) m) i (inl (omega arith)))
