-- ===== src/Record/Strings.antt =====
-- A record of two strings.
use turbo_hash.Common.{ℕ, ◌+◌, ◌≤◌, ◌<◌, ◌≡◌, refl, ap, ◌∙◌, inl, List, length, arith}
use turbo_hash.Bytes.{Memory, store_number, load_number, copy_in, copy_out}
use turbo_hash.Bytes.Laws.{Agree, store_number-outside, copy_in-outside}
use turbo_hash.Record.{u64, str, size2, length2, encode2, decode2_first, decode2_second}
use turbo_hash.Record.Layout.{Fits2, number_back, bytes_back, Stores2}

-- `|  len1  |  len2  | buffer1 | buffer2 |`
module _ (t1 t2 : List ℕ) (addr : ℕ) (m : Memory) (fits : Fits2 (str t1) (str t2)) where
  abbrev lens_ss : Memory
  lens_ss = store_number 4 (addr + 4) (length t2) (store_number 4 addr (length t1) m)

  abbrev one_ss : Memory
  one_ss = copy_in (addr + 8) t1 lens_ss

  abbrev both_ss : Memory
  both_ss = copy_in (addr + 8 + length t1) t2 one_ss

  whole_ss : u64 (4 + 4 + length t1 + length t2) ≡ 8 + length t1 + length t2
  whole_ss = omega (arith, fits)

  module _ (m' : Memory) (same : Agree addr (u64 (4 + 4 + length t1 + length t2)) m' both_ss) where
    at_ss : (i : ℕ) → addr ≤ i → i < addr + (8 + length t1 + length t2) → m' i ≡ both_ss i
    at_ss i le lt = same i le (omega (arith, whole_ss))

    len1_ss : load_number 4 addr m' ≡ length t1
    len1_ss = number_back 4 addr (length t1) m m' (omega (arith, fits)) (λ i le lt.
        at_ss i le (omega arith)
        ∙ copy_in-outside t2 (addr + 8 + length t1) one_ss i (inl (omega arith))
        ∙ copy_in-outside t1 (addr + 8) lens_ss i (inl (omega arith))
        ∙ store_number-outside 4 (addr + 4) (length t2) (store_number 4 addr (length t1) m) i
            (inl (omega arith)))

    len2_ss : load_number 4 (addr + 4) m' ≡ length t2
    len2_ss =
        number_back 4 (addr + 4) (length t2) (store_number 4 addr (length t1) m) m'
          (omega (arith, fits))
          (λ i le lt.
            at_ss i (omega arith) (omega arith)
            ∙ copy_in-outside t2 (addr + 8 + length t1) one_ss i (inl (omega arith))
            ∙ copy_in-outside t1 (addr + 8) lens_ss i (inl (omega arith)))

    first_ss_back : copy_out (load_number 4 addr m') (addr + 8) m' ≡ t1
    first_ss_back = bytes_back t1 (load_number 4 addr m') (addr + 8) lens_ss m' len1_ss (λ i le lt.
        at_ss i (omega arith) (omega arith)
        ∙ copy_in-outside t2 (addr + 8 + length t1) one_ss i (inl (omega arith)))

    second_ss_back :
        copy_out (load_number 4 (addr + 4) m') (addr + 8 + load_number 4 addr m') m' ≡ t2
    second_ss_back = rw len1_ss (
        bytes_back t2 (load_number 4 (addr + 4) m') (addr + 8 + length t1) one_ss m' len2_ss
          (λ i le lt. at_ss i (omega arith) (omega arith)))

    size_ss_back :
        u64 (4 + 4 + load_number 4 addr m' + load_number 4 (addr + 4) m')
        ≡ u64 (4 + 4 + length t1 + length t2)
    size_ss_back = rw (len1_ss, len2_ss) refl

  four_more : addr + 4 + 4 ≡ addr + 8
  four_more = omega arith

  pub Stores2-ss : Stores2 (str t1) (str t2) addr m (encode2 (str t1) (str t2) addr m)
  unfolding encode2 length2 decode2_first decode2_second size2
  Stores2-ss = record {
    outside = λ i out.
        copy_in-outside t2 (addr + 8 + length t1) one_ss i (omega (arith, out, whole_ss))
        ∙ copy_in-outside t1 (addr + 8) lens_ss i (omega (arith, out, whole_ss))
        ∙ store_number-outside 4 (addr + 4) (length t2) (store_number 4 addr (length t1) m) i
            (omega (arith, out, whole_ss))
        ∙ store_number-outside 4 addr (length t1) m i (omega (arith, out, whole_ss));
    first = λ m' same. rw four_more (ap str (first_ss_back m' same));
    second = λ m' same. rw four_more (ap str (second_ss_back m' same));
    sized = λ m' same. size_ss_back m' same;
  }
