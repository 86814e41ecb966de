-- ===== src/Record/Mixed.antt =====
-- A record of two numbers, or of a number and a string in either order.
use turbo_hash.Common.{ℕ, ◌+◌, ◌≡◌, refl, ap, ◌∙◌, inl, List, length, arith}
use turbo_hash.Bytes.{Memory, store_number, load_number, copy_in, copy_out}
use turbo_hash.Bytes.Laws.{Agree, store_number-outside, copy_in-outside}
use turbo_hash.Record.{u64, num, str, size2, length2, encode2, decode2_first, decode2_second}
use turbo_hash.Record.Layout.{Fits2, number_back, bytes_back, Stores2}

-- `|   T1  |   T2  |`
module _ (w1 v1 w2 v2 addr : ℕ) (m : Memory) (fits : Fits2 (num w1 v1) (num w2 v2)) where
  abbrev one_nn : Memory
  one_nn = store_number w1 addr v1 m

  abbrev both_nn : Memory
  both_nn = store_number w2 (addr + w1) v2 one_nn

  whole_nn : u64 (w1 + w2) ≡ w1 + w2
  whole_nn = omega (arith, fits)

  pub Stores2-nn : Stores2 (num w1 v1) (num w2 v2) addr m (encode2 (num w1 v1) (num w2 v2) addr m)
  unfolding encode2 length2 decode2_first decode2_second size2
  Stores2-nn = record {
    outside = λ i out.
        store_number-outside w2 (addr + w1) v2 one_nn i (omega (arith, out, whole_nn))
        ∙ store_number-outside w1 addr v1 m i (omega (arith, out, whole_nn));
    first = λ m' same. ap (num w1) (
        number_back w1 addr v1 m m' fits.0.0 (λ i le lt.
          same i le (omega (arith, whole_nn))
          ∙ store_number-outside w2 (addr + w1) v2 one_nn i (inl (omega arith))));
    second = λ m' same. ap (num w2) (
        number_back w2 (addr + w1) v2 one_nn m' fits.1.0
          (λ i le lt. same i (omega arith) (omega (arith, whole_nn))));
    sized = λ m' same. refl;
  }

-- `|   T1  |   len2  |   buffer2`
module _ (w1 v1 : ℕ) (t2 : List ℕ) (addr : ℕ) (m : Memory) (fits : Fits2 (num w1 v1) (str t2)) where
  abbrev key_ns : Memory
  key_ns = store_number w1 addr v1 m

  abbrev len_ns : Memory
  len_ns = store_number 8 (addr + w1) (length t2) key_ns

  abbrev both_ns : Memory
  both_ns = copy_in (addr + (w1 + 8)) t2 len_ns

  whole_ns : u64 (w1 + 8 + length t2) ≡ w1 + 8 + length t2
  whole_ns = omega (arith, fits)

  same_place : addr + w1 + 8 ≡ addr + (w1 + 8)
  same_place = omega arith

  module _ (m' : Memory) (same : Agree addr (u64 (w1 + 8 + length t2)) m' both_ns) where
    len2_ns : load_number 8 (addr + w1) m' ≡ length t2
    len2_ns = number_back 8 (addr + w1) (length t2) key_ns m' (omega (arith, fits)) (λ i le lt.
        same i (omega arith) (omega (arith, whole_ns))
        ∙ copy_in-outside t2 (addr + (w1 + 8)) len_ns i (inl (omega arith)))

    first_ns_back : load_number w1 addr m' ≡ v1
    first_ns_back = number_back w1 addr v1 m m' fits.0.0 (λ i le lt.
        same i le (omega (arith, whole_ns))
        ∙ copy_in-outside t2 (addr + (w1 + 8)) len_ns i (inl (omega arith))
        ∙ store_number-outside 8 (addr + w1) (length t2) key_ns i (inl (omega arith)))

    second_ns_back : copy_out (load_number 8 (addr + w1) m') (addr + w1 + 8) m' ≡ t2
    second_ns_back = rw same_place (
        bytes_back t2 (load_number 8 (addr + w1) m') (addr + (w1 + 8)) len_ns m' len2_ns
          (λ i le lt. same i (omega arith) (omega (arith, whole_ns))))

    size_ns_back : u64 (w1 + 8 + load_number 8 (addr + w1) m') ≡ u64 (w1 + 8 + length t2)
    size_ns_back = rw len2_ns refl

  pub Stores2-ns : Stores2 (num w1 v1) (str t2) addr m (encode2 (num w1 v1) (str t2) addr m)
  unfolding encode2 length2 decode2_first decode2_second size2
  Stores2-ns = record {
    outside = λ i out.
        copy_in-outside t2 (addr + (w1 + 8)) len_ns i (omega (arith, out, whole_ns))
        ∙ store_number-outside 8 (addr + w1) (length t2) key_ns i (omega (arith, out, whole_ns))
        ∙ store_number-outside w1 addr v1 m i (omega (arith, out, whole_ns));
    first = λ m' same. ap (num w1) (first_ns_back m' same);
    second = λ m' same. ap str (second_ns_back m' same);
    sized = λ m' same. size_ns_back m' same;
  }

-- `|  len1  |   T2  |   buffer1`
module _ (t1 : List ℕ) (w2 v2 : ℕ) (addr : ℕ) (m : Memory) (fits : Fits2 (str t1) (num w2 v2)) where
  abbrev len_sn : Memory
  len_sn = store_number 8 addr (length t1) m

  abbrev value_sn : Memory
  value_sn = store_number w2 (addr + 8) v2 len_sn

  abbrev both_sn : Memory
  both_sn = copy_in (addr + (8 + w2)) t1 value_sn

  whole_sn : u64 (8 + w2 + length t1) ≡ 8 + w2 + length t1
  whole_sn = omega (arith, fits)

  after_value : addr + 8 + w2 ≡ addr + (8 + w2)
  after_value = omega arith

  module _ (m' : Memory) (same : Agree addr (u64 (8 + w2 + length t1)) m' both_sn) where
    len1_sn : load_number 8 addr m' ≡ length t1
    len1_sn = number_back 8 addr (length t1) m m' (omega (arith, fits)) (λ i le lt.
        same i le (omega (arith, whole_sn))
        ∙ copy_in-outside t1 (addr + (8 + w2)) value_sn i (inl (omega arith))
        ∙ store_number-outside w2 (addr + 8) v2 len_sn i (inl (omega arith)))

    first_sn_back : copy_out (load_number 8 addr m') (addr + 8 + w2) m' ≡ t1
    first_sn_back = rw after_value (
        bytes_back t1 (load_number 8 addr m') (addr + (8 + w2)) value_sn m' len1_sn
          (λ i le lt. same i (omega arith) (omega (arith, whole_sn))))

    second_sn_back : load_number w2 (addr + 8) m' ≡ v2
    second_sn_back = number_back w2 (addr + 8) v2 len_sn m' fits.1.0 (λ i le lt.
        same i (omega arith) (omega (arith, whole_sn))
        ∙ copy_in-outside t1 (addr + (8 + w2)) value_sn i (inl (omega arith)))

    size_sn_back : u64 (8 + w2 + load_number 8 addr m') ≡ u64 (8 + w2 + length t1)
    size_sn_back = rw len1_sn refl

  pub Stores2-sn : Stores2 (str t1) (num w2 v2) addr m (encode2 (str t1) (num w2 v2) addr m)
  unfolding encode2 length2 decode2_first decode2_second size2
  Stores2-sn = record {
    outside = λ i out.
        copy_in-outside t1 (addr + (8 + w2)) value_sn i (omega (arith, out, whole_sn))
        ∙ store_number-outside w2 (addr + 8) v2 len_sn i (omega (arith, out, whole_sn))
        ∙ store_number-outside 8 addr (length t1) m i (omega (arith, out, whole_sn));
    first = λ m' same. ap str (first_sn_back m' same);
    second = λ m' same. ap (num w2) (second_sn_back m' same);
    sized = λ m' same. size_sn_back m' same;
  }
