-- ===== src/Format/Text.antt =====
-- src/turbo/turbo_hash.h, the specialisations of SlotRecord with a std::string as key, as value or
-- as both. Numbers have 64 bits, and a string is its bytes.
use turbo_hash.Common.{
  ℕ, ◌^◌, ◌≡◌, ◌↔◌, refl, sym, ap, Bool, true, ◌&&◌, some, List, [], length, ltb, arith,
}
use turbo_hash.Hasher.{hash_int, murmur_hash64_a}
use turbo_hash.Cell.{HashSlot}
use turbo_hash.SlotFormat.{SlotFormat}
use turbo_hash.Bytes.{Memory}
use turbo_hash.Slice.{equal}
use turbo_hash.Slice.Order.{compare_lem}
use turbo_hash.Record.{
  Value, num, str, second_ns, first_sn, second_sn, first_ss, second_ss, decode2_first,
  decode2_second,
}
use turbo_hash.Format.Entry.{record_of, memory_of, first-record_of, second-record_of}

-- The string of a value, and the number of it.
abbrev text : Value → List ℕ
text (num w v) = []
text (str t) = t

abbrev number : Value → ℕ
number (num w v) = v
number (str t) = 0

-- The lengths of a MurmurHash64A key have 31 bits.
abbrev pub short : List ℕ → Bool
short t = ltb (length t) (2 ^ 31)

module _ (space : Memory) where
  -- SlotRecord<T1, true, false>: H1 is the key
  abbrev pub store_ns : ℕ → ℕ → List ℕ → HashSlot (List ℕ)
  store_ns hash key value = record { h1 = key; entry = record_of space (num 8 key) (str value) }

  abbrev pub value_ns : HashSlot (List ℕ) → List ℕ
  value_ns s = second_ns 8 0 (memory_of s.entry)

  pub value-store_ns :
      (hash key : ℕ) (value : List ℕ)
      → (ltb key (2 ^ 64) && short value) ≡ true
      → value_ns (store_ns hash key value) ≡ value
  unfolding decode2_second
  value-store_ns hash key value fits =
      ap text (second-record_of space (num 8 key) (str value) (ground (arith, fits)))

  abbrev pub numeric_string : SlotFormat ℕ (List ℕ) (List ℕ)
  numeric_string = record {
    key_to_hash = hash_int;
    h1_of = λ key hash. key;
    h1_to_hash = hash_int;
    store = store_ns;
    release_address = λ s. some s.entry;
    first = λ s. s.h1;
    second = value_ns;
    slot_key_equal = λ key s. true;
    fits = λ key value. ltb key (2 ^ 64) && short value;
    h1-store = λ hash k v. refl;
    first-store = λ hash k v h. refl;
    second-store = value-store_ns;
    equal-store = λ q k v h e. (λ _. sym e, λ _. refl);
  }

  -- SlotRecord<T1, false, true>: H1 is the hash, and the keys are compared as slices
  abbrev pub store_sn : ℕ → List ℕ → ℕ → HashSlot (List ℕ)
  store_sn hash key value = record { h1 = hash; entry = record_of space (str key) (num 8 value) }

  abbrev pub key_sn : HashSlot (List ℕ) → List ℕ
  key_sn s = first_sn 8 0 (memory_of s.entry)

  abbrev pub value_sn : HashSlot (List ℕ) → ℕ
  value_sn s = second_sn 8 0 (memory_of s.entry)

  pub key-store_sn :
      (hash : ℕ) (key : List ℕ) (value : ℕ)
      → (short key && ltb value (2 ^ 64)) ≡ true
      → key_sn (store_sn hash key value) ≡ key
  unfolding decode2_first
  key-store_sn hash key value fits =
      ap text (first-record_of space (str key) (num 8 value) (ground (arith, fits)))

  pub value-store_sn :
      (hash : ℕ) (key : List ℕ) (value : ℕ)
      → (short key && ltb value (2 ^ 64)) ≡ true
      → value_sn (store_sn hash key value) ≡ value
  unfolding decode2_second
  value-store_sn hash key value fits =
      ap number (second-record_of space (str key) (num 8 value) (ground (arith, fits)))

  -- A comparison with the key that was stored.
  pub equal-stored : (q k k' : List ℕ) → k' ≡ k → (equal q k' ≡ true) ↔ (q ≡ k)
  equal-stored q k k' e = rw e (compare_lem q k).3

  abbrev pub string_numeric : SlotFormat (List ℕ) ℕ (List ℕ)
  string_numeric = record {
    key_to_hash = murmur_hash64_a;
    h1_of = λ key hash. hash;
    h1_to_hash = λ h1. h1;
    store = store_sn;
    release_address = λ s. some s.entry;
    first = key_sn;
    second = value_sn;
    slot_key_equal = λ key s. equal key (key_sn s);
    fits = λ key value. short key && ltb value (2 ^ 64);
    h1-store = λ hash k v. refl;
    first-store = key-store_sn;
    second-store = value-store_sn;
    equal-store = λ q k v h e. equal-stored q k _ (key-store_sn (murmur_hash64_a k) k v h);
  }

  -- SlotRecord<T1, false, false>
  abbrev pub store_ss : ℕ → List ℕ → List ℕ → HashSlot (List ℕ)
  store_ss hash key value = record { h1 = hash; entry = record_of space (str key) (str value) }

  abbrev pub key_ss : HashSlot (List ℕ) → List ℕ
  key_ss s = first_ss 0 (memory_of s.entry)

  abbrev pub value_ss : HashSlot (List ℕ) → List ℕ
  value_ss s = second_ss 0 (memory_of s.entry)

  pub key-store_ss :
      (hash : ℕ) (key value : List ℕ)
      → (short key && short value) ≡ true
      → key_ss (store_ss hash key value) ≡ key
  unfolding decode2_first
  key-store_ss hash key value fits =
      ap text (first-record_of space (str key) (str value) (ground (arith, fits)))

  pub value-store_ss :
      (hash : ℕ) (key value : List ℕ)
      → (short key && short value) ≡ true
      → value_ss (store_ss hash key value) ≡ value
  unfolding decode2_second
  value-store_ss hash key value fits =
      ap text (second-record_of space (str key) (str value) (ground (arith, fits)))

  abbrev pub string_string : SlotFormat (List ℕ) (List ℕ) (List ℕ)
  string_string = record {
    key_to_hash = murmur_hash64_a;
    h1_of = λ key hash. hash;
    h1_to_hash = λ h1. h1;
    store = store_ss;
    release_address = λ s. some s.entry;
    first = key_ss;
    second = value_ss;
    slot_key_equal = λ key s. equal key (key_ss s);
    fits = λ key value. short key && short value;
    h1-store = λ hash k v. refl;
    first-store = key-store_ss;
    second-store = value-store_ss;
    equal-store = λ q k v h e. equal-stored q k _ (key-store_ss (murmur_hash64_a k) k v h);
  }
