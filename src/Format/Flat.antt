-- ===== src/Format/Flat.antt =====
-- src/turbo/turbo_hash.h, SlotRecord<T1, true, true>: key and value are numbers of 64 bits, kept
-- in the slot itself.
use turbo_hash.Common.{ℕ, ◌^◌, ◌≡◌, ◌↔◌, refl, sym, Bool, true, ◌&&◌, none, ltb}
use turbo_hash.Hasher.{hash_int}
use turbo_hash.Cell.{HashSlot}
use turbo_hash.SlotFormat.{SlotFormat}

-- `Store`
abbrev pub flat_store : ℕ → ℕ → ℕ → HashSlot ℕ
flat_store hash key value = record { h1 = key; entry = value }

pub flat_equal : (q k : ℕ) → k ≡ q → (◌≡◌ {A = Bool} true true) ↔ (q ≡ k)
flat_equal q k e = (λ _. sym e, λ _. refl)

-- H1 is the key; its hash is `hash_int`, which KeyToHash and H1ToHash both compute.
abbrev pub flat : SlotFormat ℕ ℕ ℕ
flat = record {
  key_to_hash = hash_int;
  h1_of = λ key hash. key;
  h1_to_hash = hash_int;
  store = flat_store;
  release_address = λ s. none;
  first = λ s. s.h1;
  second = λ s. s.entry;
  slot_key_equal = λ key s. true;
  fits = λ key value. ltb key (2 ^ 64) && ltb value (2 ^ 64);
  h1-store = λ hash k v. refl;
  first-store = λ hash k v h. refl;
  second-store = λ hash k v h. refl;
  equal-store = λ q k v h e. flat_equal q k e;
}
