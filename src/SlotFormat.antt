-- ===== src/SlotFormat.antt =====
-- What the table asks of its template parameters: Key, T, Hash, KeyEqual, and the specialisation
-- of SlotRecord, H1Convert, H1ToHash and SlotKeyEqual that they select
-- (src/turbo/turbo_hash.h). An entry `E` is a flat value, or the record that the entry word
-- points to.
use turbo_hash.Common.{ℕ, ◌≡◌, ◌↔◌, Bool, true, Option}
use turbo_hash.Cell.{HashSlot}

pub record SlotFormat (K V E : Type 0) : Type 0 where
  pub key_to_hash : K → ℕ
  pub h1_of : K → ℕ → ℕ
  pub h1_to_hash : ℕ → ℕ
  -- `Store`, with the hash of the key
  pub store : ℕ → K → V → HashSlot E
  -- `ReleaseAddress`: the record to free, if the slot has one
  pub release_address : HashSlot E → Option E
  pub first : HashSlot E → K
  pub second : HashSlot E → V
  pub slot_key_equal : K → HashSlot E → Bool
  -- the key and the value fit their fields
  pub fits : K → V → Bool
  pub h1-store : (hash : ℕ) (k : K) (v : V) → (store hash k v).h1 ≡ h1_of k hash
  pub first-store : (hash : ℕ) (k : K) (v : V) → fits k v ≡ true → first (store hash k v) ≡ k
  pub second-store : (hash : ℕ) (k : K) (v : V) → fits k v ≡ true → second (store hash k v) ≡ v
  -- behind equal H1 words, the comparison of the slot decides equality of keys
  pub equal-store :
      (q k : K) (v : V)
      → fits k v ≡ true
      → h1_of k (key_to_hash k) ≡ h1_of q (key_to_hash q)
      → (slot_key_equal q (store (key_to_hash k) k v) ≡ true) ↔ (q ≡ k)
