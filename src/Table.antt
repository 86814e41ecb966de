-- ===== src/Table.antt =====
-- src/turbo/turbo_hash.h, class TurboHashTable: the directory of buckets, and `Find`, `Delete` and
-- `Put` on it, without PIN_KEY_TO_THREAD. The old cells that a rehash hands to the epochs are not
-- part of the result of `Put`.
pub mod Lookup
pub mod Grow
pub mod Put
pub mod Parallel
pub mod Workers
pub mod RehashAll
pub mod Create
use turbo_hash.Common.{ℕ, zero, suc, Bool, false, Option, none, some, List, bit_and, ◌%◌, ◌^◌, ◌-◌}
use turbo_hash.Hasher.{bucket_hash_of}
use turbo_hash.Cell.{HashSlot, update}
use turbo_hash.SlotFormat.{SlotFormat}
use turbo_hash.Bucket.{Bucket, find_slot, delete_slot, try_insert}
use turbo_hash.Rehash.{minor_rehash}

-- `buckets_`, and the logarithm of `bucket_count_`
pub record Table (E : Type 0) : Type 0 where
  pub buckets : ℕ → Bucket E
  pub count_shift : ℕ

-- `bucketIndex`, with `bucket_mask_`; it returns 32 bits
unfoldable pub bucket_index : {E : Type 0} → Table E → ℕ → ℕ
bucket_index t hash = bit_and hash (2 ^ t.count_shift - 1) % 2 ^ 32

-- What `insertSlot` comes to: the bucket and the records freed, `exit (1)`, or no fuel left.
pub data Outcome (E : Type 0) : Type 0 where
  stored : Bucket E → List E → Outcome E
  exited : Outcome E
  unfinished : Outcome E

-- `goto after_rehash`, with what `MinorRehash` made.
abbrev pub after_rehash : {E : Type 0} → Option (Bucket E × ℕ) → (Bucket E → Outcome E) → Outcome E
after_rehash none retry = exited
after_rehash (some (b, n)) retry = retry b

-- The outcome for the table: the bucket goes into its place.
pub data TableOutcome (E : Type 0) : Type 0 where
  put_done : Table E → List E → TableOutcome E
  put_exited : TableOutcome E
  put_unfinished : TableOutcome E

abbrev pub in_table : {E : Type 0} → Table E → ℕ → Outcome E → TableOutcome E
in_table t bi (stored b garbage) = put_done (record t { buckets = update t.buckets bi b }) garbage
in_table t bi exited = put_exited
in_table t bi unfinished = put_unfinished

module _ {K V E : Type 0} (f : SlotFormat K V E) where
  -- The bucket that every operation locates for a key.
  abbrev pub index_of : Table E → K → ℕ
  index_of t k = bucket_index t (bucket_hash_of (f.key_to_hash k))

  -- `Find`; the callback gets the record found
  unfoldable pub find : Table E → K → Option (HashSlot E)
  find t k = find_slot f (t.buckets (index_of t k)) k (f.key_to_hash k)

  -- `Delete`
  unfoldable pub delete : Table E → K → Table E × Bool × List E
  delete t k =
      let (b, found, garbage) = delete_slot f (t.buckets (index_of t k)) k (f.key_to_hash k) in
      (record t { buckets = update t.buckets (index_of t k) b }, found, garbage)

  module _ (zero_entry : E) (space : ℕ → ℕ → ℕ → HashSlot E) where
    -- `insertSlot`, with the number of turns left. The allocations of the turns have `space`.
    unfoldable pub insert_slot : ℕ → Bucket E → K → V → ℕ → Outcome E
    insert_slot zero b k v hash = unfinished
    insert_slot (suc left) b k v hash = elim (try_insert f b hash k v) [
      | some (b', garbage) ↦ stored b' garbage
      | none ↦
          after_rehash (minor_rehash f b false zero_entry (space left))
            (λ c. insert_slot left c k v hash)
    ]

    -- `Put`, with turns for every size of a bucket
    unfoldable pub put : Table E → K → V → TableOutcome E
    put t k v =
        let bi = index_of t k in
        let hash_value = f.key_to_hash k in
        in_table t bi (insert_slot 17 (t.buckets bi) k v hash_value)
