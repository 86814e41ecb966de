-- ===== src/Table/Lookup.antt =====
-- The table as a map, and what `Find` and `Delete` do to it.
use turbo_hash.Common.{
  bit_and, ℕ, ◌-◌, ◌^◌, ◌%◌, ◌≤◌, ◌<◌, ◌≡◌, ◌≢◌, Bool, true, false, ◌⊎◌, ◌↔◌, List, [], arith,
}
use mathlib.Core.Option
use turbo_hash.Common.Bits.{bit_and_mask}
use native.Mathlib.Nat.{one-le-pow, mod-lt}
use turbo_hash.Hasher.{bucket_hash_of}
use turbo_hash.SlotFormat.{SlotFormat}
use turbo_hash.Bucket.{Bucket, marked, delete_slot}
use turbo_hash.Bucket.Valid.{hash, Contains, IsValid}
use turbo_hash.Table.{Table, bucket_index, index_of}

module _ {K V E : Type 0} (f : SlotFormat K V E) where
  -- Every bucket is valid, and has only keys that belong to it.
  pub record IsTable (t : Table E) : Type 0 where
    pub bucket_valid : (bi : ℕ) → bi < 2 ^ t.count_shift → IsValid f (t.buckets bi)
    pub few_buckets : t.count_shift ≤ 31
    pub routed :
        (bi : ℕ) (k : K) (v : V)
        → bi < 2 ^ t.count_shift
        → Contains f (t.buckets bi) k v
        → bi ≡ index_of f t k

  -- Some bucket maps the key to the value.
  abbrev pub Maps : Table E → K → V → Type 0
  Maps t k v = (bi : ℕ) × (bi < 2 ^ t.count_shift) × Contains f (t.buckets bi) k v

  module _ (t : Table E) (valid : IsTable t) (k : K) where
    pub index_range : index_of f t k < 2 ^ t.count_shift
    unfolding bucket_index
    index_range =
        let h = bucket_hash_of (hash f k) in
        let masked : bit_and h (2 ^ t.count_shift - 1) ≡ h % 2 ^ t.count_shift =
          bit_and_mask t.count_shift h in
        rw masked (omega (arith, bit_and, mod-lt h (one-le-pow t.count_shift 2 (omega arith))))

    abbrev home_bucket : Bucket E
    home_bucket = t.buckets (index_of f t k)

    pub Maps-home : (v : V) → Maps t k v ↔ Contains f home_bucket k v
    Maps-home v =
        (λ (bi, h, c). rw (valid.routed bi k v h c) at c, λ c. (index_of f t k, index_range, c))

-- What `Delete` promises of the table after it, the value returned, and the garbage.
pub record Deletes {K V E : Type 0} (f : SlotFormat K V E) (t : Table E) (k : K)
    (r : Table E × Bool × List E) : Type 0 where
  pub valid : IsTable f r.0
  pub content : (q : K) (v : V) → Maps f r.0 q v ↔ (Maps f t q v × (q ≢ k))
  pub answer :
      ((r.1 ≡ true)
        × ((v : V) × Maps f t k v × (r.2 ≡ marked (f.release_address (f.store (hash f k) k v)))))
      ⊎ ((r.1 ≡ false) × ((v : V) → Maps f t k v → ⊥) × (r.2 ≡ []))

module _ {K V E : Type 0} (f : SlotFormat K V E) (t : Table E) (valid : IsTable f t) (k : K) where
  abbrev home_index : ℕ
  home_index = index_of f t k

  abbrev removed : Bucket E × Bool × List E
  removed = delete_slot f (t.buckets home_index) k (hash f k)
