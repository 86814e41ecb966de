-- ===== src/Table/Put.antt =====
-- What `Put` does to the table as a map.
use turbo_hash.Common.{ℕ, ◌≡◌, ◌≢◌, false, ◌⊎◌, ◌↔◌, none, List, []}
use turbo_hash.Cell.{HashSlot, update}
use turbo_hash.SlotFormat.{SlotFormat}
use turbo_hash.Bucket.{Bucket, marked}
use turbo_hash.Bucket.Valid.{hash, IsValid}
use turbo_hash.Bucket.Put.{Puts, NoRoom}
use turbo_hash.Rehash.{minor_rehash}
use turbo_hash.Table.{Table, TableOutcome, put_done, put_exited, put_unfinished, index_of}
use turbo_hash.Table.Lookup.{IsTable, Maps}
use turbo_hash.Table.Grow.{Grown}

-- What a `Put` that ends promises of the table after it and of the garbage.
pub record TablePuts {K V E : Type 0} (f : SlotFormat K V E) (t : Table E) (k : K) (v : V)
    (r : Table E) (freed : List E) : Type 0 where
  pub valid : IsTable f r
  pub content : (q : K) (w : V) → Maps f r q w ↔ (((q ≡ k) × (w ≡ v)) ⊎ ((q ≢ k) × Maps f t q w))
  pub garbage :
      ((w : V) × Maps f t k w × (freed ≡ marked (f.release_address (f.store (hash f k) k w))))
      ⊎ (((w : V) → Maps f t k w → ⊥) × (freed ≡ []))

module _ {K V E : Type 0} (f : SlotFormat K V E) (k : K) (v : V) where
  module _ (zero_entry : E) (space : ℕ → ℕ → ℕ → HashSlot E) where
    abbrev pub AllValid : ℕ → Bucket E → Type 0
    AllValid turns b = (c : Bucket E) → Grown f zero_entry space k v turns b c → IsValid f c

module _ {K V E : Type 0} (f : SlotFormat K V E) (t : Table E) (k : K) (v : V) where
  module _ (zero_entry : E) (space : ℕ → ℕ → ℕ → HashSlot E) where
    -- A `Put` ends with the pair in the table, or it exits: a bucket that it came to by rehashes
    -- has no place for the key, and its rehash exits.
    abbrev pub PutsOrExits : TableOutcome E → Type 0
    PutsOrExits (put_done r garbage) = TablePuts f t k v r garbage
    PutsOrExits put_exited =
        (c : Bucket E) × (at : ℕ) × Grown f zero_entry space k v 17 (t.buckets (index_of f t k)) c
        × NoRoom f c k
        × (minor_rehash f c false zero_entry (space at) ≡ none)
    PutsOrExits put_unfinished = ⊥

module _ {K V E : Type 0} (f : SlotFormat K V E) (t : Table E) (valid : IsTable f t) (k : K)
    (v : V) where
  abbrev home_index : ℕ
  home_index = index_of f t k

  module _ (r : Bucket E × List E) (puts : Puts f (t.buckets home_index) k v r) where
    abbrev changed : Table E
    changed = record t { buckets = update t.buckets home_index r.0 }
