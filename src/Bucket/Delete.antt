-- ===== src/Bucket/Delete.antt =====
-- `deleteSlot`, from its loop to the content of the bucket.
use turbo_hash.Common.{ℕ, ◌≤◌, ◌≡◌, ◌≢◌, Bool, true, false, ◌⊎◌, ◌↔◌, List, []}
use turbo_hash.SlotFormat.{SlotFormat}
use turbo_hash.Bucket.{Bucket, delete_at, delete_loop, delete_slot, marked}
use turbo_hash.Bucket.Valid.{hash, Contains, step_cell, IsValid}
use turbo_hash.Bucket.Search.{probe_on_path, Outcome, hit, gap, over}

module _ {K V E : Type 0} (f : SlotFormat K V E) (b : Bucket E) (k : K)
    (small : b.cell_shift ≤ 15) where
  abbrev loop : ℕ → ℕ → Bucket E × Bool × List E
  loop left d = delete_loop f b k (hash f k) left (probe_on_path f b k d)

  abbrev unchanged : Bucket E × Bool × List E
  unchanged = (b, false, [])

  -- What `deleteSlot` returns, for each way in which the walk ends.
  abbrev Deletes : Outcome f b k → Type 0
  Deletes (hit d i near within p found) =
      delete_slot f b k (hash f k) ≡ delete_at f b (step_cell f b k d) i
  Deletes (gap d near within p miss room) = delete_slot f b k (hash f k) ≡ unchanged
  Deletes (over d p ends) = delete_slot f b k (hash f k) ≡ unchanged

-- What a deletion promises: `r` is the bucket after it, the value returned, and the entries that
-- are handed to the garbage collection.
pub record Removes {K V E : Type 0} (f : SlotFormat K V E) (b : Bucket E) (k : K)
    (r : Bucket E × Bool × List E) : Type 0 where
  pub valid : IsValid f r.0
  pub content : (q : K) (v : V) → Contains f r.0 q v ↔ (Contains f b q v × (q ≢ k))
  -- true with the record of the removed pair as garbage, or false, no such pair and no garbage
  pub answer :
      ((r.1 ≡ true)
        × ((v : V) × Contains f b k v
            × (r.2 ≡ marked (f.release_address (f.store (hash f k) k v)))))
      ⊎ ((r.1 ≡ false) × ((v : V) → Contains f b k v → ⊥) × (r.2 ≡ []))
