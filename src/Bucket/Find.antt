-- ===== src/Bucket/Find.antt =====
-- `findSlot`, from its loop to the content of the bucket.
use turbo_hash.Common.{ℕ, ◌≤◌, ◌≡◌, Option, none, some}
use mathlib.Core.Option
use turbo_hash.Cell.{HashSlot}
use turbo_hash.SlotFormat.{SlotFormat}
use turbo_hash.Bucket.{Bucket, find_loop, find_slot}
use turbo_hash.Bucket.Valid.{hash, At, IsValid}
use turbo_hash.Bucket.Search.{on_path, probe_on_path, Outcome, hit, gap, over}

module _ {K V E : Type 0} (f : SlotFormat K V E) (b : Bucket E) (k : K)
    (small : b.cell_shift ≤ 15) where
  abbrev loop : ℕ → ℕ → Option (HashSlot E)
  loop left d = find_loop f b k (hash f k) left (probe_on_path f b k d)

  -- What `findSlot` returns, for each way in which the walk ends.
  abbrev Finds : Outcome f b k → Type 0
  Finds (hit d i near within p found) =
      find_slot f b k (hash f k) ≡ some ((on_path f b k d).slots i)
  Finds (gap d near within p miss room) = find_slot f b k (hash f k) ≡ none
  Finds (over d p ends) = find_slot f b k (hash f k) ≡ none

module _ {K V E : Type 0} (f : SlotFormat K V E) (b : Bucket E) (k : K) (valid : IsValid f b) where
  -- What a search finds belongs to the key, and a search that fails shows that nothing does.
  abbrev IsAnswer : Option (HashSlot E) → Type 0
  IsAnswer none = (v : V) (ci i : ℕ) → At f b k v ci i → ⊥
  IsAnswer (some s) = (v : V) × (ci : ℕ) × (i : ℕ) × At f b k v ci i × (s ≡ (b.cells ci).slots i)
