-- ===== src/Table/Grow.antt =====
-- The loop of `insertSlot` round `MinorRehash`: it ends, and what it does to the bucket.
use turbo_hash.Common.{ℕ, suc, ◌+◌, ◌≤◌, ◌≡◌, false, Option, none, some}
use turbo_hash.Cell.{HashSlot}
use turbo_hash.SlotFormat.{SlotFormat}
use turbo_hash.Bucket.{Bucket, try_insert}
use turbo_hash.Bucket.Valid.{hash}
use turbo_hash.Rehash.{minor_rehash}
use turbo_hash.Table.{Outcome, stored, exited, unfinished}

module _ {K V E : Type 0} (f : SlotFormat K V E) (zero_entry : E) where
  -- A rehash doubles a bucket of at most 2 ^ 14 cells, and exits for a larger one.
  abbrev Doubles : ℕ → Option (Bucket E × ℕ) → Type 0
  Doubles shift none = Unit
  Doubles shift (some (c, n)) = (c.cell_shift ≡ shift + 1) × (shift ≤ 14)

module _ {K V E : Type 0} (f : SlotFormat K V E) (zero_entry : E) (space : ℕ → ℕ → ℕ → HashSlot E)
    (k : K) (v : V) where
  -- The buckets that the loop comes to: the bucket itself, and the rehash of one without a place.
  pub data Grown : ℕ → Bucket E → Bucket E → Type 0 where
    itself : {turns : ℕ} {b : Bucket E} → Grown turns b b
    rehashed :
        {turns : ℕ} {b c d : Bucket E} {n : ℕ}
        → try_insert f b (hash f k) k v ≡ none
        → minor_rehash f b false zero_entry (space turns) ≡ some (c, n)
        → Grown turns c d
        → Grown (suc turns) b d

  -- What the loop comes to: a turn that stores the pair, or a rehash that exits.
  abbrev pub Settles : ℕ → Bucket E → Outcome E → Type 0
  Settles turns b (stored r garbage) =
      (c : Bucket E) × Grown turns b c × (try_insert f c (hash f k) k v ≡ some (r, garbage))
  Settles turns b exited =
      (c : Bucket E) × (at : ℕ) × Grown turns b c
      × (try_insert f c (hash f k) k v ≡ none)
      × (minor_rehash f c false zero_entry (space at) ≡ none)
  Settles turns b unfinished = ⊥
