-- ===== src/Bucket/Placing.antt =====
-- What an insertion may take for its target.
use turbo_hash.Common.{ℕ, ◌≤◌, ◌<◌, ◌≡◌, true, false, ◌⊎◌}
use turbo_hash.Cell.Live.{live, occupied}
use turbo_hash.Cell.Spare.{occupied_count}
use turbo_hash.SlotFormat.{SlotFormat}
use turbo_hash.Bucket.{Bucket, Target, cell_count}
use turbo_hash.Bucket.Valid.{At, Reaches}
use turbo_hash.Bucket.Write.{Range}

module _ {K V E : Type 0} (f : SlotFormat K V E) (b : Bucket E) (k : K) where
  -- The bucket does not have the key, and the slot can take a new record.
  pub record IsFresh (t : Target) : Type 0 where
    pub new_key : t.equal_key ≡ false
    pub absent : (v : V) (ci i : ℕ) → At f b k v ci i → ⊥
    pub free : live (b.cells t.cell) t.slot ≡ false
    pub room : (occupied (b.cells t.cell) t.slot ≡ true) ⊎ (occupied_count (b.cells t.cell) ≤ 5)

  -- The cell has the key in `old_slot`, and the slot is the spare one.
  pub record IsUpdate (t : Target) : Type 0 where
    pub same_key : t.equal_key ≡ true
    pub value : V
    pub at : At f b k value t.cell t.old_slot
    pub unused : occupied (b.cells t.cell) t.slot ≡ false

  -- What an insertion may take for its target.
  pub record IsTarget (t : Target) : Type 0 where
    pub inside : t.cell < cell_count b
    pub range : Range t.slot
    pub reach : Reaches f b k t.cell
    pub use_of : IsFresh t ⊎ IsUpdate t
