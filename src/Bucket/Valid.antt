-- ===== src/Bucket/Valid.antt =====
-- The invariant of a bucket, and what a bucket holds.
use turbo_hash.Common.{ℕ, ◌≤◌, ◌<◌, ◌≡◌, true}
use turbo_hash.Hasher.{h2_of}
use turbo_hash.Cell.{Cell, HashSlot, full}
use turbo_hash.Cell.Live.{live, occupied, deleted}
use turbo_hash.Cell.Spare.{occupied_count}
use turbo_hash.SlotFormat.{SlotFormat}
use turbo_hash.Probe.{max_probe_len}
use turbo_hash.Probe.Path.{cell_at}
use turbo_hash.Bucket.{Bucket, cell_count}

-- Deleted slots are occupied ones, and one slot is spare.
pub record IsCell {E : Type 0} (c : Cell E) : Type 0 where
  pub erased : (i : ℕ) → deleted c i ≡ true → occupied c i ≡ true
  pub spare : occupied_count c ≤ 6

module _ {K V E : Type 0} (f : SlotFormat K V E) where
  abbrev pub hash : K → ℕ
  hash = f.key_to_hash

  -- The hash that the probing starts from.
  abbrev pub home : K → ℕ
  home k = f.h1_to_hash (f.h1_of k (f.key_to_hash k))

  -- The slot is what `Store` writes for the pair.
  abbrev pub Holds : HashSlot E → K → V → Type 0
  Holds s k v = (f.fits k v ≡ true) × (s ≡ f.store (f.key_to_hash k) k v)

  -- The bucket holds the pair in slot `i` of cell `ci`.
  pub record At (b : Bucket E) (k : K) (v : V) (ci i : ℕ) : Type 0 where
    pub inside : ci < cell_count b
    pub alive : live (b.cells ci) i ≡ true
    pub holds : Holds ((b.cells ci).slots i) k v

  -- The abstract content: the bucket maps the key to the value.
  abbrev pub Contains : Bucket E → K → V → Type 0
  Contains b k v = (ci : ℕ) × (i : ℕ) × At b k v ci i

  -- The cell `d` steps from the key's home.
  abbrev pub step_cell : Bucket E → K → ℕ → ℕ
  step_cell b k d = cell_at b.cell_shift (home k) d

  -- The cell is less than `len` steps from the key's home, and every cell before it is full.
  pub record ReachesWithin (len : ℕ) (b : Bucket E) (k : K) (ci : ℕ) : Type 0 where
    pub steps : ℕ
    pub near : steps < len
    pub within : steps < cell_count b
    pub there : ci ≡ step_cell b k steps
    pub full_before : (e : ℕ) → e < steps → full (b.cells (step_cell b k e)) ≡ true

  -- A search for the key comes to the cell.
  abbrev pub Reaches : Bucket E → K → ℕ → Type 0
  Reaches b k ci = ReachesWithin max_probe_len b k ci

  -- A live slot was written by `Store`, and its tag is the one of its key.
  pub record Filled (c : Cell E) (i : ℕ) : Type 0 where
    pub key : K
    pub value : V
    pub holds : Holds (c.slots i) key value
    pub tagged : c.tags i ≡ h2_of (hash key)

  -- The invariant, with the pairs less than `len` steps from home.
  pub record IsValidWithin (len : ℕ) (b : Bucket E) : Type 0 where
    pub small : b.cell_shift ≤ 15
    pub sound : (ci : ℕ) → ci < cell_count b → IsCell (b.cells ci)
    pub filled : (ci i : ℕ) → ci < cell_count b → live (b.cells ci) i ≡ true → Filled (b.cells ci) i
    pub placed : (k : K) (v : V) (ci i : ℕ) → At b k v ci i → ReachesWithin len b k ci
    pub unique :
        (k : K) (v w : V) (ci i cj j : ℕ) → At b k v ci i → At b k w cj j → (ci ≡ cj) × (i ≡ j)

  abbrev pub IsValid : Bucket E → Type 0
  IsValid b = IsValidWithin max_probe_len b
