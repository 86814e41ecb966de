-- ===== src/Bucket/Search.antt =====
-- The walk that `findSlot`, `findSlotForInsert` and `deleteSlot` share: along a key's probe path
-- to a hit, to a cell that is not full, or to the end of the path.
use turbo_hash.Common.{
  ℕ, zero, suc, ◌+◌, ◌-◌, ◌≤◌, ◌<◌, ◌≡◌, refl, ap, ◌∙◌, true, false, ◌⊎◌, inl, inr, Option, none,
  some, Bool-cases, Option-cases, arith,
}
use turbo_hash.Cell.{Cell, full}
use turbo_hash.Cell.Live.{live}
use turbo_hash.SlotFormat.{SlotFormat}
use turbo_hash.Probe
use turbo_hash.Probe.{Probe, max_probe_len}
use turbo_hash.Probe.Path.{cell_at-lt, probe_at, new-probe_at, next-probe_at, to_bool-probe_at}
use turbo_hash.Bucket.{Bucket, cell_count, match_slot, start_probe}
use turbo_hash.Bucket.Valid.{hash, home, At, step_cell, ReachesWithin, Filled, IsValid}
use turbo_hash.Bucket.Match.{match_slot-some, match_slot-none}

module _ {K V E : Type 0} (f : SlotFormat K V E) (b : Bucket E) (k : K) where
  -- The cell `d` steps along the path, and the probe that has come to it.
  abbrev pub on_path : ℕ → Cell E
  on_path d = b.cells (step_cell f b k d)

  abbrev pub probe_on_path : ℕ → Probe
  probe_on_path d = probe_at b.cell_shift (home f k) 0 d

  abbrev pub match_at : ℕ → Option ℕ
  match_at d = match_slot f k (hash f k) (on_path d)

  -- No cell before step `d` has the key, and each is full.
  pub record Passed (d : ℕ) : Type 0 where
    pub near : d ≤ max_probe_len
    pub within : d ≤ cell_count b
    pub missed : (e : ℕ) → e < d → match_at e ≡ none
    pub full_cells : (e : ℕ) → e < d → full (on_path e) ≡ true

  -- How the walk ends.
  pub data Outcome : Type 0 where
    hit :
        (d i : ℕ) → d < max_probe_len → d < cell_count b → Passed d → match_at d ≡ some i → Outcome
    gap :
        (d : ℕ)
        → d < max_probe_len
        → d < cell_count b
        → Passed d
        → match_at d ≡ none
        → full (on_path d) ≡ false
        → Outcome
    over : (d : ℕ) → Passed d → (d ≡ max_probe_len) ⊎ (d ≡ cell_count b) → Outcome

  Passed-zero : Passed 0
  Passed-zero = record {
    near = omega arith;
    within = omega arith;
    missed = λ e h. absurd (omega arith);
    full_cells = λ e h. absurd (omega arith);
  }

  Passed-suc :
      {d : ℕ}
      → Passed d
      → d < max_probe_len
      → d < cell_count b
      → match_at d ≡ none
      → full (on_path d) ≡ true
      → Passed (suc d)
  Passed-suc {d} p near within miss filled = record {
    near = near;
    within = within;
    missed = λ e h. elim (last e h) [ inl lt ↦ p.missed e lt | inr eq ↦ rw eq miss ];
    full_cells = λ e h. elim (last e h) [ inl lt ↦ p.full_cells e lt | inr eq ↦ rw eq filled ];
  }
    where
      last : (e : ℕ) → e < suc d → (e < d) ⊎ (e ≡ d)
      last e h = omega arith

  walk : (left d : ℕ) → d + left ≡ max_probe_len → Passed d → Outcome
  walk zero d e p = over d p (inl (omega arith))
  walk (suc left) d e p = elim (inside) [
    | inr out ↦ over d p (inr out)
    | inl within ↦ elim (Option-cases (match_at d)) [
      | inr (i, found) ↦ hit d i (omega arith) within p found
      | inl miss ↦ elim (Bool-cases (full (on_path d))) [
        | inl filled ↦
            walk left (suc d) (omega arith) (Passed-suc p (omega arith) within miss filled)
        | inr room ↦ gap d (omega arith) within p miss room
      ]
    ]
  ]
    where
      inside : (d < cell_count b) ⊎ (d ≡ cell_count b)
      inside = omega (arith, p.within)

  -- Every search ends in one of the three ways.
  pub search : Outcome
  search = walk max_probe_len 0 refl Passed-zero

  pub start_probe_lem : b.cell_shift ≤ 15 → start_probe f b k (hash f k) ≡ probe_on_path 0
  unfolding start_probe
  start_probe_lem small = new-probe_at b.cell_shift (home f k) 0 small

  pub Passed-pred : (d : ℕ) → Passed (suc d) → Passed d
  Passed-pred d p = record {
    near = omega (arith, p.near);
    within = omega (arith, p.within);
    missed = λ e h. p.missed e (omega arith);
    full_cells = λ e h. p.full_cells e (omega arith);
  }

  -- A loop that goes on at a full cell without the key comes to every step that is passed.
  pub skip :
      {R : Type 0} (loop : ℕ → ℕ → R)
      → ((left d : ℕ)
          → d < max_probe_len
          → d < cell_count b
          → match_at d ≡ none
          → full (on_path d) ≡ true
          → loop (suc left) d ≡ loop left (suc d))
      → (d left : ℕ) → d + left ≡ max_probe_len
      → Passed d
      → loop max_probe_len 0 ≡ loop left d
  skip loop step zero left e p = let e' : left ≡ max_probe_len = omega arith in rw e'
  skip loop step (suc d) left e p =
      skip loop step d (suc left) (omega arith) (Passed-pred d p)
      ∙ step left d (omega (arith, p.near)) (omega (arith, p.within)) (p.missed d (omega arith))
          (p.full_cells d (omega arith))

  -- The probes left at a step that is near enough.
  pub left_lem : (d : ℕ) → d < max_probe_len → (left : ℕ) × (d + suc left ≡ max_probe_len)
  left_lem d h = (14 - d, omega arith)

  module _ (small : b.cell_shift ≤ 15) where
    pub next_on_path :
        (d : ℕ) → d < max_probe_len → Probe.next (probe_on_path d) ≡ probe_on_path (suc d)
    next_on_path d h = next-probe_at b.cell_shift (home f k) 0 small d (omega arith)

    pub inside_on_path : (d : ℕ) → d < cell_count b → Probe.to_bool (probe_on_path d) ≡ true
    inside_on_path d h = (to_bool-probe_at b.cell_shift (home f k) 0 small d).1 h

    pub outside_on_path : Probe.to_bool (probe_on_path (cell_count b)) ≡ false
    outside_on_path =
        ground (arith, to_bool-probe_at b.cell_shift (home f k) 0 small (cell_count b))

  module _ (valid : IsValid f b) where
    pub Filled-on_path : (d j : ℕ) → live (on_path d) j ≡ true → Filled f (on_path d) j
    Filled-on_path d j = valid.filled (step_cell f b k d) j (cell_at-lt b.cell_shift (home f k) d)

    -- A hit is a slot of the bucket that holds the key.
    pub hit-At : (d i : ℕ) → match_at d ≡ some i → (v : V) × At f b k v (step_cell f b k d) i
    hit-At d i h =
        let (alive, (v, holds)) = match_slot-some f (on_path d) k i (Filled-on_path d) h in
        (v, record { inside = cell_at-lt b.cell_shift (home f k) d; alive = alive; holds = holds })

    missed-At :
        (d ci i : ℕ) (v : V) → match_at d ≡ none → ci ≡ step_cell f b k d → At f b k v ci i → ⊥
    missed-At d ci i v miss e at =
        match_slot-none f (on_path d) k i v (Filled-on_path d) miss (rw e at at.alive)
          (rw e at at.holds)

    -- A walk that ends without a hit shows that the bucket does not have the key.
    pub gap-absent :
        (d : ℕ)
        → Passed d
        → match_at d ≡ none
        → full (on_path d) ≡ false
        → (v : V) (ci i : ℕ) → At f b k v ci i
        → ⊥
    gap-absent d p miss room v ci i at =
        let r = valid.placed k v ci i at in
        elim (order r.steps d) [
          | inl lt ↦ missed-At r.steps ci i v (p.missed r.steps lt) r.there at
          | inr (inl eq) ↦ missed-At d ci i v miss (r.there ∙ ap (step_cell f b k) eq) at
          | inr (inr gt) ↦ let filled = r.full_before d gt in cc
        ]
      where
        order : (a c : ℕ) → (a < c) ⊎ ((a ≡ c) ⊎ (c < a))
        order a c = omega arith

    pub over-absent :
        (d : ℕ)
        → Passed d
        → (d ≡ max_probe_len) ⊎ (d ≡ cell_count b)
        → (v : V) (ci i : ℕ) → At f b k v ci i
        → ⊥
    over-absent d p ends v ci i at =
        let r = valid.placed k v ci i at in
        missed-At r.steps ci i v (p.missed r.steps (omega (arith, r.near, r.within))) r.there at

-- A change of the bucket that keeps its width and its full cells keeps the cells within reach.
pub Reaches-mono :
    {K V E : Type 0} (f : SlotFormat K V E) (b c : Bucket E) (k : K) (ci : ℕ) {len : ℕ}
    → b.cell_shift ≡ c.cell_shift
    → ((j : ℕ) → full (b.cells j) ≡ true → full (c.cells j) ≡ true)
    → ReachesWithin f len b k ci
    → ReachesWithin f len c k ci
Reaches-mono f b c k ci e keep r = record {
  steps = r.steps;
  near = r.near;
  within = rw (← e) r.within;
  there = rw (← e) r.there;
  full_before = λ d h. rw (← e) (keep (step_cell f b k d) (r.full_before d h));
}
