-- ===== src/Bucket/Erase.antt =====
-- The write at the end of `deleteSlot`, in the whole bucket.
use turbo_hash.Common.{
  ℕ, ◌<◌, ◌≡◌, ◌≢◌, refl, true, ◌↔◌, ◌==◌, ◌&&◌, not, inl, inr, arith, Bool-cases,
}
use turbo_hash.Cell.{Cell, full, load_version, store_version, mark_deleted}
use turbo_hash.Cell.Live.{live, occupied, occupied_range}
use turbo_hash.Cell.Change.{mark_deleted_lem}
use turbo_hash.Cell.Spare.{occupied_count, occupied_count_congr, full_iff}
use turbo_hash.SlotFormat.{SlotFormat}
use turbo_hash.Bucket.{Bucket, cell_count, set_cell}
use turbo_hash.Bucket.Valid.{At, Contains, IsCell, IsValid}
use turbo_hash.Bucket.Match.{Holds-key}
use turbo_hash.Bucket.Search.{Reaches-mono}

-- The cell with one slot marked as deleted.
abbrev pub erased_cell : {E : Type 0} → Cell E → ℕ → Cell E
erased_cell c i = store_version c (mark_deleted (load_version c) i)

module _ {E : Type 0} (c : Cell E) (i : ℕ) (range : (0 < i) × (i < 8)) where
  pub live-erased_cell : (j : ℕ) → live (erased_cell c i) j ≡ (live c j && not (i == j))
  live-erased_cell j = ground (arith, mark_deleted_lem c i range.0 range.1 j)

  count-erased_cell : occupied_count (erased_cell c i) ≡ occupied_count c
  count-erased_cell =
      occupied_count_congr (erased_cell c i) c (λ j. (mark_deleted_lem c i range.0 range.1 j).0)

  full-erased_cell : full c ≡ true → full (erased_cell c i) ≡ true
  full-erased_cell h = ground (arith, full_iff c, full_iff (erased_cell c i), count-erased_cell)

  pub IsCell-erased_cell : occupied c i ≡ true → IsCell c → IsCell (erased_cell c i)
  IsCell-erased_cell occ s = record {
    erased = λ j h. ground (arith, mark_deleted_lem c i range.0 range.1 j, s.erased j);
    spare = omega (arith, count-erased_cell, s.spare);
  }

pub slots-erased_cell :
    {E : Type 0} (c : Cell E) (i : ℕ)
    → ((erased_cell c i).slots ≡ c.slots) × ((erased_cell c i).tags ≡ c.tags)
unfolding store_version
slots-erased_cell c i = (refl, refl)

module _ {K V E : Type 0} (f : SlotFormat K V E) (b : Bucket E) (valid : IsValid f b) (k : K)
    (v : V) (ci i : ℕ) (at : At f b k v ci i) where
  range : (0 < i) × (i < 8)
  range = occupied_range (b.cells ci) i (ground (arith, at.alive))

  abbrev pub after : Bucket E
  after = set_cell b ci (erased_cell (b.cells ci) i)

  -- What the deletion changes: one slot is no longer live.
  live-after :
      (cj j : ℕ) → live (after.cells cj) j ≡ (live (b.cells cj) j && not (ci == cj && i == j))
  live-after cj j = elim (Bool-cases (ci == cj)) [
    | inl here ↦
        let e : ci ≡ cj = ground arith in rw (here, ← e) (live-erased_cell (b.cells ci) i range j)
    | inr other ↦ rw other (ground arith)
  ]

  slots-after :
      (cj : ℕ)
      → ((after.cells cj).slots ≡ (b.cells cj).slots) × ((after.cells cj).tags ≡ (b.cells cj).tags)
  slots-after cj = elim (Bool-cases (ci == cj)) [
    | inl here ↦ let e : ci ≡ cj = ground arith in rw (here, ← e) (slots-erased_cell (b.cells ci) i)
    | inr other ↦ rw other (refl, refl)
  ]

  full-after : (cj : ℕ) → full (b.cells cj) ≡ true → full (after.cells cj) ≡ true
  full-after cj h = elim (Bool-cases (ci == cj)) [
    | inl here ↦
        let e : ci ≡ cj = ground arith in rw here (full-erased_cell (b.cells ci) i range (rw e h))
    | inr other ↦ rw other h
  ]

  sound-after : (cj : ℕ) → cj < cell_count b → IsCell (after.cells cj)
  sound-after cj h = elim (Bool-cases (ci == cj)) [
    | inl here ↦ rw here (
        IsCell-erased_cell (b.cells ci) i range (ground (arith, at.alive))
          (valid.sound ci at.inside))
    | inr other ↦ rw other (valid.sound cj h)
  ]

  -- The pairs that stay are those of the bucket before, but for the deleted slot.
  stays :
      (q : K) (w : V) (cj j : ℕ) → At f after q w cj j → At f b q w cj j × ((cj ≡ ci) × (j ≡ i) → ⊥)
  stays q w cj j h = (
    record {
      inside = h.inside;
      alive = ground (arith, h.alive, live-after cj j);
      holds = rw (slots-after cj).0 at h.holds;
    },
    λ (e, e'). ground (arith, h.alive, live-after cj j),
  )

  stays_back :
      (q : K) (w : V) (cj j : ℕ) → At f b q w cj j → ((cj ≡ ci) × (j ≡ i) → ⊥) → At f after q w cj j
  stays_back q w cj j h apart = record {
    inside = h.inside;
    alive = ground (arith, h.alive, live-after cj j, λ (p : (cj ≡ ci) × (j ≡ i)). apart p);
    holds = rw (slots-after cj).0 h.holds;
  }

  pub after-IsValid : IsValid f after
  after-IsValid = record {
    small = valid.small;
    sound = sound-after;
    filled = λ cj j h alive.
        let r = valid.filled cj j h (ground (arith, live-after cj j)) in
        record {
          key = r.key;
          value = r.value;
          holds = rw (slots-after cj).0 r.holds;
          tagged = rw (slots-after cj).1 r.tagged;
        };
    placed = λ q w cj j h.
        Reaches-mono f b after q cj refl full-after (valid.placed q w cj j (stays q w cj j h).0);
    unique = λ q w x cj j cl l h h'.
        valid.unique q w x cj j cl l (stays q w cj j h).0 (stays q x cl l h').0;
  }

  -- Deleting the key's slot removes the key and keeps every other pair.
  pub Contains-after : (q : K) (w : V) → Contains f after q w ↔ (Contains f b q w × (q ≢ k))
  Contains-after q w = (
    λ (cj, j, h).
        let (h', apart) = stays q w cj j h in
        ((cj, j, h'), λ e. apart (valid.unique k w v cj j ci i (rw e at h') at)),
    λ ((cj, j, h), ne). (cj, j, stays_back q w cj j h λ (p, p'). ne (same_key cj j h p p')),
  )
    where
      same_key : (cj j : ℕ) → At f b q w cj j → cj ≡ ci → j ≡ i → q ≡ k
      same_key cj j h p p' =
          Holds-key f ((b.cells ci).slots i) q k w v (rw (p, p') at h.holds) at.holds
