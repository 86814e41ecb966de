-- ===== src/Bucket/Insert.antt =====
-- The write of `insertToSlotAndGC` to a valid target, in the whole bucket.
use turbo_hash.Common.{
  ℕ, ◌<◌, ◌≡◌, ◌≢◌, refl, Bool, true, false, ◌⊎◌, ◌↔◌, ◌==◌, ◌&&◌, ◌||◌, not, inl, inr, arith,
  if◌then◌else◌, Bool-cases,
}
use turbo_hash.Hasher.{h2_of}
use turbo_hash.Cell.{Cell, full}
use turbo_hash.Cell.Live.{live}
use turbo_hash.SlotFormat.{SlotFormat}
use turbo_hash.Bucket.{Bucket, Target, cell_count, set_cell}
use turbo_hash.Bucket.Valid.{hash, Holds, At, Contains, Reaches, Filled, IsCell, IsValid}
use turbo_hash.Bucket.Match.{Holds-key, Holds-value}
use turbo_hash.Bucket.Search.{Reaches-mono}
use turbo_hash.Bucket.Placing.{IsTarget}
use turbo_hash.Bucket.Write.{
  IsWrite, written, replaced, slots-written, insert_new-IsWrite, update-IsWrite,
}

module _ {K V E : Type 0} (f : SlotFormat K V E) (b : Bucket E) (valid : IsValid f b) (k : K)
    (v : V) (fit : f.fits k v ≡ true) (t : Target) (target : IsTarget f b k t) where
  abbrev cell : Cell E
  cell = b.cells t.cell

  abbrev new_cell : Cell E
  new_cell = written f (hash f k) k v cell t

  abbrev pub after : Bucket E
  after = set_cell b t.cell new_cell

  write : IsWrite cell new_cell t.slot (replaced f (hash f k) k v cell t)
  write = elim target.use_of [
    | inl new ↦
        insert_new-IsWrite f (hash f k) k v cell t (valid.sound t.cell target.inside) target.range
          new.new_key new.free new.room
    | inr old ↦
        update-IsWrite f (hash f k) k v cell t (valid.sound t.cell target.inside) target.range
          old.same_key old.at.alive old.unused
  ]

  -- The slot that is written, in any cell.
  abbrev is_new : ℕ → ℕ → Bool
  is_new cj j = t.cell == cj && t.slot == j

  abbrev is_replaced : ℕ → ℕ → Bool
  is_replaced cj j = t.cell == cj && (t.equal_key && t.old_slot == j)

  live-after :
      (cj j : ℕ)
      → live (after.cells cj) j ≡ (is_new cj j || (live (b.cells cj) j && not (is_replaced cj j)))
  live-after cj j = elim (Bool-cases (t.cell == cj)) [
    | inl here ↦ let e : t.cell ≡ cj = ground arith in rw (here, ← e) (write.live_after j)
    | inr other ↦ rw other (ground arith)
  ]

  slot-after :
      (cj j : ℕ)
      → ((after.cells cj).slots j
          ≡ (if is_new cj j then f.store (hash f k) k v else (b.cells cj).slots j))
        × ((after.cells cj).tags j
            ≡ (if is_new cj j then h2_of (hash f k) else (b.cells cj).tags j))
  slot-after cj j = elim (Bool-cases (t.cell == cj)) [
    | inl here ↦
        let e : t.cell ≡ cj = ground arith in
        let (slots, tags) = slots-written f (hash f k) k v cell t in
        rw (here, ← e, slots, tags) (refl, refl)
    | inr other ↦ rw other (refl, refl)
  ]

  full-after : (cj : ℕ) → full (b.cells cj) ≡ true → full (after.cells cj) ≡ true
  full-after cj h = elim (Bool-cases (t.cell == cj)) [
    | inl here ↦ let e : t.cell ≡ cj = ground arith in rw here (write.full_after (rw e h))
    | inr other ↦ rw other h
  ]

  sound-after : (cj : ℕ) → cj < cell_count b → IsCell (after.cells cj)
  sound-after cj h = elim (Bool-cases (t.cell == cj)) [
    | inl here ↦ rw here write.sound
    | inr other ↦ rw other (valid.sound cj h)
  ]

  -- The new pair is there.
  new_At : At f after k v t.cell t.slot
  new_At = record {
    inside = target.inside;
    alive = ground (arith, live-after t.cell t.slot);
    holds = (fit, ground (arith, slot-after t.cell t.slot));
  }

  -- Every other pair was there before.
  old_At :
      (q : K) (w : V) (cj j : ℕ)
      → is_new cj j ≡ false
      → At f after q w cj j
      → At f b q w cj j × (is_replaced cj j ≡ false)
  old_At q w cj j other h = (
    record {
      inside = h.inside;
      alive = ground (arith, h.alive, live-after cj j);
      holds = (h.holds.0, ground (arith, h.holds.1, slot-after cj j));
    },
    ground (arith, h.alive, live-after cj j),
  )

  keep_At :
      (q : K) (w : V) (cj j : ℕ)
      → is_new cj j ≡ false
      → is_replaced cj j ≡ false
      → At f b q w cj j
      → At f after q w cj j
  keep_At q w cj j other stays h = record {
    inside = h.inside;
    alive = ground (arith, h.alive, live-after cj j);
    holds = (h.holds.0, ground (arith, h.holds.1, slot-after cj j));
  }

  positions-new : (cj j : ℕ) → is_new cj j ≡ true → (t.cell ≡ cj) × (t.slot ≡ j)
  positions-new cj j h = ground arith

  -- What stands in the written slot is the new pair.
  new_pair :
      (q : K) (w : V) (cj j : ℕ) → is_new cj j ≡ true → At f after q w cj j → (q ≡ k) × (w ≡ v)
  new_pair q w cj j new h =
      let there : Holds f ((after.cells cj).slots j) k v = (fit, ground (arith, slot-after cj j)) in
      let slot = (after.cells cj).slots j in
      (Holds-key f slot q k w v h.holds there, Holds-value f slot q k w v h.holds there)

  -- No pair that stays has the key.
  no_old_key : (w : V) (cj j : ℕ) → At f b k w cj j → is_replaced cj j ≡ false → ⊥
  no_old_key w cj j h stays = elim target.use_of [
    | inl new ↦ new.absent w cj j h
    | inr old ↦
        let p = valid.unique k old.value w t.cell t.old_slot cj j old.at h in
        ground (arith, p, old.same_key)
  ]

  -- The pair that is replaced has the key.
  replaced_key : (q : K) (w : V) (cj j : ℕ) → At f b q w cj j → is_replaced cj j ≡ true → q ≡ k
  replaced_key q w cj j h gone = elim target.use_of [
    | inl new ↦ ground (arith, new.new_key)
    | inr old ↦
        let e : cj ≡ t.cell = ground arith in
        let e' : j ≡ t.old_slot = ground arith in
        Holds-key f ((b.cells cj).slots j) q k w old.value h.holds (rw (e, e') old.at.holds)
  ]

  stays_away : (q : K) (w : V) (cj j : ℕ) → is_new cj j ≡ false → At f after q w cj j → q ≢ k
  stays_away q w cj j other h e =
      let (h', stays) = old_At q w cj j other h in no_old_key w cj j (rw e at h') stays

  Filled-after :
      (cj j : ℕ) → cj < cell_count b → live (after.cells cj) j ≡ true → Filled f (after.cells cj) j
  Filled-after cj j h alive = elim (Bool-cases (is_new cj j)) [
    | inl new ↦ record {
      key = k;
      value = v;
      holds = (fit, ground (arith, slot-after cj j));
      tagged = ground (arith, slot-after cj j);
    }
    | inr other ↦
        let r = valid.filled cj j h (ground (arith, live-after cj j)) in
        record {
          key = r.key;
          value = r.value;
          holds = (r.holds.0, ground (arith, r.holds.1, slot-after cj j));
          tagged = ground (arith, r.tagged, slot-after cj j);
        }
  ]

  placed-after : (q : K) (w : V) (cj j : ℕ) → At f after q w cj j → Reaches f after q cj
  placed-after q w cj j h =
      Reaches-mono f b after q cj refl full-after (elim (Bool-cases (is_new cj j)) [
        | inl new ↦
            let (e, _) = positions-new cj j new in
            let (same, _) = new_pair q w cj j new h in rw (← e, same) target.reach
        | inr other ↦ valid.placed q w cj j (old_At q w cj j other h).0
      ])

  unique-after :
      (q : K) (w x : V) (ci i cj j : ℕ)
      → At f after q w ci i
      → At f after q x cj j
      → (ci ≡ cj) × (i ≡ j)
  unique-after q w x ci i cj j h h' = elim (Bool-cases (is_new ci i)) [
    | inl new ↦ elim (Bool-cases (is_new cj j)) [
      | inl new' ↦ omega (arith, positions-new ci i new, positions-new cj j new')
      | inr other' ↦ absurd (stays_away q x cj j other' h' (new_pair q w ci i new h).0)
    ]
    | inr other ↦ elim (Bool-cases (is_new cj j)) [
      | inl new' ↦ absurd (stays_away q w ci i other h (new_pair q x cj j new' h').0)
      | inr other' ↦
          valid.unique q w x ci i cj j (old_At q w ci i other h).0 (old_At q x cj j other' h').0
    ]
  ]

  pub insert-IsValid : IsValid f after
  insert-IsValid = record {
    small = valid.small;
    sound = sound-after;
    filled = Filled-after;
    placed = placed-after;
    unique = unique-after;
  }

  free_slot : live cell t.slot ≡ false
  free_slot = elim target.use_of [ inl new ↦ new.free | inr old ↦ ground (arith, old.unused) ]

  -- An old pair of another key stays where it was.
  keeps : (q : K) (w : V) (cj j : ℕ) → q ≢ k → At f b q w cj j → At f after q w cj j
  keeps q w cj j ne h = keep_At q w cj j other stays h
    where
      dead : live (b.cells cj) j ≡ false → ⊥
      dead e = ground (arith, h.alive)

      other : is_new cj j ≡ false
      other = elim (Bool-cases (is_new cj j)) [
        | inl new ↦ let (e, e') = positions-new cj j new in absurd (dead (rw (← e, ← e') free_slot))
        | inr e ↦ e
      ]

      stays : is_replaced cj j ≡ false
      stays = elim (Bool-cases (is_replaced cj j)) [
        | inl gone ↦ absurd (ne (replaced_key q w cj j h gone))
        | inr e ↦ e
      ]

  -- After the write the bucket maps the key to the value, and every other key as before.
  pub Contains-insert :
      (q : K) (w : V) → Contains f after q w ↔ (((q ≡ k) × (w ≡ v)) ⊎ ((q ≢ k) × Contains f b q w))
  Contains-insert q w = (
    λ (cj, j, h). elim (Bool-cases (is_new cj j)) [
      | inl new ↦ inl (new_pair q w cj j new h)
      | inr other ↦ inr (stays_away q w cj j other h, (cj, j, (old_At q w cj j other h).0))
    ],
    elim [
      | inl (e, e') ↦ (t.cell, t.slot, rw (e, e') new_At)
      | inr (ne, (cj, j, h)) ↦ (cj, j, keeps q w cj j ne h)
    ],
  )
