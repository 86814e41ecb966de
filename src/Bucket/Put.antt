-- ===== src/Bucket/Put.antt =====
-- One turn of `insertSlot`: the choice of a slot, and the write to it.
use turbo_hash.Common.{
  ℕ, ◌<◌, ◌≡◌, ◌≢◌, true, ◌⊎◌, ◌↔◌, inl, inr, Option, none, some, List, [], arith, Option-cases, ap,
  ◌∙◌,
}
use turbo_hash.Cell.{full}
use turbo_hash.SlotFormat.{SlotFormat}
use turbo_hash.Probe.{max_probe_len}
use turbo_hash.Bucket.{
  Bucket, Target, cell_count, marked, find_slot_for_insert, insert_at, try_insert,
}
use turbo_hash.Bucket.Valid.{hash, Contains, step_cell, IsValid}
use turbo_hash.Bucket.Placing.{IsTarget}
use turbo_hash.Bucket.Write.{garbage-written}
use turbo_hash.Bucket.Insert.{insert-IsValid, Contains-insert}
use turbo_hash.Bucket.Choose.{find-IsChoice}

-- What an insertion promises of the bucket after it and of the garbage.
pub record Puts {K V E : Type 0} (f : SlotFormat K V E) (b : Bucket E) (k : K) (v : V)
    (r : Bucket E × List E) : Type 0 where
  pub valid : IsValid f r.0
  pub content :
      (q : K) (w : V) → Contains f r.0 q w ↔ (((q ≡ k) × (w ≡ v)) ⊎ ((q ≢ k) × Contains f b q w))
  -- the record of the pair that the new one replaces, or nothing for a new key
  pub garbage :
      ((w : V) × Contains f b k w × (r.1 ≡ marked (f.release_address (f.store (hash f k) k w))))
      ⊎ (((w : V) → Contains f b k w → ⊥) × (r.1 ≡ []))

-- The bucket has no place for the key, which it does not have: every cell of the path is full.
pub record NoRoom {K V E : Type 0} (f : SlotFormat K V E) (b : Bucket E) (k : K) : Type 0 where
  pub absent : (w : V) → Contains f b k w → ⊥
  pub all_full :
      (d : ℕ) → d < max_probe_len → d < cell_count b → full (b.cells (step_cell f b k d)) ≡ true

module _ {K V E : Type 0} (f : SlotFormat K V E) (b : Bucket E) (k : K) (v : V) where
  abbrev pub Inserts : Option (Bucket E × List E) → Type 0
  Inserts none = NoRoom f b k
  Inserts (some r) = Puts f b k v r

  module _ (valid : IsValid f b) (fit : f.fits k v ≡ true) where
    garbage-insert :
        (t : Target)
        → IsTarget f b k t
        → ((w : V) × Contains f b k w
            × ((insert_at f b (hash f k) k v t).1
                ≡ marked (f.release_address (f.store (hash f k) k w))))
          ⊎ (((w : V) → Contains f b k w → ⊥) × ((insert_at f b (hash f k) k v t).1 ≡ []))
    unfolding insert_at
    garbage-insert t target =
        let (replaces, adds) = garbage-written f (hash f k) k v (b.cells t.cell) t in
        elim target.use_of [
          | inl new ↦ inr ((λ w (ci, i, at). new.absent w ci i at), adds new.new_key)
          | inr old ↦ inl (
            old.value,
            (t.cell, t.old_slot, old.at),
            replaces old.same_key (λ e. ground (arith, old.at.alive, old.unused))
                ∙ ap (λ s. marked (f.release_address s)) old.at.holds.1,
          )
        ]

    insert_at-Puts : (t : Target) → IsTarget f b k t → Puts f b k v (insert_at f b (hash f k) k v t)
    unfolding insert_at
    insert_at-Puts t target = record {
      valid = insert-IsValid f b valid k v fit t target;
      content = Contains-insert f b valid k v fit t target;
      garbage = garbage-insert t target;
    }

    pub try_insert-Inserts : Inserts (try_insert f b (hash f k) k v)
    unfolding try_insert
    try_insert-Inserts = elim (Option-cases (find_slot_for_insert f b k (hash f k))) [
      | inl e ↦
          let (absent, all_full) = rw e at (find-IsChoice f b k valid) in
          rw e record { absent = λ w (ci, i, at). absent w ci i at; all_full = all_full }
      | inr (t, e) ↦ rw e (insert_at-Puts t (rw e at (find-IsChoice f b k valid)))
    ]
