-- ===== src/Bucket/Choose.antt =====
-- The target that `findSlotForInsert` chooses.
use turbo_hash.Common.{
  ℕ, zero, suc, ◌+◌, ◌-◌, ◌≤◌, ◌<◌, ◌≡◌, refl, sym, ap, ◌∙◌, true, false, ◌⊎◌, ◌==◌, inl, inr,
  Option, none, some, arith, if◌then◌else◌, Bool-cases, Option-cases,
}
use mathlib.Core.Path.{subst}
use turbo_hash.BitSet.{lowest, valid_count}
use turbo_hash.Cell.{full, erase_bitset, backup_bitset}
use turbo_hash.Cell.Live.{deleted, deleted_range}
use turbo_hash.Cell.Spare.{backup_lem, erase_lem, full_iff}
use turbo_hash.SlotFormat.{SlotFormat}
use turbo_hash.Probe.{max_probe_len}
use turbo_hash.Probe.Path.{cell_at-lt}
use turbo_hash.Bucket.{
  Bucket, Target, cell_count, insert_loop, find_slot_for_insert, choose_deleted, chosen_target,
  new_target, or_else,
}
use turbo_hash.Bucket.Valid.{hash, home, At, Reaches, step_cell, IsCell, IsValid}
use turbo_hash.Bucket.Placing.{IsTarget}
use turbo_hash.Bucket.Search.{
  on_path, probe_on_path, match_at, Passed, Outcome, hit, gap, over, search, skip, left_lem,
  next_on_path, inside_on_path, outside_on_path, start_probe_lem, hit-At, gap-absent, over-absent,
}

module _ {K V E : Type 0} (f : SlotFormat K V E) (b : Bucket E) (k : K) where
  -- The position that the loop has chosen after `d` steps.
  chosen : ℕ → Option (ℕ × ℕ)
  chosen zero = none
  chosen (suc d) = choose_deleted (on_path f b k d) (step_cell f b k d) (chosen d)

  abbrev loop : ℕ → ℕ → Option Target
  loop left d = insert_loop f b k (hash f k) left (probe_on_path f b k d) (chosen d)

  -- The target at a cell that is not full.
  abbrev gap_target : ℕ → Target
  gap_target d =
      new_target
        (or_else (chosen (suc d)) (step_cell f b k d, lowest (backup_bitset (on_path f b k d))))

  abbrev hit_target : ℕ → ℕ → Target
  hit_target d i = record {
    cell = step_cell f b k d;
    slot = lowest (backup_bitset (on_path f b k d));
    equal_key = true;
    old_slot = i;
  }

  module _ (small : b.cell_shift ≤ 15) where
    loop_miss :
        (left d : ℕ)
        → d < max_probe_len
        → d < cell_count b
        → match_at f b k d ≡ none
        → loop (suc left) d
          ≡ (if full (on_path f b k d) then loop left (suc d) else some (gap_target d))
    unfolding insert_loop chosen
    loop_miss left d near within miss =
        rw (inside_on_path f b k small d within, miss, next_on_path f b k small d near)

    loop_hit :
        (left d i : ℕ)
        → d < cell_count b
        → match_at f b k d ≡ some i
        → loop (suc left) d ≡ some (hit_target d i)
    unfolding insert_loop
    loop_hit left d i within found = rw (inside_on_path f b k small d within, found)

    loop_over : (left : ℕ) → loop left (cell_count b) ≡ chosen_target (chosen (cell_count b))
    unfolding insert_loop
    loop_over zero = refl
    loop_over (suc left) = rw (outside_on_path f b k small)

    loop_step :
        (left d : ℕ)
        → d < max_probe_len
        → d < cell_count b
        → match_at f b k d ≡ none
        → full (on_path f b k d) ≡ true
        → loop (suc left) d ≡ loop left (suc d)
    loop_step left d near within miss filled = rw filled at (loop_miss left d near within miss)

    find-loop :
        (d left : ℕ)
        → d + left ≡ max_probe_len
        → Passed f b k d
        → find_slot_for_insert f b k (hash f k) ≡ loop left d
    unfolding find_slot_for_insert chosen
    find-loop d left e p = rw (start_probe_lem f b k small) (skip f b k loop loop_step d left e p)

    -- What `findSlotForInsert` returns, for each way in which the walk ends.
    abbrev Chooses : Outcome f b k → Type 0
    Chooses (hit d i near within p found) =
        find_slot_for_insert f b k (hash f k) ≡ some (hit_target d i)
    Chooses (gap d near within p miss room) =
        find_slot_for_insert f b k (hash f k) ≡ some (gap_target d)
    Chooses (over d p ends) = find_slot_for_insert f b k (hash f k) ≡ chosen_target (chosen d)

    find-search : (o : Outcome f b k) → Chooses o
    unfolding insert_loop
    find-search (hit d i near within p found) =
        let (left, e) = left_lem f b k d near in
        find-loop d (suc left) e p ∙ loop_hit left d i within found
    find-search (gap d near within p miss room) =
        let (left, e) = left_lem f b k d near in
        find-loop d (suc left) e p ∙ rw room at (loop_miss left d near within miss)
    find-search (over d p (inl eq)) = find-loop d 0 (omega arith) p
    find-search (over d p (inr eq)) =
        find-loop d (15 - d) (omega (arith, p.near)) p ∙ (rw eq (loop_over _))

  -- A deleted slot on the path.
  record IsDeletedOnPath (d : ℕ) (p : ℕ × ℕ) : Type 0 where
    step : ℕ
    before : step < d
    cell_lem : p.0 ≡ step_cell f b k step
    was_deleted : deleted (on_path f b k step) p.1 ≡ true

  choose_deleted-lem :
      (d : ℕ) (p : ℕ × ℕ)
      → choose_deleted (on_path f b k d) (step_cell f b k d) (chosen d) ≡ some p
      → (chosen d ≡ some p) ⊎ IsDeletedOnPath (suc d) p
  unfolding choose_deleted
  choose_deleted-lem d p h = elim (Bool-cases (valid_count (erase_bitset (on_path f b k d)) == 0)) [
    | inl none_deleted ↦ inl (rw none_deleted at h)
    | inr some_deleted ↦
        let h' : some (step_cell f b k d, lowest (erase_bitset (on_path f b k d))) ≡ some p =
          rw some_deleted at h in
        let pair : (step_cell f b k d, lowest (erase_bitset (on_path f b k d))) ≡ p = cc in
        inr (record {
          step = d;
          before = omega arith;
          cell_lem = ap (λ (q : ℕ × ℕ). q.0) (sym pair);
          was_deleted =
              subst (λ (q : ℕ × ℕ). deleted (on_path f b k d) q.1 ≡ true) pair
                (erase_lem (on_path f b k d) some_deleted);
        })
  ]

  chosen-lem : (d : ℕ) (p : ℕ × ℕ) → chosen d ≡ some p → IsDeletedOnPath d p
  unfolding chosen
  chosen-lem zero p h = cc
  chosen-lem (suc d) p h = elim (choose_deleted-lem d p h) [
    | inl e ↦
        let r = chosen-lem d p e in
        record {
          step = r.step;
          before = omega (arith, r.before);
          cell_lem = r.cell_lem;
          was_deleted = r.was_deleted;
        }
    | inr r ↦ r
  ]

  module _ (valid : IsValid f b) where
    sound_on_path : (d : ℕ) → IsCell (on_path f b k d)
    sound_on_path d = valid.sound (step_cell f b k d) (cell_at-lt b.cell_shift (home f k) d)

    reach_on_path :
        (d : ℕ)
        → d < max_probe_len
        → d < cell_count b
        → Passed f b k d
        → Reaches f b k (step_cell f b k d)
    reach_on_path d near within p = record {
      steps = d;
      near = near;
      within = within;
      there = refl;
      full_before = p.full_cells;
    }

    Passed-before : (d e : ℕ) → e ≤ d → Passed f b k d → Passed f b k e
    Passed-before d e h p = record {
      near = omega (arith, p.near);
      within = omega (arith, p.within);
      missed = λ c l. p.missed c (omega arith);
      full_cells = λ c l. p.full_cells c (omega arith);
    }

    -- The slot that an earlier deletion left.
    deleted-IsTarget :
        (d : ℕ) (p : ℕ × ℕ)
        → d ≤ max_probe_len
        → d ≤ cell_count b
        → ((e : ℕ) → e < d → Passed f b k e)
        → ((v : V) (ci i : ℕ) → At f b k v ci i → ⊥)
        → IsDeletedOnPath d p
        → IsTarget f b k (new_target p)
    deleted-IsTarget d p near within passed absent r =
        let cell = on_path f b k r.step in
        let occupied_too = (sound_on_path r.step).erased p.1 r.was_deleted in
        rw r.cell_lem record {
          inside = cell_at-lt b.cell_shift (home f k) r.step;
          range = deleted_range cell p.1 r.was_deleted;
          reach =
              reach_on_path r.step (omega (arith, r.before)) (omega (arith, r.before))
                (passed r.step r.before);
          use_of = inl (record {
            new_key = refl;
            absent = absent;
            free = ground (arith, r.was_deleted);
            room = inl occupied_too;
          });
        }

    hit-IsTarget :
        (d i : ℕ)
        → d < max_probe_len
        → d < cell_count b
        → Passed f b k d
        → match_at f b k d ≡ some i
        → IsTarget f b k (hit_target d i)
    hit-IsTarget d i near within p found =
        let (v, at) = hit-At f b k valid d i found in
        let (unused, above, below) = backup_lem (on_path f b k d) (sound_on_path d).spare in
        record {
          inside = at.inside;
          range = (above, below);
          reach = reach_on_path d near within p;
          use_of = inr (record { same_key = refl; value = v; at = at; unused = unused });
        }

    gap-IsTarget :
        (d : ℕ)
        → d < max_probe_len
        → d < cell_count b
        → Passed f b k d
        → match_at f b k d ≡ none
        → full (on_path f b k d) ≡ false
        → IsTarget f b k (gap_target d)
    gap-IsTarget d near within p miss room = elim (Option-cases (chosen (suc d))) [
      | inr (q, e) ↦ rw e (
          deleted-IsTarget (suc d) q near within (λ c h. Passed-before d c (omega arith) p)
            (gap-absent f b k valid d p miss room) (chosen-lem (suc d) q e))
      | inl e ↦
          let cell = on_path f b k d in
          let sound = sound_on_path d in
          let (unused, above, below) = backup_lem cell sound.spare in
          rw e record {
            inside = cell_at-lt b.cell_shift (home f k) d;
            range = (above, below);
            reach = reach_on_path d near within p;
            use_of = inl (record {
              new_key = refl;
              absent = gap-absent f b k valid d p miss room;
              free = ground arith;
              room = inr (omega (arith, sound.spare, (full_iff cell).1 room));
            });
          }
    ]

    over-IsTarget :
        (d : ℕ)
        → Passed f b k d
        → (d ≡ max_probe_len) ⊎ (d ≡ cell_count b)
        → (q : ℕ × ℕ) → chosen d ≡ some q
        → IsTarget f b k (new_target q)
    over-IsTarget d p ends q e =
        deleted-IsTarget d q p.near p.within (λ c h. Passed-before d c (omega arith) p)
          (over-absent f b k valid d p ends) (chosen-lem d q e)

    -- What `findSlotForInsert` promises: a target that an insertion may take; or none, and then
    -- the bucket does not have the key and every cell on the key's path is full.
    abbrev pub IsChoice : Option Target → Type 0
    IsChoice (some t) = IsTarget f b k t
    IsChoice none =
        ((v : V) (ci i : ℕ) → At f b k v ci i → ⊥)
        × ((d : ℕ) → d < max_probe_len → d < cell_count b → full (on_path f b k d) ≡ true)

    pub find-IsChoice : IsChoice (find_slot_for_insert f b k (hash f k))
    find-IsChoice = choice (search f b k)
      where
        ended :
            (d : ℕ)
            → Passed f b k d
            → (d ≡ max_probe_len) ⊎ (d ≡ cell_count b)
            → IsChoice (chosen_target (chosen d))
        ended d p ends = elim (Option-cases (chosen d)) [
          | inl e ↦
              rw e (over-absent f b k valid d p ends, λ c near within. p.full_cells c (omega arith))
          | inr (q, e) ↦ rw e (over-IsTarget d p ends q e)
        ]

        choice : Outcome f b k → IsChoice (find_slot_for_insert f b k (hash f k))
        choice (hit d i near within p found) =
            rw (find-search valid.small (hit d i near within p found))
              (hit-IsTarget d i near within p found)
        choice (gap d near within p miss room) =
            rw (find-search valid.small (gap d near within p miss room))
              (gap-IsTarget d near within p miss room)
        choice (over d p ends) = rw (find-search valid.small (over d p ends)) (ended d p ends)
