-- ===== src/Pinned/Settle.antt =====
-- What the decision under the lock comes to.
use turbo_hash.Common.{
  ap, ◌∙◌, ℕ, ◌≤◌, ◌≡◌, refl, arith, true, false, ◌⊎◌, ◌==◌, ◌||◌, not, leb, inl, inr, Bool-cases,
  if◌then◌else◌,
}
use turbo_hash.BitSet.{lowest, valid_count, popcount}
use turbo_hash.Hasher.{h2_of}
use turbo_hash.Cell.{Cell, full, occupy, is_deleted, backup_bitset, erase_bitset}
use turbo_hash.Cell.Live.{live, occupied, deleted, deleted_range}
use turbo_hash.Cell.Spare.{occupied_count, backup_lem, erase_lem, full_iff}
use turbo_hash.SlotFormat.{SlotFormat}
use turbo_hash.Bucket.{Target}
use turbo_hash.Bucket.Valid.{hash}
use turbo_hash.Bucket.Write.{Range, written, slots-written, insert_new-IsWrite, update-IsWrite}
use turbo_hash.Reader.Sound.{IsSound, Writes, other_slot, written-IsSound}
use turbo_hash.Pinned.{Settled, at_slot, again, exits, settle}
use turbo_hash.Pinned.Count.{backup_count, is_deleted_lem, occupy_lem}

-- What the search's target has to do with the cell under the lock: an insertion has a slot to spare
-- or a slot that is occupied by now, and the key of an update is still where it was, and its new slot
-- not a deleted one.
pub record Fits {E : Type 0} (c : Cell E) (t : Target) : Type 0 where
  pub range : Range t.slot
  pub new : t.equal_key ≡ false → (full c ≡ false) ⊎ (occupied c t.slot ≡ true)
  pub old : t.equal_key ≡ true → (live c t.old_slot ≡ true) × (deleted c t.slot ≡ false)

module _ {E : Type 0} (c : Cell E) (t : Target) where
  pub settle_found : live c t.slot ≡ false → settle c t ≡ at_slot t.slot
  unfolding settle
  settle_found free =
      let test : (not (occupy c t.slot) || is_deleted c t.slot) ≡ true =
        ground (arith, occupy_lem c t.slot, is_deleted_lem c t.slot, free) in
      rw test refl

  is_taken : live c t.slot ≡ true → (not (occupy c t.slot) || is_deleted c t.slot) ≡ false
  is_taken alive = ground (arith, occupy_lem c t.slot, is_deleted_lem c t.slot, alive)

  some_left : occupied_count c ≤ 6 → (backup_bitset c == 0) ≡ false
  unfolding valid_count popcount
  some_left spare = elim (Bool-cases (backup_bitset c == 0)) [
    | inr left ↦ left
    | inl e ↦
        let none : backup_bitset c ≡ 0 = ground (arith, e) in
        let count = rw none at (backup_count c) in absurd (omega (arith, count, spare))
  ]

  settle_update :
      occupied_count c ≤ 6
      → live c t.slot ≡ true
      → t.equal_key ≡ true
      → settle c t ≡ at_slot (lowest (backup_bitset c))
  unfolding settle
  settle_update spare alive same = rw (is_taken alive, same, some_left spare) refl

  abbrev for_new : Settled
  for_new =
      if not (valid_count (erase_bitset c) == 0)
      then at_slot (lowest (erase_bitset c))
      else if leb 2 (valid_count (backup_bitset c))
      then at_slot (lowest (backup_bitset c))
      else again

  settle_new : live c t.slot ≡ true → t.equal_key ≡ false → settle c t ≡ for_new
  unfolding settle
  settle_new alive fresh = rw (is_taken alive, fresh) refl

module _ {K V E : Type 0} (f : SlotFormat K V E) (k : K) (v : V) (c : Cell E) (t : Target) where
  abbrev Targets : Settled → Type 0
  Targets (at_slot i) = Writes f k v c (record t { slot = i })
  Targets again =
      (t.equal_key ≡ false)
      × (live c t.slot ≡ true)
      × (full c ≡ true)
      × (valid_count (erase_bitset c) ≡ 0)
  Targets exits = ⊥

  module _ (sound : IsSound f c) where
    new_at :
        (i : ℕ)
        → Range i
        → t.equal_key ≡ false
        → live c i ≡ false
        → (occupied c i ≡ true) ⊎ (occupied_count c ≤ 5)
        → Targets (at_slot i)
    new_at i range fresh free room = record {
      free = free;
      write =
          insert_new-IsWrite f (hash f k) k v c (record t { slot = i }) sound.cell range fresh free
            room;
    }

    update_at :
        (i : ℕ)
        → Range i
        → t.equal_key ≡ true
        → live c t.old_slot ≡ true
        → occupied c i ≡ false
        → Targets (at_slot i)
    update_at i range same alive apart = record {
      free = ground (arith, apart);
      write =
          update-IsWrite f (hash f k) k v c (record t { slot = i }) sound.cell range same alive
            apart;
    }

    -- The target of the search, where it is not live.
    as_found : Fits c t → live c t.slot ≡ false → Targets (at_slot t.slot)
    as_found fits free = elim (Bool-cases t.equal_key) [
      | inl same ↦
          let (alive, kept) = fits.old same in
          update_at t.slot fits.range same alive (ground (arith, kept, free))
      | inr fresh ↦ new_at t.slot fits.range fresh free (elim (fits.new fresh) [
        | inr there ↦ inl there
        | inl room ↦ inr (ground (arith, full_iff c, room, sound.cell.spare))
      ])
    ]

    spare_slot : (occupied c (lowest (backup_bitset c)) ≡ false) × Range (lowest (backup_bitset c))
    spare_slot =
        let (unused, above, below) = backup_lem c sound.cell.spare in (unused, (above, below))

    taken : Fits c t → live c t.slot ≡ true → t.equal_key ≡ false → Targets (for_new c t)
    taken fits alive fresh = elim (Bool-cases (valid_count (erase_bitset c) == 0)) [
      | inr some_deleted ↦
          let gone = erase_lem c some_deleted in
          let i = lowest (erase_bitset c) in
          rw some_deleted (
            new_at i (deleted_range c i gone) fresh (ground (arith, gone))
              (inl (sound.cell.erased i gone)))
      | inl none_deleted ↦ elim (Bool-cases (leb 2 (valid_count (backup_bitset c)))) [
        | inl room ↦
            rw (none_deleted, room)
              (new_at (lowest (backup_bitset c)) spare_slot.1 fresh (ground (arith, spare_slot.0))
                (inr (ground (arith, room, backup_count c))))
        | inr no_room ↦
            rw (none_deleted, no_room)
              (
                fresh,
                alive,
                ground (arith, no_room, backup_count c, full_iff c, sound.cell.spare),
                ground (arith, none_deleted),
              )
      ]
    ]

    settle-Targets : Fits c t → Targets (settle c t)
    settle-Targets fits = elim (Bool-cases (live c t.slot)) [
      | inr free ↦ rw (settle_found c t free) (as_found fits free)
      | inl alive ↦ elim (Bool-cases t.equal_key) [
        | inr fresh ↦ rw (settle_new c t alive fresh) (taken fits alive fresh)
        | inl same ↦
            rw (settle_update c t (omega (arith, sound.cell.spare)) alive same) (
              update_at (lowest (backup_bitset c)) spare_slot.1 same (fits.old same).0 spare_slot.0)
      ]
    ]

  -- What the insertion at the target makes of the cell: a sound cell with one more live slot, which
  -- has the pair and its tag. All other slots keep their record and tag, and only the old slot of
  -- an update is no longer live.
  pub record Places (s : Target) : Type 0 where
    pub writes : Writes f k v c s
    pub sound : IsSound f (written f (hash f k) k v c s)
    pub here :
        ((written f (hash f k) k v c s).slots s.slot ≡ f.store (hash f k) k v)
        × ((written f (hash f k) k v c s).tags s.slot ≡ h2_of (hash f k))
    pub others :
        (j : ℕ)
        → (s.slot == j) ≡ false
        → ((written f (hash f k) k v c s).slots j ≡ c.slots j)
          × ((written f (hash f k) k v c s).tags j ≡ c.tags j)

  abbrev pub Settles : Settled → Type 0
  Settles (at_slot i) = Places (record t { slot = i })
  Settles again =
      (t.equal_key ≡ false)
      × (live c t.slot ≡ true)
      × (full c ≡ true)
      × (valid_count (erase_bitset c) ≡ 0)
  Settles exits = ⊥

  Writes-Places : (s : Target) → IsSound f c → f.fits k v ≡ true → Writes f k v c s → Places s
  Writes-Places s sound fit writes =
      let (slots, tags) = slots-written f (hash f k) k v c s in
      let same : (s.slot == s.slot) ≡ true = ground arith in
      record {
        writes = writes;
        sound = written-IsSound f k v c s sound fit writes;
        here = (ap (λ g. g s.slot) slots ∙ rw same refl, ap (λ g. g s.slot) tags ∙ rw same refl);
        others = other_slot f k v c s;
      }

  Targets-Settles : IsSound f c → f.fits k v ≡ true → (r : Settled) → Targets r → Settles r
  Targets-Settles sound fit (at_slot i) writes = Writes-Places _ sound fit writes
  Targets-Settles sound fit again why = why
  Targets-Settles sound fit exits bad = bad

  -- Under the lock on a cell that meets the invariant, for a target that fits and a pair that fits
  -- its fields: the insertion goes to a slot that is not live, which then is live and has the pair
  -- and its tag; all other slots keep their record and tag, and are live as before but for the old
  -- slot of an update; the cell meets the invariant, and stays full if it was. Or `insertSlot`
  -- starts again, and then the key is new, its slot is taken, the cell is full and has no deleted
  -- slot. It never exits.
  pub settle-Settles : IsSound f c → f.fits k v ≡ true → Fits c t → Settles (settle c t)
  settle-Settles sound fit fits = Targets-Settles sound fit _ (settle-Targets sound fits)
