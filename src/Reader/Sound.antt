-- ===== src/Reader/Sound.antt =====
-- What an insertion into a cell takes for its target, and what it makes of the cell.
use turbo_hash.Common.{ℕ, ◌≡◌, refl, ap, ◌∙◌, some, true, false, ◌==◌, inl, inr, arith, Bool-cases}
use turbo_hash.Cell.{Cell}
use turbo_hash.Cell.Live.{live, occupied, deleted, deleted_range, occupied_range}
use turbo_hash.Cell.Spare.{backup_lem, erase_lem, full_iff}
use turbo_hash.SlotFormat.{SlotFormat}
use turbo_hash.Bucket.{Target, match_slot}
use turbo_hash.Bucket.Valid.{hash, IsCell, Filled}
use turbo_hash.Bucket.Match.{match_slot-some}
use turbo_hash.Bucket.Write.{
  Range, IsWrite, replaced, written, slots-written, insert_new-IsWrite, update-IsWrite,
}
use turbo_hash.Bucket.Erase.{erased_cell, live-erased_cell, IsCell-erased_cell, slots-erased_cell}
use turbo_hash.Reader.{Chooses, for_update, deleted_slot, empty_slot}

module _ {K V E : Type 0} (f : SlotFormat K V E) where
  -- The cell meets the invariant of `Bucket.Valid`.
  pub record IsSound (c : Cell E) : Type 0 where
    pub cell : IsCell c
    pub filled : (j : ℕ) → live c j ≡ true → Filled f c j

  -- The target is no live slot, and the write keeps the other slots.
  pub record Writes (k : K) (v : V) (c : Cell E) (t : Target) : Type 0 where
    pub free : live c t.slot ≡ false
    pub write : IsWrite c (written f (hash f k) k v c t) t.slot (replaced f (hash f k) k v c t)

  pub Chooses-Writes :
      (k : K) (v : V) (c : Cell E) (t : Target) → IsSound c → Chooses f k c t → Writes k v c t
  Chooses-Writes k v c t sound (for_update _ same found slot) =
      let (unused, above, below) = backup_lem c sound.cell.spare in
      let apart : occupied c t.slot ≡ false = rw slot unused in
      let range : Range t.slot = (rw slot above, rw slot below) in
      let (alive, holds) = match_slot-some f c k t.old_slot sound.filled found in
      record {
        free = ground (arith, apart);
        write = update-IsWrite f (hash f k) k v c t sound.cell range same alive apart;
      }
  Chooses-Writes k v c t sound (deleted_slot _ fresh some_deleted slot) =
      let gone : deleted c t.slot ≡ true = rw slot (erase_lem c some_deleted) in
      let free : live c t.slot ≡ false = ground (arith, gone) in
      record {
        free = free;
        write =
            insert_new-IsWrite f (hash f k) k v c t sound.cell (deleted_range c t.slot gone) fresh
              free (inl (sound.cell.erased t.slot gone));
      }
  Chooses-Writes k v c t sound (empty_slot _ fresh room slot) =
      let (unused, above, below) = backup_lem c sound.cell.spare in
      let apart : occupied c t.slot ≡ false = rw slot unused in
      let range : Range t.slot = (rw slot above, rw slot below) in
      let free : live c t.slot ≡ false = ground (arith, apart) in
      record {
        free = free;
        write =
            insert_new-IsWrite f (hash f k) k v c t sound.cell range fresh free
              (inr (ground (arith, full_iff c, room, sound.cell.spare)));
      }

  -- The slots that are not the target keep their record and tag.
  pub other_slot :
      (k : K) (v : V) (c : Cell E) (t : Target) (j : ℕ)
      → (t.slot == j) ≡ false
      → ((written f (hash f k) k v c t).slots j ≡ c.slots j)
        × ((written f (hash f k) k v c t).tags j ≡ c.tags j)
  other_slot k v c t j other =
      let (slots, tags) = slots-written f (hash f k) k v c t in
      (ap (λ s. s j) slots ∙ rw other refl, ap (λ s. s j) tags ∙ rw other refl)

  -- A published insertion and a deletion keep the cell sound.
  pub written-IsSound :
      (k : K) (v : V) (c : Cell E) (t : Target)
      → IsSound c
      → f.fits k v ≡ true
      → Writes k v c t
      → IsSound (written f (hash f k) k v c t)
  written-IsSound k v c t sound fit writes = record {
    cell = writes.write.sound;
    filled = λ j alive. elim (Bool-cases (t.slot == j)) [
      | inl here ↦
          let (slots, tags) = slots-written f (hash f k) k v c t in
          record {
            key = k;
            value = v;
            holds = (fit, ap (λ s. s j) slots ∙ rw here refl);
            tagged = ap (λ s. s j) tags ∙ rw here refl;
          }
      | inr other ↦
          let r = sound.filled j (ground (arith, writes.write.live_after j)) in
          let (slot, tag) = other_slot k v c t j other in
          record {
            key = r.key;
            value = r.value;
            holds = (r.holds.0, slot ∙ r.holds.1);
            tagged = tag ∙ r.tagged;
          }
    ];
  }

  pub erased-IsSound :
      (k : K) (c : Cell E) (i : ℕ)
      → IsSound c
      → match_slot f k (hash f k) c ≡ some i
      → IsSound (erased_cell c i)
  erased-IsSound k c i sound found =
      let (alive, holds) = match_slot-some f c k i sound.filled found in
      let range = occupied_range c i (ground (arith, alive)) in
      record {
        cell = IsCell-erased_cell c i range (ground (arith, alive)) sound.cell;
        filled = λ j alive'.
            let r = sound.filled j (ground (arith, live-erased_cell c i range j)) in
            let (slots, tags) = slots-erased_cell c i in
            record {
              key = r.key;
              value = r.value;
              holds = (r.holds.0, ap (λ s. s j) slots ∙ r.holds.1);
              tagged = ap (λ s. s j) tags ∙ r.tagged;
            };
      }
