-- ===== src/Pinned/Spare.antt =====
-- A target that has become the spare slot of a full cell.
use turbo_hash.Common.{◌+◌, ◌≡◌, arith, true, false}
use turbo_hash.Common.Bits.{to_bit}
use turbo_hash.BitSet.{valid_count}
use turbo_hash.Hasher.{h2_of}
use turbo_hash.Cell.{Cell, full, backup_bitset, load_version}
use turbo_hash.Cell.Live.{occupied}
use turbo_hash.Cell.Spare.{occupied_count, full_iff}
use turbo_hash.SlotFormat.{SlotFormat}
use turbo_hash.Bucket.{Target, insert_to_slot}
use turbo_hash.Bucket.Valid.{hash, IsCell}
use turbo_hash.Bucket.Write.{Range, stored, written, count_with_slot, IsCell-stored}
use turbo_hash.Pinned.{settle, at_slot}
use turbo_hash.Pinned.Count.{backup_count}
use turbo_hash.Pinned.Settle.{settle_found}

module _ {K V E : Type 0} (f : SlotFormat K V E) (k : K) (v : V) (c : Cell E) (t : Target) where
  written_lem :
      t.equal_key ≡ false
      → (range : Range t.slot) → IsCell c
      → occupied_count (written f (hash f k) k v c t) + to_bit (occupied c t.slot)
        ≡ occupied_count c + 1
  unfolding insert_to_slot load_version
  written_lem fresh range sound = rw fresh (
      count_with_slot (stored c t.slot (f.store (hash f k) k v) (h2_of (hash f k))) t.slot range
        (IsCell-stored c t.slot (f.store (hash f k) k v) (h2_of (hash f k)) sound))

  -- The key is new and its slot is not occupied, and the cell has become full since the search: the
  -- insertion goes to this slot, the last one, and then the cell counts as not full, though no slot
  -- is left for an update.
  pub lost_spare :
      IsCell c
      → full c ≡ true
      → t.equal_key ≡ false
      → Range t.slot
      → occupied c t.slot ≡ false
      → (settle c t ≡ at_slot t.slot)
        × (full (written f (hash f k) k v c t) ≡ false)
        × (valid_count (backup_bitset (written f (hash f k) k v c t)) ≡ 0)
  lost_spare sound is_full fresh range free =
      let d = written f (hash f k) k v c t in
      let count : occupied_count d ≡ 7 =
        ground (arith, written_lem fresh range sound, full_iff c, is_full, free) in
      (
        settle_found c t (ground (arith, free)),
        ground (arith, count, full_iff d),
        omega (arith, count, backup_count d),
      )
