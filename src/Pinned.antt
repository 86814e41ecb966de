-- ===== src/Pinned.antt =====
-- src/turbo/turbo_hash.h, `insertSlot` with PIN_KEY_TO_THREAD: the search for a target runs without
-- the bucket lock, and what is done with the target is decided under the lock, on the cell as it is
-- then. The case that the bucket has been rehashed meanwhile is the comparison of two addresses.
pub mod Count
pub mod Settle
pub mod Spare
use turbo_hash.Common.{ℕ, ◌==◌, leb, Bool, true, false, ◌||◌, not, if◌then◌else◌}
use turbo_hash.BitSet.{lowest, valid_count}
use turbo_hash.Cell.{Cell, occupy, is_deleted, backup_bitset, erase_bitset}
use turbo_hash.Bucket.{Target}

pub data Settled : Type 0 where
  -- `insertToSlotAndGC` at a slot of the target's cell
  at_slot : ℕ → Settled
  -- `goto after_rehash`
  again : Settled
  -- `exit (1)`
  exits : Settled

unfoldable pub settle : {E : Type 0} → Cell E → Target → Settled
settle c t =
    if not (occupy c t.slot) || is_deleted c t.slot
    then at_slot t.slot
    else if t.equal_key
    then if backup_bitset c == 0 then exits else at_slot (lowest (backup_bitset c))
    else if not (valid_count (erase_bitset c) == 0)
    then at_slot (lowest (erase_bitset c))
    else if leb 2 (valid_count (backup_bitset c))
    then at_slot (lowest (backup_bitset c))
    else again
