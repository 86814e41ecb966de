-- ===== src/Tests/Runs.antt =====
-- A bucket of two cells with flat keys and values, and runs of its operations.
use turbo_hash.Common.{ℕ, ◌≡◌, refl, true, none, some}
use mathlib.Core.Option
use turbo_hash.BitSet.{popcount, ctz, valid_count, advance, lowest, collect, positions}
use turbo_hash.Hasher.{hash_int, h2_of}
use turbo_hash.Cell.{
  of_data, to_data, load_version, store_version, movemask, match_bitset, erase_bitset,
  backup_bitset, full, set_slot, exchange_slot, mark_deleted,
}
use turbo_hash.Probe
use turbo_hash.Bucket.{
  Bucket, new_bucket, new_target, first_match, slot_matches, match_slot, start_probe, find_loop,
  find_slot, choose_deleted, insert_loop, find_slot_for_insert, insert_to_slot, insert_at,
  try_insert, delete_at, delete_loop, delete_slot,
}
use turbo_hash.Format.Flat.{flat}

unfoldable pub program : Unit {0}
unfolding popcount ctz valid_count advance lowest collect positions hash_int h2_of of_data to_data
    load_version store_version movemask match_bitset erase_bitset backup_bitset full set_slot
    exchange_slot mark_deleted Probe.new Probe.to_bool Probe.next first_match slot_matches
    match_slot start_probe find_loop find_slot choose_deleted insert_loop find_slot_for_insert
    insert_to_slot insert_at try_insert delete_at delete_loop delete_slot
program = tt

abbrev pub empty : Bucket ℕ
empty = new_bucket 0 1

-- 5 goes to its home cell 1.
target_5 : find_slot_for_insert flat empty 5 (hash_int 5) ≡ some (new_target (1, 1))
unfolding program
target_5 = refl

abbrev pub with_5 : Bucket ℕ
with_5 = (insert_at flat empty (hash_int 5) 5 50 (new_target (1, 1))).0

-- An update writes the spare slot of the cell that has the key.
pub target_update :
    find_slot_for_insert flat with_5 5 (hash_int 5)
    ≡ some (record { cell = 1; slot = 2; equal_key = true; old_slot = 1 })
unfolding program
target_update = refl

find-with_5 :
    (Option.map flat.second (find_slot flat with_5 5 (hash_int 5)) ≡ some 50)
    × (find_slot flat with_5 6 (hash_int 6) ≡ none)
unfolding program
find-with_5 = (refl, refl)

delete-with_5 :
    ((delete_slot flat with_5 5 (hash_int 5)).1 ≡ true)
    × (find_slot flat (delete_slot flat with_5 5 (hash_int 5)).0 5 (hash_int 5) ≡ none)
unfolding program
delete-with_5 = (refl, refl)
