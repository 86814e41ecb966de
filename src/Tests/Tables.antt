-- ===== src/Tests/Tables.antt =====
-- A draw of a random number, and the theorems on `Put` and on the loops over all buckets, at a table of one bucket.
use mathlib.Core.List.{Permᴰ}
use turbo_hash.Common.Shuffle.{Interleaves, no_list, one_more, none_left, first, second, concat}
use turbo_hash.Common.{[], ◌∷◌, ℕ, ◌⊎◌, ◌<◌, ◌≤◌, ◌≡◌, refl, false, none, some, Option, List, arith}
use turbo_hash.BitSet.{is_power_of_two}
use turbo_hash.Cell.{HashSlot, valid_bitset}
use turbo_hash.Bucket.{Bucket}
use turbo_hash.Table.{Table}
use turbo_hash.Table.Create.{new_table, CreatesOrExits, new_table-CreatesOrExits}
use turbo_hash.Table.Parallel.{minor_rehash_all, iterate_all, all_entries, worker, bucket_entries}
use turbo_hash.Rehash.{visit, valid, begin, settle, step, to_next_valid_bit_map}
use turbo_hash.Table.Workers.{live_entries, iterate_all-live_entries}
use turbo_hash.Table.RehashAll.{RehashesOrExitsFrom, minor_rehash_all-Rehashes}
use turbo_hash.Random.{m, next}
use turbo_hash.Format.Flat.{flat}
use turbo_hash.Tests.Runs.{program, with_5}
use turbo_hash.Tests.Examples.{new_slot}

abbrev fresh : ℕ → ℕ → ℕ → HashSlot ℕ
fresh at = new_slot

-- The update of key 5 finds the spare slot, so that nothing is rehashed.
abbrev IsPlaced : Option (Bucket ℕ × List ℕ) → Type 0
IsPlaced none = ⊥
IsPlaced (some r) = Unit

-- 4 buckets of 2 cells
new_table-CreatesOrExits_example : CreatesOrExits flat 4 2 (new_table 0 4 2)
new_table-CreatesOrExits_example = new_table-CreatesOrExits flat 4 2 (omega arith) (omega arith) 0

-- 3 buckets
new_table-none : new_table {E = ℕ} 0 3 2 ≡ none
unfolding new_table program is_power_of_two
new_table-none = refl

-- Four buckets with the same pair.
abbrev four : Table ℕ
four = record { buckets = λ _. with_5; count_shift = 2 }

minor_rehash_all-Rehashes_example :
    ((2 ≤ 2)
      × RehashesOrExitsFrom flat 0 fresh false 4 0 four 0
          (minor_rehash_all flat 0 fresh false four))
    ⊎ ((2 < 2) × (minor_rehash_all flat 0 fresh false four ≡ some (four, 0)))
minor_rehash_all-Rehashes_example = minor_rehash_all-Rehashes flat 0 fresh false four

-- Four buckets of one cell, with one live slot and the bucket's number for its entry, and one thread
-- for each.
abbrev apart : Table ℕ
apart = record {
  buckets = λ b. record {
    cell_shift = 0;
    cells = λ ci. record { word = 2; tags = λ i. 0; slots = λ i. record { h1 = 0; entry = b } };
  };
  count_shift = 2;
}

apart-calls : iterate_all apart ≡ (0 ∷ []) ∷ (1 ∷ []) ∷ (2 ∷ []) ∷ (3 ∷ []) ∷ []
unfolding program iterate_all all_entries worker bucket_entries visit valid begin settle
    valid_bitset step to_next_valid_bit_map
apart-calls = refl

-- Thread 2 is the first, and thread 1 the last.
apart-Interleaves : Interleaves (iterate_all apart) (2 ∷ 0 ∷ 3 ∷ 1 ∷ [])
apart-Interleaves = rw apart-calls (
    one_more
      (one_more (one_more (one_more no_list (first none_left)) (first (second none_left)))
        (second (second (first none_left))))
      (second (first (second (second none_left)))))

iterate_all-live_entries_example :
    Permᴰ (2 ∷ 0 ∷ 3 ∷ 1 ∷ []) (live_entries apart.buckets 4 0)
    × (concat (iterate_all apart) ≡ live_entries apart.buckets 4 0)
iterate_all-live_entries_example =
    iterate_all-live_entries apart (2 ∷ 0 ∷ 3 ∷ 1 ∷ []) apart-Interleaves

-- The seed that `Next` does not leave.
next-m : next m ≡ m
unfolding next
next-m = refl
