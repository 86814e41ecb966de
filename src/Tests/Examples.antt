-- ===== src/Tests/Examples.antt =====
-- The theorems at the buckets of the runs, and at small numbers.
use turbo_hash.Common.{
  ◌*◌, if◌then◌else◌, ℕ, ◌^◌, ◌-◌, ◌≡◌, refl, false, ◌==◌, [], ◌∷◌, arith, bit_xor,
}
use mathlib.Core.Option
use turbo_hash.Common.Bits.{bit_and-zero}
use turbo_hash.Hasher.{bucket_hash_of, hash_int, murmur_cases, read_le}
use turbo_hash.Hasher.Tail.{murmur_cases-read_le}
use turbo_hash.Cell.{HashSlot, Cell}
use turbo_hash.Bucket.{cell_count, try_insert}
use turbo_hash.Bucket.Valid.{IsValid}
use turbo_hash.Bucket.Empty.{new_bucket-IsValid}
use turbo_hash.Bucket.Put.{Inserts, Puts, try_insert-Inserts}
use turbo_hash.Rehash.{minor_rehash, visit, begin, find_next_slot}
use turbo_hash.Rehash.Content.{RehashesOrExits, minor_rehash-RehashesOrExits}
use turbo_hash.Rehash.Iterate.{live_slots, visit-live_slots}
use turbo_hash.Rehash.Next.{IsPlace, find_next_slot-IsPlace}
use turbo_hash.Table.{Table, bucket_index}
use turbo_hash.Table.Lookup.{IsTable}
use turbo_hash.Format.Flat.{flat}
use turbo_hash.Tests.Runs.{program, empty, with_5}

empty-IsValid : IsValid flat empty
empty-IsValid = (new_bucket-IsValid flat 0 1 (omega arith)).0

try_insert-Inserts_example : Inserts flat empty 5 50 (try_insert flat empty (hash_int 5) 5 50)
try_insert-Inserts_example = try_insert-Inserts flat empty 5 50 empty-IsValid refl

pub with_5-Puts : Puts flat empty 5 50 (with_5, [])
unfolding program
with_5-Puts = try_insert-Inserts_example

abbrev cell : Cell ℕ
cell = with_5.cells 1

murmur_cases-read_le_example :
    murmur_cases 3 (1 ∷ 2 ∷ 3 ∷ []) 9 ≡ bit_xor 9 (read_le 3 (1 ∷ 2 ∷ 3 ∷ []))
murmur_cases-read_le_example =
    murmur_cases-read_le 3 (1 ∷ 2 ∷ 3 ∷ []) 9 (omega arith, (omega arith, (omega arith, tt)))

abbrev pub new_slot : ℕ → ℕ → HashSlot ℕ
new_slot ci i = record { h1 = 0; entry = 0 }

minor_rehash-RehashesOrExits_example :
    RehashesOrExits flat with_5 false with_5-Puts.valid (minor_rehash flat with_5 false 0 new_slot)
minor_rehash-RehashesOrExits_example =
    minor_rehash-RehashesOrExits flat with_5 false with_5-Puts.valid 0 new_slot

visit-live_slots_example :
    visit with_5 (32 * cell_count with_5) (begin with_5) ≡ live_slots with_5 (cell_count with_5) 0
visit-live_slots_example = visit-live_slots with_5

abbrev next_free : ℕ → ℕ
next_free ci = if ci == 1 then 7 else 3

find_next_slot-IsPlace_example :
    IsPlace next_free 2 (hash_int 5) (omega arith) (find_next_slot flat next_free 5 (2 ^ 2 - 1))
find_next_slot-IsPlace_example = find_next_slot-IsPlace flat next_free 2 5 (omega arith)

-- A table of one bucket.
abbrev pub table : Table ℕ
table = record { buckets = λ _. with_5; count_shift = 0 }

pub table-IsTable : IsTable flat table
unfolding bucket_index
table-IsTable = record {
  bucket_valid = λ bi h. with_5-Puts.valid;
  few_buckets = omega arith;
  routed = λ bi k v h c. rw (bit_and-zero (bucket_hash_of (hash_int k))) (omega arith);
}
