-- ===== src/Table/Parallel.antt =====
-- src/turbo/turbo_hash.h: `MinorReHashAll`, `GCAll` and `IterateAllCallback`, which divide the
-- buckets among threads. A rehash changes only its bucket, and a thread has buckets of its own, so
-- that the rehashes of the threads run one after the other here.
use turbo_hash.Common.{
  ℕ, zero, suc, ◌+◌, ◌-◌, ◌*◌, ◌/◌, ◌^◌, min, Bool, Option, some, List, [], ◌∷◌, ◌++◌, map,
  if◌then◌else◌,
}
use turbo_hash.Cell.{HashSlot, update}
use turbo_hash.SlotFormat.{SlotFormat}
use turbo_hash.Bucket.{Bucket, cell_count}
use turbo_hash.Rehash.{minor_rehash, visit, begin, and_then}
use turbo_hash.Table.{Table}

-- `n` numbers from `i` on
abbrev pub span : ℕ → ℕ → List ℕ
span zero i = []
span (suc n) i = i ∷ span n (suc i)

-- `start_b` and `end_b` of thread `t`, with `bucket_count_` and the number of threads
abbrev pub start_b : ℕ → ℕ → ℕ → ℕ
start_b bucket_count threads t = bucket_count / threads * t

abbrev pub end_b : ℕ → ℕ → ℕ → ℕ
end_b bucket_count threads t = start_b bucket_count threads t + bucket_count / threads

-- The buckets of one thread, `for (size_t i = start_b; i < end_b; ++i)`.
unfoldable pub worker : ℕ → ℕ → ℕ → List ℕ
worker bucket_count threads t =
    let start = start_b bucket_count threads t in span (end_b bucket_count threads t - start) start

-- The buckets of the first `t` threads.
unfoldable pub workers : ℕ → ℕ → ℕ → List ℕ
workers bucket_count threads zero = []
workers bucket_count threads (suc t) =
    workers bucket_count threads t ++ worker bucket_count threads t

-- `rehash_thread`
abbrev pub rehash_thread : ℕ
rehash_thread = 4

module _ {K V E : Type 0} (f : SlotFormat K V E) (zero_entry : E) (space : ℕ → ℕ → ℕ → HashSlot E)
    (isgc : Bool) where
  -- `counts += MinorRehash (i, thread_info, isgc)`; the allocation for bucket `i` has `space i`
  abbrev pub rehash_bucket : ℕ → Table E × ℕ → Option (Table E × ℕ)
  rehash_bucket i (t, counts) =
      and_then (minor_rehash f (t.buckets i) isgc zero_entry (space i))
        (λ (b, count). some (record t { buckets = update t.buckets i b }, counts + count))

  unfoldable pub rehash_buckets : List ℕ → Table E × ℕ → Option (Table E × ℕ)
  rehash_buckets [] s = some s
  rehash_buckets (i ∷ is) s = and_then (rehash_bucket i s) (rehash_buckets is)

  -- `MinorReHashAll`, and `GCAll` where `isgc` is true: the table and `rehash_count`
  unfoldable pub minor_rehash_all : Table E → Option (Table E × ℕ)
  minor_rehash_all t =
      rehash_buckets (workers (2 ^ t.count_shift) rehash_thread rehash_thread) (t, 0)

-- What the callback gets from one bucket.
abbrev pub entry_at : {E : Type 0} → Bucket E → ℕ × ℕ → E
entry_at b (ci, i) = ((b.cells ci).slots i).entry

unfoldable pub bucket_entries : {E : Type 0} → Bucket E → List E
bucket_entries b = map (entry_at b) (visit b (32 * cell_count b) (begin b))

unfoldable pub all_entries : {E : Type 0} → Table E → List ℕ → List E
all_entries t [] = []
all_entries t (i ∷ is) = bucket_entries (t.buckets i) ++ all_entries t is

-- `IterateAllCallback`: what the callback gets from each thread, in the order of its calls. The
-- threads call it at the same time, so the calls of different threads come in any order.
unfoldable pub iterate_all : {E : Type 0} → Table E → List (List E)
iterate_all t =
    let n = 2 ^ t.count_shift in
    let threads = min 8 n in map (λ w. all_entries t (worker n threads w)) (span threads 0)

-- `ReleaseRecords`: the records that each thread frees, none where key and value are flat
unfoldable pub release_records : {E : Type 0} → Bool → Table E → List (List E)
release_records both_flat t = if both_flat then [] else iterate_all t
