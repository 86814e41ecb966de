-- ===== src/Tests/Durable.antt =====
-- A persistent bucket that is initialised and stored to, a range of bytes that is flushed, and a
-- thread that takes a lock by test-and-set.
use turbo_hash.Common.{ℕ, ◌*◌, [], ◌^◌, ◌≡◌, refl, Bool, true, not, ◌==◌, some, List, [], arith}
use turbo_hash.BitLock
use turbo_hash.BitLock.{lock_busy, set_lock}
use turbo_hash.BitLock.Mutex.{Excludes}
use turbo_hash.BucketMeta.{new_meta, reset}
use turbo_hash.BucketMeta.Fields.{Says, reset-Says}
use turbo_hash.Pmem.Flush.{clflush}
use turbo_hash.Pmem.Flush.Lines.{Covers, clflush_lem, clflush-negative}
use turbo_hash.Pmem.Meta.{
  Field, cur_ver, bucket2_ptr, Memory, Event, Survives, place, run, init_events, store_events,
  extract, leftshift,
}
use turbo_hash.Pmem.Meta.Crash.{IsClean, Commits, store-Commits}
use turbo_hash.Pmem.Meta.Init.{init-Says}
use turbo_hash.Pmem.Meta.Torn.{store-torn}
use turbo_hash.Pmem.Lock.{
  State, go, testing, holding, call_lock, set_done, bit_test_and_set, init, Reach, start, later,
}
use turbo_hash.Pmem.Lock.Refines.{abstract, Reach-abstract}

clflush_lem_example : Covers 100 60 (clflush 100 60)
clflush_lem_example = clflush_lem 100 60 (omega arith) (omega arith)

-- The cells of a bucket of 2 ^ 23 cells, 256 bytes each: no line is flushed.
clflush-2GB : clflush (2 ^ 32) (2 ^ 23 * 256) ≡ some []
clflush-2GB =
    clflush-negative (2 ^ 32) (2 ^ 23 * 256) (omega arith) (omega arith) (omega arith) (omega arith)

abbrev one_line : Field → Bool
one_line f = true

abbrev zeros : Memory
zeros f = record { persisted = 0; newer = [] }

abbrev word : ℕ
word = new_meta 0x7000 (2 ^ 5)

word-Says : Says 0 0x7000 5 word
word-Says = (reset-Says 0 0x7000 5 (omega arith) (omega arith)).2

init-Says_example :
    IsClean (run one_line (init_events word) zeros)
    × ((image : Field → ℕ)
        → Survives (run one_line (init_events word) zeros) image
        → (w' : ℕ) × (extract image ≡ some w') × Says 0 0x7000 5 w')
init-Says_example =
    init-Says one_line zeros 0 0x7000 5 word (λ f. refl) (omega arith) (omega arith) word-Says

abbrev settled : Memory
settled = run one_line (init_events word) zeros

abbrev grown : ℕ
grown = new_meta 0x9000 (2 ^ 6)

grown-Says : Says 0 0x9000 6 grown
grown-Says = (reset-Says 0 0x9000 6 (omega arith) (omega arith)).2

store-Commits_example :
    (es : List Event) × (store_events (settled cur_ver).persisted grown ≡ some es)
    × Commits one_line settled (reset 0 0x9000 (2 ^ 6)) es
store-Commits_example =
    store-Commits one_line settled 0 0x9000 6 grown (λ f. refl) init-Says_example.0 (omega arith)
      grown-Says

-- The second pointer is in the next line.
abbrev two_lines : Field → Bool
two_lines f = not (place f == 4)

settled_version : (settled cur_ver).persisted ≡ 1
unfolding run
settled_version = refl

store-torn_example :
    (es : List Event) × (store_events (settled cur_ver).persisted grown ≡ some es)
    × ((image : Field → ℕ) × Survives (run two_lines es settled) image
        × (extract image ≡ some (reset 0 (settled bucket2_ptr).persisted (2 ^ leftshift grown))))
store-torn_example =
    store-torn two_lines settled grown init-Says_example.0 settled_version refl refl refl

abbrev asked : State
asked = go init 2 testing

abbrev owned : State
owned = record (go asked 2 holding) { word = (bit_test_and_set 0 1).1 }

reach_owned : Reach 1 owned
unfolding bit_test_and_set lock_busy
reach_owned = later (later start (call_lock 2 refl)) (set_done 2 refl refl)

Reach-abstract_example : BitLock.Reach (λ i. 1) (abstract owned) × Excludes 1 (abstract owned)
Reach-abstract_example = Reach-abstract (omega arith) reach_owned
