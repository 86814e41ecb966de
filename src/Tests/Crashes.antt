-- ===== src/Tests/Crashes.antt =====
-- Crashes in the writers of a persistent cell at address 0, whose slot 2 is live.
use turbo_hash.Common.{
  ℕ, ◌+◌, ◌≤◌, ◌≡◌, refl, arith, true, false, ◌&&◌, not, ◌⊎◌, ◌==◌, List, [], ◌∷◌, take, length,
  replicate,
}
use turbo_hash.Common.Bits.{test_bit}
use turbo_hash.Bucket.{Target}
use turbo_hash.Pmem.Line.{Place, word, tag, h1, entry, byte, same, Memory, Event, run, Survives}
use turbo_hash.Pmem.Line.Cut.{certain_le, take_all}
use turbo_hash.Pmem.Cell.{load_version, of_data}
use turbo_hash.Pmem.Cell.Live.{live}
use turbo_hash.Pmem.Insert.{Stored, pointing, line_at, insert_events, delete_events}
use turbo_hash.Pmem.Insert.Kept.{
  Layout, line_at-Layout, IsShort, IsTarget, Keeps, SameLive, Inserted,
}
use turbo_hash.Pmem.Insert.Commits.{insert_events-Commits, delete_events-Commits}
use turbo_hash.Pmem.Insert.Search.{matches, matches-insert_events}
use turbo_hash.Pmem.Insert.Stores.{SlotIs}
use turbo_hash.Pmem.Insert.Long.{long_record}

-- Every line may have all that was stored.
run-Survives : (line : Place → ℕ) (m : Memory) (es : List Event) → Survives line m es (run m es)
run-Survives line m es l = record {
  cut = length es;
  enough = certain_le l es;
  kept = λ p at. rw (take_all (length es) es (omega arith)) refl;
}

abbrev durable : Memory
durable word = 4
durable (tag i) = 7
durable (h1 i) = 5
durable (entry i) = 8192
durable (byte a) = 0

abbrev layout : Layout (line_at 0)
layout = line_at-Layout 0 refl

abbrev update : Target
update = record { cell = 0; slot = 3; equal_key = true; old_slot = 2 }

update-IsTarget : IsTarget 4 update
unfolding load_version of_data test_bit
update-IsTarget = record { slot = refl; free = refl; old = λ e. refl }

abbrev short : Stored
short = pointing 5 4096 (1 ∷ 2 ∷ [])

short-IsShort : IsShort (line_at 0) short
short-IsShort n lt = omega (arith, lt)

-- After the tag and the record, before the slot.
abbrev at_slot : List Event
at_slot = take 3 (insert_events (line_at 0) 4 update 9 short)

insert_events-Commits_example :
    Keeps durable (run durable at_slot) 3 short
    × (SameLive durable (run durable at_slot)
        ⊎ Inserted durable (run durable at_slot) update 9 short)
    × (length (insert_events (line_at 0) 4 update 9 short) ≤ 3
        → Inserted durable (run durable at_slot) update 9 short)
insert_events-Commits_example =
    insert_events-Commits (line_at 0) layout durable update update-IsTarget 9 short short-IsShort 3
      (run durable at_slot) (run-Survives (line_at 0) durable at_slot)

matches-insert_events_example :
    ((j : ℕ)
      → (3 == j) ≡ false
      → (2 == j) ≡ false
      → matches (run durable at_slot) 7 j ≡ matches durable 7 j)
    × (matches (run durable at_slot) 7 3 ≡ true
        → (◌≡◌ {A = ℕ} 7 9) × SlotIs (run durable at_slot) 3 short)
    × (length (insert_events (line_at 0) 4 update 9 short) ≤ 3
        → matches (run durable at_slot) 9 3 ≡ true)
matches-insert_events_example =
    matches-insert_events (line_at 0) layout durable update update-IsTarget 9 short short-IsShort 3
      (run durable at_slot) (run-Survives (line_at 0) durable at_slot) 7

abbrev marked : List Event
marked = take 1 (delete_events (line_at 0) 4 2)

delete_events-Commits_example :
    ((p : Place) → same word p ≡ false → run durable marked p ≡ durable p)
    × (SameLive durable (run durable marked)
        ⊎ ((j : ℕ) → live (run durable marked word) j ≡ (live 4 j && not (2 == j))))
    × (2 ≤ 1 → (j : ℕ) → live (run durable marked word) j ≡ (live 4 j && not (2 == j)))
delete_events-Commits_example =
    delete_events-Commits (line_at 0) durable 2 refl 1 (run durable marked)
      (run-Survives (line_at 0) durable marked)

abbrev long : List ℕ
long = replicate 70 1

long_record_example :
    (image : Memory) × Survives
      (line_at 0)
      durable
      (insert_events (line_at 0) 4 update 9 (pointing 5 4096 long))
      image
    × (live (image word) 3 ≡ true)
    × (image (entry 3) ≡ 4096)
    × (image (byte (4096 + 64)) ≡ 0)
long_record_example =
    long_record (line_at 0) layout durable update update-IsTarget 9 5 4096 long 64 (omega arith)
      (omega arith) (omega arith) (omega arith)
