-- ===== src/Pmem/Insert/Commits.antt =====
-- A crash during `insertToSlotAndGC` or at the end of `deleteSlot`.
use turbo_hash.Common.{
  ℕ, ◌≤◌, ◌≡◌, refl, ap, ◌∙◌, arith, true, false, ◌&&◌, ◌||◌, not, ◌⊎◌, inl, inr, ◌==◌, Bool-cases,
  [], take, length, length-append,
}
use turbo_hash.Bucket.{Target}
use turbo_hash.Pmem.Line.{Place, word, tag, same, Memory, Survives, publish}
use turbo_hash.Pmem.Line.Commit.{IsNew, untouched, crash_cases, crash_done}
use turbo_hash.Pmem.Cell.Live.{live, is_slot}
use turbo_hash.Pmem.Cell.Change.{live_set, live_exchange, live_mark}
use turbo_hash.Pmem.Insert.{
  Stored, inserted_word, deleted_word, contents, insert_events, delete_events,
}
use turbo_hash.Pmem.Insert.Kept.{
  Layout, IsShort, IsTarget, Keeps, SameLive, Inserted, SlotIs-in_line, tag-contents, word-contents,
  keeps,
}

-- The slots that are live after the version of an insertion.
pub live-inserted_word :
    (w : ℕ) (t : Target)
    → IsTarget w t
    → (j : ℕ)
    → live (inserted_word w t) j ≡ (t.slot == j || live w j && not (t.equal_key && t.old_slot == j))
live-inserted_word w t target j = elim (Bool-cases t.equal_key) [
  | inl update ↦
      let alive = target.old update in
      let apart : (t.slot == t.old_slot) ≡ false = elim (Bool-cases (t.slot == t.old_slot)) [
        | inl e ↦
            let e' : t.slot ≡ t.old_slot = ground (arith, e) in
            let free = rw e' at target.free in cc
        | inr other ↦ other
      ] in
      rw update (live_exchange w t.slot target.slot j t.old_slot alive apart)
  | inr new ↦ rw new (live_set w t.slot target.slot j ∙ ground arith)
]

Inserted-new :
    (line : Place → ℕ)
    → Layout line
    → (m : Memory) (t : Target) → IsTarget (m word) t
    → (h2 : ℕ) (st : Stored) → IsShort line st
    → (image : Memory) → IsNew line m (contents line t h2 st) (inserted_word (m word) t) image
    → Inserted m image t h2 st
Inserted-new line layout m t target h2 st short image new = record {
  live_after = λ j. ap (λ v. live v j) new.new_word ∙ live-inserted_word (m word) t target j;
  tagged =
      new.beside (tag t.slot) refl (layout.header t.slot target.slot) ∙ tag-contents line m t h2 st;
  holds = SlotIs-in_line line m t h2 (inserted_word (m word) t) image layout st short new;
}

-- The tags are in the line of the version and each slot is in one line, and so is a record that the
-- slot points to; the target is a slot that is not live, and in an update the old slot is live.
-- Then a crash after any number of the stores and flushes of `insertToSlotAndGC` leaves a memory in
-- which the other slots and records are as before, and either the same slots are live, or the new
-- slot is live with its tag, H1, entry and record, the old slot of an update is not, and the others
-- are as before. After all stores and flushes it is the second.
pub insert_events-Commits :
    (line : Place → ℕ)
    → Layout line
    → (m : Memory) (t : Target) → IsTarget (m word) t
    → (h2 : ℕ) (st : Stored) → IsShort line st
    → (k : ℕ) (image : Memory)
    → Survives line m (take k (insert_events line (m word) t h2 st)) image
    → Keeps m image t.slot st
      × (SameLive m image ⊎ Inserted m image t h2 st)
      × (length (insert_events line (m word) t h2 st) ≤ k → Inserted m image t h2 st)
unfolding insert_events
insert_events-Commits line layout m t target h2 st short k image sv =
    let stores = contents line t h2 st in
    let w = inserted_word (m word) t in
    let after = Inserted-new line layout m t target h2 st short image in
    (
      keeps line m t h2 st w k image sv,
      elim (crash_cases line m stores w k image (word-contents line m t h2 st) sv) [
        | inl old ↦ inl (λ j. ap (λ v. live v j) old.old_word)
        | inr new ↦ inr (after new)
      ],
      λ all. after (
          crash_done line m stores w k image
            (omega (arith, all, length-append stores (publish line w))) sv),
    )

-- A crash at the end of `deleteSlot` leaves every slot and record as before, with the same slots
-- live or with all of these but the deleted one, and that when its stores and flushes are done.
pub delete_events-Commits :
    (line : Place → ℕ) (m : Memory) (i : ℕ)
    → is_slot i ≡ true
    → (k : ℕ) (image : Memory) → Survives line m (take k (delete_events line (m word) i)) image
    → ((p : Place) → same word p ≡ false → image p ≡ m p)
      × (SameLive m image ⊎ ((j : ℕ) → live (image word) j ≡ (live (m word) j && not (i == j))))
      × (2 ≤ k → (j : ℕ) → live (image word) j ≡ (live (m word) j && not (i == j)))
unfolding delete_events
delete_events-Commits line m i slot k image sv = (
  λ p other. untouched line m [] (deleted_word (m word) i) k image sv p other refl,
  elim (crash_cases line m [] (deleted_word (m word) i) k image refl sv) [
    | inl old ↦ inl (λ j. ap (λ v. live v j) old.old_word)
    | inr new ↦ inr (λ j. ap (λ v. live v j) new.new_word ∙ live_mark (m word) i slot j)
  ],
  λ all j.
      ap (λ v. live v j)
        (crash_done line m [] (deleted_word (m word) i) k image (omega (arith, all)) sv).new_word
      ∙ live_mark (m word) i slot j,
)
