-- ===== src/Pmem/Insert/Search.antt =====
-- What a search of the cell matches after a crash during an insertion.
use turbo_hash.Common.{
  ℕ, ◌≤◌, ◌≡◌, arith, Bool, true, false, ◌&&◌, ◌⊎◌, inl, inr, ◌==◌, take, length,
}
use turbo_hash.Common.Bits.{test_bit}
use turbo_hash.Cell.{Cell}
use turbo_hash.Bucket.{Target}
use turbo_hash.Pmem.Line.{Place, word, tag, h1, entry, Memory, Survives}
use turbo_hash.Pmem.Cell.{match_bitset}
use turbo_hash.Pmem.Cell.Live.{live}
use turbo_hash.Pmem.Cell.Bitsets.{bitsets_lem}
use turbo_hash.Pmem.Insert.{Stored, insert_events}
use turbo_hash.Pmem.Insert.Stores.{SlotIs}
use turbo_hash.Pmem.Insert.Kept.{Layout, IsShort, IsTarget, Keeps, SameLive, Inserted}
use turbo_hash.Pmem.Insert.Commits.{insert_events-Commits}

-- The cell in a memory, and whether a search for a tag matches a slot of it.
abbrev pub cell_of : Memory → Cell ℕ
cell_of m = record {
  word = m word;
  tags = λ i. m (tag i);
  slots = λ i. record { h1 = m (h1 i); entry = m (entry i) };
}

abbrev pub matches : Memory → ℕ → ℕ → Bool
matches m h i = test_bit (match_bitset (cell_of m) h) i

matches_lem : (m : Memory) (h i : ℕ) → matches m h i ≡ (live (m word) i && h == m (tag i))
matches_lem m h i = (bitsets_lem (cell_of m) h i).0

module _ (m image : Memory) (t : Target) (h2 : ℕ) (st : Stored) (h : ℕ) where
  other_slots :
      Keeps m image t.slot st
      → SameLive m image ⊎ Inserted m image t h2 st
      → (j : ℕ) → (t.slot == j) ≡ false
      → (t.equal_key && t.old_slot == j) ≡ false
      → matches image h j ≡ matches m h j
  other_slots keeps live_after j other kept = elim live_after [
    | inl same ↦
        let alive = same j in
        ground (arith, matches_lem image h j, matches_lem m h j, keeps.tags j other, alive)
    | inr done ↦
        let alive = done.live_after j in
        ground
          (arith, matches_lem image h j, matches_lem m h j, keeps.tags j other, alive, other, kept)
  ]

  new_slot :
      live (m word) t.slot ≡ false
      → SameLive m image ⊎ Inserted m image t h2 st
      → matches image h t.slot ≡ true
      → (h ≡ h2) × SlotIs image t.slot st
  new_slot free live_after found = elim live_after [
    | inl same ↦
        let alive = same t.slot in
        absurd (ground (arith, matches_lem image h t.slot, found, alive, free))
    | inr done ↦
        let tagged = done.tagged in
        (ground (arith, matches_lem image h t.slot, found, tagged), done.holds)
  ]

-- The tags are in the line of the version and each slot is in one line, and so is a record that the
-- slot points to; the target is a slot that is not live, and in an update the old slot is live. Then
-- after a crash at any point of `insertToSlotAndGC`, `MatchBitSet` for any tag has the slots that it
-- had before, the target's slot and the old slot of an update apart; it has the target's slot only
-- for the tag of the new key, and then H1, the entry and the record are all there; and after all
-- stores and flushes it has it.
pub matches-insert_events :
    (line : Place → ℕ)
    → Layout line
    → (m : Memory) (t : Target) → IsTarget (m word) t
    → (h2 : ℕ) (st : Stored) → IsShort line st
    → (k : ℕ) (image : Memory)
    → Survives line m (take k (insert_events line (m word) t h2 st)) image
    → (h : ℕ)
    → ((j : ℕ)
        → (t.slot == j) ≡ false
        → (t.equal_key && t.old_slot == j) ≡ false
        → matches image h j ≡ matches m h j)
      × (matches image h t.slot ≡ true → (h ≡ h2) × SlotIs image t.slot st)
      × (length (insert_events line (m word) t h2 st) ≤ k → matches image h2 t.slot ≡ true)
matches-insert_events line layout m t target h2 st short k image sv h =
    let (keeps, live_after, all) =
      insert_events-Commits line layout m t target h2 st short k image sv in
    (
      other_slots m image t h2 st h keeps live_after,
      new_slot m image t h2 st h target.free live_after,
      λ le.
          let done = all le in
          let alive = done.live_after t.slot in
          let tagged = done.tagged in ground (arith, matches_lem image h2 t.slot, alive, tagged),
    )
