-- ===== src/Pmem/Insert/Long.antt =====
-- A record that is longer than what `Store` flushes of it.
use turbo_hash.Common.{
  ℕ, suc, ◌+◌, ◌<◌, ◌≡◌, ◌≢◌, refl, ◌∙◌, arith, Bool, true, false, ◌||◌, inl, inr, ◌==◌, Bool-cases,
  List, [], ◌∷◌, ◌++◌, length, if◌then◌else◌,
}
use turbo_hash.Bucket.{Target}
use turbo_hash.Pmem.Line.{
  Place, word, tag, h1, entry, byte, Memory, Event, store, flush, run, apply, flushes, certain,
  Survives, publish,
}
use turbo_hash.Pmem.Line.Cut.{run-append, take_all, certain_le}
use turbo_hash.Pmem.Cell.Live.{live}
use turbo_hash.Pmem.Insert.{
  pointing, byte_stores, slot_stores, inserted_word, flushed, contents, insert_events,
}
use turbo_hash.Pmem.Insert.Stores.{run-slot_stores}
use turbo_hash.Pmem.Insert.Kept.{Layout, IsTarget, run-contents}
use turbo_hash.Pmem.Insert.Commits.{live-inserted_word}

abbrev any_flush : ℕ → List Event → Bool
any_flush l [] = false
any_flush l (e ∷ es) = flushes l e || any_flush l es

any_flush-append :
    (l : ℕ) (xs ys : List Event) → any_flush l (xs ++ ys) ≡ (any_flush l xs || any_flush l ys)
any_flush-append l [] ys = refl
any_flush-append l (x ∷ xs) ys = let rest = any_flush-append l xs ys in ground (arith, rest)

any_flush-byte_stores : (l a : ℕ) (bs : List ℕ) → any_flush l (byte_stores a bs) ≡ false
any_flush-byte_stores l a [] = refl
any_flush-byte_stores l a (b ∷ bs) = any_flush-byte_stores l (suc a) bs

-- Without a flush nothing more is certain.
certain_unflushed :
    (l at sure : ℕ) (es : List Event) → any_flush l es ≡ false → certain l at sure es ≡ sure
unfolding certain
certain_unflushed l at sure [] none = refl
certain_unflushed l at sure (e ∷ es) none =
    let (here, rest) : (flushes l e ≡ false) × (any_flush l es ≡ false) = ground (arith, none) in
    rw here (certain_unflushed l (suc at) sure es rest)

module _ (line : Place → ℕ) (m : Memory) (es : List Event) (l : ℕ)
    (none : any_flush l es ≡ false) where
  -- A crash may leave the line as it was, and the others as the stores made them.
  abbrev without_line : Memory
  without_line p = if line p == l then m p else run m es p

  without_line-Survives : Survives line m es without_line
  unfolding run
  without_line-Survives j = elim (Bool-cases (j == l)) [
    | inl here ↦ record {
      cut = 0;
      enough =
          let e : j ≡ l = ground (arith, here) in
          rw (e, certain_unflushed l 0 0 es none) (omega arith);
      kept = λ p at. let hit : (line p == l) ≡ true = ground (arith, at, here) in rw hit refl;
    }
    | inr other ↦ record {
      cut = length es;
      enough = certain_le j es;
      kept = λ p at.
          let miss : (line p == l) ≡ false = ground (arith, at, other) in
          rw (miss, take_all (length es) es (omega arith)) refl;
    }
  ]

-- The lines that an insertion flushes.
never_flushed :
    (line : Place → ℕ) (w : ℕ) (t : Target) (h2 hash addr : ℕ) (bytes : List ℕ) (l : ℕ)
    → l ≢ line (byte addr)
    → l ≢ line (h1 t.slot)
    → l ≢ line word
    → any_flush l (insert_events line w t h2 (pointing hash addr bytes)) ≡ false
unfolding insert_events
never_flushed line w t h2 hash addr bytes l off_first off_slot off_word =
    let st = pointing hash addr bytes in
    let slot_ends = store (h1 t.slot) hash ∷ store (entry t.slot) addr ∷ [] in
    ground (
      arith,
      off_first,
      off_slot,
      off_word,
      any_flush-append l (contents line t h2 st) (publish line (inserted_word w t)),
      any_flush-append l (slot_stores t.slot st) (flush (flushed line t.slot st) ∷ []),
      any_flush-append l (byte_stores addr bytes) slot_ends,
      any_flush-byte_stores l addr bytes,
    )

-- A record with a byte in a line that is not the line of its first byte, of the slot or of the
-- version: when all stores and flushes of `insertToSlotAndGC` are done, a crash can leave a memory
-- in which the new slot is live and points to the record, and this byte is what it was before.
pub long_record :
    (line : Place → ℕ)
    → Layout line
    → (m : Memory) (t : Target) → IsTarget (m word) t
    → (h2 hash addr : ℕ) (bytes : List ℕ) (n : ℕ) → n < length bytes
    → line (byte (addr + n)) ≢ line (byte addr)
    → line (byte (addr + n)) ≢ line (h1 t.slot)
    → line (byte (addr + n)) ≢ line word
    → (image : Memory) × Survives line m
        (insert_events line (m word) t h2 (pointing hash addr bytes))
        image
      × (live (image word) t.slot ≡ true)
      × (image (entry t.slot) ≡ addr)
      × (image (byte (addr + n)) ≡ m (byte (addr + n)))
unfolding run insert_events
long_record line layout m t target h2 hash addr bytes n lt off_first off_slot off_word =
    let st = pointing hash addr bytes in
    let l = line (byte (addr + n)) in
    let stores = contents line t h2 st in
    let w = inserted_word (m word) t in
    let es = stores ++ publish line w in
    let none : any_flush l es ≡ false =
      never_flushed line (m word) t h2 hash addr bytes l off_first off_slot off_word in
    let both = run-append m stores (publish line w) in
    let not_word : (line word == l) ≡ false = ground (arith, off_word) in
    let not_entry : (line (entry t.slot) == l) ≡ false =
      ground (arith, off_slot, layout.slot t.slot) in
    let itself : (l == l) ≡ true = ground arith in
    let itself' : (t.slot == t.slot) ≡ true = ground arith in
    (
      without_line line m es l none,
      without_line-Survives line m es l none,
      rw (not_word, both) (live-inserted_word (m word) t target t.slot ∙ ground (arith, itself')),
      rw (not_entry, both)
          (run-contents line m t h2 st (entry t.slot)
            ∙ (run-slot_stores (apply m (store (tag t.slot) h2)) t.slot st).1),
      rw itself refl,
    )
