-- ===== src/Pmem/Insert/Kept.antt =====
-- What a crash during `insertToSlotAndGC` leaves of the slots and records.
use turbo_hash.Common.{
  ℕ, ◌+◌, ◌%◌, ◌<◌, ◌≡◌, refl, ◌∙◌, arith, true, false, ◌&&◌, ◌||◌, not, ◌==◌, List, [], ◌∷◌, ◌++◌,
  take, length,
}
use turbo_hash.Bucket.{Target}
use turbo_hash.Pmem.Line.{
  Place, word, tag, h1, entry, byte, same, Memory, Event, store, flush, one_of, run, apply,
  Survives, publish,
}
use turbo_hash.Pmem.Line.Cut.{stores_to, stores_to-append, run-append, run_other}
use turbo_hash.Pmem.Line.Commit.{IsNew, untouched, flushed-IsCovered}
use turbo_hash.Pmem.Cell.Live.{live, is_slot}
use turbo_hash.Pmem.Insert.{Stored, inline, pointing, slot_stores, flushed, contents, line_at}
use turbo_hash.Pmem.Insert.Stores.{in_record, touches, slot_stores-touches, SlotIs, run-slot_stores}

-- The tags are in the line of the version, and a slot is in one line.
pub record Layout (line : Place → ℕ) : Type 0 where
  pub header : (i : ℕ) → is_slot i ≡ true → line (tag i) ≡ line word
  pub slot : (i : ℕ) → line (entry i) ≡ line (h1 i)

-- In a cell at a multiple of 32 bytes they are.
pub line_at-Layout : (base : ℕ) → base % 32 ≡ 0 → Layout (line_at base)
line_at-Layout base even = record {
  header = λ i slot. ground (arith, even, slot);
  slot = λ i. omega (arith, even);
}

-- The record is in one line.
abbrev pub IsShort : (Place → ℕ) → Stored → Type 0
IsShort line (inline key value) = Unit
IsShort line (pointing hash addr bytes) =
    (n : ℕ) → n < length bytes → line (byte (addr + n)) ≡ line (byte addr)

-- The target is a slot that is not live; in an update the old slot is live.
pub record IsTarget (w : ℕ) (t : Target) : Type 0 where
  pub slot : is_slot t.slot ≡ true
  pub free : live w t.slot ≡ false
  pub old : t.equal_key ≡ true → live w t.old_slot ≡ true

-- The other slots and records are as they were.
pub record Keeps (m image : Memory) (i : ℕ) (st : Stored) : Type 0 where
  pub tags : (j : ℕ) → (i == j) ≡ false → image (tag j) ≡ m (tag j)
  pub h1s : (j : ℕ) → (i == j) ≡ false → image (h1 j) ≡ m (h1 j)
  pub entries : (j : ℕ) → (i == j) ≡ false → image (entry j) ≡ m (entry j)
  pub bytes : (a : ℕ) → in_record st a ≡ false → image (byte a) ≡ m (byte a)

-- The same slots are live.
abbrev pub SameLive : Memory → Memory → Type 0
SameLive m image = (j : ℕ) → live (image word) j ≡ live (m word) j

-- The new slot is live, and the old one of an update is not.
pub record Inserted (m image : Memory) (t : Target) (h2 : ℕ) (st : Stored) : Type 0 where
  pub live_after :
      (j : ℕ)
      → live (image word) j
        ≡ (t.slot == j || live (m word) j && not (t.equal_key && t.old_slot == j))
  pub tagged : image (tag t.slot) ≡ h2
  pub holds : SlotIs image t.slot st

module _ (line : Place → ℕ) (m : Memory) (t : Target) (h2 : ℕ) (st : Stored) where
  abbrev first : List Event
  first = store (tag t.slot) h2 ∷ slot_stores t.slot st

  abbrev before : List Event
  before = contents line t h2 st

  stores_to-contents :
      (p : Place) → stores_to p before ≡ (same (tag t.slot) p || touches t.slot st p)
  stores_to-contents p =
      let parts =
        stores_to-append p (slot_stores t.slot st) (flush (flushed line t.slot st) ∷ []) in
      ground (arith, parts, slot_stores-touches t.slot st p)

  pub run-contents : (p : Place) → run m before p ≡ run m first p
  unfolding run
  run-contents p =
      rw
        (run-append (apply m (store (tag t.slot) h2)) (slot_stores t.slot st)
          (flush (flushed line t.slot st) ∷ []))
        refl

  pub tag-contents : run m before (tag t.slot) ≡ h2
  unfolding run
  tag-contents =
      let m' = apply m (store (tag t.slot) h2) in
      let itself : (t.slot == t.slot) ≡ true = ground arith in
      run-contents (tag t.slot)
      ∙ run_other (tag t.slot) (slot_stores t.slot st) m'
          (slot_stores-touches t.slot st (tag t.slot))
      ∙ rw itself refl

  pub word-contents : stores_to word before ≡ false
  word-contents = stores_to-contents word

  pub keeps :
      (w k : ℕ) (image : Memory)
      → Survives line m (take k (before ++ publish line w)) image
      → Keeps m image t.slot st
  keeps w k image sv =
      let kept = untouched line m before w k image sv in
      record {
        tags = λ j other. kept (tag j) refl (ground (arith, stores_to-contents (tag j), other));
        h1s = λ j other. kept (h1 j) refl (ground (arith, stores_to-contents (h1 j), other));
        entries =
            λ j other. kept (entry j) refl (ground (arith, stores_to-contents (entry j), other));
        bytes = λ a other. kept (byte a) refl (ground (arith, stores_to-contents (byte a), other));
      }

  -- A place whose line `Store` flushes has what `Store` wrote, once the version is new.
  in_line :
      (w : ℕ) (image : Memory)
      → IsNew line m before w image
      → (p : Place) → same word p ≡ false
      → one_of (line p) (flushed line t.slot st) ≡ true
      → image p ≡ run m first p
  in_line w image new p other among =
      new.there p other
        (flushed-IsCovered line m before w p first (flushed line t.slot st) refl among)
      ∙ run-contents p

pub SlotIs-in_line :
    (line : Place → ℕ) (m : Memory) (t : Target) (h2 w : ℕ) (image : Memory)
    → Layout line
    → (st : Stored) → IsShort line st
    → IsNew line m (contents line t h2 st) w image
    → SlotIs image t.slot st
unfolding run
SlotIs-in_line line m t h2 w image layout (inline k v) short new =
    let st = inline k v in
    let (key, value) = run-slot_stores (apply m (store (tag t.slot) h2)) t.slot st in
    let at = in_line line m t h2 st w image new in
    let same_line = layout.slot t.slot in
    (
      at (h1 t.slot) refl (ground arith) ∙ key,
      at (entry t.slot) refl (ground (arith, same_line)) ∙ value,
    )
SlotIs-in_line line m t h2 w image layout (pointing h addr bs) short new =
    let st = pointing h addr bs in
    let (hash, address, bytes) = run-slot_stores (apply m (store (tag t.slot) h2)) t.slot st in
    let at = in_line line m t h2 st w image new in
    let same_line = layout.slot t.slot in
    (
      at (h1 t.slot) refl (ground arith) ∙ hash,
      at (entry t.slot) refl (ground (arith, same_line)) ∙ address,
      λ n lt.
          let one_line = short n lt in
          at (byte (addr + n)) refl (ground (arith, one_line)) ∙ bytes n lt,
    )
