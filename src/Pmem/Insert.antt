-- ===== src/Pmem/Insert.antt =====
-- src/turbo/turbo_hash_pmem.h: the stores and flushes of `insertToSlotAndGC` and `deleteSlot` to a
-- cell and to the record of the new pair, in their order.
--
-- A pptr is the address that it points to. `Allocate` gives the record's address; the bytes that
-- EncodeToRecord2 writes there are stored one after the other. The target is the one of `Bucket`.
pub mod Stores
pub mod Kept
pub mod Commits
pub mod Long
pub mod Search
use turbo_hash.Common.{
  ℕ, zero, suc, ◌+◌, ◌*◌, ◌/◌, ◌^◌, Bool, true, false, ◌&&◌, not, ◌==◌, ltb, leb, List, [], ◌∷◌,
  ◌++◌, length, if◌then◌else◌,
}
use turbo_hash.Bucket.{Target}
use turbo_hash.Pmem.Line.{Place, word, tag, h1, entry, byte, Event, store, flush, publish}
use turbo_hash.Pmem.Cell.{to_data, load_version, set_slot, exchange_slot, mark_deleted}

-- The address of a place, for a cell at `base`: `LocateH2Tag` and `LocateSlot`.
abbrev pub address : ℕ → Place → ℕ
address base word = base
address base (tag i) = base + 16 + i
address base (h1 i) = base + i * 2 ^ 4
address base (entry i) = base + i * 2 ^ 4 + 8
address base (byte a) = a

-- Its cache line.
abbrev pub line_at : ℕ → Place → ℕ
line_at base p = address base p / 64

-- What a slot stores: a key and a value, or H1 and the address of a record with its bytes.
pub data Stored : Type 0 where
  inline : (key value : ℕ) → Stored
  pointing : (hash addr : ℕ) (bytes : List ℕ) → Stored

abbrev pub byte_stores : ℕ → List ℕ → List Event
byte_stores a [] = []
byte_stores a (b ∷ bs) = store (byte a) b ∷ byte_stores (suc a) bs

-- `Store`, before its flushes
abbrev pub slot_stores : ℕ → Stored → List Event
slot_stores i (inline key value) = store (h1 i) key ∷ store (entry i) value ∷ []
slot_stores i (pointing hash addr bytes) =
    byte_stores addr bytes ++ (store (h1 i) hash ∷ store (entry i) addr ∷ [])

-- The word that `insertToSlotAndGC` makes of the one that it loads.
abbrev pub inserted_word : ℕ → Target → ℕ
inserted_word w t = to_data (
    if t.equal_key
    then exchange_slot (load_version w) t.slot t.old_slot
    else set_slot (load_version w) t.slot)

abbrev pub deleted_word : ℕ → ℕ → ℕ
deleted_word w i = to_data (mark_deleted (load_version w) i)

module _ (line : Place → ℕ) where
  -- The lines that `Store` flushes: that of the record's first byte, and that of the slot's.
  abbrev pub flushed : ℕ → Stored → List ℕ
  flushed i (inline key value) = line (h1 i) ∷ []
  flushed i (pointing hash addr bytes) = line (byte addr) ∷ line (h1 i) ∷ []

  -- The tag, and `Store`.
  abbrev pub contents : Target → ℕ → Stored → List Event
  contents t h2 st =
      store (tag t.slot) h2 ∷ (slot_stores t.slot st ++ (flush (flushed t.slot st) ∷ []))

  -- `insertToSlotAndGC`, on a cell with the version word `w`
  unfoldable pub insert_events : ℕ → Target → ℕ → Stored → List Event
  insert_events w t h2 st = contents t h2 st ++ publish line (inserted_word w t)

  -- The end of `deleteSlot`.
  unfoldable pub delete_events : ℕ → ℕ → List Event
  delete_events w i = publish line (deleted_word w i)
