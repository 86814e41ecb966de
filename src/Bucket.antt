-- ===== src/Bucket.antt =====
-- src/turbo/turbo_hash.h: one bucket, its search (`findSlot`), the choice of a slot for an
-- insertion (`findSlotForInsert`), the write (`insertToSlotAndGC`) and the deletion
-- (`deleteSlot`). The caller holds the bucket lock and no other thread writes the bucket, so the
-- version that a method loads a second time is the one of its snapshot, and no search is retried.
pub mod Valid
pub mod Empty
pub mod Match
pub mod Search
pub mod Find
pub mod Erase
pub mod Delete
pub mod Write
pub mod Placing
pub mod Insert
pub mod Choose
pub mod Put
pub mod RoundTrip
use turbo_hash.Common.{
  ℕ, zero, suc, ◌+◌, ◌-◌, ◌*◌, ◌/◌, ◌%◌, ◌^◌, Bool, true, false, ◌&&◌, not, Option, none, some,
  List, [], ◌∷◌, ◌==◌, if◌then◌else◌,
}
use turbo_hash.BitSet.{positions, valid_count, lowest}
use turbo_hash.Hasher.{h2_of}
use turbo_hash.Cell.{
  Cell, HashSlot, load_version, store_version, match_bitset, erase_bitset, backup_bitset, full,
  set_slot, exchange_slot, mark_deleted, update,
}
use turbo_hash.SlotFormat.{SlotFormat}
use turbo_hash.Probe
use mathlib.Core.Option
use turbo_hash.Probe.{Probe, max_probe_len}

-- The cells of a bucket, and the logarithm of their number that BucketMeta keeps.
pub record Bucket (E : Type 0) : Type 0 where
  pub cells : ℕ → Cell E
  pub cell_shift : ℕ

-- `CellCount` and `CellCountMask`
abbrev pub cell_count : {E : Type 0} → Bucket E → ℕ
cell_count b = 2 ^ b.cell_shift

abbrev pub cell_count_mask : {E : Type 0} → Bucket E → ℕ
cell_count_mask b = cell_count b - 1

-- What the constructor makes: `memset (addr, 0, …)`, where `zero_entry` is what a zero word means.
abbrev pub new_bucket : {E : Type 0} → E → ℕ → Bucket E
new_bucket zero_entry shift = record {
  cells =
      λ _. record { word = 0; tags = λ _. 0; slots = λ _. record { h1 = 0; entry = zero_entry } };
  cell_shift = shift;
}

-- `SlotInfo target_slot`: where an insertion goes; `old_slot` counts where `equal_key` is set
pub record Target : Type 0 where
  pub cell : ℕ
  pub slot : ℕ
  pub equal_key : Bool
  pub old_slot : ℕ

-- The first position of a bitset that passes a test, `for (int i : bitset) if (…) return`.
unfoldable pub first_match : (ℕ → Bool) → List ℕ → Option ℕ
first_match test [] = none
first_match test (i ∷ is) = if test i then some i else first_match test is

-- The insertion into a slot that no key of the bucket has, as the code names it.
abbrev pub new_target : ℕ × ℕ → Target
new_target (cell, slot) = record { cell = cell; slot = slot; equal_key = false; old_slot = 0 }

-- `if (cell_to_insert == -1)`: a position chosen before stays.
abbrev pub or_else : Option (ℕ × ℕ) → ℕ × ℕ → ℕ × ℕ
or_else none new = new
or_else (some old) new = old

-- "choose deleted position first": a deleted slot of this cell replaces the position so far.
unfoldable pub choose_deleted : {E : Type 0} → Cell E → ℕ → Option (ℕ × ℕ) → Option (ℕ × ℕ)
choose_deleted c index chosen =
    if valid_count (erase_bitset c) == 0 then chosen else some (index, lowest (erase_bitset c))

-- After the loop: "We can insert to deleted slot", or nothing was found.
abbrev pub chosen_target : Option (ℕ × ℕ) → Option Target
chosen_target none = none
chosen_target (some p) = some (new_target p)

-- The entries that a call hands to `markNodeForDeletion`: none if the slot has no record.
abbrev pub marked : {E : Type 0} → Option E → List E
marked none = []
marked (some e) = e ∷ []

-- A write to one cell of the bucket.
abbrev pub set_cell : {E : Type 0} → Bucket E → ℕ → Cell E → Bucket E
set_cell b i c = record b { cells = update b.cells i c }

module _ {K V E : Type 0} (f : SlotFormat K V E) where
  -- `slot->H1 == partial_hash.H1_` and `SlotKeyEqual`
  unfoldable pub slot_matches : K → ℕ → HashSlot E → Bool
  slot_matches k hash s = s.h1 == f.h1_of k hash && f.slot_key_equal k s

  -- The slot of the cell that holds the key.
  unfoldable pub match_slot : K → ℕ → Cell E → Option ℕ
  match_slot k hash c =
      first_match (λ i. slot_matches k hash (c.slots i)) (positions (match_bitset c (h2_of hash)))

  -- The probe that every search starts from.
  unfoldable pub start_probe : Bucket E → K → ℕ → Probe
  start_probe b k hash = Probe.new (f.h1_to_hash (f.h1_of k hash)) (cell_count_mask b) 0

  -- The loop of `findSlot`, with the number of probes left.
  unfoldable pub find_loop : Bucket E → K → ℕ → ℕ → Probe → Option (HashSlot E)
  find_loop b k hash zero p = none
  find_loop b k hash (suc left) p =
      let c = b.cells p.cell_index in
      let rest = find_loop b k hash left (Probe.next p) in
      if Probe.to_bool p
      then elim (match_slot k hash c) [
        | some i ↦ some (c.slots i)
        | none ↦ if full c then rest else none
      ]
      else none

  -- `findSlot`
  unfoldable pub find_slot : Bucket E → K → ℕ → Option (HashSlot E)
  find_slot b k hash = find_loop b k hash max_probe_len (start_probe b k hash)

  -- The loop of `findSlotForInsert`, with the number of probes left and the position chosen.
  unfoldable pub insert_loop : Bucket E → K → ℕ → ℕ → Probe → Option (ℕ × ℕ) → Option Target
  insert_loop b k hash zero p chosen = chosen_target chosen
  insert_loop b k hash (suc left) p chosen =
      let c = b.cells p.cell_index in
      let chosen' = choose_deleted c p.cell_index chosen in
      let rest = insert_loop b k hash left (Probe.next p) chosen' in
      if Probe.to_bool p
      then elim (match_slot k hash c) [
        | some i ↦ some (record {
          cell = p.cell_index;
          slot = lowest (backup_bitset c);
          equal_key = true;
          old_slot = i;
        })
        | none ↦
            if full c
            then rest
            else some (new_target (or_else chosen' (p.cell_index, lowest (backup_bitset c))))
      ]
      else chosen_target chosen

  -- `findSlotForInsert`; `none` is `find == false`
  unfoldable pub find_slot_for_insert : Bucket E → K → ℕ → Option Target
  find_slot_for_insert b k hash = insert_loop b k hash max_probe_len (start_probe b k hash) none

  -- `insertToSlotAndGC` on the target's cell: the slot, its tag, the version, and the garbage.
  unfoldable pub insert_to_slot : ℕ → K → V → Cell E → Target → Cell E × List E
  insert_to_slot hash k v c t =
      let stored = record c {
        slots = update c.slots t.slot (f.store hash k v);
        tags = update c.tags t.slot (h2_of hash);
      } in
      let version = load_version stored in
      if t.equal_key
      then (
        store_version stored (exchange_slot version t.slot t.old_slot),
        marked (f.release_address (stored.slots t.old_slot)),
      )
      else (store_version stored (set_slot version t.slot), [])

  -- What `insertSlot` does with the target that it finds.
  unfoldable pub insert_at : Bucket E → ℕ → K → V → Target → Bucket E × List E
  insert_at b hash k v t =
      let (c, garbage) = insert_to_slot hash k v (b.cells t.cell) t in
      (set_cell b t.cell c, garbage)

  -- One turn of `insertSlot`; `none` if it goes on to `MinorRehash`.
  unfoldable pub try_insert : Bucket E → ℕ → K → V → Option (Bucket E × List E)
  try_insert b hash k v = Option.map (insert_at b hash k v) (find_slot_for_insert b k hash)

  -- The end of `deleteSlot`: frees the record and marks the slot as deleted.
  unfoldable pub delete_at : Bucket E → ℕ → ℕ → Bucket E × Bool × List E
  delete_at b index i =
      let c = b.cells index in
      (
        set_cell b index (store_version c (mark_deleted (load_version c) i)),
        true,
        marked (f.release_address (c.slots i)),
      )

  -- The loop of `deleteSlot`, with the number of probes left.
  unfoldable pub delete_loop : Bucket E → K → ℕ → ℕ → Probe → Bucket E × Bool × List E
  delete_loop b k hash zero p = (b, false, [])
  delete_loop b k hash (suc left) p =
      let c = b.cells p.cell_index in
      let rest = delete_loop b k hash left (Probe.next p) in
      if Probe.to_bool p
      then elim (match_slot k hash c) [
        | some i ↦ delete_at b p.cell_index i
        | none ↦ if full c then rest else (b, false, [])
      ]
      else (b, false, [])

  -- `deleteSlot`
  unfoldable pub delete_slot : Bucket E → K → ℕ → Bucket E × Bool × List E
  delete_slot b k hash = delete_loop b k hash max_probe_len (start_probe b k hash)
