-- ===== src/Bucket/Write.antt =====
-- The write of `insertToSlotAndGC` to one cell.
use turbo_hash.Common.{
  ℕ, ◌+◌, ◌≤◌, ◌<◌, ◌≡◌, ◌≢◌, refl, Bool, true, false, xor, ◌⊎◌, ◌==◌, ◌&&◌, ◌||◌, not, inl, inr,
  [], arith, Bool-cases,
}
use turbo_hash.Common.Bits.{to_bit}
use turbo_hash.Hasher.{h2_of}
use turbo_hash.Cell.{
  Cell, HashSlot, full, load_version, store_version, set_slot, exchange_slot, update,
}
use turbo_hash.Cell.Live.{live, occupied, deleted, occupied_range}
use turbo_hash.Cell.Change.{set_slot_lem, exchange_slot_lem}
use turbo_hash.Cell.Spare.{occupied_count, occupied_count_change, full_iff}
use turbo_hash.SlotFormat.{SlotFormat}
use turbo_hash.Bucket.{Target, insert_to_slot, marked}
use turbo_hash.Bucket.Valid.{IsCell}

abbrev pub Range : ℕ → Type 0
Range i = (0 < i) × (i < 8)

-- `d` is `c` with one more live slot, `s`, and without the slots that are `gone`.
pub record IsWrite {E : Type 0} (c d : Cell E) (s : ℕ) (gone : ℕ → Bool) : Type 0 where
  pub live_after : (j : ℕ) → live d j ≡ (s == j || (live c j && not (gone j)))
  pub sound : IsCell d
  pub full_after : full c ≡ true → full d ≡ true

-- The version of a cell does not depend on its slots and tags.
abbrev pub stored : {E : Type 0} → Cell E → ℕ → HashSlot E → ℕ → Cell E
stored c s slot tag = record c { slots = update c.slots s slot; tags = update c.tags s tag }

load_version-stored :
    {E : Type 0} (c : Cell E) (s : ℕ) (slot : HashSlot E) (tag : ℕ)
    → load_version (stored c s slot tag) ≡ load_version c
unfolding load_version
load_version-stored c s slot tag = refl

module _ {E : Type 0} (c : Cell E) (s : ℕ) (range : Range s) (sound : IsCell c) where
  abbrev pub with_slot : Cell E
  with_slot = store_version c (set_slot (load_version c) s)

  pub count_with_slot : occupied_count with_slot + to_bit (occupied c s) ≡ occupied_count c + 1
  count_with_slot = ground (
    arith,
    occupied_count_change with_slot c s range.1
        (λ j ne. ground (arith, set_slot_lem c s range.0 range.1 j)),
    set_slot_lem c s range.0 range.1 s,
  )

  -- Insertion of a key that the cell does not have.
  set_slot-IsWrite :
      live c s ≡ false
      → (occupied c s ≡ true) ⊎ (occupied_count c ≤ 5)
      → IsWrite c with_slot s (λ _. false)
  set_slot-IsWrite free room = record {
    live_after = λ j. ground (arith, set_slot_lem c s range.0 range.1 j);
    sound = record {
      erased = λ j h. ground (arith, set_slot_lem c s range.0 range.1 j, sound.erased j);
      spare = ground (arith, count_with_slot, sound.spare);
    };
    full_after = λ h. ground (arith, count_with_slot, full_iff c, full_iff with_slot);
  }

  module _ (old : ℕ) (alive : live c old ≡ true) (free : occupied c s ≡ false) where
    abbrev exchanged : Cell E
    exchanged = store_version c (exchange_slot (load_version c) s old)

    old-Range : Range old
    old-Range = occupied_range c old (ground arith)

    exchanged_lem :
        (j : ℕ)
        → (occupied exchanged j ≡ xor (s == j || occupied c j) (old == j))
          × (deleted exchanged j ≡ (deleted c j && not (s == j)))
    exchanged_lem j = exchange_slot_lem c s range.0 range.1 j old old-Range.0 old-Range.1

    count_exchanged : occupied_count exchanged ≡ occupied_count c
    unfolding xor
    count_exchanged = ground (
      arith,
      occupied_count_change exchanged with_slot old old-Range.1
          (λ j ne. ground (arith, set_slot_lem c s range.0 range.1 j, exchanged_lem j)),
      count_with_slot,
      set_slot_lem c s range.0 range.1 old,
      exchanged_lem old,
    )

    -- Update of a key that the cell has.
    exchange_slot-IsWrite : IsWrite c exchanged s (λ j. old == j)
    unfolding xor
    exchange_slot-IsWrite = record {
      live_after = λ j. ground (arith, exchanged_lem j);
      sound = record {
        erased = λ j h. ground (arith, exchanged_lem j, sound.erased j);
        spare = omega (arith, count_exchanged, sound.spare);
      };
      full_after = λ h. ground (arith, count_exchanged, full_iff c, full_iff exchanged);
    }

module _ {E : Type 0} (c : Cell E) (s : ℕ) (slot : HashSlot E) (tag : ℕ) where
  IsWrite-stored :
      (d : Cell E) (gone : ℕ → Bool) → IsWrite (stored c s slot tag) d s gone → IsWrite c d s gone
  unfolding load_version full
  IsWrite-stored d gone w = record {
    live_after = w.live_after;
    sound = w.sound;
    full_after = w.full_after;
  }

  pub IsCell-stored : IsCell c → IsCell (stored c s slot tag)
  unfolding load_version
  IsCell-stored h = record { erased = h.erased; spare = h.spare }

module _ {K V E : Type 0} (f : SlotFormat K V E) (hash : ℕ) (k : K) (v : V) (c : Cell E)
    (t : Target) where
  -- The slot that an update replaces.
  abbrev pub replaced : ℕ → Bool
  replaced j = t.equal_key && t.old_slot == j

  abbrev pub written : Cell E
  written = (insert_to_slot f hash k v c t).0

  pub slots-written :
      (written.slots ≡ update c.slots t.slot (f.store hash k v))
      × (written.tags ≡ update c.tags t.slot (h2_of hash))
  unfolding insert_to_slot store_version
  slots-written = elim (Bool-cases t.equal_key) [
    | inl e ↦ rw e (refl, refl)
    | inr e ↦ rw e (refl, refl)
  ]

  pub insert_new-IsWrite :
      IsCell c
      → Range t.slot
      → t.equal_key ≡ false
      → live c t.slot ≡ false
      → (occupied c t.slot ≡ true) ⊎ (occupied_count c ≤ 5)
      → IsWrite c written t.slot replaced
  unfolding insert_to_slot load_version
  insert_new-IsWrite sound range fresh free room =
      let slot = f.store hash k v in
      let tag = h2_of hash in
      rw fresh (
        IsWrite-stored c t.slot slot tag _ _ (
          set_slot-IsWrite (stored c t.slot slot tag) t.slot range
            (IsCell-stored c t.slot slot tag sound) free room))

  pub update-IsWrite :
      IsCell c
      → Range t.slot
      → t.equal_key ≡ true
      → live c t.old_slot ≡ true
      → occupied c t.slot ≡ false
      → IsWrite c written t.slot replaced
  unfolding insert_to_slot load_version
  update-IsWrite sound range same alive free =
      let slot = f.store hash k v in
      let tag = h2_of hash in
      rw same (
        IsWrite-stored c t.slot slot tag _ _ (
          exchange_slot-IsWrite (stored c t.slot slot tag) t.slot range
            (IsCell-stored c t.slot slot tag sound) t.old_slot alive free))

  -- The garbage of a write: the record that an update replaces, and none for a new key.
  pub garbage-written :
      (t.equal_key ≡ true
        → t.old_slot ≢ t.slot
        → (insert_to_slot f hash k v c t).1 ≡ marked (f.release_address (c.slots t.old_slot)))
      × (t.equal_key ≡ false → (insert_to_slot f hash k v c t).1 ≡ [])
  unfolding insert_to_slot
  garbage-written = (
    λ e ne. rw e (let apart : t.slot == t.old_slot ≡ false = ground arith in rw apart refl),
    λ e. rw e refl,
  )
