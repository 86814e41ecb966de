-- ===== src/Reader.antt =====
-- src/turbo/turbo_hash.h: `findSlot` on one cell while other threads change the cell. The writers
-- (`insertToSlotAndGC`, `deleteSlot`) hold the bucket lock, so that one of them runs at a time; the
-- reader takes no lock. Each step is one access to the cell's memory, in the order of the code:
-- `Store` writes H1 and then the entry, then the tag is written, then the version; the reader loads
-- the tags, the version, H1, the entry for the comparison of keys, the two words of the slot for
-- `Record ()`, and the version again. A rehash makes a new bucket and leaves this cell as it is.
pub mod Sound
pub mod Stable
pub mod Safety
pub mod Torn
pub mod Missed
pub mod Check
pub mod Alone
use turbo_hash.Common.{
  ℕ, suc, ◌+◌, ◌%◌, ◌^◌, ◌≡◌, Bool, true, false, some, List, [], ◌∷◌, ◌==◌, ltb,
}
use turbo_hash.BitSet.{positions, valid_count, lowest}
use turbo_hash.Hasher.{h2_of}
use turbo_hash.Cell.{
  Version, Cell, HashSlot, load_version, store_version, match_bitset, erase_bitset, backup_bitset,
  full, mark_deleted, update,
}
use turbo_hash.SlotFormat.{SlotFormat}
use turbo_hash.Bucket.{Target, match_slot, insert_to_slot}

-- How far an insertion has come.
pub data Phase : Type 0 where
  chosen : Phase
  h1_stored : Phase
  entry_stored : Phase
  tag_stored : Phase

pub data Writer (K V : Type 0) : Type 0 where
  waiting : Writer K V
  putting : Phase → K → V → Target → Writer K V

-- A `CellMeta` is a cell of which only the tags and the word are read; its slots are those that the
-- memory had when the version was loaded.
pub data Reader (E : Type 0) : Type 0 where
  idle : Reader E
  tags_loaded : (tags : ℕ → ℕ) → Reader E
  scanning : (meta : Cell E) (is : List ℕ) → Reader E
  h1_equal : (meta : Cell E) (i : ℕ) (is : List ℕ) → Reader E
  key_equal : (meta : Cell E) (i : ℕ) → Reader E
  h1_copied : (meta : Cell E) (i h1 : ℕ) → Reader E
  copied : (meta : Cell E) (i : ℕ) (record_ : HashSlot E) → Reader E
  -- `return {record, true}`
  hit : (meta : Cell E) (i : ℕ) (record_ : HashSlot E) → Reader E
  -- the end of the loop over the matches
  miss : (meta : Cell E) → Reader E

-- `cell` is what the last version published: the memory without the writes of an insertion under
-- way. Since the reader's last load of the version, `published` versions were stored and `begun`
-- writers have changed the cell or begun to, one that was under way then included.
pub record State (K V E : Type 0) : Type 0 where
  pub cell : Cell E
  pub writer : Writer K V
  pub reader : Reader E
  pub begun : ℕ
  pub published : ℕ

-- `if (old_version.seq_no_ + 1 < version.seq_no_) goto find_retry`
unfoldable pub retries : Version → Version → Bool
retries old_version version = ltb ((old_version.seq_no + 1) % 2 ^ 32) version.seq_no

abbrev pub under_way : {K V : Type 0} → Writer K V → ℕ
under_way waiting = 0
under_way (putting phase k v t) = 1

module _ {K V E : Type 0} (f : SlotFormat K V E) where
  abbrev pub to_store : K → V → HashSlot E
  to_store k v = f.store (f.key_to_hash k) k v

  -- The target of `findSlotForInsert` in this cell: the spare slot for a key that the cell has, a
  -- deleted slot, or an empty one where the cell is not full.
  pub data Chooses (k : K) (c : Cell E) : Target → Type 0 where
    for_update :
        (t : Target)
        → t.equal_key ≡ true
        → match_slot f k (f.key_to_hash k) c ≡ some t.old_slot
        → t.slot ≡ lowest (backup_bitset c)
        → Chooses k c t
    deleted_slot :
        (t : Target)
        → t.equal_key ≡ false
        → (valid_count (erase_bitset c) == 0) ≡ false
        → t.slot ≡ lowest (erase_bitset c)
        → Chooses k c t
    empty_slot :
        (t : Target)
        → t.equal_key ≡ false
        → full c ≡ false
        → t.slot ≡ lowest (backup_bitset c)
        → Chooses k c t

  -- What the memory of the cell has.
  abbrev pub memory : Cell E → Writer K V → Cell E
  memory c waiting = c
  memory c (putting chosen k v t) = c
  memory c (putting h1_stored k v t) = record c {
    slots =
        update c.slots t.slot (record { h1 = (to_store k v).h1; entry = (c.slots t.slot).entry });
  }
  memory c (putting entry_stored k v t) = record c { slots = update c.slots t.slot (to_store k v) }
  memory c (putting tag_stored k v t) = record c {
    slots = update c.slots t.slot (to_store k v);
    tags = update c.tags t.slot (h2_of (f.key_to_hash k));
  }

  abbrev pub seen : State K V E → Cell E
  seen s = memory s.cell s.writer

  -- The `CellMeta` of the tags loaded first and the version loaded now.
  abbrev pub meta_of : (ℕ → ℕ) → Cell E → Cell E
  meta_of tags c = record c { tags = tags }

  pub data Step (q : K) (s : State K V E) : State K V E → Type 0 where
    -- a writer
    choose :
        (k : K) (v : V) (t : Target)
        → s.writer ≡ waiting
        → Chooses k s.cell t
        → f.fits k v ≡ true
        → Step q s (record s { writer = putting chosen k v t; begun = suc s.begun })
    store_h1 :
        (k : K) (v : V) (t : Target)
        → s.writer ≡ putting chosen k v t
        → Step q s (record s { writer = putting h1_stored k v t })
    store_entry :
        (k : K) (v : V) (t : Target)
        → s.writer ≡ putting h1_stored k v t
        → Step q s (record s { writer = putting entry_stored k v t })
    store_tag :
        (k : K) (v : V) (t : Target)
        → s.writer ≡ putting entry_stored k v t
        → Step q s (record s { writer = putting tag_stored k v t })
    publish :
        (k : K) (v : V) (t : Target)
        → s.writer ≡ putting tag_stored k v t
        → Step q s (record s {
          cell = (insert_to_slot f (f.key_to_hash k) k v s.cell t).0;
          writer = waiting;
          published = suc s.published;
        })
    erase :
        (k : K) (i : ℕ)
        → s.writer ≡ waiting
        → match_slot f k (f.key_to_hash k) s.cell ≡ some i
        → Step q s (record s {
          cell = store_version s.cell (mark_deleted (load_version s.cell) i);
          begun = suc s.begun;
          published = suc s.published;
        })
    -- `CellMeta meta (cell_addr)`: `meta_`, and then `ver_`
    load_tags : s.reader ≡ idle → Step q s (record s { reader = tags_loaded (seen s).tags })
    load_ver :
        (tags : ℕ → ℕ)
        → s.reader ≡ tags_loaded tags
        → Step q s (record s {
          reader =
              scanning
                (meta_of tags (seen s))
                (positions (match_bitset (meta_of tags (seen s)) (h2_of (f.key_to_hash q))));
          begun = under_way s.writer;
          published = 0;
        })
    -- `slot->H1 == partial_hash.H1_`
    same_h1 :
        (meta : Cell E) (i : ℕ) (is : List ℕ)
        → s.reader ≡ scanning meta (i ∷ is)
        → (((seen s).slots i).h1 == f.h1_of q (f.key_to_hash q)) ≡ true
        → Step q s (record s { reader = h1_equal meta i is })
    other_h1 :
        (meta : Cell E) (i : ℕ) (is : List ℕ)
        → s.reader ≡ scanning meta (i ∷ is)
        → (((seen s).slots i).h1 == f.h1_of q (f.key_to_hash q)) ≡ false
        → Step q s (record s { reader = scanning meta is })
    -- `SlotKeyEqual`
    same_key :
        (meta : Cell E) (i : ℕ) (is : List ℕ)
        → s.reader ≡ h1_equal meta i is
        → f.slot_key_equal q ((seen s).slots i) ≡ true
        → Step q s (record s { reader = key_equal meta i })
    other_key :
        (meta : Cell E) (i : ℕ) (is : List ℕ)
        → s.reader ≡ h1_equal meta i is
        → f.slot_key_equal q ((seen s).slots i) ≡ false
        → Step q s (record s { reader = scanning meta is })
    -- `slot->Record ()`
    copy_h1 :
        (meta : Cell E) (i : ℕ)
        → s.reader ≡ key_equal meta i
        → Step q s (record s { reader = h1_copied meta i ((seen s).slots i).h1 })
    copy_entry :
        (meta : Cell E) (i h1 : ℕ)
        → s.reader ≡ h1_copied meta i h1
        → Step q s (record s {
          reader = copied meta i (record { h1 = h1; entry = ((seen s).slots i).entry });
        })
    -- the version again
    accept :
        (meta : Cell E) (i : ℕ) (r : HashSlot E)
        → s.reader ≡ copied meta i r
        → retries (load_version meta) (load_version (seen s)) ≡ false
        → Step q s (record s { reader = hit meta i r })
    retry :
        (meta : Cell E) (i : ℕ) (r : HashSlot E)
        → s.reader ≡ copied meta i r
        → retries (load_version meta) (load_version (seen s)) ≡ true
        → Step q s (record s { reader = idle })
    no_match :
        (meta : Cell E) → s.reader ≡ scanning meta [] → Step q s (record s { reader = miss meta })

  -- The states that the threads come to, from a cell that nobody reads or writes.
  abbrev pub start : Cell E → State K V E
  start c = record { cell = c; writer = waiting; reader = idle; begun = 0; published = 0 }

  pub data Reach (q : K) (s : State K V E) : State K V E → Type 0 where
    here : Reach q s s
    later : {t u : State K V E} → Reach q s t → Step q t u → Reach q s u
