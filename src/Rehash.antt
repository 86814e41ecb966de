-- ===== src/Rehash.antt =====
-- src/turbo/turbo_hash.h: the rehash of one bucket (`MinorRehash`), with the iterator over the
-- old bucket (`BucketIterator`) and the search for a place in the new one
-- (`findNextSlotInRehash`). `none` stands for `exit (1)` after an error message.
pub mod Iterate
pub mod Next
pub mod Slot
pub mod Pack
pub mod Move
pub mod Visited
pub mod Cleared
pub mod Content
use turbo_hash.Common.{
  ℕ, zero, suc, ◌+◌, ◌-◌, ◌*◌, ◌/◌, ◌%◌, ◌^◌, Bool, ◌&&◌, Option, none, some, List, [], ◌∷◌, ◌==◌,
  ltb, leb, bit_and, bit_or, length, if◌then◌else◌,
}
use turbo_hash.BitSet
use turbo_hash.Cell.{Cell, HashSlot, slot_max_range, start_slot_pos, update, valid_bitset}
use turbo_hash.Probe.{max_probe_len, probe_step}
use turbo_hash.SlotFormat.{SlotFormat}
use turbo_hash.Bucket.{Bucket, cell_count}

-- `BucketIterator`: the cell, and the positions in it that are left
pub record Iterator : Type 0 where
  pub cell_i : ℕ
  pub bitmap : ℕ

-- `toNextValidBitMap`, with the number of cells left, the present one included.
unfoldable pub to_next_valid_bit_map : {E : Type 0} → (ℕ → Cell E) → ℕ → Iterator → Iterator
to_next_valid_bit_map cells zero it = it
to_next_valid_bit_map cells (suc left) it =
    let next_cell : Iterator = record {
      cell_i = it.cell_i + 1;
      bitmap = if left == 0 then it.bitmap else valid_bitset (cells (it.cell_i + 1));
    } in
    let rest = to_next_valid_bit_map cells left next_cell in
    if BitSet.to_bool it.bitmap then it else rest

module _ {E : Type 0} (b : Bucket E) where
  -- `if (!bitmap_) toNextValidBitMap ()`
  unfoldable pub settle : Iterator → Iterator
  settle it =
      if BitSet.to_bool it.bitmap
      then it
      else to_next_valid_bit_map b.cells (cell_count b - it.cell_i) it

  -- `BucketIterator (bi, bucket_addr, cell_count)`
  unfoldable pub begin : Iterator
  begin = settle (record { cell_i = 0; bitmap = valid_bitset (b.cells 0) })

  -- `operator++`
  unfoldable pub step : Iterator → Iterator
  step it = settle (record it { bitmap = BitSet.advance it.bitmap })

  -- `valid`
  unfoldable pub valid : Iterator → Bool
  valid it = ltb it.cell_i (cell_count b) && BitSet.to_bool it.bitmap

  -- `while (iter.valid ()) { … *iter …; ++iter; }` on fuel: the cell and slot of each round
  unfoldable pub visit : ℕ → Iterator → List (ℕ × ℕ)
  visit zero it = []
  visit (suc fuel) it =
      let rest = visit fuel (step it) in
      if valid it then (it.cell_i, BitSet.lowest it.bitmap) ∷ rest else []

-- The new bucket while slots are moved into it; `slot_vec` has the next free slot of each cell.
pub record Moving (E : Type 0) : Type 0 where
  pub cells : ℕ → Cell E
  pub slot_vec : ℕ → ℕ

-- The loop of `findNextSlotInRehash`, with the number of rounds left.
unfoldable pub next_slot_loop : ℕ → (ℕ → ℕ) → ℕ → ℕ → ℕ → Option ℕ
next_slot_loop zero slot_vec mask ai loop_count = none
next_slot_loop (suc left) slot_vec mask ai loop_count =
    let ai' = (ai + probe_step) % 2 ^ 32 in
    let rest =
      next_slot_loop left slot_vec mask (if ltb mask ai' then bit_and ai' mask else ai')
        (loop_count + 1) in
    if leb slot_max_range (slot_vec ai)
    then if ltb max_probe_len (loop_count + 1) then none else rest
    else some ai

-- `moveSlot`
unfoldable pub move_slot : {E : Type 0} → Cell E → ℕ → HashSlot E → ℕ → Cell E
move_slot c i slot tag = record c {
  slots = update c.slots i slot;
  tags = update c.tags i tag;
  word = c.word / 2 ^ 8 * 2 ^ 8 + bit_or (c.word % 2 ^ 8) (2 ^ i) % 2 ^ 8;
}

-- What `MinorRehash` does with the place found, and `slot_vec[ai]++`.
unfoldable pub move_to : {E : Type 0} → HashSlot E → ℕ → Moving E → Option ℕ → Option (Moving E)
move_to slot tag m none = none
move_to slot tag m (some ci) =
    if leb slot_max_range (m.slot_vec ci)
    then none
    else some (record {
      cells = update m.cells ci (move_slot (m.cells ci) (m.slot_vec ci) slot tag);
      slot_vec = update m.slot_vec ci ((m.slot_vec ci + 1) % 2 ^ 8);
    })

-- An `exit` ends the process.
abbrev pub and_then : {A B : Type 0} → Option A → (A → Option B) → Option B
and_then none next = none
and_then (some a) next = next a

-- `kCellCountLimit`
abbrev pub cell_count_limit : ℕ
cell_count_limit = 32768

-- Step c) of `MinorRehash`: the slots that are left, the spare one included, are set to 0.
unfoldable pub clear_rest : {E : Type 0} → E → Moving E → ℕ → Bucket E
clear_rest zero_entry m shift = record {
  cells = λ ci. record (m.cells ci) {
    slots = λ si.
        if leb (m.slot_vec ci) si && leb si slot_max_range
        then record { h1 = 0; entry = zero_entry }
        else (m.cells ci).slots si;
  };
  cell_shift = shift;
}

-- The new cells before the first slot is moved; `space` is what the allocated slots have in them.
abbrev pub start_moving : {E : Type 0} → (ℕ → ℕ → HashSlot E) → Moving E
start_moving space = record {
  cells = λ ci. record { word = 0; tags = λ _. 0; slots = space ci };
  slot_vec = λ _. start_slot_pos;
}

module _ {K V E : Type 0} (f : SlotFormat K V E) where
  -- `findNextSlotInRehash`: the cell; 16 rounds end the loop
  unfoldable pub find_next_slot : (ℕ → ℕ) → ℕ → ℕ → Option ℕ
  find_next_slot slot_vec h1 mask =
      next_slot_loop 16 slot_vec mask (bit_and (f.h1_to_hash h1) mask % 2 ^ 32) 0

  -- One round of the loop of `MinorRehash`: moves the slot to the next place for it.
  unfoldable pub move_one : ℕ → HashSlot E → ℕ → Moving E → Option (Moving E)
  move_one mask slot tag m = move_to slot tag m (find_next_slot m.slot_vec slot.h1 mask)

  -- The loop, over the slots that the iterator visits.
  unfoldable pub move_all : Bucket E → ℕ → List (ℕ × ℕ) → Moving E → Option (Moving E)
  move_all b mask [] m = some m
  move_all b mask ((ci, i) ∷ rest) m =
      and_then (move_one mask ((b.cells ci).slots i) ((b.cells ci).tags i) m) (move_all b mask rest)

  -- `MinorRehash`: the new bucket and the number of slots moved. `space` is what the allocated
  -- slots have in them before.
  unfoldable pub minor_rehash : Bucket E → Bool → E → (ℕ → ℕ → HashSlot E) → Option (Bucket E × ℕ)
  minor_rehash b isgc zero_entry space =
      let shift = if isgc then b.cell_shift else b.cell_shift + 1 in
      let slots = visit b (32 * cell_count b) (begin b) in
      if ltb cell_count_limit (2 ^ shift)
      then none
      else and_then (move_all b (2 ^ shift - 1) slots (start_moving space))
          (λ m. some (clear_rest zero_entry m shift, length slots))
