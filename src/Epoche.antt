-- ===== src/Epoche.antt =====
-- src/turbo/turbo_epoche.h: the deletion lists of the threads, and the epochs that decide when a
-- marked record is freed. A callback is the number of the record that it frees. A label's array
-- and its `nodesCount` are the list of its first `nodesCount` callbacks; a linked list is a List.
pub mod Sweep
pub mod Mark
pub mod System
pub mod Invariant
pub mod Safety
pub mod Exit
use turbo_hash.Common.{
  ℕ, zero, suc, ◌+◌, ◌-◌, ◌%◌, ◌^◌, Bool, List, [], ◌∷◌, ◌++◌, ◌==◌, ltb, bit_and, length,
  if◌then◌else◌,
}
use turbo_hash.Cell.{update}

abbrev pub u64 : ℕ → ℕ
u64 n = n % 2 ^ 64

-- `std::numeric_limits<uint64_t>::max ()`
abbrev pub no_epoche : ℕ
no_epoche = 2 ^ 64 - 1

-- `LabelDelete`
pub record Label : Type 0 where
  pub nodes : List ℕ
  pub epoche : ℕ

-- The size of the array `nodes`.
abbrev pub label_size : ℕ
label_size = 32

-- `DeletionList`
pub record DeletionList : Type 0 where
  pub head : List Label
  pub free_labels : List Label
  pub deletion_list_count : ℕ
  pub local_epoche : ℕ
  pub threshold_counter : ℕ
  pub deleted : ℕ
  pub added : ℕ

-- What `new LabelDelete ()` makes.
abbrev pub new_label : Label
new_label = record { nodes = []; epoche = 0 }

-- A label from the free list, or a new one; and the free list after it.
abbrev pub take_label : List Label → Label × List Label
take_label [] = (new_label, [])
take_label (l ∷ ls) = (l, ls)

-- The label that `add` writes to, the labels behind it, and the free list: the head if it has
-- room, otherwise an emptied label in front of the list.
unfoldable pub open_label : List Label → List Label → Label × List Label × List Label
open_label [] free = let (l, free') = take_label free in (record l { nodes = [] }, [], free')
open_label (h ∷ ls) free =
    if ltb (length h.nodes) label_size
    then (h, ls, free)
    else (let (l, free') = take_label free in (record l { nodes = [] }, h ∷ ls, free'))

-- `DeletionList::add`
unfoldable pub add : ℕ → ℕ → DeletionList → DeletionList
add callback global_epoche d =
    let (l, rest, free) = open_label d.head d.free_labels in
    record d {
      head = record { nodes = l.nodes ++ (callback ∷ []); epoche = global_epoche } ∷ rest;
      free_labels = free;
      deletion_list_count = u64 (d.deletion_list_count + 1);
      added = u64 (d.added + 1);
    }

-- `DeletionList::size`
abbrev pub size : DeletionList → ℕ
size d = d.deletion_list_count

-- What `DeletionList::remove` does besides unlinking the label.
unfoldable pub retire : Label → DeletionList → DeletionList
retire l d = record d {
  deletion_list_count = u64 (d.deletion_list_count + 2 ^ 64 - length l.nodes);
  free_labels = l ∷ d.free_labels;
  deleted = u64 (d.deleted + length l.nodes);
}

-- What a sweep leaves: the labels kept, the list with the others retired, and the callbacks called.
abbrev pub keep_label :
    Label → List Label × DeletionList × List ℕ → List Label × DeletionList × List ℕ
keep_label l (kept, d, called) = (l ∷ kept, d, called)

abbrev pub call_label :
    Label → List Label × DeletionList × List ℕ → List Label × DeletionList × List ℕ
call_label l (kept, d, called) = (kept, d, l.nodes ++ called)

-- The loop of `exitEpocheAndCleanup` over the labels.
unfoldable pub sweep : ℕ → List Label → DeletionList → List Label × DeletionList × List ℕ
sweep oldest [] d = ([], d, [])
sweep oldest (l ∷ ls) d =
    let gone = call_label l (sweep oldest ls (retire l d)) in
    let stays = keep_label l (sweep oldest ls d) in if ltb l.epoche oldest then gone else stays

-- The loop `for (auto& epoche : deletionLists)` over the lists of `n` threads.
unfoldable pub oldest_epoche : (ℕ → DeletionList) → ℕ → ℕ
oldest_epoche lists zero = no_epoche
oldest_epoche lists (suc n) =
    let oldest = oldest_epoche lists n in
    let e = (lists n).local_epoche in if ltb e oldest then e else oldest

-- `Epoche`, with the number of threads that have a list
pub record Epoche : Type 0 where
  pub current_epoche : ℕ
  pub deletion_lists : ℕ → DeletionList
  pub threads : ℕ
  pub start_gc_threshold : ℕ

abbrev pub set_list : Epoche → ℕ → DeletionList → Epoche
set_list s i d = record s { deletion_lists = update s.deletion_lists i d }

-- `enterEpoche`: the load of the epoch, and the store of what was loaded
abbrev pub store_epoche : ℕ → DeletionList → DeletionList
store_epoche e d = record d { local_epoche = e }

unfoldable pub enter_epoche : ℕ → Epoche → Epoche
enter_epoche i s = set_list s i (store_epoche s.current_epoche (s.deletion_lists i))

-- `markNodeForDeletion`, with the epoch that it loads
unfoldable pub mark : ℕ → ℕ → DeletionList → DeletionList
mark callback e d =
    let d' = add callback e d in record d' { threshold_counter = u64 (d'.threshold_counter + 1) }

unfoldable pub mark_node_for_deletion : ℕ → ℕ → Epoche → Epoche
mark_node_for_deletion i callback s =
    set_list s i (mark callback s.current_epoche (s.deletion_lists i))

-- `if ((thresholdCounter & (64 - 1)) == 1) currentEpoche++`
unfoldable pub advance_epoche : ℕ → ℕ → ℕ
advance_epoche counter current = if bit_and counter 63 == 1 then u64 (current + 1) else current

-- The end of `exitEpocheAndCleanup`: the sweep with the oldest epoch.
unfoldable pub collect : ℕ → DeletionList → DeletionList × List ℕ
collect oldest d =
    let (kept, d', called) = sweep oldest d.head d in
    (record d' { head = kept; threshold_counter = 0 }, called)

-- `exitEpocheAndCleanup`, and the callbacks that it calls
unfoldable pub exit_epoche_and_cleanup : ℕ → Epoche → Epoche × List ℕ
exit_epoche_and_cleanup i s =
    let d = s.deletion_lists i in
    let s' = record s { current_epoche = advance_epoche d.threshold_counter s.current_epoche } in
    if ltb s.start_gc_threshold d.threshold_counter
    then if size d == 0
      then (set_list s' i (record d { threshold_counter = 0 }), [])
      else (let s'' = set_list s' i (store_epoche no_epoche d) in
          let (d', called) =
            collect (oldest_epoche s''.deletion_lists s.threads) (s''.deletion_lists i) in
          (set_list s'' i d', called))
    else (s', [])

-- The loop of `~Epoche` over the labels of one list: all are called and retired. Its `assert` is
-- left to the caller.
unfoldable pub drain : List Label → DeletionList → DeletionList × List ℕ
drain [] d = (d, [])
drain (l ∷ ls) d = let (d', called) = drain ls (retire l d) in (d', l.nodes ++ called)
