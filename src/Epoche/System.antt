-- ===== src/Epoche/System.antt =====
-- The threads of a table with its epochs, one shared access at a time. A thread enters (a load and
-- a store of the epoch), reads records that are linked in the table, unlinks records, marks them
-- for deletion, and leaves: with `EpocheGuardReadonly` at once, with `EpocheGuard` through
-- `exitEpocheAndCleanup`, whose loop over the lists is a step for each list.
--
-- The store of `enterEpoche` is a release store, with no fence after it: it goes into the store
-- buffer of its thread, as on x86, and becomes visible to other threads by a later step, in the
-- order of the stores. A store of the default order (seq_cst), and `currentEpoche++`, wait for the
-- buffer. `unlink` is the moment at which the store that unlinks a record becomes visible.
use turbo_hash.Common.{
  ℕ, suc, ◌+◌, ◌<◌, ◌≡◌, ◌≢◌, Bool, true, false, ◌||◌, ◌⊎◌, List, [], ◌∷◌, ◌++◌, ltb, In,
  if◌then◌else◌,
}
use turbo_hash.Cell.{update}
use turbo_hash.Epoche.{DeletionList, mark, collect, advance_epoche, store_epoche, no_epoche, size}

pub data Pc : Type 0 where
  out : Pc
  loaded : (e : ℕ) → Pc
  inside : Pc
  -- in `exitEpocheAndCleanup`, behind its first `if`
  leaving : Pc
  scanning : (k oldest : ℕ) → Pc

-- `buffer` has the epochs that a thread has stored and that are not visible, the first one first.
-- Four notes are kept besides: `marked`, the records that were marked, `hasty`, those of them that
-- were linked then, `late`, those that a thread took when they were already marked, and `unseen`,
-- those that it took while its epoch was not visible.
pub record System : Type 0 where
  pub current : ℕ
  pub lists : ℕ → DeletionList
  pub pc : ℕ → Pc
  pub buffer : ℕ → List ℕ
  pub linked : ℕ → Bool
  pub holds : ℕ → ℕ → Bool
  pub freed : ℕ → Bool
  pub marked : ℕ → Bool
  pub hasty : ℕ → Bool
  pub late : ℕ → ℕ → Bool
  pub unseen : ℕ → ℕ → Bool

abbrev pub no_record : ℕ → Bool
no_record r = false

-- `if (e < oldestEpoche) oldestEpoche = e`
abbrev pub older : ℕ → ℕ → ℕ
older e oldest = if ltb e oldest then e else oldest

abbrev pub pending : List ℕ → Bool
pending [] = false
pending (e ∷ es) = true

abbrev pub set_pc : System → ℕ → Pc → System
set_pc s i p = record s { pc = update s.pc i p }

abbrev pub set_lists : System → ℕ → DeletionList → System
set_lists s i d = record s { lists = update s.lists i d }

abbrev pub set_buffer : System → ℕ → List ℕ → System
set_buffer s i es = record s { buffer = update s.buffer i es }

-- The thread lets go of its records.
abbrev pub let_go : System → ℕ → System
let_go s i = record s { holds = update s.holds i no_record }

-- A step of `n` threads. The epoch is assumed not to reach the largest number of 64 bits.
pub data Step (n threshold : ℕ) (s : System) : System → Type 0 where
  load_epoche : (i : ℕ) → i < n → s.pc i ≡ out → Step n threshold s (set_pc s i (loaded s.current))
  save_epoche :
      (i e : ℕ)
      → i < n
      → s.pc i ≡ loaded e
      → Step n threshold s (set_buffer (set_pc s i inside) i (s.buffer i ++ (e ∷ [])))
  -- A store becomes visible.
  drain_store :
      (i e : ℕ) (es : List ℕ)
      → i < n
      → s.buffer i ≡ e ∷ es
      → Step n threshold s (set_buffer (set_lists s i (store_epoche e (s.lists i))) i es)
  acquire :
      (i r : ℕ)
      → i < n
      → s.pc i ≡ inside
      → s.linked r ≡ true
      → Step n threshold s (record s {
        holds = update s.holds i (update (s.holds i) r true);
        late = update s.late i (update (s.late i) r (s.marked r));
        unseen = update s.unseen i (update (s.unseen i) r (pending (s.buffer i)));
      })
  unlink :
      (i r : ℕ)
      → i < n
      → s.pc i ≡ inside
      → Step n threshold s (record s { linked = update s.linked r false })
  mark_node :
      (i r : ℕ)
      → i < n
      → s.pc i ≡ inside
      → Step n threshold s (record (set_lists s i (mark r s.current (s.lists i))) {
        marked = update s.marked r true;
        hasty = update s.hasty r (s.hasty r || s.linked r);
      })
  leave_readonly :
      (i : ℕ) → i < n → s.pc i ≡ inside → Step n threshold s (let_go (set_pc s i out) i)
  -- `currentEpoche++`, if the counter says so
  advance :
      (i : ℕ)
      → i < n
      → s.pc i ≡ inside
      → s.current + 1 < no_epoche
      → (advance_epoche (s.lists i).threshold_counter s.current ≡ s.current) ⊎ (s.buffer i ≡ [])
      → Step n threshold s (record (let_go (set_pc s i leaving) i) {
        current = advance_epoche (s.lists i).threshold_counter s.current;
      })
  leave :
      (i : ℕ)
      → i < n
      → s.pc i ≡ leaving
      → ltb threshold (s.lists i).threshold_counter ≡ false
      → Step n threshold s (set_pc s i out)
  leave_empty :
      (i : ℕ)
      → i < n
      → s.pc i ≡ leaving
      → ltb threshold (s.lists i).threshold_counter ≡ true
      → size (s.lists i) ≡ 0
      → Step n threshold s
          (set_lists (set_pc s i out) i (record (s.lists i) { threshold_counter = 0 }))
  -- `deletionList.localEpoche.store (max)`
  start_scan :
      (i : ℕ)
      → i < n
      → s.pc i ≡ leaving
      → ltb threshold (s.lists i).threshold_counter ≡ true
      → size (s.lists i) ≢ 0
      → s.buffer i ≡ []
      → Step n threshold s
          (set_lists (set_pc s i (scanning 0 no_epoche)) i (store_epoche no_epoche (s.lists i)))
  scan :
      (i k oldest : ℕ)
      → i < n
      → s.pc i ≡ scanning k oldest
      → k < n
      → Step n threshold s (set_pc s i (scanning (suc k) (older (s.lists k).local_epoche oldest)))
  free_nodes :
      (i oldest : ℕ) (freed' : ℕ → Bool)
      → i < n
      → s.pc i ≡ scanning n oldest
      → ((r : ℕ) → freed' r ≡ true → (s.freed r ≡ true) ⊎ In r (collect oldest (s.lists i)).1)
      → ((r : ℕ) → (s.freed r ≡ true) ⊎ In r (collect oldest (s.lists i)).1 → freed' r ≡ true)
      → Step n threshold s
          (record (set_lists (set_pc s i out) i (collect oldest (s.lists i)).0) { freed = freed' })
  -- `~ThreadInfo`
  destroy :
      (i : ℕ)
      → i < n
      → s.pc i ≡ out
      → s.buffer i ≡ []
      → Step n threshold s (set_lists s i (store_epoche no_epoche (s.lists i)))

-- No thread has entered, and the table has the records `linked`.
abbrev pub init : (ℕ → Bool) → System
init linked = record {
  current = 0;
  lists = λ i. record {
    head = [];
    free_labels = [];
    deletion_list_count = 0;
    local_epoche = 0;
    threshold_counter = 0;
    deleted = 0;
    added = 0;
  };
  pc = λ i. out;
  buffer = λ i. [];
  linked = linked;
  holds = λ i r. false;
  freed = λ r. false;
  marked = λ r. false;
  hasty = λ r. false;
  late = λ i r. false;
  unseen = λ i r. false;
}

pub data Reach (n threshold : ℕ) (linked : ℕ → Bool) : System → Type 0 where
  start : Reach n threshold linked (init linked)
  later :
      {s t : System}
      → Reach n threshold linked s
      → Step n threshold s t
      → Reach n threshold linked t
