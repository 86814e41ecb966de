-- ===== src/Pmem/Line.antt =====
-- Memory that survives a crash, for src/turbo/turbo_hash_pmem.h: the words and bytes of a cell and of
-- the records, each in a cache line, and stores that reach the memory line by line.
--
-- A store is seen at once. A line may be written back at any time, and then has the stores to it so
-- far, in their order; `FLUSH (a)` of some addresses and a `FLUSHFENCE` write their lines back for
-- certain. So a crash leaves of each line what some number of the stores made of it, at least those
-- before its last flush.
pub mod Cut
pub mod Commit
use turbo_hash.Common.{
  ℕ, zero, suc, ◌≤◌, ◌≡◌, Bool, true, false, ◌&&◌, ◌||◌, List, [], ◌∷◌, take, ◌==◌, if◌then◌else◌,
}

-- The version word, the tag, H1 and entry of a slot, and a byte of the memory for records.
pub data Place : Type 0 where
  word : Place
  tag : ℕ → Place
  h1 : ℕ → Place
  entry : ℕ → Place
  byte : ℕ → Place

abbrev kind : Place → ℕ
kind word = 0
kind (tag i) = 1
kind (h1 i) = 2
kind (entry i) = 3
kind (byte a) = 4

abbrev index : Place → ℕ
index word = 0
index (tag i) = i
index (h1 i) = i
index (entry i) = i
index (byte a) = a

abbrev pub same : Place → Place → Bool
same p q = kind p == kind q && index p == index q

abbrev pub Memory : Type 0
Memory = Place → ℕ

pub data Event : Type 0 where
  store : Place → ℕ → Event
  -- the flushes of some lines, and the fence after them
  flush : List ℕ → Event

abbrev pub one_of : ℕ → List ℕ → Bool
one_of l [] = false
one_of l (x ∷ xs) = l == x || one_of l xs

abbrev pub apply : Memory → Event → Memory
apply m (store p v) q = if same p q then v else m q
apply m (flush ls) q = m q

-- What a load sees.
unfoldable pub run : Memory → List Event → Memory
run m [] = m
run m (e ∷ es) = run (apply m e) es

abbrev pub flushes : ℕ → Event → Bool
flushes l (store p v) = false
flushes l (flush ls) = one_of l ls

-- How many of the events a line has for certain, from event number `at` on, when it has `sure` so far.
unfoldable pub certain : ℕ → ℕ → ℕ → List Event → ℕ
certain l at sure [] = sure
certain l at sure (e ∷ es) = certain l (suc at) (if flushes l e then at else sure) es

module _ (line : Place → ℕ) where
  -- `StoreVersion (cell_addr, version); FLUSH (cell_addr); FLUSHFENCE`, for the version's word
  abbrev pub publish : ℕ → List Event
  publish w = store word w ∷ flush (line word ∷ []) ∷ []

  -- What a line can have after a crash.
  pub record LineSurvives (m : Memory) (es : List Event) (image : Memory) (l : ℕ) : Type 0 where
    pub cut : ℕ
    pub enough : certain l 0 0 es ≤ cut
    pub kept : (p : Place) → line p ≡ l → image p ≡ run m (take cut es) p

  -- A memory after a crash.
  abbrev pub Survives : Memory → List Event → Memory → Type 0
  Survives m es image = (l : ℕ) → LineSurvives m es image l
