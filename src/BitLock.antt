-- ===== src/BitLock.antt =====
-- src/turbo/turbo_hash.h: turbo_bit_spin_lock, turbo_bit_spin_try_lock, turbo_bit_spin_unlock and
-- turbo_lockbusy on a shared word of 32 bits, as interleavings of the threads' loads, stores and
-- compare-and-swaps. Thread `i` takes the bit `pos i`. A thread that has the lock may write the
-- other bits of the word, as `BucketMeta::Reset` does.
pub mod Word
pub mod Mutex
pub mod TwoBits
use turbo_hash.Common.{
  ℕ, ◌-◌, ◌^◌, ◌<◌, ◌≡◌, ◌≢◌, Bool, true, false, ◌==◌, bit_and, bit_or, if◌then◌else◌,
}
use turbo_hash.Common.Bits.{bit_not}
use turbo_hash.Cell.{update}

-- `turbo_lockbusy`, and the test of both lock functions
unfoldable pub lock_busy : ℕ → ℕ → Bool
lock_busy v p = if bit_and v (2 ^ p) == 0 then false else true

-- `old_value | (1 << bit_pos)`
unfoldable pub set_lock : ℕ → ℕ → ℕ
set_lock v p = bit_or v (2 ^ p)

-- `v &= ~(1 << bit_pos)`
unfoldable pub clear_lock : ℕ → ℕ → ℕ
clear_lock v p = bit_and v (bit_not 32 (2 ^ p))

-- Where a thread stands, with the value that it has loaded.
pub data Pc : Type 0 where
  idle : Pc
  spinning : Pc
  loaded : (v : ℕ) → Pc
  try_loaded : (v : ℕ) → Pc
  holding : Pc
  releasing : (v : ℕ) → Pc

pub record System : Type 0 where
  pub word : ℕ
  pub pc : ℕ → Pc

abbrev pub move : System → ℕ → Pc → System
move s i p = record s { pc = update s.pc i p }

pub data Step (pos : ℕ → ℕ) (s : System) : System → Type 0 where
  -- `turbo_bit_spin_lock`: the call, the load that finds the bit set, the one that finds it free,
  -- and the compare-and-swap
  call_lock : (i : ℕ) → s.pc i ≡ idle → Step pos s (move s i spinning)
  load_busy :
      (i : ℕ) → s.pc i ≡ spinning → lock_busy s.word (pos i) ≡ true → Step pos s (move s i spinning)
  load_free :
      (i : ℕ)
      → s.pc i ≡ spinning
      → lock_busy s.word (pos i) ≡ false
      → Step pos s (move s i (loaded s.word))
  cas_done :
      (i v : ℕ)
      → s.pc i ≡ loaded v
      → s.word ≡ v
      → Step pos s (record (move s i holding) { word = set_lock v (pos i) })
  cas_lost : (i v : ℕ) → s.pc i ≡ loaded v → s.word ≢ v → Step pos s (move s i spinning)
  -- `turbo_bit_spin_try_lock`: `false` leaves the thread idle
  try_busy : (i : ℕ) → s.pc i ≡ idle → lock_busy s.word (pos i) ≡ true → Step pos s (move s i idle)
  try_free :
      (i : ℕ)
      → s.pc i ≡ idle
      → lock_busy s.word (pos i) ≡ false
      → Step pos s (move s i (try_loaded s.word))
  try_done :
      (i v : ℕ)
      → s.pc i ≡ try_loaded v
      → s.word ≡ v
      → Step pos s (record (move s i holding) { word = set_lock v (pos i) })
  try_lost : (i v : ℕ) → s.pc i ≡ try_loaded v → s.word ≢ v → Step pos s (move s i idle)
  -- the owner writes the word and leaves its own bit set
  write :
      (i w : ℕ)
      → s.pc i ≡ holding
      → w < 2 ^ 32
      → lock_busy w (pos i) ≡ true
      → Step pos s (record s { word = w })
  -- `turbo_bit_spin_unlock`: the load, and the store
  unlock_load : (i : ℕ) → s.pc i ≡ holding → Step pos s (move s i (releasing s.word))
  unlock_store :
      (i v : ℕ)
      → s.pc i ≡ releasing v
      → Step pos s (record (move s i idle) { word = clear_lock v (pos i) })

-- No thread has called, and no bit is set.
abbrev pub init : System
init = record { word = 0; pc = λ i. idle }

pub data Reach (pos : ℕ → ℕ) : System → Type 0 where
  start : Reach pos init
  later : {s t : System} → Reach pos s → Step pos s t → Reach pos t
