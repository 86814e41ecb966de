-- ===== src/Pmem/Lock.antt =====
-- src/turbo/turbo_hash_pmem.h: the bit locks of the persistent table, which take a bit with one
-- atomic test-and-set (AtomicBitOps) and give it back with a load and a store.
pub mod Refines
use turbo_hash.Common.{ℕ, ◌+◌, ◌^◌, ◌<◌, ◌≡◌, Bool, true, false, ◌==◌, if◌then◌else◌}
use turbo_hash.Cell.{update}
use turbo_hash.BitLock.{lock_busy, set_lock, clear_lock}

-- `BitTestAndSet`: the previous value of the bit, and the word after it
unfoldable pub bit_test_and_set : ℕ → ℕ → Bool × ℕ
bit_test_and_set w bit = (lock_busy w bit, set_lock w bit)

-- `BitTestAndReset`
unfoldable pub bit_test_and_reset : ℕ → ℕ → Bool × ℕ
bit_test_and_reset w bit = (lock_busy w bit, clear_lock w bit)

-- Where a thread stands.
pub data Place : Type 0 where
  idle : Place
  testing : Place
  waiting : Place
  holding : Place
  releasing : (v : ℕ) → Place

pub record State : Type 0 where
  pub word : ℕ
  pub at : ℕ → Place

abbrev pub go : State → ℕ → Place → State
go s i q = record s { at = update s.at i q }

-- The threads lock the bit `p`.
pub data Step (p : ℕ) (s : State) : State → Type 0 where
  -- `turbo_bit_spin_lock`: the call, the test-and-set, and the loop on `turbo_lockbusy`
  call_lock : (i : ℕ) → s.at i ≡ idle → Step p s (go s i testing)
  set_failed :
      (i : ℕ)
      → s.at i ≡ testing
      → (bit_test_and_set s.word p).0 ≡ true
      → Step p s (record (go s i waiting) { word = (bit_test_and_set s.word p).1 })
  set_done :
      (i : ℕ)
      → s.at i ≡ testing
      → (bit_test_and_set s.word p).0 ≡ false
      → Step p s (record (go s i holding) { word = (bit_test_and_set s.word p).1 })
  wait_busy : (i : ℕ) → s.at i ≡ waiting → lock_busy s.word p ≡ true → Step p s (go s i waiting)
  wait_done : (i : ℕ) → s.at i ≡ waiting → lock_busy s.word p ≡ false → Step p s (go s i testing)
  -- `turbo_bit_spin_try_lock`
  try_failed :
      (i : ℕ)
      → s.at i ≡ idle
      → (bit_test_and_set s.word p).0 ≡ true
      → Step p s (record (go s i idle) { word = (bit_test_and_set s.word p).1 })
  try_done :
      (i : ℕ)
      → s.at i ≡ idle
      → (bit_test_and_set s.word p).0 ≡ false
      → Step p s (record (go s i holding) { word = (bit_test_and_set s.word p).1 })
  -- the owner writes the word and leaves the bit set
  write :
      (i w : ℕ)
      → s.at i ≡ holding
      → w < 2 ^ 32
      → lock_busy w p ≡ true
      → Step p s (record s { word = w })
  -- `turbo_bit_spin_unlock`: the load, and the store
  unlock_load : (i : ℕ) → s.at i ≡ holding → Step p s (go s i (releasing s.word))
  unlock_store :
      (i v : ℕ) → s.at i ≡ releasing v → Step p s (record (go s i idle) { word = clear_lock v p })

abbrev pub init : State
init = record { word = 0; at = λ i. idle }

pub data Reach (p : ℕ) : State → Type 0 where
  start : Reach p init
  later : {s t : State} → Reach p s → Step p s t → Reach p t
