-- ===== src/Tests/Locks.antt =====
-- A thread that takes the bucket lock of a word, two bits of one word, and a word with its fields.
use turbo_hash.Common.{ℕ, ◌≡◌, ◌≢◌, refl, arith}
use turbo_hash.BitLock.{
  spinning, loaded, holding, System, move, call_lock, load_free, cas_done, lock_busy, set_lock,
  init, Reach, start, later,
}
use turbo_hash.BitLock.Mutex.{Excludes, spin_lock-Excludes}
use turbo_hash.BitLock.TwoBits.{bits, lost_bit}

abbrev called : System
called = move init 3 spinning

abbrev free_seen : System
free_seen = move called 3 (loaded 0)

abbrev locked : System
locked = record (move free_seen 3 holding) { word = set_lock 0 0 }

reach_locked : Reach (λ i. 0) locked
unfolding lock_busy
reach_locked =
    later (later (later start (call_lock 3 refl)) (load_free 3 refl refl)) (cas_done 3 0 refl refl)

spin_lock-Excludes_example : Excludes 0 locked
spin_lock-Excludes_example = spin_lock-Excludes (omega arith) reach_locked

zero_ne_one : ◌≢◌ {A = ℕ} 0 1
zero_ne_one e = omega arith

lost_bit_example :
    (s : System) × Reach (bits 0 1 (omega arith) (omega arith) zero_ne_one) s
    × (s.pc 1 ≡ holding)
    × (s.pc 2 ≡ holding)
lost_bit_example = lost_bit 0 1 (omega arith) (omega arith) zero_ne_one
