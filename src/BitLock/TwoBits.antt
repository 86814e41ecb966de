-- ===== src/BitLock/TwoBits.antt =====
-- Two bits of one word are no two locks: the store of an unlock writes back the other bits as they
-- were at its load.
use turbo_hash.Common.{ℕ, ◌<◌, ◌≡◌, ◌≢◌, refl, false, ◌==◌, arith, if◌then◌else◌}
use turbo_hash.BitLock.{
  idle, spinning, loaded, holding, releasing, System, call_lock, load_free, cas_done, unlock_load,
  unlock_store, init, Reach, start, later, lock_busy, set_lock, clear_lock, move,
}
use turbo_hash.BitLock.Word.{lock_busy-bit, test_bit-set_lock, test_bit-clear_lock, zero_bit}

module _ (p q : ℕ) (small : p < 32) (small' : q < 32) (differ : p ≢ q) where
  -- Thread 0 takes bit `p`, and the others bit `q`.
  abbrev pub bits : ℕ → ℕ
  bits i = if i == 0 then p else q

  apart : (p == q) ≡ false
  apart = ground (arith, differ)

  -- An uncontended acquisition: the call, the load and the compare-and-swap.
  acquire :
      (s : System) (i : ℕ)
      → Reach bits s
      → s.pc i ≡ idle
      → lock_busy s.word (bits i) ≡ false
      → (t : System) × Reach bits t
        × (t.word ≡ set_lock s.word (bits i))
        × (t.pc i ≡ holding)
        × ((j : ℕ) → i ≢ j → t.pc j ≡ s.pc j)
  acquire s i reach at free =
      let s1 = move s i spinning in
      let s2 = move s1 i (loaded s.word) in
      let r1 : Reach bits s1 = later reach (call_lock i at) in
      let r2 : Reach bits s2 = later r1 (load_free i (ground arith) free) in
      (
        record (move s2 i holding) { word = set_lock s.word (bits i) },
        later r2 (cas_done i s.word (ground arith) refl),
        refl,
        ground arith,
        λ j other. ground (arith, other),
      )

  -- For two different bits p and q below 32, of which thread 0 takes p and the others take q, the
  -- threads reach a state in which threads 1 and 2 both have the lock of bit q.
  pub lost_bit : (s : System) × Reach bits s × (s.pc 1 ≡ holding) × (s.pc 2 ≡ holding)
  lost_bit =
      let (s1, r1, w1, h1, o1) =
        acquire init 0 start refl (ground (arith, lock_busy-bit 0 p small, zero_bit p)) in
      let s2 = move s1 0 (releasing s1.word) in
      let r2 : Reach bits s2 = later r1 (unlock_load 0 h1) in
      let (s3, r3, w3, h3, o3) = acquire s2 1 r2 (ground (arith, o1 1)) (
        ground (
          arith,
          w1,
          lock_busy-bit s1.word q small',
          test_bit-set_lock 0 p q,
          zero_bit q,
          apart,
        )) in
      let s4 : System = record (move s3 0 idle) { word = clear_lock s1.word p } in
      let r4 : Reach bits s4 = later r3 (unlock_store 0 s1.word (ground (arith, o3 0))) in
      let (s5, r5, w5, h5, o5) = acquire s4 2 r4 (ground (arith, o3 2, o1 2)) (
        ground (
          arith,
          w1,
          lock_busy-bit s4.word q small',
          test_bit-clear_lock s1.word p q small small',
          test_bit-set_lock 0 p q,
          zero_bit q,
          apart,
        )) in
      (s5, r5, ground (arith, o5 1, h3), h5)
