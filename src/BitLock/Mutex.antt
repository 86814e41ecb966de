-- ===== src/BitLock/Mutex.antt =====
-- Threads that all take the same bit of the word exclude one another.
use turbo_hash.Common.{
  ◌↔◌, ℕ, ◌^◌, ◌<◌, ◌≡◌, refl, Bool, true, false, inl, inr, ◌==◌, arith, Bool-cases,
}
use turbo_hash.Common.Bits.{test_bit}
use turbo_hash.BitLock.{
  Pc, idle, spinning, loaded, try_loaded, holding, releasing, System, Step, call_lock, load_busy,
  load_free, cas_done, cas_lost, try_busy, try_free, try_done, try_lost, write, unlock_load,
  unlock_store, init, Reach, start, later, lock_busy, set_lock, clear_lock, move,
}
use turbo_hash.BitLock.Word.{
  lock_busy-bit, test_bit-set_lock, test_bit-clear_lock, zero_bit, set_lock-lt, clear_lock-lt,
}

-- The thread has the lock, up to the store that gives it back.
abbrev pub owns : Pc → Bool
owns holding = true
owns (releasing v) = true
owns _ = false

-- The value that a thread has loaded and compares the word with.
abbrev pub Expects : Pc → ℕ → Type 0
Expects (loaded v) w = v ≡ w
Expects (try_loaded v) w = v ≡ w
Expects _ w = ⊥

pub record Inv (p : ℕ) (s : System) : Type 0 where
  pub fits : s.word < 2 ^ 32
  pub unique : (i j : ℕ) → owns (s.pc i) ≡ true → owns (s.pc j) ≡ true → i ≡ j
  pub locked : (i : ℕ) → owns (s.pc i) ≡ true → test_bit s.word p ≡ true
  pub held : test_bit s.word p ≡ true → (i : ℕ) × (owns (s.pc i) ≡ true)
  pub seen : (i v : ℕ) → Expects (s.pc i) v → test_bit v p ≡ false
  pub kept : (i v : ℕ) → s.pc i ≡ releasing v → s.word ≡ v

module _ {p : ℕ} {s : System} (small : p < 32) (inv : Inv p s) (i : ℕ) where
  open inv use {fits, unique, locked, held, seen, kept}

  -- A thread that does not own the lock goes on without it.
  pass-Inv :
      (q : Pc)
      → owns (s.pc i) ≡ false
      → owns q ≡ false
      → ((v : ℕ) → Expects q v → test_bit v p ≡ false)
      → Inv p (move s i q)
  pass-Inv q before after sees = record {
    fits = fits;
    unique = λ j k h h'. ground (arith, unique j k);
    locked = λ j h. ground (arith, locked j);
    held = λ h. let (j, own) = held h in (j, ground arith);
    seen = λ j v h. elim (Bool-cases (i == j)) [
      | inl e ↦ sees v (rw e at h)
      | inr e ↦ seen j v (rw e at h)
    ];
    kept = λ j v h. elim (Bool-cases (i == j)) [
      | inl e ↦ let h' : q ≡ releasing v = rw e at h in ground (arith, h', after)
      | inr e ↦ kept j v (rw e at h)
    ];
  }

  -- Nobody owns the lock while the bit is clear.
  nobody : test_bit s.word p ≡ false → (j : ℕ) → owns (s.pc j) ≡ false
  nobody free j = ground (arith, locked j, Bool-cases (owns (s.pc j)))

  acquire-Inv :
      (v : ℕ)
      → s.word ≡ v
      → test_bit v p ≡ false
      → Inv p (record (move s i holding) { word = set_lock v p })
  acquire-Inv v same free =
      let none = nobody (rw same free) in
      record {
        fits = set_lock-lt v p (ground (arith, fits)) small;
        unique = λ j k h h'. ground (arith, none j, none k);
        locked = λ j h. ground (arith, test_bit-set_lock v p p);
        held = λ h. (i, ground arith);
        seen = λ j v' h. elim (Bool-cases (i == j)) [
          | inl e ↦ absurd (rw e at h)
          | inr e ↦ seen j v' (rw e at h)
        ];
        kept = λ j v' h. elim (Bool-cases (i == j)) [
          | inl e ↦ let h' : holding ≡ releasing v' = rw e at h in absurd (ground (arith, h'))
          | inr e ↦
              let h' : s.pc j ≡ releasing v' = rw e at h in absurd (ground (arith, none j, h'))
        ];
      }

  write-Inv :
      (w : ℕ) → s.pc i ≡ holding → w < 2 ^ 32 → test_bit w p ≡ true → Inv p (record s { word = w })
  write-Inv w at lt set = record {
    fits = lt;
    unique = unique;
    locked = λ j h. set;
    held = λ h. (i, ground arith);
    seen = seen;
    kept = λ j v h. absurd (ground (arith, h, at, unique i j));
  }

  unlock_load-Inv : s.pc i ≡ holding → Inv p (move s i (releasing s.word))
  unlock_load-Inv at = record {
    fits = fits;
    unique = λ j k h h'. ground (arith, unique j k, at);
    locked = λ j h. ground (arith, locked j, at);
    held = λ h. (i, ground arith);
    seen = λ j v h. elim (Bool-cases (i == j)) [
      | inl e ↦ absurd (rw e at h)
      | inr e ↦ seen j v (rw e at h)
    ];
    kept = λ j v h. elim (Bool-cases (i == j)) [
      | inl e ↦ let h' : releasing s.word ≡ releasing v = rw e at h in ground (arith, h')
      | inr e ↦ kept j v (rw e at h)
    ];
  }

  unlock_store-Inv :
      (v : ℕ) → s.pc i ≡ releasing v → Inv p (record (move s i idle) { word = clear_lock v p })
  unlock_store-Inv v at = record {
    fits = clear_lock-lt v p;
    unique = λ j k h h'. ground (arith, unique j k);
    locked = λ j h. ground (arith, unique i j, at);
    held = λ h. absurd (ground (arith, test_bit-clear_lock v p p small small, h));
    seen = λ j v' h. elim (Bool-cases (i == j)) [
      | inl e ↦ absurd (rw e at h)
      | inr e ↦ seen j v' (rw e at h)
    ];
    kept = λ j v' h. elim (Bool-cases (i == j)) [
      | inl e ↦ let h' : idle ≡ releasing v' = rw e at h in absurd (ground (arith, h'))
      | inr e ↦
          let h' : s.pc j ≡ releasing v' = rw e at h in absurd (ground (arith, unique i j, at, h'))
    ];
  }

Inv-init : (p : ℕ) → Inv p init
Inv-init p = record {
  fits = omega arith;
  unique = λ i j h. absurd (ground (arith, h));
  locked = λ i h. absurd (ground (arith, h));
  held = λ h. absurd (ground (arith, h, zero_bit p));
  seen = λ i v h. absurd h;
  kept = λ i v h. absurd (ground (arith, h));
}

clear_bit : (v p : ℕ) → p < 32 → lock_busy v p ≡ false → test_bit v p ≡ false
clear_bit v p small h = ground (arith, lock_busy-bit v p small)

Step-Inv : {p : ℕ} {s t : System} → p < 32 → Step (λ i. p) s t → Inv p s → Inv p t
Step-Inv small (call_lock i at) inv =
    pass-Inv small inv i spinning (ground arith) refl (λ v h. absurd h)
Step-Inv small (load_busy i at busy) inv =
    pass-Inv small inv i spinning (ground arith) refl (λ v h. absurd h)
Step-Inv {p} {s} small (load_free i at free) inv =
    pass-Inv small inv i (loaded s.word) (ground arith) refl
      (λ v h. rw (← h) (clear_bit s.word p small free))
Step-Inv small (cas_done i v at same) inv =
    acquire-Inv small inv i v same (inv.seen i v (rw at refl))
Step-Inv small (cas_lost i v at other) inv =
    pass-Inv small inv i spinning (ground arith) refl (λ v h. absurd h)
Step-Inv small (try_busy i at busy) inv =
    pass-Inv small inv i idle (ground arith) refl (λ v h. absurd h)
Step-Inv {p} {s} small (try_free i at free) inv =
    pass-Inv small inv i (try_loaded s.word) (ground arith) refl
      (λ v h. rw (← h) (clear_bit s.word p small free))
Step-Inv small (try_done i v at same) inv =
    acquire-Inv small inv i v same (inv.seen i v (rw at refl))
Step-Inv small (try_lost i v at other) inv =
    pass-Inv small inv i idle (ground arith) refl (λ v h. absurd h)
Step-Inv {p} small (write i w at lt busy) inv =
    write-Inv small inv i w at lt (ground (arith, lock_busy-bit w p small))
Step-Inv small (unlock_load i at) inv = unlock_load-Inv small inv i at
Step-Inv small (unlock_store i v at) inv = unlock_store-Inv small inv i v at

pub Reach-Inv : {p : ℕ} {s : System} → p < 32 → Reach (λ i. p) s → Inv p s
Reach-Inv {p} small start = Inv-init p
Reach-Inv small (later r st) = Step-Inv small st (Reach-Inv small r)

-- What holds of a lock word in every state that the threads reach.
pub record Excludes (p : ℕ) (s : System) : Type 0 where
  pub unique : (i j : ℕ) → owns (s.pc i) ≡ true → owns (s.pc j) ≡ true → i ≡ j
  pub busy_iff : (lock_busy s.word p ≡ true) ↔ ((i : ℕ) × (owns (s.pc i) ≡ true))
  pub kept : (i v : ℕ) → s.pc i ≡ releasing v → s.word ≡ v

-- When all threads use the same bit of the word, below 32, with `turbo_bit_spin_lock`,
-- `turbo_bit_spin_try_lock` and `turbo_bit_spin_unlock`, and only the owner writes the other bits,
-- then in every state that they reach at most one thread owns the lock, the bit is set exactly if
-- a thread owns it, and the word is unchanged between the load and the store of an unlock, so that
-- no write is lost.
pub spin_lock-Excludes : {p : ℕ} {s : System} → p < 32 → Reach (λ i. p) s → Excludes p s
spin_lock-Excludes {p} {s} small reach =
    let inv = Reach-Inv small reach in
    record {
      unique = inv.unique;
      busy_iff = (
        λ h. inv.held (ground (arith, lock_busy-bit s.word p small)),
        λ (i, h). ground (arith, lock_busy-bit s.word p small, inv.locked i h),
      );
      kept = inv.kept;
    }
