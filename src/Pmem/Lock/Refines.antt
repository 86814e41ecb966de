-- ===== src/Pmem/Lock/Refines.antt =====
-- The test-and-set locks refine the compare-and-swap locks: they reach no state that those do not.
use turbo_hash.Common.{
  ℕ, ◌^◌, ◌<◌, ◌≡◌, refl, sym, ap, true, false, ◌==◌, ◌⊎◌, arith, Bool-cases, inl, inr,
}
use mathlib.Core.Path.{fun_ext, subst}
use turbo_hash.Common.Bits.{test_bit_ext}
use turbo_hash.Cell.{update}
use turbo_hash.BitLock
use turbo_hash.BitLock.{Pc, System, lock_busy, set_lock, clear_lock, move}
use turbo_hash.BitLock.Word.{lock_busy-bit, test_bit-set_lock, set_lock-lt}
use turbo_hash.BitLock.Mutex.{Excludes, spin_lock-Excludes, Reach-Inv}
use turbo_hash.Pmem.Lock.{
  Place, idle, testing, waiting, holding, releasing, State, Step, call_lock, set_failed, set_done,
  wait_busy, wait_done, try_failed, try_done, write, unlock_load, unlock_store, Reach, start, later,
  go, bit_test_and_set,
}

-- Where the thread stands in the other lock.
abbrev pub seen_as : Place → Pc
seen_as idle = Pc.idle
seen_as testing = Pc.spinning
seen_as waiting = Pc.spinning
seen_as holding = Pc.holding
seen_as (releasing v) = Pc.releasing v

abbrev pub abstract : State → System
abstract s = record { word = s.word; pc = λ i. seen_as (s.at i) }

seen_as-update :
    (f : ℕ → Place) (i : ℕ) (q : Place)
    → ◌≡◌ {A = ℕ → Pc} (λ j. seen_as (update f i q j)) (update (λ j. seen_as (f j)) i (seen_as q))
seen_as-update f i q = fun_ext (λ j. ground arith)

update_same : (f : ℕ → Pc) (i : ℕ) (q : Pc) → f i ≡ q → update f i q ≡ f
update_same f i q e = fun_ext (λ j. same_at j (Bool-cases (i == j)))
  where
    same_at : (j : ℕ) → ((i == j) ≡ true) ⊎ ((i == j) ≡ false) → update f i q j ≡ f j
    same_at j (inl h) = let here : i ≡ j = ground arith in rw h (rw here at (sym e))
    same_at j (inr h) = rw h refl

update_again : (f : ℕ → Pc) (i : ℕ) (q r : Pc) → update (update f i q) i r ≡ update f i r
update_again f i q r = fun_ext (λ j. ground arith)

-- A set bit that is set again.
set_lock-busy : (w p : ℕ) → w < 2 ^ 32 → p < 32 → lock_busy w p ≡ true → set_lock w p ≡ w
set_lock-busy w p fits small busy =
    test_bit_ext 32 (set_lock w p) w (set_lock-lt w p fits small) fits (λ i.
      elim (Bool-cases (p == i)) [
        | inl e ↦
            let here : p ≡ i = ground arith in
            ground (
              arith,
              test_bit-set_lock w p i,
              rw here at (lock_busy-bit w p small),
              rw here at busy,
            )
        | inr e ↦ ground (arith, test_bit-set_lock w p i)
      ])

module _ (p : ℕ) (small : p < 32) where
  abbrev Reaches : ℕ → (ℕ → Pc) → Type 0
  Reaches w pc = BitLock.Reach (λ i. p) (record { word = w; pc = pc })

  module _ (s : State) (reach : BitLock.Reach (λ i. p) (abstract s)) (i : ℕ) where
    abbrev places : ℕ → Pc
    places j = seen_as (s.at j)

    moved :
        (w : ℕ) (q : Place)
        → Reaches w (update places i (seen_as q))
        → BitLock.Reach (λ i. p) (abstract (record (go s i q) { word = w }))
    moved w q r = subst (Reaches w) (sym (seen_as-update s.at i q)) r

    -- Nothing happens in the other lock.
    stutter :
        (q : Place) → seen_as (s.at i) ≡ seen_as q → BitLock.Reach (λ i. p) (abstract (go s i q))
    stutter q e = moved s.word q (rw (update_same places i (seen_as q) e) reach)

    -- A set bit is set again.
    again :
        (q : Place)
        → lock_busy s.word p ≡ true
        → BitLock.Reach (λ i. p) (abstract (go s i q))
        → BitLock.Reach (λ i. p) (abstract (record (go s i q) { word = set_lock s.word p }))
    again q busy r = rw (set_lock-busy s.word p (Reach-Inv small reach).fits small busy) r

    -- Two steps of the other lock, a load and a compare-and-swap.
    taken :
        (v : Pc)
        → Reaches (set_lock s.word p) (update (update places i v) i Pc.holding)
        → BitLock.Reach (λ i. p) (abstract (record (go s i holding) { word = set_lock s.word p }))
    taken v r = moved (set_lock s.word p) holding (rw (update_again places i v Pc.holding) at r)

  Step-Reach :
      {s t : State}
      → Step p s t
      → BitLock.Reach (λ i. p) (abstract s)
      → BitLock.Reach (λ i. p) (abstract t)
  unfolding bit_test_and_set
  Step-Reach {s} (call_lock i at) r =
      moved s r i s.word testing (BitLock.later r (BitLock.Step.call_lock i (ap seen_as at)))
  Step-Reach {s} (set_failed i at busy) r =
      again s r i waiting busy (stutter s r i waiting (ap seen_as at))
  Step-Reach {s} (set_done i at free) r = taken s r i (Pc.loaded s.word) (
      BitLock.later (BitLock.later r (BitLock.Step.load_free i (ap seen_as at) free))
        (BitLock.Step.cas_done i s.word (ground arith) refl))
  Step-Reach {s} (wait_busy i at busy) r = stutter s r i waiting (ap seen_as at)
  Step-Reach {s} (wait_done i at free) r = stutter s r i testing (ap seen_as at)
  Step-Reach {s} (try_failed i at busy) r =
      again s r i idle busy (stutter s r i idle (ap seen_as at))
  Step-Reach {s} (try_done i at free) r = taken s r i (Pc.try_loaded s.word) (
      BitLock.later (BitLock.later r (BitLock.Step.try_free i (ap seen_as at) free))
        (BitLock.Step.try_done i s.word (ground arith) refl))
  Step-Reach {s} (write i w at lt busy) r =
      BitLock.later r (BitLock.Step.write i w (ap seen_as at) lt busy)
  Step-Reach {s} (unlock_load i at) r =
      moved s r i s.word (releasing s.word)
        (BitLock.later r (BitLock.Step.unlock_load i (ap seen_as at)))
  Step-Reach {s} (unlock_store i v at) r =
      moved s r i (clear_lock v p) idle
        (BitLock.later r (BitLock.Step.unlock_store i v (ap seen_as at)))

-- For a bit below 32, every state that threads reach with the test-and-set locks is, with a thread
-- that waits seen as one that spins, a state that they reach with the compare-and-swap locks; so at
-- most one thread owns the lock, and the bit is set exactly if a thread owns it.
pub Reach-abstract :
    {p : ℕ} {s : State}
    → p < 32
    → Reach p s
    → BitLock.Reach (λ i. p) (abstract s) × Excludes p (abstract s)
Reach-abstract {p} small reach = let r = simulated reach in (r, spin_lock-Excludes small r)
  where
    simulated : {s : State} → Reach p s → BitLock.Reach (λ i. p) (abstract s)
    simulated start = BitLock.start
    simulated (later r st) = Step-Reach p small st (simulated r)
