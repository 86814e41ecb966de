-- ===== src/Rehash/Next.antt =====
-- Where `findNextSlotInRehash` puts a slot.
use turbo_hash.Common.{
  ℕ, zero, suc, ◌+◌, ◌-◌, ◌%◌, ◌^◌, ◌≤◌, ◌<◌, ◌≡◌, refl, sym, ap, ◌∙◌, ◌⊎◌, inl, inr, Option, none,
  some, arith, bit_and, ltb, leb, if◌then◌else◌, Bool-cases,
}
use turbo_hash.Common.Bits.{bit_and_mask}
use native.Mathlib.Nat.{mod-add-mod, mod-eq_of_lt, add-zero}
use turbo_hash.Probe.Path.{cell_at, cell_at-lt, pow_mono}
use turbo_hash.SlotFormat.{SlotFormat}
use turbo_hash.Rehash.{next_slot_loop, find_next_slot}

module _ (vec : ℕ → ℕ) (s h : ℕ) (small : s ≤ 15) where
  -- The step of the rehash leads to the next cell on the path.
  next_cell :
      (d : ℕ)
      → (let ai' = (cell_at s h d + 1) % 2 ^ 32 in
          (if ltb (2 ^ s - 1) ai' then bit_and ai' (2 ^ s - 1) else ai'))
        ≡ cell_at s h (suc d)
  next_cell d =
      let width = pow_mono s 15 small in
      let range = cell_at-lt s h d in
      let wrap : (cell_at s h d + 1) % 2 ^ 32 ≡ cell_at s h d + 1 = mod-eq_of_lt (omega arith) in
      let index : (cell_at s h d + 1) % 2 ^ s ≡ cell_at s h (suc d) =
        mod-add-mod (h + d) (2 ^ s) 1 ∙ ap (λ (t : ℕ). t % 2 ^ s) (omega arith) in
      rw (wrap, bit_and_mask s (cell_at s h d + 1))
        (elim (Bool-cases (ltb (2 ^ s - 1) (cell_at s h d + 1))) [
          | inl over ↦ rw over index
          | inr under ↦
              let inside : (cell_at s h d + 1) % 2 ^ s ≡ cell_at s h d + 1 =
                mod-eq_of_lt (ground arith) in
              rw under (sym inside ∙ index)
        ])

  -- A place `d` steps from home, where every nearer cell has six slots taken; or no place at
  -- all, with 16 cells taken.
  abbrev pub IsPlace : Option ℕ → Type 0
  IsPlace (some ci) =
      (d : ℕ) × (d ≤ 15)
      × (ci ≡ cell_at s h d)
      × (vec ci < 7)
      × ((e : ℕ) → e < d → 7 ≤ vec (cell_at s h e))
  IsPlace none = (e : ℕ) → e ≤ 15 → 7 ≤ vec (cell_at s h e)

  taken_too :
      (d : ℕ)
      → ((e : ℕ) → e < d → 7 ≤ vec (cell_at s h e))
      → 7 ≤ vec (cell_at s h d)
      → (e : ℕ) → e < suc d
      → 7 ≤ vec (cell_at s h e)
  taken_too d taken here e p = elim (last e p) [ inl lt ↦ taken e lt | inr eq ↦ rw eq here ]
    where
      last : (i : ℕ) → i < suc d → (i < d) ⊎ (i ≡ d)
      last i q = omega arith

  loop-IsPlace :
      (left d : ℕ)
      → d + left ≡ 16
      → d ≤ 15
      → ((e : ℕ) → e < d → 7 ≤ vec (cell_at s h e))
      → IsPlace (next_slot_loop left vec (2 ^ s - 1) (cell_at s h d) d)
  unfolding next_slot_loop
  loop-IsPlace zero d e near taken = absurd (omega arith)
  loop-IsPlace (suc left) d e near taken =
      rw (next_cell d) (elim (Bool-cases (leb 7 (vec (cell_at s h d)))) [
        | inr free ↦ rw free (d, near, refl, ground arith, taken)
        | inl full ↦ rw full (elim (Bool-cases (ltb 15 (d + 1))) [
          | inl over ↦ rw over (λ i p. taken_too d taken (ground arith) i (ground arith))
          | inr more ↦
              let e' : d + 1 ≡ suc d = omega arith in
              rw (more, e')
                (loop-IsPlace left (suc d) (omega arith) (ground arith)
                  (taken_too d taken (ground arith)))
        ])
      ])

-- `findNextSlotInRehash`, in a bucket of up to 2 ^ 15 cells, goes on from the slot's home cell past cells with no slot left, and takes
-- the first that has one, at most 15 steps away; it fails exactly if the 16 cells of the path
-- have no slot left.
pub find_next_slot-IsPlace :
    {K V E : Type 0} (f : SlotFormat K V E) (vec : ℕ → ℕ) (s h1 : ℕ) (small : s ≤ 15)
    → IsPlace vec s (f.h1_to_hash h1) small (find_next_slot f vec h1 (2 ^ s - 1))
unfolding find_next_slot
find_next_slot-IsPlace f vec s h1 small =
    let width = pow_mono s 15 small in
    let h = f.h1_to_hash h1 in
    let range = cell_at-lt s h 0 in
    let start : bit_and h (2 ^ s - 1) ≡ cell_at s h 0 = rw add-zero (bit_and_mask s h) in
    let fits : cell_at s h 0 % 2 ^ 32 ≡ cell_at s h 0 = mod-eq_of_lt (omega arith) in
    rw (start, fits)
      (loop-IsPlace vec s h small 16 0 (omega arith) (omega arith) (λ e p. absurd (omega arith)))
