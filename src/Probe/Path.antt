-- ===== src/Probe/Path.antt =====
-- The cells that a probe visits.
use turbo_hash.Common.{
  ℕ, zero, suc, ◌+◌, ◌-◌, ◌%◌, ◌^◌, ◌≤◌, ◌<◌, ◌≡◌, true, ◌⊎◌, inl, inr, arith, bit_and, refl, sym,
  ap, ◌∙◌,
}
use turbo_hash.Common.Bits.{bit_and_mask}
use turbo_hash.Probe.{Probe, new, to_bool, next}
use native.Mathlib.Nat.{
  pow-suc, one-le-pow, mod-lt, mod-eq_of_lt, mod-add-mod, div-add-mod, add-zero,
}

pub pow_mono : (s t : ℕ) → s ≤ t → 2 ^ s ≤ 2 ^ t
pow_mono zero t h = one-le-pow t 2 (omega arith)
pow_mono (suc s) zero h = absurd (omega arith)
pow_mono (suc s) (suc t) h = omega (arith, pow-suc 2 s, pow-suc 2 t, pow_mono s t (omega arith))

-- The cell `d` steps from the home cell of the hash `h`, in a bucket of 2 ^ s cells.
abbrev pub cell_at : ℕ → ℕ → ℕ → ℕ
cell_at s h d = (h + d) % 2 ^ s

pub cell_at-lt : (s h d : ℕ) → cell_at s h d < 2 ^ s
cell_at-lt s h d = mod-lt (h + d) (one-le-pow s 2 (omega arith))

-- The state of a probe after `d` steps.
abbrev pub probe_at : ℕ → ℕ → ℕ → ℕ → Probe
probe_at s h bi d = record {
  h = h;
  cell_count_mask = 2 ^ s - 1;
  cell_index = cell_at s h d;
  bucket_i = bi;
  probe_count = d;
}

module _ (s h bi : ℕ) (small : s ≤ 15) where
  pub new-probe_at : new h (2 ^ s - 1) bi ≡ probe_at s h bi 0
  unfolding new
  new-probe_at =
      let width = pow_mono s 15 small in
      let range = cell_at-lt s h 0 in
      let masked : bit_and h (2 ^ s - 1) ≡ (h + 0) % 2 ^ s = rw add-zero (bit_and_mask s h) in
      rw masked (ground (arith, mod-eq_of_lt {n = cell_at s h 0} {m = 2 ^ 32}))

  pub next-probe_at : (d : ℕ) → d < 2 ^ 31 → next (probe_at s h bi d) ≡ probe_at s h bi (suc d)
  unfolding next
  next-probe_at d p =
      let width = pow_mono s 15 small in
      let range = cell_at-lt s h d in
      let step : (cell_at s h d + 1) % 2 ^ 32 ≡ cell_at s h d + 1 = mod-eq_of_lt (omega arith) in
      let count : (d + 1) % 2 ^ 32 ≡ suc d = omega arith in
      let index : (cell_at s h d + 1) % 2 ^ s ≡ cell_at s h (suc d) =
        mod-add-mod (h + d) (2 ^ s) 1 ∙ ap (λ (t : ℕ). t % 2 ^ s) (omega arith) in
      rw (step, bit_and_mask s (cell_at s h d + 1), index, count)

  pub to_bool-probe_at :
      (d : ℕ)
      → (to_bool (probe_at s h bi d) ≡ true → d < 2 ^ s)
        × (d < 2 ^ s → to_bool (probe_at s h bi d) ≡ true)
  unfolding to_bool
  to_bool-probe_at d = ground (arith, one-le-pow s 2)

-- Numbers that differ by less than `n` have different remainders.
mod_close : (n a k : ℕ) → 0 < k → k < n → (a + k) % n ≡ a % n → ⊥
mod_close n a k p q e = let x = div-add-mod (a + k) n in let y = div-add-mod a n in grind arith

-- Steps below the number of cells lead to different cells.
pub cell_at-injective :
    (s h d e : ℕ) → d < 2 ^ s → e < 2 ^ s → cell_at s h d ≡ cell_at s h e → d ≡ e
cell_at-injective s h d e p q r = elim (total d e) [
  | inl lt ↦
      let up : h + d + (e - d) ≡ h + e = omega arith in
      absurd (mod_close (2 ^ s) (h + d) (e - d) (omega arith) (omega arith) (rw up (sym r)))
  | inr (inl eq) ↦ eq
  | inr (inr gt) ↦
      let up : h + e + (d - e) ≡ h + d = omega arith in
      absurd (mod_close (2 ^ s) (h + e) (d - e) (omega arith) (omega arith) (rw up r))
]
  where
    total : (a b : ℕ) → (a < b) ⊎ ((a ≡ b) ⊎ (b < a))
    total a b = omega arith

-- The probe after a number of steps.
pub walk : ℕ → Probe → Probe
walk zero p = p
walk (suc d) p = next (walk d p)

at_walk :
    (s h bi : ℕ) → s ≤ 15 → (n : ℕ) → n < 2 ^ s → walk n (new h (2 ^ s - 1) bi) ≡ probe_at s h bi n
unfolding walk
at_walk s h bi small zero r = new-probe_at s h bi small
at_walk s h bi small (suc n) r =
    let wide = pow_mono s 15 small in
    rw (at_walk s h bi small n (omega arith)) (next-probe_at s h bi small n (omega arith))

-- In a bucket of 2 ^ s cells, with s at most 15, a probe that has made fewer than 2 ^ s steps goes
-- on, is `d` cells from the home cell round the bucket, and comes to no cell twice.
walk_lem :
    (s h bi d e : ℕ)
    → s ≤ 15
    → d < 2 ^ s
    → e < 2 ^ s
    → (to_bool (walk d (new h (2 ^ s - 1) bi)) ≡ true)
      × ((walk d (new h (2 ^ s - 1) bi)).cell_index ≡ (h + d) % 2 ^ s)
      × ((walk d (new h (2 ^ s - 1) bi)).cell_index ≡ (walk e (new h (2 ^ s - 1) bi)).cell_index
          → d ≡ e)
walk_lem s h bi d e small p q = (
  rw (at_walk s h bi small d p) ((to_bool-probe_at s h bi small d).1 p),
  rw (at_walk s h bi small d p) refl,
  λ same.
      cell_at-injective s h d e p q
        (rw (at_walk s h bi small d p, at_walk s h bi small e q) at same),
)
