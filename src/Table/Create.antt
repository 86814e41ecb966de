-- ===== src/Table/Create.antt =====
-- src/turbo/turbo_hash.h: the constructor of TurboHashTable. `none` is `exit (1)`; the allocations
-- succeed.
use turbo_hash.Common.{
  ℕ, zero, suc, ◌/◌, ◌%◌, ◌^◌, ◌≤◌, ◌<◌, ◌≡◌, ◌≢◌, ◌⊎◌, refl, inl, inr, true, false, ◌||◌, not,
  Option, none, some, arith, ◌==◌, if◌then◌else◌, Bool-cases,
}
use native.Mathlib.Nat.{one-le-pow, pow-suc}
use turbo_hash.BitSet.{is_power_of_two, popcount, ctz}
use turbo_hash.Probe.Path.{pow_mono}
use turbo_hash.SlotFormat.{SlotFormat}
use turbo_hash.Bucket.{new_bucket}
use turbo_hash.Bucket.Empty.{new_bucket-IsValid}
use turbo_hash.Table.{Table}
use turbo_hash.Table.Lookup.{IsTable, Maps}

-- `TurboHashTable (bucket_count, cell_count)`, which takes the logarithms for BucketMeta::Reset
unfoldable pub new_table : {E : Type 0} → E → ℕ → ℕ → Option (Table E)
new_table zero_entry bucket_count cell_count =
    if not (is_power_of_two bucket_count) || not (is_power_of_two cell_count)
    then none
    else some (record {
      buckets = λ i. new_bucket zero_entry (ctz 32 cell_count);
      count_shift = ctz 32 bucket_count;
    })

popcount_zero : (w b : ℕ) → b < 2 ^ w → popcount w b ≡ 0 → b ≡ 0
unfolding popcount
popcount_zero zero b lt e = omega (arith, lt)
popcount_zero (suc w) b lt e =
    let half = popcount_zero w (b / 2) (omega (arith, lt, pow-suc 2 w)) (omega (arith, e)) in
    omega (arith, half, e)

popcount_one : (w b : ℕ) → b < 2 ^ w → popcount w b ≡ 1 → b ≡ 2 ^ ctz w b
unfolding popcount ctz
popcount_one zero b lt e = absurd (omega (arith, e))
popcount_one (suc w) b lt e = elim (Bool-cases (b % 2 == 1)) [
  | inl odd ↦
      let one : b % 2 ≡ 1 = ground arith in
      let half = popcount_zero w (b / 2) (omega (arith, lt, pow-suc 2 w)) (omega (arith, e, one)) in
      rw odd (omega (arith, one, half))
  | inr even ↦
      let none_left : b % 2 ≡ 0 = ground arith in
      let half =
        popcount_one w (b / 2) (omega (arith, lt, pow-suc 2 w)) (omega (arith, e, none_left)) in
      rw even (omega (arith, half, none_left, pow-suc 2 (ctz w (b / 2))))
]

popcount_null : (w : ℕ) → popcount w 0 ≡ 0
unfolding popcount
popcount_null zero = refl
popcount_null (suc w) = omega (arith, popcount_null w)

popcount_pow : (w i : ℕ) → i < w → popcount w (2 ^ i) ≡ 1
unfolding popcount
popcount_pow zero i lt = absurd (omega arith)
popcount_pow (suc w) zero lt = omega (arith, popcount_null w)
popcount_pow (suc w) (suc i) lt =
    let half : 2 ^ suc i / 2 ≡ 2 ^ i = omega (arith, pow-suc 2 i) in
    let even : 2 ^ suc i % 2 ≡ 0 = omega (arith, pow-suc 2 i) in
    rw (half, even, popcount_pow w i (omega arith)) refl

-- `isPowerOfTwo` on 32 bits
is_power : (n : ℕ) → n < 2 ^ 32 → is_power_of_two n ≡ true → n ≡ 2 ^ ctz 32 n
unfolding is_power_of_two
is_power n lt e = popcount_one 32 n lt (ground (arith, e))

no_power : (n : ℕ) → n < 2 ^ 32 → is_power_of_two n ≡ false → (i : ℕ) → n ≢ 2 ^ i
unfolding is_power_of_two
no_power n lt e i q = elim (below_width i) [
  | inl narrow ↦
      let one : popcount 32 n ≡ 1 = rw q (popcount_pow 32 i narrow) in
      let some_bit = one-le-pow i 2 (omega arith) in ground (arith, e, one, q, some_bit)
  | inr wide ↦ let over = pow_mono 32 i wide in omega (arith, lt, q, over)
]
  where
    below_width : (j : ℕ) → (j < 32) ⊎ (32 ≤ j)
    below_width j = omega arith

module _ {K V E : Type 0} (f : SlotFormat K V E) (bucket_count cell_count : ℕ) where
  -- What the constructor promises: a table of the sizes given, valid and empty; or it exits, and a
  -- size is no power of 2.
  abbrev pub CreatesOrExits : Option (Table E) → Type 0
  CreatesOrExits none = ((i : ℕ) → bucket_count ≢ 2 ^ i) ⊎ ((i : ℕ) → cell_count ≢ 2 ^ i)
  CreatesOrExits (some t) =
      (bucket_count ≡ 2 ^ t.count_shift)
      × ((bi : ℕ) → cell_count ≡ 2 ^ (t.buckets bi).cell_shift)
      × IsTable f t
      × ((k : K) (v : V) → Maps f t k v → ⊥)

  -- A logarithm is bounded by that of a larger power.
  log_le : (n s w : ℕ) → n ≡ 2 ^ s → n < 2 ^ suc w → s ≤ w
  log_le n s w e lt = elim (order s w) [
    | inl small ↦ small
    | inr large ↦ absurd (omega (arith, e, lt, pow_mono (suc w) s large))
  ]
    where
      order : (a b : ℕ) → (a ≤ b) ⊎ (suc b ≤ a)
      order a b = omega arith

  module _ (buckets_fit : bucket_count < 2 ^ 32) (cells_fit : cell_count ≤ 2 ^ 15)
      (zero_entry : E) where
    -- The constructor, for a bucket count of 32 bits and at most 2 ^ 15 cells in a bucket, makes a
    -- valid table of as many buckets and cells that maps no key; or it exits, and then one of the
    -- counts is no power of 2.
    pub new_table-CreatesOrExits : CreatesOrExits (new_table zero_entry bucket_count cell_count)
    unfolding new_table
    new_table-CreatesOrExits = elim (Bool-cases (is_power_of_two bucket_count)) [
      | inr other ↦ rw other (inl (no_power bucket_count buckets_fit other))
      | inl power_buckets ↦ elim (Bool-cases (is_power_of_two cell_count)) [
        | inr other ↦
            rw (power_buckets, other) (inr (no_power cell_count (omega (arith, cells_fit)) other))
        | inl power_cells ↦
            let buckets = is_power bucket_count buckets_fit power_buckets in
            let cells = is_power cell_count (omega (arith, cells_fit)) power_cells in
            let (valid, nothing) =
              new_bucket-IsValid f zero_entry (ctz 32 cell_count)
                (log_le cell_count _ 15 cells (omega (arith, cells_fit))) in
            rw (power_buckets, power_cells)
              (
                buckets,
                λ bi. cells,
                record {
                  bucket_valid = λ bi h. valid;
                  few_buckets = log_le bucket_count _ 31 buckets buckets_fit;
                  routed = λ bi k v h c. absurd (nothing k v c);
                },
                λ k v (bi, h, c). nothing k v c,
              )
      ]
    ]
