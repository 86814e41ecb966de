-- ===== src/Table/Workers.antt =====
-- The division of the buckets among threads, and what the loops over all buckets do.
use turbo_hash.Common.{
  ℕ, zero, suc, ◌+◌, ◌-◌, ◌*◌, ◌/◌, ◌^◌, ◌≤◌, ◌≡◌, refl, ap, ◌∙◌, min, List, [], ◌∷◌, ◌++◌, map,
  arith,
}
use native.Mathlib.Nat.{one-le-pow, pow-suc}
use mathlib.Core.Path.{subst}
use mathlib.Core.List.{Permᴰ, append_assoc}
use turbo_hash.Common.Shuffle.{Interleaves, Interleaves-perm, concat}
use turbo_hash.Bucket.{Bucket, cell_count}
use turbo_hash.Rehash.Iterate.{live_slots, visit-live_slots}
use turbo_hash.Table.{Table}
use turbo_hash.Table.Parallel.{
  span, worker, workers, entry_at, bucket_entries, all_entries, iterate_all,
}

span-append : (a b i : ℕ) → span a i ++ span b (a + i) ≡ span (a + b) i
span-append zero b i =
    let e : zero + i ≡ i = omega arith in let e' : zero + b ≡ b = omega arith in rw (e, e') refl
span-append (suc a) b i =
    let e : suc a + i ≡ a + suc i = omega arith in
    let e' : suc a + b ≡ suc (a + b) = omega arith in
    rw (e, e') (ap (λ is. i ∷ is) (span-append a b (suc i)))

-- The threads have the buckets in order, each once.
pub workers-span : (n threads t : ℕ) → workers n threads t ≡ span (n / threads * t) 0
unfolding workers worker
workers-span n threads zero =
    let none_left : n / threads * zero ≡ 0 = omega arith in rw none_left refl
workers-span n threads (suc t) =
    let q = n / threads in
    let width : q * t + q - q * t ≡ q = omega arith in
    let start : q * t ≡ q * t + 0 = omega arith in
    let total : q * suc t ≡ q * t + q = omega arith in
    let whole = span-append (q * t) q 0 in
    rw (width, workers-span n threads t, total) (ap (λ j. span (q * t) 0 ++ span q j) start ∙ whole)

-- The threads leave no bucket out: 4 threads of 4 buckets or more, and the least of 8 and all.
pub quarters : (s : ℕ) → 2 ≤ s → 2 ^ s / 4 * 4 ≡ 2 ^ s
quarters zero h = absurd (omega arith)
quarters (suc zero) h = absurd (omega arith)
quarters (suc (suc s)) h = omega (arith, pow-suc 2 (suc s), pow-suc 2 s)

shares : (s : ℕ) → 2 ^ s / min 8 (2 ^ s) * min 8 (2 ^ s) ≡ 2 ^ s
shares zero = refl
shares (suc zero) = refl
shares (suc (suc zero)) = refl
shares (suc (suc (suc s))) =
    let pow : 2 ^ suc (suc (suc s)) ≡ 8 * 2 ^ s =
      omega (arith, pow-suc 2 (suc (suc s)), pow-suc 2 (suc s), pow-suc 2 s) in
    let least : min 8 (2 ^ suc (suc (suc s))) ≡ 8 =
      omega (arith, pow, one-le-pow s 2 (omega arith)) in
    rw least (omega (arith, pow))

-- Every record of an entry of a live slot, over `n` buckets from `i` on.
abbrev pub live_entries : {E : Type 0} → (ℕ → Bucket E) → ℕ → ℕ → List E
live_entries buckets zero i = []
live_entries buckets (suc n) i =
    map (entry_at (buckets i)) (live_slots (buckets i) (cell_count (buckets i)) 0)
    ++ live_entries buckets n (suc i)

all_entries-span :
    {E : Type 0} (t : Table E) (n i : ℕ) → all_entries t (span n i) ≡ live_entries t.buckets n i
unfolding all_entries bucket_entries
all_entries-span t zero i = refl
all_entries-span t (suc n) i =
    rw (visit-live_slots (t.buckets i), all_entries-span t n (suc i)) refl

live_entries-append :
    {E : Type 0} (buckets : ℕ → Bucket E) (m n i : ℕ)
    → live_entries buckets m i ++ live_entries buckets n (m + i) ≡ live_entries buckets (m + n) i
live_entries-append buckets zero n i =
    let e : zero + i ≡ i = omega arith in let e' : zero + n ≡ n = omega arith in rw (e, e') refl
live_entries-append buckets (suc m) n i =
    let e : suc m + i ≡ m + suc i = omega arith in
    let e' : suc m + n ≡ suc (m + n) = omega arith in
    rw (e, e', append_assoc, live_entries-append buckets m n (suc i)) refl

-- One thread, and the threads from `i` on.
worker_entries :
    {E : Type 0} (t : Table E) (n threads i : ℕ)
    → all_entries t (worker n threads i) ≡ live_entries t.buckets (n / threads) (n / threads * i)
unfolding worker
worker_entries t n threads i =
    let q = n / threads in
    let width : q * i + q - q * i ≡ q = omega arith in rw width (all_entries-span t q (q * i))

worker_entries-concat :
    {E : Type 0} (t : Table E) (n threads m i : ℕ)
    → concat (map (λ w. all_entries t (worker n threads w)) (span m i))
      ≡ live_entries t.buckets (n / threads * m) (n / threads * i)
worker_entries-concat t n threads zero i =
    let none_left : n / threads * zero ≡ 0 = omega arith in rw none_left refl
worker_entries-concat t n threads (suc m) i =
    let q = n / threads in
    let next : q * suc i ≡ q + q * i = omega arith in
    let total : q * suc m ≡ q + q * m = omega arith in
    rw (worker_entries t n threads i, worker_entries-concat t n threads m (suc i), next, total)
      (live_entries-append t.buckets q (q * m) (q * i))

iterate_all-concat :
    {E : Type 0} (t : Table E)
    → concat (iterate_all t) ≡ live_entries t.buckets (2 ^ t.count_shift) 0
unfolding iterate_all
iterate_all-concat t =
    let n = 2 ^ t.count_shift in
    let from : n / min 8 n * 0 ≡ 0 = omega arith in
    rw (worker_entries-concat t n (min 8 n) (min 8 n) 0, from, shares t.count_shift) refl

-- Whatever the order in which the calls of the threads of `IterateAllCallback` happen, if each
-- thread makes its own in order: the callback is called with the entry of every live slot of every
-- bucket, and with each once, for every number of buckets that is a power of 2. One thread after
-- the other, these are the entries in the order of the buckets.
pub iterate_all-live_entries :
    {E : Type 0} (t : Table E) (calls : List E)
    → Interleaves (iterate_all t) calls
    → Permᴰ calls (live_entries t.buckets (2 ^ t.count_shift) 0)
      × (concat (iterate_all t) ≡ live_entries t.buckets (2 ^ t.count_shift) 0)
iterate_all-live_entries t calls order =
    let whole = iterate_all-concat t in (subst (Permᴰ calls) whole (Interleaves-perm order), whole)
