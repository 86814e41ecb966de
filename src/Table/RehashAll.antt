-- ===== src/Table/RehashAll.antt =====
-- `MinorReHashAll` and `GCAll`: what they do to the table, and to which buckets.
use turbo_hash.Common.{
  ℕ, zero, suc, ◌+◌, ◌-◌, ◌*◌, ◌/◌, ◌^◌, ◌≤◌, ◌<◌, ◌≡◌, ◌⊎◌, refl, sym, ap, ◌∙◌, inl, inr, Bool,
  true, false, Option, none, some, length, arith, ltb, ◌==◌, if◌then◌else◌, ◌≢◌, Bool-cases,
  Option-cases,
}
use turbo_hash.Cell.{HashSlot, update}
use turbo_hash.SlotFormat.{SlotFormat}
use turbo_hash.Bucket.{Bucket, cell_count}
use turbo_hash.Rehash.{minor_rehash, move_all, start_moving, cell_count_limit}
use turbo_hash.Rehash.Iterate.{live_slots, visit-live_slots}
use turbo_hash.Table.{Table}
use turbo_hash.Table.Workers.{workers-span, quarters}
use turbo_hash.Table.Parallel.{span, rehash_buckets, minor_rehash_all}

few_quarters : (s : ℕ) → s < 2 → 2 ^ s / 4 * 4 ≡ 0
few_quarters zero h = refl
few_quarters (suc zero) h = refl
few_quarters (suc (suc s)) h = absurd (omega arith)

-- The live slots of `n` buckets from `i` on.
abbrev pub live_count : {E : Type 0} → (ℕ → Bucket E) → ℕ → ℕ → ℕ
live_count buckets zero i = 0
live_count buckets (suc n) i =
    length (live_slots (buckets i) (cell_count (buckets i)) 0) + live_count buckets n (suc i)

live_count-same :
    {E : Type 0} (g h : ℕ → Bucket E) (n i : ℕ)
    → ((bi : ℕ) → i ≤ bi → g bi ≡ h bi)
    → live_count g n i ≡ live_count h n i
live_count-same g h zero i same = refl
live_count-same g h (suc n) i same =
    let rest = live_count-same g h n (suc i) (λ bi le. same bi (omega arith)) in
    rw (same i (omega arith), rest) refl

module _ {K V E : Type 0} (f : SlotFormat K V E) (zero_entry : E) (space : ℕ → ℕ → ℕ → HashSlot E)
    (isgc : Bool) where
  -- `count` of `MinorRehash`
  abbrev Counts : ℕ → Option (Bucket E × ℕ) → Type 0
  Counts live none = Unit
  Counts live (some (b, count)) = count ≡ live

  minor_rehash-Counts :
      (b : Bucket E) (space' : ℕ → ℕ → HashSlot E)
      → Counts (length (live_slots b (cell_count b) 0)) (minor_rehash f b isgc zero_entry space')
  unfolding minor_rehash
  minor_rehash-Counts b space' =
      let shift = if isgc then b.cell_shift else b.cell_shift + 1 in
      let slots = live_slots b (cell_count b) 0 in
      elim (Bool-cases (ltb cell_count_limit (2 ^ shift))) [
        | inl over ↦ rw over tt
        | inr fits ↦
            rw (fits, visit-live_slots b)
              (elim (Option-cases (move_all f b (2 ^ shift - 1) slots (start_moving space'))) [
                | inl e ↦ rw e tt
                | inr (m, e) ↦ rw e refl
              ])
      ]

  -- What the rehash of the `n` buckets from `i` on makes of the table and of the count.
  pub record RehashesFrom (n i : ℕ) (t : Table E) (counts : ℕ) (r : Table E × ℕ) : Type 0 where
    pub same_size : r.0.count_shift ≡ t.count_shift
    pub rehashed :
        (bi : ℕ)
        → i ≤ bi
        → bi < i + n
        → (m : ℕ) × (minor_rehash f (t.buckets bi) isgc zero_entry (space bi)
            ≡ some (r.0.buckets bi, m))
    pub others : (bi : ℕ) → (bi < i) ⊎ (i + n ≤ bi) → r.0.buckets bi ≡ t.buckets bi
    pub counted : r.1 ≡ counts + live_count t.buckets n i

  abbrev pub RehashesOrExitsFrom : ℕ → ℕ → Table E → ℕ → Option (Table E × ℕ) → Type 0
  RehashesOrExitsFrom n i t counts (some r) = RehashesFrom n i t counts r
  RehashesOrExitsFrom n i t counts none =
      (bi : ℕ) × (i ≤ bi)
      × (bi < i + n)
      × (minor_rehash f (t.buckets bi) isgc zero_entry (space bi) ≡ none)

  module _ (n i counts : ℕ) (t : Table E) (b : Bucket E) (m : ℕ)
      (e : minor_rehash f (t.buckets i) isgc zero_entry (space i) ≡ some (b, m)) where
    abbrev next : Table E
    next = record t { buckets = update t.buckets i b }

    other_bucket : (bi : ℕ) → bi ≢ i → next.buckets bi ≡ t.buckets bi
    other_bucket bi ne = let other : (i == bi) ≡ false = ground arith in rw other refl

    this_bucket : next.buckets i ≡ b
    this_bucket = let here : (i == i) ≡ true = ground arith in rw here refl

    same_rehash :
        (bi : ℕ)
        → i < bi
        → minor_rehash f (next.buckets bi) isgc zero_entry (space bi)
          ≡ minor_rehash f (t.buckets bi) isgc zero_entry (space bi)
    same_rehash bi lt =
        ap (λ c. minor_rehash f c isgc zero_entry (space bi))
          (other_bucket bi (λ q. omega (arith, q)))

    RehashesFrom-suc :
        (o : Option (Table E × ℕ))
        → RehashesOrExitsFrom n (suc i) next (counts + m) o
        → RehashesOrExitsFrom (suc n) i t counts o
    RehashesFrom-suc none (bi, le, lt, over) =
        (bi, omega arith, omega arith, sym (same_rehash bi (omega (arith, le))) ∙ over)
    RehashesFrom-suc (some r) rest = record {
      same_size = rest.same_size;
      rehashed = λ bi le lt. elim (Bool-cases (i == bi)) [
        | inl here ↦
            let same : i ≡ bi = ground arith in
            let kept = rest.others i (inl (omega arith)) ∙ this_bucket in
            rw (← same) (m, e ∙ ap (λ c. some (c, m)) (sym kept))
        | inr other ↦
            let later : suc i ≤ bi = ground arith in
            let (count, e') = rest.rehashed bi later (omega arith) in
            (count, sym (same_rehash bi later) ∙ e')
      ];
      others = λ bi out.
          rest.others bi (ground (arith, out)) ∙ other_bucket bi (λ q. ground (arith, out, q));
      counted =
          let live : Counts (length (live_slots (t.buckets i) (cell_count (t.buckets i)) 0))
              (some (b, m)) =
            rw e at (minor_rehash-Counts (t.buckets i) (space i)) in
          let later =
            live_count-same next.buckets t.buckets n (suc i)
              (λ bi le. other_bucket bi (λ q. omega (arith, q))) in
          let sum : r.1 ≡ counts + m + live_count t.buckets n (suc i) = rw later at rest.counted in
          omega (arith, sum, live);
    }

  rehash_buckets-span :
      (n i counts : ℕ) (t : Table E)
      → RehashesOrExitsFrom n i t counts
          (rehash_buckets f zero_entry space isgc (span n i) (t, counts))
  unfolding rehash_buckets
  rehash_buckets-span zero i counts t = record {
    same_size = refl;
    rehashed = λ bi le lt. absurd (omega arith);
    others = λ bi out. refl;
    counted = omega arith;
  }
  rehash_buckets-span (suc n) i counts t =
      elim (Option-cases (minor_rehash f (t.buckets i) isgc zero_entry (space i))) [
        | inl e ↦ rw e (i, omega arith, omega arith, e)
        | inr ((b, m), e) ↦ rw e (
            RehashesFrom-suc n i counts t b m e _
              (rehash_buckets-span n (suc i) (counts + m) (next n i counts t b m e)))
      ]

  -- In a table of at least 4 buckets `MinorReHashAll` puts the rehash of each bucket in its place and
  -- counts the live slots of all, or the rehash of some bucket exits. In a table of 1 or 2 buckets
  -- it changes nothing. `GCAll` is the same with the garbage collection of a bucket.
  pub minor_rehash_all-Rehashes :
      (t : Table E)
      → ((2 ≤ t.count_shift)
          × RehashesOrExitsFrom
              (2 ^ t.count_shift)
              0
              t
              0
              (minor_rehash_all f zero_entry space isgc t))
        ⊎ ((t.count_shift < 2) × (minor_rehash_all f zero_entry space isgc t ≡ some (t, 0)))
  unfolding minor_rehash_all rehash_buckets
  minor_rehash_all-Rehashes t = elim (enough t.count_shift) [
    | inl many ↦ inl (
      many,
      rw (workers-span (2 ^ t.count_shift) 4 4, quarters t.count_shift many)
          (rehash_buckets-span (2 ^ t.count_shift) 0 0 t),
    )
    | inr few ↦
        let fewer : 2 ^ t.count_shift / 4 * 4 ≡ 0 = few_quarters t.count_shift few in
        inr (few, rw (workers-span (2 ^ t.count_shift) 4 4, fewer) refl)
  ]
    where
      enough : (s : ℕ) → (2 ≤ s) ⊎ (s < 2)
      enough s = omega arith
