-- ===== src/Rehash/Pack.antt =====
-- What holds of the new bucket after each round of `MinorRehash`.
use turbo_hash.Common.{
  ℕ, ◌+◌, ◌-◌, ◌^◌, ◌%◌, ◌≤◌, ◌<◌, ◌≡◌, refl, Bool, true, false, ◌⊎◌, ◌↔◌, inl, inr, ◌==◌, ◌&&◌,
  ◌||◌, ltb, arith, Bool-cases, if◌then◌else◌,
}
use turbo_hash.Hasher.{h2_of}
use turbo_hash.Cell.{HashSlot, full, update}
use turbo_hash.Cell.Live.{live, occupied, deleted}
use turbo_hash.Cell.Spare.{occupied_count, full_iff}
use turbo_hash.Probe.Path.{cell_at, cell_at-lt}
use turbo_hash.SlotFormat.{SlotFormat}
use turbo_hash.Bucket.{Bucket}
use turbo_hash.Bucket.Valid.{hash, home, Holds, At, Contains, ReachesWithin, Filled, IsValidWithin}
use native.Mathlib.Nat.{add-mod_right, one-le-pow}
use turbo_hash.Bucket.Search.{Reaches-mono}
use turbo_hash.Bucket.Match.{Holds-key, Holds-value}
use turbo_hash.Rehash.{Moving, move_slot}
use turbo_hash.Rehash.Slot.{move_slot_lem, occupied_count-move_slot}

abbrev pub bucket_of : {E : Type 0} → Moving E → ℕ → Bucket E
bucket_of m s = record { cells = m.cells; cell_shift = s }

-- Each cell has its slots up to the next free one, and none is deleted.
pub record IsPacked {E : Type 0} (m : Moving E) : Type 0 where
  pub vec_range : (ci : ℕ) → (0 < m.slot_vec ci) × (m.slot_vec ci ≤ 7)
  pub taken : (ci j : ℕ) → occupied (m.cells ci) j ≡ (ltb 0 j && ltb j (m.slot_vec ci))
  pub kept : (ci j : ℕ) → deleted (m.cells ci) j ≡ false
  pub counted : (ci : ℕ) → occupied_count (m.cells ci) + 1 ≡ m.slot_vec ci

module _ {K V E : Type 0} (f : SlotFormat K V E) (s : ℕ) (small : s ≤ 15) (m : Moving E)
    (packed : IsPacked m) (valid : IsValidWithin f 16 (bucket_of m s)) (k : K) (v : V)
    (slot : HashSlot E) (tag : ℕ) (holds : Holds f slot k v) (tagged : tag ≡ h2_of (hash f k))
    (absent : (w : V) → Contains f (bucket_of m s) k w → ⊥) (d : ℕ) (near : d ≤ 15)
    (free : m.slot_vec (cell_at s (home f k) d) < 7)
    (before : (e : ℕ) → e < d → 7 ≤ m.slot_vec (cell_at s (home f k) e)) where
  abbrev target : ℕ
  target = cell_at s (home f k) d

  abbrev place : ℕ
  place = m.slot_vec target

  abbrev pub next : Moving E
  next = record {
    cells = update m.cells target (move_slot (m.cells target) place slot tag);
    slot_vec = update m.slot_vec target ((place + 1) % 2 ^ 8);
  }

  move_lem :
      (j : ℕ)
      → (occupied (move_slot (m.cells target) place slot tag) j
          ≡ (place == j || occupied (m.cells target) j))
        × (deleted (move_slot (m.cells target) place slot tag) j ≡ deleted (m.cells target) j)
  move_lem =
      move_slot_lem (m.cells target) place (packed.vec_range target).0 (omega (arith, free)) slot
        tag

  pub next-IsPacked : IsPacked next
  next-IsPacked = record {
    vec_range = λ ci. elim (Bool-cases (target == ci)) [
      | inl here ↦ rw here (omega arith)
      | inr other ↦ rw other (packed.vec_range ci)
    ];
    taken = λ ci j. elim (Bool-cases (target == ci)) [
      | inl here ↦
          rw here (ground (arith, move_lem j, packed.taken target j, packed.vec_range target, free))
      | inr other ↦ rw other (packed.taken ci j)
    ];
    kept = λ ci j. elim (Bool-cases (target == ci)) [
      | inl here ↦ rw here (ground (arith, move_lem j, packed.kept target j))
      | inr other ↦ rw other (packed.kept ci j)
    ];
    counted = λ ci. elim (Bool-cases (target == ci)) [
      | inl here ↦
          let unused : occupied (m.cells target) place ≡ false =
            ground (arith, packed.taken target place) in
          let count =
            occupied_count-move_slot (m.cells target) place (packed.vec_range target).0
              (omega (arith, free)) slot tag unused in
          rw here (omega (arith, count, packed.counted target, free))
      | inr other ↦ rw other (packed.counted ci)
    ];
  }

  abbrev is_new : ℕ → ℕ → Bool
  is_new cj j = target == cj && place == j

  live-next : (cj j : ℕ) → live (next.cells cj) j ≡ (is_new cj j || live (m.cells cj) j)
  live-next cj j = elim (Bool-cases (target == cj)) [
    | inl here ↦
        let e : target ≡ cj = ground arith in
        rw (here, ← e) (ground (arith, move_lem j, packed.kept target j))
    | inr other ↦ rw other (ground arith)
  ]

  slot-next :
      (cj j : ℕ)
      → ((next.cells cj).slots j ≡ (if is_new cj j then slot else (m.cells cj).slots j))
        × ((next.cells cj).tags j ≡ (if is_new cj j then tag else (m.cells cj).tags j))
  unfolding move_slot
  slot-next cj j = elim (Bool-cases (target == cj)) [
    | inl here ↦ let e : target ≡ cj = ground arith in rw (here, ← e) (refl, refl)
    | inr other ↦ rw other (refl, refl)
  ]

  full_iff-IsPacked : (cj : ℕ) → full (m.cells cj) ≡ true → m.slot_vec cj ≡ 7
  full_iff-IsPacked cj h = omega (arith, packed.counted cj, (full_iff (m.cells cj)).0 h)

  full-next : (cj : ℕ) → full (m.cells cj) ≡ true → full (next.cells cj) ≡ true
  full-next cj h = elim (Bool-cases (target == cj)) [
    | inl here ↦
        let e : target ≡ cj = ground arith in
        absurd (omega (arith, full_iff-IsPacked target (rw e h), free))
    | inr other ↦ rw other h
  ]

  new_At : At f (bucket_of next s) k v target place
  new_At = record {
    inside = cell_at-lt s (home f k) d;
    alive = ground (arith, live-next target place);
    holds = (holds.0, ground (arith, slot-next target place, holds.1));
  }

  old_At :
      (q : K) (w : V) (cj j : ℕ)
      → is_new cj j ≡ false
      → At f (bucket_of next s) q w cj j
      → At f (bucket_of m s) q w cj j
  old_At q w cj j other h = record {
    inside = h.inside;
    alive = ground (arith, h.alive, live-next cj j);
    holds = (h.holds.0, ground (arith, h.holds.1, slot-next cj j));
  }

  -- The place was not live before.
  other_place : (cj j : ℕ) → live (m.cells cj) j ≡ true → is_new cj j ≡ false
  other_place cj j h = elim (Bool-cases (is_new cj j)) [
    | inl new ↦
        let e : target ≡ cj = ground arith in
        let e' : place ≡ j = ground arith in
        let alive : live (m.cells target) place ≡ true = rw (e, e') h in
        absurd (ground (arith, packed.taken target place))
    | inr e ↦ e
  ]

  keep_At :
      (q : K) (w : V) (cj j : ℕ) → At f (bucket_of m s) q w cj j → At f (bucket_of next s) q w cj j
  keep_At q w cj j h =
      let other = other_place cj j h.alive in
      record {
        inside = h.inside;
        alive = ground (arith, h.alive, live-next cj j);
        holds = (h.holds.0, ground (arith, h.holds.1, slot-next cj j));
      }

  new_pair :
      (q : K) (w : V) (cj j : ℕ)
      → is_new cj j ≡ true
      → At f (bucket_of next s) q w cj j
      → (q ≡ k) × (w ≡ v)
  new_pair q w cj j new h =
      let there : Holds f ((next.cells cj).slots j) k v =
        (holds.0, ground (arith, slot-next cj j, holds.1)) in
      let at = (next.cells cj).slots j in
      (Holds-key f at q k w v h.holds there, Holds-value f at q k w v h.holds there)

  within : d < 2 ^ s
  within = elim (split d (2 ^ s)) [
    | inl lt ↦ lt
    | inr ge ↦
        let e = d - 2 ^ s in
        let round : home f k + d ≡ home f k + e + 2 ^ s = omega arith in
        let same : cell_at s (home f k) d ≡ cell_at s (home f k) e =
          rw round (add-mod_right (home f k + e) (2 ^ s)) in
        let taken : 7 ≤ m.slot_vec (cell_at s (home f k) d) =
          rw same (before e (omega (arith, one-le-pow s 2))) in
        absurd (omega (arith, taken, free))
  ]
    where
      split : (a b : ℕ) → (a < b) ⊎ (b ≤ a)
      split a b = omega arith

  full_at : (ci : ℕ) → 7 ≤ m.slot_vec ci → full (m.cells ci) ≡ true
  full_at ci h =
      ground (arith, packed.counted ci, (packed.vec_range ci).1, (full_iff (m.cells ci)).1)

  new_reach : ReachesWithin f 16 (bucket_of next s) k target
  new_reach = record {
    steps = d;
    near = omega arith;
    within = within;
    there = refl;
    full_before = λ e h. full-next (cell_at s (home f k) e) (full_at _ (before e h));
  }

  Filled-next : (cj j : ℕ) → cj < 2 ^ s → live (next.cells cj) j ≡ true → Filled f (next.cells cj) j
  Filled-next cj j h alive = elim (Bool-cases (is_new cj j)) [
    | inl new ↦ record {
      key = k;
      value = v;
      holds = (holds.0, ground (arith, slot-next cj j, holds.1));
      tagged = ground (arith, slot-next cj j, tagged);
    }
    | inr other ↦
        let r = valid.filled cj j h (ground (arith, live-next cj j)) in
        record {
          key = r.key;
          value = r.value;
          holds = (r.holds.0, ground (arith, r.holds.1, slot-next cj j));
          tagged = ground (arith, r.tagged, slot-next cj j);
        }
  ]

  placed-next :
      (q : K) (w : V) (cj j : ℕ)
      → At f (bucket_of next s) q w cj j
      → ReachesWithin f 16 (bucket_of next s) q cj
  placed-next q w cj j h = elim (Bool-cases (is_new cj j)) [
    | inl new ↦
        let e : target ≡ cj = ground arith in
        let (same, _) = new_pair q w cj j new h in rw (← e, same) new_reach
    | inr other ↦
        Reaches-mono f (bucket_of m s) (bucket_of next s) q cj refl full-next
          (valid.placed q w cj j (old_At q w cj j other h))
  ]

  apart :
      (q : K) (w x : V) (ci i cj j : ℕ)
      → is_new ci i ≡ true
      → is_new cj j ≡ false
      → At f (bucket_of next s) q w ci i
      → At f (bucket_of next s) q x cj j
      → ⊥
  apart q w x ci i cj j new other h h' =
      let (same, _) = new_pair q w ci i new h in
      absent x (cj, j, rw same at (old_At q x cj j other h'))

  unique-next :
      (q : K) (w x : V) (ci i cj j : ℕ)
      → At f (bucket_of next s) q w ci i
      → At f (bucket_of next s) q x cj j
      → (ci ≡ cj) × (i ≡ j)
  unique-next q w x ci i cj j h h' = elim (Bool-cases (is_new ci i)) [
    | inl new ↦ elim (Bool-cases (is_new cj j)) [
      | inl new' ↦ ground arith
      | inr other' ↦ absurd (apart q w x ci i cj j new other' h h')
    ]
    | inr other ↦ elim (Bool-cases (is_new cj j)) [
      | inl new' ↦ absurd (apart q x w cj j ci i new' other h' h)
      | inr other' ↦
          valid.unique q w x ci i cj j (old_At q w ci i other h) (old_At q x cj j other' h')
    ]
  ]

  pub next-IsValidWithin : IsValidWithin f 16 (bucket_of next s)
  next-IsValidWithin = record {
    small = small;
    sound = λ ci h. record {
      erased = λ j e. ground (arith, next-IsPacked.kept ci j);
      spare = omega (arith, next-IsPacked.counted ci, next-IsPacked.vec_range ci);
    };
    filled = Filled-next;
    placed = placed-next;
    unique = unique-next;
  }

  -- The new bucket has one more pair.
  pub Contains-next :
      (q : K) (w : V)
      → Contains f (bucket_of next s) q w ↔ (((q ≡ k) × (w ≡ v)) ⊎ Contains f (bucket_of m s) q w)
  Contains-next q w = (
    λ (cj, j, h). elim (Bool-cases (is_new cj j)) [
      | inl new ↦ inl (new_pair q w cj j new h)
      | inr other ↦ inr (cj, j, old_At q w cj j other h)
    ],
    elim [
      | inl (e, e') ↦ (target, place, rw (e, e') new_At)
      | inr (cj, j, h) ↦ (cj, j, keep_At q w cj j h)
    ],
  )
