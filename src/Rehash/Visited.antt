-- ===== src/Rehash/Visited.antt =====
-- The pairs of the slots that the iterator visits.
use turbo_hash.Common.{
  ℕ, zero, suc, ◌+◌, ◌≤◌, ◌<◌, ◌≡◌, refl, sym, ◌∙◌, true, ◌⊎◌, ◌↔◌, inl, inr, List, [], ◌∷◌, ◌++◌,
  arith,
}
use turbo_hash.BitSet.{positions}
use turbo_hash.Common.{In}
use turbo_hash.BitSet.Loop.{In-positions, Distinct, Distinct-positions}
use turbo_hash.Cell.{valid_bitset}
use turbo_hash.Cell.Live.{live, test_bit-valid_bitset}
use turbo_hash.SlotFormat.{SlotFormat}
use turbo_hash.Bucket.{Bucket, cell_count}
use turbo_hash.Bucket.Valid.{At, Contains, IsValid}
use turbo_hash.Rehash.Iterate.{slots_of, live_slots, valid_bitset-lt}
use turbo_hash.Rehash.Move

module _ {K V E : Type 0} (f : SlotFormat K V E) (s : ℕ) (small : s ≤ 15) (b : Bucket E)
    (old : IsValid f b) where
  abbrev pub Among : List (ℕ × ℕ) → K → V → Type 0
  Among = Move.Among f s small b old

  abbrev pub AreLive : List (ℕ × ℕ) → Type 0
  AreLive = Move.AreLive f s small b old

  module _ (q : K) (w : V) (ci : ℕ) (rest : List (ℕ × ℕ)) where
    Among-slots_of :
        (is : List ℕ)
        → Among (slots_of ci is ++ rest) q w
        → ((i : ℕ) × In i is × At f b q w ci i) ⊎ Among rest q w
    Among-slots_of [] a = inr a
    Among-slots_of (i ∷ is) (inl at) = inl (i, inl refl, at)
    Among-slots_of (i ∷ is) (inr a) = elim (Among-slots_of is a) [
      | inl (j, p, at) ↦ inl (j, inr p, at)
      | inr r ↦ inr r
    ]

    slot-Among :
        (is : List ℕ) (i : ℕ) → In i is → At f b q w ci i → Among (slots_of ci is ++ rest) q w
    slot-Among [] i p at = absurd p
    slot-Among (j ∷ is) i (inl e) at = inl (rw (sym e) at)
    slot-Among (j ∷ is) i (inr p) at = inr (slot-Among is i p at)

    rest-Among : (is : List ℕ) → Among rest q w → Among (slots_of ci is ++ rest) q w
    rest-Among [] a = a
    rest-Among (i ∷ is) a = inr (rest-Among is a)

  live-In : (ci i : ℕ) → In i (positions (valid_bitset (b.cells ci))) → live (b.cells ci) i ≡ true
  live-In ci i p =
      sym (test_bit-valid_bitset (b.cells ci) i)
      ∙ (In-positions (valid_bitset (b.cells ci)) i (valid_bitset-lt b ci)).0 p

  Among-live_slots :
      (q : K) (w : V) (n ci : ℕ)
      → Among (live_slots b n ci) q w
      → (cj : ℕ) × (j : ℕ) × (ci ≤ cj) × At f b q w cj j
  Among-live_slots q w zero ci a = absurd a
  Among-live_slots q w (suc n) ci a =
      elim (Among-slots_of q w ci (live_slots b n (suc ci)) (positions (valid_bitset (b.cells ci)))
        a) [
          | inl (i, p, at) ↦ (ci, i, omega arith, at)
          | inr r ↦
              let (cj, j, le, at) = Among-live_slots q w n (suc ci) r in
              (cj, j, omega (arith, le), at)
        ]

  live-Among :
      (q : K) (w : V) (n ci cj j : ℕ)
      → ci ≤ cj
      → cj < ci + n
      → At f b q w cj j
      → Among (live_slots b n ci) q w
  live-Among q w zero ci cj j le lt at = absurd (omega arith)
  live-Among q w (suc n) ci cj j le lt at = elim (here cj refl) [
    | inl e ↦
        slot-Among q w ci (live_slots b n (suc ci)) (positions (valid_bitset (b.cells ci))) j
          ((In-positions (valid_bitset (b.cells ci)) j (valid_bitset-lt b ci)).1
            (test_bit-valid_bitset (b.cells ci) j ∙ rw e at at.alive))
          (rw e at at)
    | inr later ↦
        rest-Among q w ci (live_slots b n (suc ci)) (positions (valid_bitset (b.cells ci)))
          (live-Among q w n (suc ci) cj j later (omega arith) at)
  ]
    where
      here : (c : ℕ) → (c ≡ cj) → (cj ≡ ci) ⊎ (suc ci ≤ cj)
      here c e = omega arith

  slots-AreLive :
      (ci : ℕ) (rest : List (ℕ × ℕ)) (is : List ℕ)
      → ci < cell_count b
      → Distinct is
      → ((i : ℕ) → In i is → live (b.cells ci) i ≡ true)
      → AreLive rest
      → ((q : K) (w : V) → Among rest q w → (cj : ℕ) × (j : ℕ) × (suc ci ≤ cj) × At f b q w cj j)
      → AreLive (slots_of ci is ++ rest)
  slots-AreLive ci rest [] inside distinct alive rest_live later = rest_live
  slots-AreLive ci rest (i ∷ is) inside distinct alive rest_live later = (
    inside,
    alive i (inl refl),
    λ q w x at a. elim (Among-slots_of q x ci rest is a) [
      | inl (j, p, at') ↦ let same = (old.unique q w x ci i ci j at at').1 in distinct.0 (rw same p)
      | inr r ↦
          let (cj, j, le, at') = later q x r in
          absurd (omega (arith, le, (old.unique q w x ci i cj j at at').0))
    ],
    slots-AreLive ci rest is inside distinct.1 (λ j p. alive j (inr p)) rest_live later,
  )

  live_slots-AreLive : (n ci : ℕ) → ci + n ≤ cell_count b → AreLive (live_slots b n ci)
  live_slots-AreLive zero ci le = tt
  live_slots-AreLive (suc n) ci le =
      slots-AreLive ci (live_slots b n (suc ci)) (positions (valid_bitset (b.cells ci)))
        (omega arith) (Distinct-positions (valid_bitset (b.cells ci)) (valid_bitset-lt b ci))
        (live-In ci) (live_slots-AreLive n (suc ci) (omega arith))
        (λ q w a. Among-live_slots q w n (suc ci) a)

  pub visited-AreLive : AreLive (live_slots b (cell_count b) 0)
  visited-AreLive = live_slots-AreLive (cell_count b) 0 (omega arith)

  pub Among-Contains :
      (q : K) (w : V) → Among (live_slots b (cell_count b) 0) q w ↔ Contains f b q w
  Among-Contains q w = (
    λ a. let (cj, j, le, at) = Among-live_slots q w (cell_count b) 0 a in (cj, j, at),
    λ (cj, j, at). live-Among q w (cell_count b) 0 cj j (omega arith) (omega (arith, at.inside)) at,
  )
