-- ===== src/Rehash/Iterate.antt =====
-- The slots that `BucketIterator` visits, and the rounds that it needs.
use turbo_hash.Common.{
  ℕ, zero, suc, ◌+◌, ◌-◌, ◌*◌, ◌^◌, bit_and, ◌≤◌, ◌<◌, ◌≡◌, refl, sym, ap, ◌∙◌, true, false, inl,
  inr, List, [], ◌∷◌, ◌++◌, length, length-append, arith, ◌==◌, ltb, Bool-cases,
}
use native.Mathlib.Nat.{one-le-pow}
use turbo_hash.BitSet.{positions, advance, lowest}
use turbo_hash.BitSet.Laws.{advance-le}
use turbo_hash.BitSet.Loop.{positions_pos, positions_zero, length-positions}
use turbo_hash.Common.Bits.{bit_and-lt, bit_not}
use turbo_hash.Cell.{valid_bitset, load_version, bit_map_mask}
use turbo_hash.Bucket.{Bucket, cell_count}
use turbo_hash.Rehash.{Iterator, to_next_valid_bit_map, settle, begin, step, valid, visit}

-- The slots of one cell, by position.
abbrev pub slots_of : ℕ → List ℕ → List (ℕ × ℕ)
slots_of ci [] = []
slots_of ci (i ∷ is) = (ci, i) ∷ slots_of ci is

module _ {E : Type 0} (b : Bucket E) where
  -- The live slots of `n` cells from `ci` on.
  abbrev pub live_slots : ℕ → ℕ → List (ℕ × ℕ)
  live_slots zero ci = []
  live_slots (suc n) ci =
      slots_of ci (positions (valid_bitset (b.cells ci))) ++ live_slots n (suc ci)

  -- What an iterator has left, with `n` cells after its own.
  abbrev left_of : Iterator → ℕ → List (ℕ × ℕ)
  left_of it n = slots_of it.cell_i (positions it.bitmap) ++ live_slots n (suc it.cell_i)

  pub valid_bitset-lt : (ci : ℕ) → valid_bitset (b.cells ci) < 2 ^ 32
  unfolding valid_bitset
  valid_bitset-lt ci =
      let v = load_version (b.cells ci) in
      let small =
        bit_and-lt 8 (bit_and v.bitmap (bit_not 32 v.bitmap_deleted)) bit_map_mask (omega arith) in
      omega (arith, small)

  -- An iterator that has gone on to the next slot, or to the end.
  data Settled (it : Iterator) (n : ℕ) : Iterator → Type 0 where
    at_slot :
        (it' : Iterator) (n' : ℕ)
        → n' ≤ n
        → it'.cell_i + suc n' ≡ cell_count b
        → 0 < it'.bitmap
        → it'.bitmap < 2 ^ 32
        → left_of it' n' ≡ left_of it n
        → Settled it n it'
    at_end : (it' : Iterator) → cell_count b ≤ it'.cell_i → left_of it n ≡ [] → Settled it n it'

  Settled-next :
      (it next : Iterator) (n : ℕ)
      → left_of next n ≡ left_of it (suc n)
      → (r : Iterator) → Settled next n r
      → Settled it (suc n) r
  Settled-next it next n same r (at_slot it' n' le e p h q) =
      at_slot it' n' (omega (arith, le)) e p h (q ∙ same)
  Settled-next it next n same r (at_end it' e q) = at_end it' e (sym same ∙ q)

  -- `toNextValidBitMap`
  to_next-Settled :
      (n : ℕ) (it : Iterator)
      → it.cell_i + suc n ≡ cell_count b
      → it.bitmap < 2 ^ 32
      → Settled it n (to_next_valid_bit_map b.cells (suc n) it)
  unfolding to_next_valid_bit_map
  to_next-Settled zero it e h = elim (Bool-cases (it.bitmap == 0)) [
    | inr some_left ↦ rw some_left (at_slot it zero (omega arith) e (ground arith) h refl)
    | inl none_left ↦
        let zeroed : it.bitmap ≡ 0 = ground arith in
        rw none_left (at_end _ (omega arith) (rw (zeroed, positions_zero) refl))
  ]
  to_next-Settled (suc n) it e h = elim (Bool-cases (it.bitmap == 0)) [
    | inr some_left ↦ rw some_left (at_slot it (suc n) (omega arith) e (ground arith) h refl)
    | inl none_left ↦
        let zeroed : it.bitmap ≡ 0 = ground arith in
        let more : (suc n == 0) ≡ false = ground arith in
        let after : it.cell_i + 1 ≡ suc it.cell_i = omega arith in
        let next : Iterator = record {
          cell_i = suc it.cell_i;
          bitmap = valid_bitset (b.cells (suc it.cell_i));
        } in
        rw (none_left, more, after)
          (Settled-next it next n (rw (zeroed, positions_zero) refl) _
            (to_next-Settled n next (omega arith) (valid_bitset-lt (suc it.cell_i))))
  ]

  settle-Settled :
      (n : ℕ) (it : Iterator)
      → it.cell_i + suc n ≡ cell_count b
      → it.bitmap < 2 ^ 32
      → Settled it n (settle b it)
  unfolding settle
  settle-Settled n it e h = elim (Bool-cases (it.bitmap == 0)) [
    | inr some_left ↦ rw some_left (at_slot it n (omega arith) e (ground arith) h refl)
    | inl none_left ↦
        let cells : cell_count b - it.cell_i ≡ suc n = omega arith in
        rw (none_left, cells) (to_next-Settled n it e h)
  ]

  visit_end : (fuel : ℕ) (it : Iterator) → cell_count b ≤ it.cell_i → visit b fuel it ≡ []
  unfolding visit valid
  visit_end zero it h = refl
  visit_end (suc fuel) it h =
      let over : ltb it.cell_i (cell_count b) ≡ false = ground arith in rw over refl

  visit-step :
      (fuel : ℕ) (it : Iterator)
      → it.cell_i < cell_count b
      → 0 < it.bitmap
      → visit b (suc fuel) it ≡ (it.cell_i, lowest it.bitmap) ∷ visit b fuel (step b it)
  unfolding visit valid
  visit-step fuel it h p =
      let inside : ltb it.cell_i (cell_count b) ≡ true = ground arith in
      let some_left : (it.bitmap == 0) ≡ false = ground arith in rw (inside, some_left) refl

  abbrev advanced : Iterator → Iterator
  advanced it = record it { bitmap = advance it.bitmap }

  left_of-advanced :
      (it : Iterator) (n : ℕ)
      → 0 < it.bitmap
      → it.bitmap < 2 ^ 32
      → left_of it n ≡ (it.cell_i, lowest it.bitmap) ∷ left_of (advanced it) n
  left_of-advanced it n p h = rw (positions_pos it.bitmap p h) refl

  visit-left_of :
      (fuel : ℕ) (it0 : Iterator) (n0 : ℕ) (it : Iterator)
      → Settled it0 n0 it
      → length (left_of it0 n0) ≤ fuel
      → visit b fuel it ≡ left_of it0 n0
  unfolding step
  visit-left_of fuel it0 n0 _ (at_end it e q) enough = visit_end fuel it e ∙ sym q
  visit-left_of zero it0 n0 _ (at_slot it n le e p h q) enough =
      let shape = ap length (sym q ∙ left_of-advanced it n p h) in absurd (omega (arith, shape))
  visit-left_of (suc fuel) it0 n0 _ (at_slot it n le e p h q) enough =
      let shape = ap length (sym q ∙ left_of-advanced it n p h) in
      let low = advance-le it.bitmap in
      visit-step fuel it (omega (arith, e)) p
      ∙ ap (λ rest. (it.cell_i, lowest it.bitmap) ∷ rest)
          (visit-left_of fuel (advanced it) n (step b it)
            (settle-Settled n (advanced it) e (omega arith)) (omega (arith, shape)))
      ∙ sym (left_of-advanced it n p h)
      ∙ q

  length-slots_of : (ci : ℕ) (is : List ℕ) → length (slots_of ci is) ≡ length is
  length-slots_of ci [] = refl
  length-slots_of ci (i ∷ is) = ap suc (length-slots_of ci is)

  length-live_slots : (n ci : ℕ) → length (live_slots n ci) ≤ 32 * n
  length-live_slots zero ci = omega arith
  length-live_slots (suc n) ci =
      let is = positions (valid_bitset (b.cells ci)) in
      omega (
        arith,
        length-append (slots_of ci is) (live_slots n (suc ci)),
        length-slots_of ci is,
        length-positions (valid_bitset (b.cells ci)) (valid_bitset-lt ci),
        length-live_slots n (suc ci),
      )

  -- The iterator of `MinorRehash` visits the live slots of every cell, in order, and each once;
  -- 32 rounds for each cell are enough.
  pub visit-live_slots : visit b (32 * cell_count b) (begin b) ≡ live_slots (cell_count b) 0
  unfolding begin
  visit-live_slots = go (cell_count b) refl
    where
      go : (n : ℕ) → n ≡ cell_count b → visit b (32 * n) (begin b) ≡ live_slots n 0
      go zero e = absurd (omega (arith, one-le-pow b.cell_shift 2))
      go (suc n) e =
          let start : Iterator = record { cell_i = 0; bitmap = valid_bitset (b.cells 0) } in
          visit-left_of (32 * suc n) start n (begin b)
            (settle-Settled n start (omega arith) (valid_bitset-lt 0)) (length-live_slots (suc n) 0)
