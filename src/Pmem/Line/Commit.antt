-- ===== src/Pmem/Line/Commit.antt =====
-- Stores that count once the version word is stored after them.
use turbo_hash.Common.{
  ℕ, zero, suc, ◌+◌, ◌≤◌, ◌<◌, ◌≡◌, refl, ap, ◌∙◌, true, false, ◌⊎◌, inl, inr, List, [], ◌∷◌, ◌++◌,
  take, length, length-append, arith, ◌==◌,
}
use turbo_hash.Pmem.Line.{
  Place, word, same, Memory, Event, flush, one_of, run, certain, Survives, publish,
}
use turbo_hash.Pmem.Line.Cut.{
  stores_to, run-append, run_other, stores_to-take, stores_to-append, take_all, cut_after,
  take-append_le, certain-append, certain_ge, certain_le, certain-flush, take_both,
}

le_or_gt : (a b : ℕ) → (a ≤ b) ⊎ (b < a)
le_or_gt a b = omega arith

module _ (line : Place → ℕ) (m : Memory) (before : List Event) (w : ℕ) where
  -- The line of the place has all stores to it from `before`, when it has what is certain.
  abbrev pub IsCovered : Place → Type 0
  IsCovered p = (n : ℕ) → certain (line p) 0 0 before ≤ n → run m (take n before) p ≡ run m before p

  -- A memory after a crash: as before, or as the version says.
  pub record IsOld (image : Memory) : Type 0 where
    pub old_word : image word ≡ m word
    pub unchanged : (p : Place) → same word p ≡ false → stores_to p before ≡ false → image p ≡ m p

  pub record IsNew (image : Memory) : Type 0 where
    pub new_word : image word ≡ w
    pub there : (p : Place) → same word p ≡ false → IsCovered p → image p ≡ run m before p
    pub beside : (p : Place) → same word p ≡ false → line p ≡ line word → image p ≡ run m before p

  publish_other : (p : Place) → same word p ≡ false → stores_to p (publish line w) ≡ false
  publish_other p other = ground (arith, other)

  -- A line after a crash is one after a cut of all events.
  cut_of :
      (k : ℕ) (image : Memory)
      → Survives line m (take k (before ++ (publish line w))) image
      → (l : ℕ)
      → (j : ℕ) × (j ≤ k)
        × ((certain l 0 0 (take k (before ++ (publish line w))) ≤ j) ⊎ (j ≡ k))
        × ((p : Place) → line p ≡ l → image p ≡ run m (take j (before ++ (publish line w))) p)
  cut_of k image sv l =
      let s = sv l in
      let (j, le, which, both) = take_both s.cut k (before ++ (publish line w)) in
      (
        j,
        le,
        elim which [ inl e ↦ inl (rw e s.enough) | inr e ↦ inr e ],
        λ p at. s.kept p at ∙ ap (λ es. run m es p) both,
      )

  -- What a cut before the store of the version shows, and one after it.
  early_word :
      (j : ℕ)
      → j ≤ length before
      → stores_to word before ≡ false
      → run m (take j (before ++ (publish line w))) word ≡ m word
  early_word j le none =
      rw (take-append_le j before (publish line w) le)
        (run_other word (take j before) m (stores_to-take word j before none))

  late_word : (j : ℕ) → length before < j → run m (take j (before ++ (publish line w))) word ≡ w
  unfolding run
  late_word j lt =
      let (r, e, cut) = cut_after j before (publish line w) (omega (arith, lt)) in
      let pos : 0 < r = omega (arith, e, lt) in
      rw (cut, run-append m before (take r (publish line w))) (published r pos)
    where
      published : (r : ℕ) → 0 < r → run (run m before) (take r (publish line w)) word ≡ w
      published zero pos = absurd (omega arith)
      published (suc zero) pos = refl
      published (suc (suc zero)) pos = refl
      published (suc (suc (suc r))) pos = refl

  late_other :
      (j : ℕ) (p : Place)
      → length before ≤ j
      → same word p ≡ false
      → run m (take j (before ++ (publish line w))) p ≡ run m before p
  late_other j p le other =
      let (r, e, cut) = cut_after j before (publish line w) le in
      rw (cut, run-append m before (take r (publish line w)))
        (run_other p (take r (publish line w)) (run m before)
          (stores_to-take p r (publish line w) (publish_other p other)))

  pub untouched :
      (k : ℕ) (image : Memory)
      → Survives line m (take k (before ++ (publish line w))) image
      → (p : Place) → same word p ≡ false
      → stores_to p before ≡ false
      → image p ≡ m p
  untouched k image sv p other none =
      let (j, le, which, kept) = cut_of k image sv (line p) in
      let none' : stores_to p (before ++ (publish line w)) ≡ false =
        ground (arith, stores_to-append p before (publish line w), none, publish_other p other) in
      kept p refl
      ∙ run_other p (take j (before ++ (publish line w))) m
          (stores_to-take p j (before ++ (publish line w)) none')

  covered :
      (k : ℕ) (image : Memory)
      → Survives line m (take k (before ++ (publish line w))) image
      → length before < k
      → (p : Place) → same word p ≡ false
      → IsCovered p
      → image p ≡ run m before p
  covered k image sv lt p other cov =
      let (j, le, which, kept) = cut_of k image sv (line p) in kept p refl ∙ at_cut j which
    where
      sure :
          certain (line p) 0 0 before ≤ certain (line p) 0 0 (take k (before ++ (publish line w)))
      sure =
          let (r, e, cut) = cut_after k before (publish line w) (omega (arith, lt)) in
          rw
            (
              cut,
              certain-append (line p) 0 0 before (take r (publish line w)) (length before)
                  (omega arith),
            )
            (certain_ge (line p) (length before) (certain (line p) 0 0 before)
              (take r (publish line w)) (certain_le (line p) before))

      at_cut :
          (j : ℕ)
          → (certain (line p) 0 0 (take k (before ++ (publish line w))) ≤ j) ⊎ (j ≡ k)
          → run m (take j (before ++ (publish line w))) p ≡ run m before p
      at_cut j which = elim (le_or_gt (length before) j) [
        | inl late ↦ late_other j p late other
        | inr early ↦
            let enough : certain (line p) 0 0 before ≤ j = elim which [
              | inl c ↦ omega (arith, c, sure)
              | inr e ↦ absurd (omega (arith, e, lt, early))
            ] in
            rw (take-append_le j before (publish line w) (omega (arith, early))) (cov j enough)
      ]

  is_new :
      (k : ℕ) (image : Memory)
      → Survives line m (take k (before ++ (publish line w))) image
      → (j : ℕ) → j ≤ k
      → length before < j
      → ((p : Place) → line p ≡ line word → image p ≡ run m (take j (before ++ (publish line w))) p)
      → IsNew image
  is_new k image sv j le late kept = record {
    new_word = kept word refl ∙ late_word j late;
    there = covered k image sv (omega (arith, le, late));
    beside = λ p other at. kept p at ∙ late_other j p (omega (arith, late)) other;
  }

  -- A crash after any number of the events leaves a memory with the version that was there before
  -- and with every place that `before` does not store to, or one with the new version and with what
  -- `before` stored in the covered places and beside the version.
  pub crash_cases :
      (k : ℕ) (image : Memory)
      → stores_to word before ≡ false
      → Survives line m (take k (before ++ (publish line w))) image
      → IsOld image ⊎ IsNew image
  crash_cases k image none sv =
      let (j, le, which, kept) = cut_of k image sv (line word) in
      elim (le_or_gt j (length before)) [
        | inl early ↦ inl (record {
          old_word = kept word refl ∙ early_word j early none;
          unchanged = untouched k image sv;
        })
        | inr late ↦ inr (is_new k image sv j le late kept)
      ]

  -- After all events it is the second one.
  sure_all : certain (line word) 0 0 (before ++ (publish line w)) ≡ suc (length before)
  unfolding certain
  sure_all =
      let itself : (line word == line word) ≡ true = ground arith in
      certain-append (line word) 0 0 before (publish line w) (length before) (omega arith)
      ∙ rw itself refl

  pub crash_done :
      (k : ℕ) (image : Memory)
      → length before + 2 ≤ k
      → Survives line m (take k (before ++ (publish line w))) image
      → IsNew image
  crash_done k image all sv =
      let whole : take k (before ++ (publish line w)) ≡ before ++ (publish line w) =
        take_all k (before ++ (publish line w))
          (omega (arith, all, length-append before (publish line w))) in
      let (j, le, which, kept) = cut_of k image sv (line word) in
      let late : length before < j = elim which [
        | inl c ↦ let c' = rw (whole, sure_all) at c in omega (arith, c')
        | inr e ↦ omega (arith, e, all)
      ] in
      is_new k image sv j le late kept

  -- A place whose line is flushed at the end of `before`.
  pub flushed-IsCovered :
      (p : Place) (xs : List Event) (ls : List ℕ)
      → before ≡ xs ++ (flush ls ∷ [])
      → one_of (line p) ls ≡ true
      → IsCovered p
  unfolding run
  flushed-IsCovered p xs ls e among n enough =
      let sure : length xs ≤ certain (line p) 0 0 before =
        rw e (certain-flush (line p) xs ls [] among) in
      let (r, at, cut) = cut_after n xs (flush ls ∷ []) (omega (arith, sure, enough)) in
      rw (e, cut, run-append m xs (take r (flush ls ∷ [])), run-append m xs (flush ls ∷ []))
        (run_other p (take r (flush ls ∷ [])) (run m xs) (stores_to-take p r (flush ls ∷ []) refl))
