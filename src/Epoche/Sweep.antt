-- ===== src/Epoche/Sweep.antt =====
-- What the sweep of a deletion list calls and keeps, and the counters of the list.
use turbo_hash.Common.{
  ℕ, ◌+◌, ◌≤◌, ◌<◌, ◌≡◌, refl, ◌⊎◌, ◌↔◌, inl, inr, List, [], ◌∷◌, ◌++◌, Bool, ◌==◌, if◌then◌else◌,
  ltb, length, length-append, In, In-append, arith, Bool-cases,
}
use turbo_hash.Common.Bits.{to_bit}
use turbo_hash.Epoche.{Label, DeletionList, label_size, retire, sweep, collect, u64}

-- The list has the callback in a label of this epoch.
abbrev pub InLabels : ℕ → ℕ → List Label → Type 0
InLabels r e [] = ⊥
InLabels r e (l ∷ ls) = (In r l.nodes × (l.epoche ≡ e)) ⊎ InLabels r e ls

abbrev pub total : List Label → ℕ
total [] = 0
total (l ∷ ls) = length l.nodes + total ls

abbrev pub AreSized : List Label → Type 0
AreSized [] = Unit
AreSized (l ∷ ls) = (0 < length l.nodes) × (length l.nodes ≤ label_size) × AreSized ls

-- The counters agree with the labels.
pub record IsList (d : DeletionList) : Type 0 where
  pub sized : AreSized d.head
  pub counted : d.deletion_list_count ≡ u64 (total d.head)
  pub balanced : d.added ≡ u64 (d.deleted + total d.head)

-- How often the callback stands in a list, and in the labels of the epochs that pass a test.
abbrev pub occurs : ℕ → List ℕ → ℕ
occurs c [] = 0
occurs c (x ∷ xs) = to_bit (c == x) + occurs c xs

abbrev pub times : ℕ → (ℕ → Bool) → List Label → ℕ
times c test [] = 0
times c test (l ∷ ls) =
    let rest = times c test ls in if test l.epoche then occurs c l.nodes + rest else rest

pub occurs-append : (c : ℕ) (xs ys : List ℕ) → occurs c (xs ++ ys) ≡ occurs c xs + occurs c ys
occurs-append c [] ys = omega arith
occurs-append c (x ∷ xs) ys = omega (arith, occurs-append c xs ys)

-- The sweep with the number of times: a callback is called as often as it stands in the labels below
-- the oldest epoch, and stays as often as in each of the others.
occurs-sweep :
    (oldest : ℕ) (ls : List Label) (d : DeletionList) (c : ℕ)
    → (occurs c (sweep oldest ls d).2 ≡ times c (λ e. ltb e oldest) ls)
      × ((e : ℕ)
          → times c (λ e'. e' == e) (sweep oldest ls d).0
            ≡ (if ltb e oldest then 0 else times c (λ e'. e' == e) ls))
unfolding sweep
occurs-sweep oldest [] d c = (refl, λ e. ground arith)
occurs-sweep oldest (l ∷ ls) d c = elim (Bool-cases (ltb l.epoche oldest)) [
  | inl due ↦
      let (called, kept) = occurs-sweep oldest ls (retire l d) c in
      rw due (
        omega (arith, called, occurs-append c l.nodes (sweep oldest ls (retire l d)).2),
        λ e. ground (arith, kept e, due),
      )
  | inr stays ↦
      let (called, kept) = occurs-sweep oldest ls d c in
      rw stays (called, λ e. ground (arith, kept e, stays))
]

-- The sweep, label by label: a callback of a label below the oldest epoch is called, and the
-- other labels stay.
sweep_labels :
    (oldest : ℕ) (ls : List Label) (d : DeletionList)
    → ((r : ℕ) → In r (sweep oldest ls d).2 ↔ ((e : ℕ) × InLabels r e ls × (e < oldest)))
      × ((r e : ℕ) → InLabels r e (sweep oldest ls d).0 ↔ (InLabels r e ls × (oldest ≤ e)))
unfolding sweep
sweep_labels oldest [] d =
    (λ r. (λ h. absurd h, λ (e, h, lt). absurd h), λ r e. (λ h. absurd h, λ (h, le). absurd h))
sweep_labels oldest (l ∷ ls) d = elim (Bool-cases (ltb l.epoche oldest)) [
  | inl due ↦
      let (called, kept) = sweep_labels oldest ls (retire l d) in
      rw due (
        λ r. (
          λ h. elim ((In-append r l.nodes _).0 h) [
            | inl p ↦ (l.epoche, inl (p, refl), ground arith)
            | inr p ↦ let (e, q, lt) = (called r).0 p in (e, inr q, lt)
          ],
          λ (e, h, lt).
              (In-append r l.nodes _).1
                (elim h [ inl (p, _) ↦ inl p | inr q ↦ inr ((called r).1 (e, q, lt)) ]),
        ),
        λ r e. (
          λ h. let (p, le) = (kept r e).0 h in (inr p, le),
          λ (h, le). elim h [
            | inl (p, same) ↦ absurd (ground (arith, due, same, le))
            | inr q ↦ (kept r e).1 (q, le)
          ],
        ),
      )
  | inr stays ↦
      let (called, kept) = sweep_labels oldest ls d in
      rw stays (
        λ r. (
          λ h. let (e, q, lt) = (called r).0 h in (e, inr q, lt),
          λ (e, h, lt). elim h [
            | inl (p, same) ↦ absurd (ground (arith, stays, same, lt))
            | inr q ↦ (called r).1 (e, q, lt)
          ],
        ),
        λ r e. (
          elim [
            | inl (p, same) ↦ (inl (p, same), ground (arith, stays, same))
            | inr h ↦ let (q, le) = (kept r e).0 h in (inr q, le)
          ],
          λ (h, le). elim h [ inl (p, same) ↦ inl (p, same) | inr q ↦ inr ((kept r e).1 (q, le)) ],
        ),
      )
]

-- The counters after a sweep of the labels `ls`, with `rest` callbacks in other labels.
sweep_counters :
    (oldest : ℕ) (ls : List Label) (d : DeletionList) (rest : ℕ)
    → AreSized ls
    → d.deletion_list_count ≡ u64 (rest + total ls)
    → d.added ≡ u64 (d.deleted + (rest + total ls))
    → let r = sweep oldest ls d in
      AreSized r.0
      × (r.1.deletion_list_count ≡ u64 (rest + total r.0))
      × (r.1.added ≡ u64 (r.1.deleted + (rest + total r.0)))
      × (length r.2 + total r.0 ≡ total ls)
unfolding sweep retire
sweep_counters oldest [] d rest sized counted balanced = (tt, counted, balanced, refl)
sweep_counters oldest (l ∷ ls) d rest (pos, small, sized) counted balanced =
    elim (Bool-cases (ltb l.epoche oldest)) [
      | inl due ↦
          let (sized', counted', balanced', all) =
            sweep_counters oldest ls (retire l d) rest sized (omega arith) (omega arith) in
          rw due (
            sized',
            counted',
            balanced',
            omega (arith, all, length-append l.nodes (sweep oldest ls (retire l d)).2),
          )
      | inr stays ↦
          let (sized', counted', balanced', all) =
            sweep_counters oldest ls d (rest + length l.nodes) sized (omega arith) (omega arith) in
          rw stays ((pos, small, sized'), omega arith, omega arith, omega (arith, all))
    ]

-- What the end of `exitEpocheAndCleanup` promises of the list after it and of the callbacks called.
pub record Collects (oldest : ℕ) (d : DeletionList) (r : DeletionList × List ℕ) : Type 0 where
  pub valid : IsList r.0
  pub called : (c : ℕ) → In c r.1 ↔ ((e : ℕ) × InLabels c e d.head × (e < oldest))
  pub kept : (c e : ℕ) → InLabels c e r.0.head ↔ (InLabels c e d.head × (oldest ≤ e))
  pub called_times : (c : ℕ) → occurs c r.1 ≡ times c (λ e. ltb e oldest) d.head
  pub kept_times :
      (c e : ℕ)
      → times c (λ e'. e' == e) r.0.head
        ≡ (if ltb e oldest then 0 else times c (λ e'. e' == e) d.head)
  pub all : length r.1 + total r.0.head ≡ total d.head
  pub reset : r.0.threshold_counter ≡ 0

-- The sweep of a list whose counters agree with its labels calls exactly the callbacks in labels
-- of an epoch below the oldest one, each as often as it stands there, keeps exactly the others, each
-- as often as it stands in the labels of each epoch, and leaves a list whose counters agree with its
-- labels and whose threshold counter is 0.
pub collect-Collects :
    (oldest : ℕ) (d : DeletionList) → IsList d → Collects oldest d (collect oldest d)
unfolding collect
collect-Collects oldest d valid =
    let (called, kept) = sweep_labels oldest d.head d in
    let (sized, counted, balanced, all) =
      sweep_counters oldest d.head d 0 valid.sized (omega (arith, valid.counted))
        (omega (arith, valid.balanced)) in
    record {
      valid = record {
        sized = sized;
        counted = omega (arith, counted);
        balanced = omega (arith, balanced);
      };
      called = called;
      kept = kept;
      called_times = λ c. (occurs-sweep oldest d.head d c).0;
      kept_times = λ c e. (occurs-sweep oldest d.head d c).1 e;
      all = all;
      reset = refl;
    }
