-- ===== src/Epoche/Exit.antt =====
-- What `exitEpocheAndCleanup` does on each branch, and what `~Epoche` does to a list.
use turbo_hash.Common.{
  ℕ, zero, suc, true, ◌+◌, ◌^◌, ◌≤◌, ◌<◌, ◌≡◌, ◌≢◌, refl, ◌⊎◌, ◌↔◌, inl, inr, List, [], ◌∷◌, ◌==◌,
  ltb, length, length-append, In, In-append, arith, Bool-cases,
}
use turbo_hash.Cell.{update}
use turbo_hash.Epoche.{
  Label, DeletionList, Epoche, retire, collect, u64, oldest_epoche, no_epoche, store_epoche,
  set_list, advance_epoche, size, exit_epoche_and_cleanup, drain,
}
use turbo_hash.Epoche.Sweep.{
  InLabels, total, AreSized, IsList, occurs, times, occurs-append, collect-Collects,
}

-- The oldest epoch is a lower bound of the threads' epochs, and the greatest one.
pub oldest_epoche-le :
    (lists : ℕ → DeletionList) (n i : ℕ) → i < n → oldest_epoche lists n ≤ (lists i).local_epoche
unfolding oldest_epoche
oldest_epoche-le lists zero i lt = absurd (omega arith)
oldest_epoche-le lists (suc n) i lt = elim (Bool-cases (i == n)) [
  | inl last ↦ let e : i ≡ n = ground arith in rw e (ground arith)
  | inr before ↦ ground (arith, oldest_epoche-le lists n i)
]

pub le-oldest_epoche :
    (lists : ℕ → DeletionList) (n e : ℕ)
    → e ≤ no_epoche
    → ((i : ℕ) → i < n → e ≤ (lists i).local_epoche)
    → e ≤ oldest_epoche lists n
unfolding oldest_epoche
le-oldest_epoche lists zero e small below = small
le-oldest_epoche lists (suc n) e small below =
    let rest = le-oldest_epoche lists n e small (λ i lt. below i (omega arith)) in
    ground (arith, rest, below n (omega arith))

-- What `exitEpocheAndCleanup` of thread `i` promises of the state after it and of the callbacks called.
pub record Exits (i : ℕ) (s : Epoche) (r : Epoche × List ℕ) : Type 0 where
  pub valid : IsList (r.0.deletion_lists i)
  pub others : (j : ℕ) → i ≢ j → r.0.deletion_lists j ≡ s.deletion_lists j
  pub epoche :
      r.0.current_epoche ≡ advance_epoche (s.deletion_lists i).threshold_counter s.current_epoche
  pub called :
      (c : ℕ)
      → In c r.1
      → (e : ℕ) × InLabels c e (s.deletion_lists i).head
        × ((j : ℕ) → j < s.threads → i ≢ j → e < (s.deletion_lists j).local_epoche)
  pub kept :
      (c e : ℕ)
      → InLabels c e (s.deletion_lists i).head
      → In c r.1 ⊎ InLabels c e (r.0.deletion_lists i).head
  pub below_threshold :
      (s.deletion_lists i).threshold_counter ≤ s.start_gc_threshold
      → (r.1 ≡ []) × (r.0.deletion_lists i ≡ s.deletion_lists i)
  pub all :
      s.start_gc_threshold < (s.deletion_lists i).threshold_counter
      → ((c e : ℕ)
          → InLabels c e (s.deletion_lists i).head
          → (e < no_epoche)
            × ((j : ℕ) → j < s.threads → i ≢ j → e < (s.deletion_lists j).local_epoche))
      → (c e : ℕ) → InLabels c e (s.deletion_lists i).head
      → In c r.1

empty-InLabels : (ls : List Label) → AreSized ls → total ls ≡ 0 → (c e : ℕ) → InLabels c e ls → ⊥
empty-InLabels [] sized none c e h = h
empty-InLabels (l ∷ ls) sized none c e h = omega (arith, sized.0)

module _ (i : ℕ) (s : Epoche) (valid : IsList (s.deletion_lists i)) where
  abbrev own : DeletionList
  own = s.deletion_lists i

  abbrev advanced : Epoche
  advanced = record s { current_epoche = advance_epoche own.threshold_counter s.current_epoche }

  stays-Exits : own.threshold_counter ≤ s.start_gc_threshold → Exits i s (advanced, [])
  stays-Exits few = record {
    valid = valid;
    others = λ j other. refl;
    epoche = refl;
    called = λ c h. absurd h;
    kept = λ c e h. inr h;
    below_threshold = λ le. (refl, refl);
    all = λ lt. absurd (omega arith);
  }

  empty-Exits :
      total own.head < 2 ^ 64
      → s.start_gc_threshold < own.threshold_counter
      → size own ≡ 0
      → Exits i s (set_list advanced i (record own { threshold_counter = 0 }), [])
  empty-Exits fits many none =
      let no_labels =
        empty-InLabels own.head valid.sized (omega (arith, valid.counted, fits, none)) in
      record {
        valid = ground (arith, valid);
        others = λ j other. ground (arith, other);
        epoche = refl;
        called = λ c h. absurd h;
        kept = λ c e h. absurd (no_labels c e h);
        below_threshold = λ le. absurd (omega arith);
        all = λ lt above c e h. absurd (no_labels c e h);
      }

  abbrev silent : DeletionList
  silent = store_epoche no_epoche own

  abbrev oldest : ℕ
  oldest = oldest_epoche (update s.deletion_lists i silent) s.threads

  collect-Exits :
      s.start_gc_threshold < own.threshold_counter
      → Exits i s (
        set_list (set_list advanced i silent) i (collect oldest silent).0,
        (collect oldest silent).1,
      )
  collect-Exits many =
      let good : IsList silent = record {
        sized = valid.sized;
        counted = valid.counted;
        balanced = valid.balanced;
      } in
      let collects = collect-Collects oldest silent good in
      record {
        valid = ground (arith, collects.valid);
        others = λ j other. ground (arith, other);
        epoche = refl;
        called = λ c h.
            let (e, m, lt) = (collects.called c).0 h in
            (
              e,
              m,
              λ j in_range other.
                  let le =
                    oldest_epoche-le (update s.deletion_lists i silent) s.threads j in_range in
                  ground (arith, lt, le, other),
            );
        kept = λ c e h. elim (Bool-cases (ltb e oldest)) [
          | inl due ↦ inl ((collects.called c).1 (e, h, ground (arith, due)))
          | inr young ↦ inr (ground (arith, (collects.kept c e).1 (h, ground (arith, young))))
        ];
        below_threshold = λ le. absurd (omega arith);
        all = λ lt above c e h.
            let next_le : e + 1 ≤ oldest =
              le-oldest_epoche (update s.deletion_lists i silent) s.threads (e + 1)
                (omega (arith, (above c e h).0))
                (λ j in_range. ground (arith, (above c e h).0, (above c e h).1 j in_range)) in
            (collects.called c).1 (e, h, omega arith);
      }

-- With a list whose counters agree with its labels and that has fewer than 2^64 callbacks,
-- `exitEpocheAndCleanup` changes only the list of its thread and keeps its counters in agreement,
-- advances the epoch if the low six bits of the counter are 1, calls only callbacks of an epoch
-- below the epochs of all other threads, and loses none. At most at the threshold it calls none
-- and keeps the list; above it, it calls all if their epochs are below those of all other threads.
pub exit_epoche_and_cleanup-Exits :
    (i : ℕ) (s : Epoche)
    → IsList (s.deletion_lists i)
    → total (s.deletion_lists i).head < 2 ^ 64
    → Exits i s (exit_epoche_and_cleanup i s)
unfolding exit_epoche_and_cleanup
exit_epoche_and_cleanup-Exits i s valid fits =
    elim (Bool-cases (ltb s.start_gc_threshold (s.deletion_lists i).threshold_counter)) [
      | inl many ↦ elim (Bool-cases (size (s.deletion_lists i) == 0)) [
        | inl none ↦
            rw many
              (rw none (empty-Exits i s valid fits (ground (arith, many)) (ground (arith, none))))
        | inr some_left ↦
            let same : update s.deletion_lists i (store_epoche no_epoche (s.deletion_lists i)) i
                ≡ store_epoche no_epoche (s.deletion_lists i) =
              ground arith in
            rw many (rw some_left (rw same (collect-Exits i s valid (ground (arith, many)))))
      ]
      | inr few ↦ rw few (stays-Exits i s valid (ground (arith, few)))
    ]

drain_called :
    (ls : List Label) (d : DeletionList) (c : ℕ) → In c (drain ls d).1 ↔ ((e : ℕ) × InLabels c e ls)
unfolding drain
drain_called [] d c = (λ h. absurd h, λ (e, h). absurd h)
drain_called (l ∷ ls) d c =
    let rest = drain_called ls (retire l d) c in
    (
      λ h. elim ((In-append c l.nodes _).0 h) [
        | inl p ↦ (l.epoche, inl (p, refl))
        | inr p ↦ let (e, q) = rest.0 p in (e, inr q)
      ],
      λ (e, h).
          (In-append c l.nodes _).1 (elim h [ inl (p, _) ↦ inl p | inr q ↦ inr (rest.1 (e, q)) ]),
    )

length-drain : (ls : List Label) (d : DeletionList) → length (drain ls d).1 ≡ total ls
unfolding drain
length-drain [] d = refl
length-drain (l ∷ ls) d =
    omega (arith, length-append l.nodes (drain ls (retire l d)).1, length-drain ls (retire l d))

drain_counters :
    (ls : List Label) (d : DeletionList)
    → AreSized ls
    → d.deletion_list_count ≡ u64 (total ls)
    → d.added ≡ u64 (d.deleted + total ls)
    → ((drain ls d).0.deletion_list_count ≡ 0) × ((drain ls d).0.added ≡ u64 (drain ls d).0.deleted)
unfolding drain retire
drain_counters [] d sized counted balanced = (omega (arith, counted), omega (arith, balanced))
drain_counters (l ∷ ls) d (pos, small, sized) counted balanced =
    drain_counters ls (retire l d) sized (omega arith) (omega arith)

occurs-drain :
    (ls : List Label) (d : DeletionList) (c : ℕ) → occurs c (drain ls d).1 ≡ times c (λ e. true) ls
unfolding drain
occurs-drain [] d c = refl
occurs-drain (l ∷ ls) d c =
    omega (arith, occurs-drain ls (retire l d) c, occurs-append c l.nodes (drain ls (retire l d)).1)

-- What `~Epoche` does to the list of one thread: it calls every callback in a label, each as often
-- as it stands there, and with a list whose counters agree with its labels the count of the list
-- is then 0 and as many callbacks were called as added.
pub drain_lem :
    (d : DeletionList)
    → IsList d
    → ((c : ℕ) → In c (drain d.head d).1 ↔ ((e : ℕ) × InLabels c e d.head))
      × ((c : ℕ) → occurs c (drain d.head d).1 ≡ times c (λ e. true) d.head)
      × (length (drain d.head d).1 ≡ total d.head)
      × ((drain d.head d).0.deletion_list_count ≡ 0)
      × ((drain d.head d).0.added ≡ u64 (drain d.head d).0.deleted)
drain_lem d valid = (
  drain_called d.head d,
  occurs-drain d.head d,
  length-drain d.head d,
  (drain_counters d.head d valid.sized valid.counted valid.balanced).0,
  (drain_counters d.head d valid.sized valid.counted valid.balanced).1,
)
