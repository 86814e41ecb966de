-- ===== src/Epoche/Mark.antt =====
-- What `markNodeForDeletion` adds to a deletion list.
use turbo_hash.Common.{
  ℕ, ◌+◌, ◌≤◌, ◌≡◌, refl, sym, ◌⊎◌, ◌↔◌, inl, inr, List, [], ◌∷◌, ltb, length, length-append, In,
  In-append, arith, Bool-cases,
}
use turbo_hash.Epoche.{Label, DeletionList, open_label, add, mark}
use turbo_hash.Epoche.Sweep.{InLabels, total, AreSized, IsList}

-- The label that `add` writes to, with the labels behind it, in terms of the list before.
pub record Opens (head : List Label) (r : Label × List Label × List Label) : Type 0 where
  pub room : length r.0.nodes ≤ 31
  pub sized : AreSized r.1
  pub same_total : length r.0.nodes + total r.1 ≡ total head
  pub found :
      (c e : ℕ) → InLabels c e head ↔ ((In c r.0.nodes × (r.0.epoche ≡ e)) ⊎ InLabels c e r.1)

open_label-Opens : (head free : List Label) → AreSized head → Opens head (open_label head free)
unfolding open_label
open_label-Opens [] free sized = record {
  room = omega arith;
  sized = tt;
  same_total = refl;
  found = λ c e. (λ h. absurd h, elim [ inl (p, _) ↦ p | inr p ↦ p ]);
}
open_label-Opens (h ∷ ls) free sized = elim (Bool-cases (ltb (length h.nodes) 32)) [
  | inl room ↦ rw room record {
    room = ground arith;
    sized = sized.2;
    same_total = refl;
    found = λ c e. (λ p. p, λ p. p);
  }
  | inr full ↦ rw full record {
    room = omega arith;
    sized = sized;
    same_total = omega arith;
    found = λ c e. (λ p. inr p, elim [ inl (p, _) ↦ absurd p | inr p ↦ p ]);
  }
]

module _ (callback e : ℕ) (d : DeletionList) (valid : IsList d) where
  abbrev opened : Label × List Label × List Label
  opened = open_label d.head d.free_labels

  opens : Opens d.head opened
  opens = open_label-Opens d.head d.free_labels valid.sized

  pub mark-IsList : IsList (mark callback e d)
  unfolding mark add
  mark-IsList =
      let one_more = length-append opened.0.nodes (callback ∷ []) in
      record {
        sized = (omega (arith, one_more), omega (arith, one_more, opens.room), opens.sized);
        counted = omega (arith, one_more, opens.same_total, valid.counted);
        balanced = omega (arith, one_more, opens.same_total, valid.balanced);
      }

  -- After a mark the list has the new callback at the epoch of the mark; the other callbacks are
  -- those that it had, each at its epoch or at the one of the mark.
  pub mark-InLabels :
      (c e' : ℕ)
      → InLabels c e' (mark callback e d).head
      → ((c ≡ callback) × (e' ≡ e))
        ⊎ (InLabels c e' d.head ⊎ ((e' ≡ e) × ((e0 : ℕ) × InLabels c e0 d.head)))
  unfolding mark add
  mark-InLabels c e' (inl (p, same)) = elim ((In-append c opened.0.nodes (callback ∷ [])).0 p) [
    | inl old ↦
        inr (inr (sym same, (opened.0.epoche, (opens.found c opened.0.epoche).1 (inl (old, refl)))))
    | inr (inl new) ↦ inl (new, sym same)
    | inr (inr none_left) ↦ absurd none_left
  ]
  mark-InLabels c e' (inr p) = inr (inl ((opens.found c e').1 (inr p)))

  pub InLabels-mark :
      (InLabels callback e (mark callback e d).head)
      × ((c e0 : ℕ)
          → InLabels c e0 d.head
          → InLabels c e0 (mark callback e d).head ⊎ InLabels c e (mark callback e d).head)
  unfolding mark add
  InLabels-mark = (
    inl ((In-append callback opened.0.nodes (callback ∷ [])).1 (inr (inl refl)), refl),
    λ c e0 h. elim ((opens.found c e0).0 h) [
      | inl (p, _) ↦ inr (inl ((In-append c opened.0.nodes (callback ∷ [])).1 (inl p), refl))
      | inr p ↦ inl (inr p)
    ],
  )

-- What `markNodeForDeletion` promises of the list after it.
pub record Marks (callback e : ℕ) (d d' : DeletionList) : Type 0 where
  pub valid : IsList d'
  pub new : InLabels callback e d'.head
  pub old : (c e0 : ℕ) → InLabels c e0 d.head → InLabels c e0 d'.head ⊎ InLabels c e d'.head
  pub only :
      (c e' : ℕ)
      → InLabels c e' d'.head
      → ((c ≡ callback) × (e' ≡ e))
        ⊎ (InLabels c e' d.head ⊎ ((e' ≡ e) × ((e0 : ℕ) × InLabels c e0 d.head)))

-- A mark keeps the counters in agreement with the labels and no label over 32 callbacks, adds the
-- callback at the epoch of the mark, and loses none: a callback that was in the list stays at its
-- epoch or moves to the one of the mark, and no other callback comes in.
pub mark-Marks :
    (callback e : ℕ) (d : DeletionList) → IsList d → Marks callback e d (mark callback e d)
mark-Marks callback e d valid = record {
  valid = mark-IsList callback e d valid;
  new = (InLabels-mark callback e d valid).0;
  old = (InLabels-mark callback e d valid).1;
  only = mark-InLabels callback e d valid;
}

pub local_epoche-mark :
    (callback e : ℕ) (d : DeletionList) → (mark callback e d).local_epoche ≡ d.local_epoche
unfolding mark add
local_epoche-mark callback e d = refl
