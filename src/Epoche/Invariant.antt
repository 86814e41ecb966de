-- ===== src/Epoche/Invariant.antt =====
-- What holds in every state that the threads reach of the records that a thread took when its epoch
-- was visible and before they were marked.
use turbo_hash.Common.{
  ℕ, suc, ◌≤◌, ◌<◌, ◌≡◌, ◌≢◌, refl, Bool, true, false, ◌||◌, ◌⊎◌, inl, inr, ◌==◌, List, [], ◌∷◌,
  ◌++◌, In, In-append, arith, Bool-cases,
}
use turbo_hash.Cell.{update}
use turbo_hash.Epoche.{DeletionList, mark, no_epoche, store_epoche}
use turbo_hash.Epoche.Sweep.{InLabels, IsList}
use turbo_hash.Epoche.Mark.{Marks, mark-Marks, local_epoche-mark}
use turbo_hash.Epoche.System.{
  Pc, out, loaded, inside, leaving, scanning, System, older, pending, set_pc, set_lists, set_buffer,
  let_go,
}

-- The thread took the record when its epoch was visible, and before the record was marked.
abbrev pub Took : System → ℕ → ℕ → Type 0
Took s b r = (s.holds b r ≡ true) × (s.unseen b r ≡ false) × (s.late b r ≡ false)

-- The record is marked, and who took it before entered at the epoch `e` or before.
pub record IsRetired (s : System) (r e : ℕ) : Type 0 where
  pub marked : s.marked r ≡ true
  pub entered : (b : ℕ) → Took s b r → (s.lists b).local_epoche ≤ e

pub record Inv (n : ℕ) (s : System) : Type 0 where
  pub valid : (i : ℕ) → IsList (s.lists i)
  pub early : (i e : ℕ) → s.pc i ≡ loaded e → e ≤ s.current
  pub buffered : (i e : ℕ) → In e (s.buffer i) → e ≤ s.current
  pub entered : (i : ℕ) → s.pc i ≡ inside → s.buffer i ≡ [] → (s.lists i).local_epoche ≤ s.current
  pub holder : (b r : ℕ) → s.holds b r ≡ true → (b < n) × (s.pc b ≡ inside)
  pub drained : (b r : ℕ) → Took s b r → s.buffer b ≡ []
  pub alive : (b r : ℕ) → Took s b r → s.freed r ≡ false
  pub retired : (i r e : ℕ) → InLabels r e (s.lists i).head → IsRetired s r e
  pub scanned :
      (i k oldest r e b : ℕ)
      → s.pc i ≡ scanning k oldest
      → InLabels r e (s.lists i).head
      → Took s b r
      → b < k
      → oldest ≤ (s.lists b).local_epoche
  pub gone : (r : ℕ) → s.freed r ≡ true → s.marked r ≡ true
  pub fair : (r : ℕ) → s.marked r ≡ true → s.hasty r ≡ false → s.linked r ≡ false
  pub hurried : (b r : ℕ) → s.late b r ≡ true → s.hasty r ≡ true

not_empty : (es : List ℕ) (e : ℕ) → es ++ (e ∷ []) ≡ [] → ⊥
not_empty [] e h = cc
not_empty (x ∷ es) e h = cc

pending-empty : (es : List ℕ) → pending es ≡ false → es ≡ []
pending-empty [] h = refl
pending-empty (e ∷ es) h = cc

module _ {n : ℕ} {s : System} (inv : Inv n s) (i : ℕ) where
  open inv use {
    valid, early, buffered, entered, holder, drained, alive, retired, scanned, gone, fair, hurried,
  }

  -- A thread that holds nothing goes on, but not into the table nor behind a list.
  pub load_epoche-Inv : s.pc i ≡ out → Inv n (set_pc s i (loaded s.current))
  load_epoche-Inv at = record {
    valid = valid;
    early = λ j e p. ground (arith, early j e);
    buffered = buffered;
    entered = λ j p q. ground (arith, entered j);
    holder = λ b r h. ground (arith, holder b r h);
    drained = drained;
    alive = alive;
    retired = λ j r e h.
        let old = retired j r e h in record { marked = old.marked; entered = old.entered };
    scanned = λ j k oldest r e b p q t lt. ground (arith, scanned j k oldest r e b);
    gone = gone;
    fair = fair;
    hurried = hurried;
  }

  pub save_epoche-Inv :
      (e : ℕ)
      → s.pc i ≡ loaded e
      → Inv n (set_buffer (set_pc s i inside) i (s.buffer i ++ (e ∷ [])))
  save_epoche-Inv e at = record {
    valid = valid;
    early = λ j e' p. ground (arith, early j e');
    buffered = λ j e' m. elim (Bool-cases (i == j)) [
      | inl here ↦
          let m' : In e' (s.buffer i ++ (e ∷ [])) = rw here at m in
          elim ((In-append e' (s.buffer i) (e ∷ [])).0 m') [
            | inl before ↦ buffered i e' before
            | inr (inl now) ↦ rw now (early i e at)
            | inr (inr none) ↦ absurd none
          ]
      | inr other ↦ buffered j e' (rw other at m)
    ];
    entered = λ j p q. elim (Bool-cases (i == j)) [
      | inl here ↦ absurd (not_empty (s.buffer i) e (rw here at q))
      | inr other ↦ entered j (rw other at p) (rw other at q)
    ];
    holder = λ b r h. ground (arith, holder b r h);
    drained = λ b r t. ground (arith, drained b r t, holder b r t.0);
    alive = alive;
    retired = λ j r e' h.
        let old = retired j r e' h in record { marked = old.marked; entered = old.entered };
    scanned = λ j k oldest r e' b p q t lt. ground (arith, scanned j k oldest r e' b);
    gone = gone;
    fair = fair;
    hurried = hurried;
  }

  pub drain_store-Inv :
      (e : ℕ) (es : List ℕ)
      → s.buffer i ≡ e ∷ es
      → Inv n (set_buffer (set_lists s i (store_epoche e (s.lists i))) i es)
  drain_store-Inv e es at = record {
    valid = λ j. ground (arith, valid j, valid i);
    early = early;
    buffered = λ j e' m. elim (Bool-cases (i == j)) [
      | inl here ↦ let m' : In e' es = rw here at m in buffered i e' (rw at (inr m'))
      | inr other ↦ buffered j e' (rw other at m)
    ];
    entered = λ j p q.
        let first : e ≤ s.current = buffered i e (rw at (inl refl)) in
        ground (arith, entered j, first);
    holder = holder;
    drained = λ b r t. ground (arith, drained b r t);
    alive = alive;
    retired = λ j r e' h.
        let old : IsRetired s r e' = ground (arith, retired j r e', retired i r e') in
        record {
          marked = old.marked;
          entered = λ b t. ground (arith, old.entered b t, drained b r t);
        };
    scanned =
        λ j k oldest r e' b p q t lt. ground (arith, scanned j k oldest r e' b, drained b r t);
    gone = gone;
    fair = fair;
    hurried = hurried;
  }

  pub acquire-Inv :
      (r : ℕ)
      → i < n
      → s.pc i ≡ inside
      → s.linked r ≡ true
      → Inv n (record s {
        holds = update s.holds i (update (s.holds i) r true);
        late = update s.late i (update (s.late i) r (s.marked r));
        unseen = update s.unseen i (update (s.unseen i) r (pending (s.buffer i)));
      })
  acquire-Inv r lt at linked = record {
    valid = valid;
    early = early;
    buffered = buffered;
    entered = entered;
    holder = λ b r' h. ground (arith, holder b r');
    drained = λ b r' t. ground (arith, drained b r', pending-empty (s.buffer i));
    alive = λ b r' t. ground (arith, alive b r', gone r', Bool-cases (s.freed r'));
    retired = λ j r' e h.
        let old = retired j r' e h in
        record { marked = old.marked; entered = λ b t. ground (arith, old.entered b, old.marked) };
    scanned = λ j k oldest r' e b p q t lt'.
        ground (arith, scanned j k oldest r' e b p q, (retired j r' e q).marked);
    gone = gone;
    fair = fair;
    hurried = λ b r' h. ground (arith, hurried b r', fair r', linked, Bool-cases (s.hasty r'));
  }

  pub unlink-Inv : (r : ℕ) → Inv n (record s { linked = update s.linked r false })
  unlink-Inv r = record {
    valid = valid;
    early = early;
    buffered = buffered;
    entered = entered;
    holder = holder;
    drained = drained;
    alive = alive;
    retired = λ j r' e h.
        let old = retired j r' e h in record { marked = old.marked; entered = old.entered };
    scanned = scanned;
    gone = gone;
    fair = λ r' h f. ground (arith, fair r' h f);
    hurried = hurried;
  }

  -- A thread lets go of its records, and the epoch may advance.
  pub let_go-Inv :
      (current : ℕ) (p : Pc)
      → s.current ≤ current
      → (p ≡ out) ⊎ (p ≡ leaving)
      → Inv n (record (let_go (set_pc s i p) i) { current = current })
  let_go-Inv current p le where_to = record {
    valid = valid;
    early = λ j e q. ground (arith, early j e);
    buffered = λ j e m. ground (arith, buffered j e m);
    entered = λ j q none. ground (arith, entered j);
    holder = λ b r h. ground (arith, holder b r);
    drained = λ b r t. ground (arith, drained b r);
    alive = λ b r t. ground (arith, alive b r);
    retired = λ j r e h.
        let old = retired j r e h in
        record { marked = old.marked; entered = λ b t. ground (arith, old.entered b) };
    scanned = λ j k oldest r e b q m t lt. ground (arith, scanned j k oldest r e b);
    gone = gone;
    fair = fair;
    hurried = hurried;
  }

  -- A thread that is not inside goes on.
  pub go_on-Inv :
      (p : Pc) → s.pc i ≢ inside → (p ≡ out) ⊎ (p ≡ scanning 0 no_epoche) → Inv n (set_pc s i p)
  go_on-Inv p at where_to = record {
    valid = valid;
    early = λ j e q. ground (arith, early j e);
    buffered = buffered;
    entered = λ j q none. ground (arith, entered j);
    holder = λ b r h. ground (arith, holder b r h);
    drained = drained;
    alive = alive;
    retired = λ j r e h.
        let old = retired j r e h in record { marked = old.marked; entered = old.entered };
    scanned = λ j k oldest r e b q m t lt. ground (arith, scanned j k oldest r e b);
    gone = gone;
    fair = fair;
    hurried = hurried;
  }

  pub scan-Inv :
      (k oldest : ℕ)
      → s.pc i ≡ scanning k oldest
      → Inv n (set_pc s i (scanning (suc k) (older (s.lists k).local_epoche oldest)))
  scan-Inv k oldest at = record {
    valid = valid;
    early = λ j e q. ground (arith, early j e);
    buffered = buffered;
    entered = λ j q none. ground (arith, entered j);
    holder = λ b r h. ground (arith, holder b r h);
    drained = drained;
    alive = alive;
    retired = λ j r e h.
        let old = retired j r e h in record { marked = old.marked; entered = old.entered };
    scanned = λ j k' oldest' r e b q m t lt.
        ground (arith, scanned j k' oldest' r e b, scanned i k oldest r e b);
    gone = gone;
    fair = fair;
    hurried = hurried;
  }

  -- The list of a thread that is not inside becomes another without more labels.
  pub relist-Inv :
      (d : DeletionList)
      → IsList d
      → ((r e : ℕ) → InLabels r e d.head → InLabels r e (s.lists i).head)
      → s.pc i ≢ inside
      → Inv n (set_lists s i d)
  relist-Inv d good fewer not_inside = record {
    valid = λ j. ground (arith, valid j);
    early = early;
    buffered = buffered;
    entered = λ j q none. ground (arith, entered j);
    holder = holder;
    drained = drained;
    alive = alive;
    retired = λ j r e h.
        let old : IsRetired s r e = ground (arith, retired j r e, retired i r e, fewer r e) in
        record {
          marked = old.marked;
          entered = λ b t. ground (arith, old.entered b t, holder b r t.0);
        };
    scanned = λ j k oldest r e b q m t lt.
        ground (arith, scanned j k oldest r e b q, holder b r t.0, fewer r e);
    gone = gone;
    fair = fair;
    hurried = hurried;
  }

  pub mark_node-Inv :
      (r : ℕ)
      → s.pc i ≡ inside
      → Inv n (record (set_lists s i (mark r s.current (s.lists i))) {
        marked = update s.marked r true;
        hasty = update s.hasty r (s.hasty r || s.linked r);
      })
  mark_node-Inv r at = record {
    valid = λ j. ground (arith, valid j, marks.valid);
    early = early;
    buffered = buffered;
    entered = λ j q none. ground (arith, entered j, same_epoche);
    holder = holder;
    drained = drained;
    alive = alive;
    retired = λ j r' e h. elim (Bool-cases (i == j)) [
      | inl here ↦
          let h' : InLabels r' e (mark r s.current (s.lists i)).head = rw here at h in
          elim (marks.only r' e h') [
            | inl (same, now) ↦ record {
              marked = ground (arith, same);
              entered = λ b t. rw now (epoche_of b (inside_of b r' t) (drained b r' t));
            }
            | inr (inl before) ↦ before_mark r' e i before
            | inr (inr (now, (e0, before))) ↦ record {
              marked = (before_mark r' e0 i before).marked;
              entered = λ b t. rw now (epoche_of b (inside_of b r' t) (drained b r' t));
            }
          ]
      | inr other ↦ let h' : InLabels r' e (s.lists j).head = rw other at h in before_mark r' e j h'
    ];
    scanned = λ j k oldest r' e b q m t lt. elim (Bool-cases (i == j)) [
      | inl here ↦ absurd (ground (arith, here, at, q))
      | inr other ↦
          let m' : InLabels r' e (s.lists j).head = rw other at m in
          ground (arith, scanned j k oldest r' e b q m' t lt, same_epoche)
    ];
    gone = λ r' h. ground (arith, gone r' h);
    fair = λ r' h f. ground (arith, fair r', Bool-cases (s.linked r'));
    hurried = λ b r' h. ground (arith, hurried b r' h);
  }
    where
      marks : Marks r s.current (s.lists i) (mark r s.current (s.lists i))
      marks = mark-Marks r s.current (s.lists i) (valid i)

      same_epoche : (mark r s.current (s.lists i)).local_epoche ≡ (s.lists i).local_epoche
      same_epoche = local_epoche-mark r s.current (s.lists i)

      inside_of : (b r' : ℕ) → Took s b r' → s.pc b ≡ inside
      inside_of b r' t = (holder b r' t.0).1

      epoche_of :
          (b : ℕ)
          → s.pc b ≡ inside
          → s.buffer b ≡ []
          → (update s.lists i (mark r s.current (s.lists i)) b).local_epoche ≤ s.current
      epoche_of b q none = ground (arith, entered b q none, same_epoche)

      before_mark :
          (r' e j : ℕ)
          → InLabels r' e (s.lists j).head
          → IsRetired
              (record (set_lists s i (mark r s.current (s.lists i))) {
                marked = update s.marked r true;
                hasty = update s.hasty r (s.hasty r || s.linked r);
              })
              r'
              e
      before_mark r' e j before = record {
        marked = ground (arith, (retired j r' e before).marked);
        entered = λ b t. ground (arith, (retired j r' e before).entered b t, same_epoche);
      }

  -- The callbacks of the labels below the oldest epoch of all threads are called.
  pub free-Inv :
      (oldest : ℕ) (freed' : ℕ → Bool)
      → s.pc i ≡ scanning n oldest
      → ((r : ℕ)
          → freed' r ≡ true
          → (s.freed r ≡ true) ⊎ ((e : ℕ) × InLabels r e (s.lists i).head × (e < oldest)))
      → Inv n (record (set_pc s i out) { freed = freed' })
  free-Inv oldest freed' at freed_only = record {
    valid = valid;
    early = λ j e p. ground (arith, early j e);
    buffered = buffered;
    entered = λ j p none. ground (arith, entered j);
    holder = λ b r h. ground (arith, holder b r h, at);
    drained = drained;
    alive = λ b r t. elim (Bool-cases (freed' r)) [
      | inl yes_freed ↦ elim (freed_only r yes_freed) [
        | inl before ↦ let still = alive b r t in absurd (ground (arith, before, still))
        | inr (e, m, lt) ↦ absurd (
            omega (
              arith,
              lt,
              (retired i r e m).entered b t,
              scanned i n oldest r e b at m t (holder b r t.0).0,
            ))
      ]
      | inr not_freed ↦ not_freed
    ];
    retired = λ j r e h.
        let old = retired j r e h in record { marked = old.marked; entered = old.entered };
    scanned = λ j k oldest' r e b p q t lt. ground (arith, scanned j k oldest' r e b);
    gone = λ r h. elim (freed_only r h) [
      | inl before ↦ gone r before
      | inr (e, m, lt) ↦ (retired i r e m).marked
    ];
    fair = fair;
    hurried = hurried;
  }
