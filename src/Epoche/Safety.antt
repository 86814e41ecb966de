-- ===== src/Epoche/Safety.antt =====
-- What a record that is freed too early has been through.
use turbo_hash.Common.{ℕ, ◌+◌, ◌≤◌, ◌<◌, ◌≡◌, refl, Bool, true, ◌⊎◌, inl, inr, arith, Bool-cases}
use turbo_hash.Epoche.{DeletionList, collect, advance_epoche, no_epoche}
use turbo_hash.Epoche.Sweep.{InLabels, IsList, collect-Collects}
use turbo_hash.Epoche.Invariant.{
  Inv, load_epoche-Inv, save_epoche-Inv, drain_store-Inv, acquire-Inv, unlink-Inv, mark_node-Inv,
  let_go-Inv, go_on-Inv, relist-Inv, scan-Inv, free-Inv,
}
use turbo_hash.Epoche.System.{
  out, leaving, scanning, System, Step, load_epoche, save_epoche, drain_store, acquire, unlink,
  mark_node, leave_readonly, advance, leave, leave_empty, start_scan, scan, free_nodes, destroy,
  set_pc, init, Reach, start, later,
}

advance_epoche-le :
    (counter current : ℕ) → current + 1 < no_epoche → current ≤ advance_epoche counter current
unfolding advance_epoche
advance_epoche-le counter current lt = ground (arith, lt)

Inv-init : (n : ℕ) (linked : ℕ → Bool) → Inv n (init linked)
Inv-init n linked = record {
  valid = λ i. record { sized = tt; counted = refl; balanced = refl };
  early = λ i e p. absurd (ground (arith, p));
  buffered = λ i e m. absurd m;
  entered = λ i p none. absurd (ground (arith, p));
  holder = λ b r h. absurd (ground (arith, h));
  drained = λ b r t. refl;
  alive = λ b r t. refl;
  retired = λ i r e h. absurd h;
  scanned = λ i k oldest r e b p q t lt. absurd q;
  gone = λ r h. absurd (ground (arith, h));
  fair = λ r h f. absurd (ground (arith, h));
  hurried = λ b r h. absurd (ground (arith, h));
}

-- The sweep's and the store's changes of a list that keep its labels.
kept_counters :
    (d : DeletionList) (e counter : ℕ)
    → IsList d
    → IsList (record d { local_epoche = e; threshold_counter = counter })
kept_counters d e counter good = record {
  sized = good.sized;
  counted = good.counted;
  balanced = good.balanced;
}

Step-Inv : {n threshold : ℕ} {s t : System} → Step n threshold s t → Inv n s → Inv n t
Step-Inv (load_epoche i lt at) inv = load_epoche-Inv inv i at
Step-Inv (save_epoche i e lt at) inv = save_epoche-Inv inv i e at
Step-Inv (drain_store i e es lt at) inv = drain_store-Inv inv i e es at
Step-Inv (acquire i r lt at l) inv = acquire-Inv inv i r lt at l
Step-Inv (unlink i r lt at) inv = unlink-Inv inv i r
Step-Inv (mark_node i r lt at) inv = mark_node-Inv inv i r at
Step-Inv {s} (leave_readonly i lt at) inv = let_go-Inv inv i s.current out (omega arith) (inl refl)
Step-Inv {s} (advance i lt at small drained) inv =
    let_go-Inv inv i _ leaving (advance_epoche-le (s.lists i).threshold_counter s.current small)
      (inr refl)
Step-Inv (leave i lt at few) inv = go_on-Inv inv i out (ground (arith, at)) (inl refl)
Step-Inv {n} {s} (leave_empty i lt at many none_left) inv =
    relist-Inv (go_on-Inv inv i out (ground (arith, at)) (inl refl)) i _
      (kept_counters (s.lists i) (s.lists i).local_epoche 0 (inv.valid i)) (λ r e h. h)
      (ground arith)
Step-Inv {n} {s} (start_scan i lt at many some_left drained) inv =
    relist-Inv (go_on-Inv inv i (scanning 0 no_epoche) (ground (arith, at)) (inr refl)) i _
      (kept_counters (s.lists i) no_epoche (s.lists i).threshold_counter (inv.valid i)) (λ r e h. h)
      (ground arith)
Step-Inv (scan i k oldest lt at more) inv = scan-Inv inv i k oldest at
Step-Inv {n} {s} (free_nodes i oldest freed' lt at only all) inv =
    let collects = collect-Collects oldest (s.lists i) (inv.valid i) in
    let freed_only : (r : ℕ)
        → freed' r ≡ true
        → (s.freed r ≡ true) ⊎ ((e : ℕ) × InLabels r e (s.lists i).head × (e < oldest)) =
      λ r h. elim (only r h) [
        | inl before ↦ inl before
        | inr called ↦ inr ((collects.called r).0 called)
      ] in
    let freed_inv : Inv n (record (set_pc s i out) { freed = freed' }) =
      free-Inv inv i oldest freed' at freed_only in
    relist-Inv freed_inv i (collect oldest (s.lists i)).0 collects.valid
      (λ r e h. ((collects.kept r e).0 h).0) (ground arith)
Step-Inv {n} {s} (destroy i lt at drained) inv =
    relist-Inv inv i _
      (kept_counters (s.lists i) no_epoche (s.lists i).threshold_counter (inv.valid i)) (λ r e h. h)
      (ground (arith, at))

Reach-Inv :
    {n threshold : ℕ} {linked : ℕ → Bool} {s : System} → Reach n threshold linked s → Inv n s
Reach-Inv {n} {linked} start = Inv-init n linked
Reach-Inv (later r st) = Step-Inv st (Reach-Inv r)

-- In every state that the threads can reach while the epoch stays below the largest number of 64
-- bits: if a record is freed that a thread holds, then the thread took it while its store of the
-- epoch was not yet visible, or when the record was already marked, and then it was marked while it
-- was still linked; and if a record is freed that is still linked, then it was marked while it was
-- linked.
pub use_after_free_causes :
    {n threshold : ℕ} {linked : ℕ → Bool} {s : System}
    → Reach n threshold linked s
    → (r : ℕ) → s.freed r ≡ true
    → ((b : ℕ)
        → s.holds b r ≡ true
        → (s.unseen b r ≡ true) ⊎ ((s.late b r ≡ true) × (s.hasty r ≡ true)))
      × (s.linked r ≡ true → s.hasty r ≡ true)
use_after_free_causes {s} reach r gone =
    let inv = Reach-Inv reach in
    (
      λ b held. elim (Bool-cases (s.unseen b r)) [
        | inl unseen ↦ inl unseen
        | inr seen ↦ elim (Bool-cases (s.late b r)) [
          | inl late ↦ inr (late, inv.hurried b r late)
          | inr in_time ↦
              let alive = inv.alive b r (held, seen, in_time) in
              absurd (ground (arith, alive, gone))
        ]
      ],
      λ linked. ground (arith, inv.fair r (inv.gone r gone), linked, Bool-cases (s.hasty r)),
    )
