-- ===== src/Tests/Overlaps.antt =====
-- Runs of two threads, in which a record is freed that a thread holds.
use turbo_hash.Common.{
  ℕ, ◌+◌, ◌<◌, ◌≡◌, ◌≢◌, refl, Bool, true, false, ◌||◌, ◌⊎◌, inl, inr, [], ◌∷◌, ◌++◌, ◌==◌, arith,
}
use turbo_hash.Cell.{update}
use turbo_hash.Epoche.Safety.{use_after_free_causes}
use turbo_hash.Epoche.{
  no_epoche, add, open_label, sweep, advance_epoche, mark, collect, store_epoche,
}
use turbo_hash.Epoche.System.{
  System, out, loaded, inside, leaving, scanning, set_pc, set_lists, set_buffer, let_go, pending,
  no_record, Reach, start, later, init, load_epoche, save_epoche, drain_store, acquire, unlink,
  mark_node, advance, start_scan, scan, free_nodes, destroy,
}

abbrev all_linked : ℕ → Bool
all_linked r = true

zero_in : 0 < 2
zero_in = omega arith

one_in : 1 < 2
one_in = omega arith

one_ne_zero : ◌≢◌ {A = ℕ} 1 0
one_ne_zero e = omega arith

epoche_0 : 0 + 1 < no_epoche
epoche_0 = omega arith

epoche_1 : 1 + 1 < no_epoche
epoche_1 = omega arith

not_true : false ≡ true → ⊥
not_true h = ground (arith, h)

equal_zero : (r : ℕ) → (r == 0) ≡ true → r ≡ 0
equal_zero r h = ground arith

zero_equal : (r : ℕ) → r ≡ 0 → (r == 0) ≡ true
zero_equal r h = ground arith

abbrev is_zero : ℕ → Bool
is_zero r = r == 0

abbrev marks_0 : System
marks_0 = init all_linked

abbrev marks_1 : System
marks_1 = set_pc marks_0 0 (loaded 0)

abbrev marks_2 : System
marks_2 = set_buffer (set_pc marks_1 0 inside) 0 (marks_1.buffer 0 ++ (0 ∷ []))

abbrev marks_3 : System
marks_3 = set_buffer (set_lists marks_2 0 (store_epoche 0 (marks_2.lists 0))) 0 []

abbrev marks_4 : System
marks_4 = record (set_lists marks_3 0 (mark 0 0 (marks_3.lists 0))) {
  marked = update marks_3.marked 0 true;
  hasty = update marks_3.hasty 0 (marks_3.hasty 0 || marks_3.linked 0);
}

abbrev marks_5 : System
marks_5 = set_pc marks_4 1 (loaded 0)

abbrev marks_6 : System
marks_6 = set_buffer (set_pc marks_5 1 inside) 1 (marks_5.buffer 1 ++ (0 ∷ []))

abbrev marks_7 : System
marks_7 = set_buffer (set_lists marks_6 1 (store_epoche 0 (marks_6.lists 1))) 1 []

abbrev marks_8 : System
marks_8 = record (set_lists marks_7 1 (mark 5 0 (marks_7.lists 1))) {
  marked = update marks_7.marked 5 true;
  hasty = update marks_7.hasty 5 (marks_7.hasty 5 || marks_7.linked 5);
}

abbrev marks_9 : System
marks_9 = record (let_go (set_pc marks_8 1 leaving) 1) { current = 1 }

abbrev marks_10 : System
marks_10 =
    set_lists (set_pc marks_9 1 (scanning 0 no_epoche)) 1 (store_epoche no_epoche (marks_9.lists 1))

abbrev marks_11 : System
marks_11 = set_pc marks_10 1 (scanning 1 0)

abbrev marks_12 : System
marks_12 = set_pc marks_11 1 (scanning 2 0)

abbrev marks_13 : System
marks_13 = record (set_lists (set_pc marks_12 1 out) 1 (collect 0 (marks_12.lists 1)).0) {
  freed = no_record;
}

abbrev marks_14 : System
marks_14 = set_pc marks_13 1 (loaded 1)

abbrev marks_15 : System
marks_15 = set_buffer (set_pc marks_14 1 inside) 1 (marks_14.buffer 1 ++ (1 ∷ []))

abbrev marks_16 : System
marks_16 = set_buffer (set_lists marks_15 1 (store_epoche 1 (marks_15.lists 1))) 1 []

abbrev marks_17 : System
marks_17 = record marks_16 {
  holds = update marks_16.holds 1 (update (marks_16.holds 1) 0 true);
  late = update marks_16.late 1 (update (marks_16.late 1) 0 (marks_16.marked 0));
  unseen = update marks_16.unseen 1 (update (marks_16.unseen 1) 0 (pending (marks_16.buffer 1)));
}

abbrev marks_18 : System
marks_18 = record marks_17 { linked = update marks_17.linked 0 false }

abbrev marks_19 : System
marks_19 = record (let_go (set_pc marks_18 0 leaving) 0) { current = 2 }

abbrev marks_20 : System
marks_20 =
    set_lists (set_pc marks_19 0 (scanning 0 no_epoche)) 0
      (store_epoche no_epoche (marks_19.lists 0))

abbrev marks_21 : System
marks_21 = set_pc marks_20 0 (scanning 1 no_epoche)

abbrev marks_22 : System
marks_22 = set_pc marks_21 0 (scanning 2 1)

abbrev marks_23 : System
marks_23 = record (set_lists (set_pc marks_22 0 out) 0 (collect 1 (marks_22.lists 0)).0) {
  freed = is_zero;
}

-- Thread 0 marks record 0 while it is linked. Thread 1 marks record 5 and leaves, which advances
-- the epoch; it enters again and reads record 0. Thread 0 unlinks the record, leaves and frees it.
reach_marks_1 : Reach 2 0 all_linked marks_1
unfolding mark add open_label collect sweep advance_epoche
reach_marks_1 = later start (load_epoche 0 zero_in refl)

reach_marks_2 : Reach 2 0 all_linked marks_2
unfolding mark add open_label collect sweep advance_epoche
reach_marks_2 = later reach_marks_1 (save_epoche 0 0 zero_in refl)

reach_marks_3 : Reach 2 0 all_linked marks_3
unfolding mark add open_label collect sweep advance_epoche
reach_marks_3 = later reach_marks_2 (drain_store 0 0 [] zero_in refl)

reach_marks_4 : Reach 2 0 all_linked marks_4
unfolding mark add open_label collect sweep advance_epoche
reach_marks_4 = later reach_marks_3 (mark_node 0 0 zero_in refl)

reach_marks_5 : Reach 2 0 all_linked marks_5
unfolding mark add open_label collect sweep advance_epoche
reach_marks_5 = later reach_marks_4 (load_epoche 1 one_in refl)

reach_marks_6 : Reach 2 0 all_linked marks_6
unfolding mark add open_label collect sweep advance_epoche
reach_marks_6 = later reach_marks_5 (save_epoche 1 0 one_in refl)

reach_marks_7 : Reach 2 0 all_linked marks_7
unfolding mark add open_label collect sweep advance_epoche
reach_marks_7 = later reach_marks_6 (drain_store 1 0 [] one_in refl)

reach_marks_8 : Reach 2 0 all_linked marks_8
unfolding mark add open_label collect sweep advance_epoche
reach_marks_8 = later reach_marks_7 (mark_node 1 5 one_in refl)

reach_marks_9 : Reach 2 0 all_linked marks_9
unfolding mark add open_label collect sweep advance_epoche
reach_marks_9 = later reach_marks_8 (advance 1 one_in refl epoche_0 (inr refl))

reach_marks_10 : Reach 2 0 all_linked marks_10
unfolding mark add open_label collect sweep advance_epoche
reach_marks_10 = later reach_marks_9 (start_scan 1 one_in refl refl one_ne_zero refl)

reach_marks_11 : Reach 2 0 all_linked marks_11
unfolding mark add open_label collect sweep advance_epoche
reach_marks_11 = later reach_marks_10 (scan 1 0 no_epoche one_in refl zero_in)

reach_marks_12 : Reach 2 0 all_linked marks_12
unfolding mark add open_label collect sweep advance_epoche
reach_marks_12 = later reach_marks_11 (scan 1 1 0 one_in refl one_in)

reach_marks_13 : Reach 2 0 all_linked marks_13
unfolding mark add open_label collect sweep advance_epoche
reach_marks_13 = later reach_marks_12 (
    free_nodes 1 0 no_record one_in refl (λ r h. inl h)
      (λ r. elim [ inl h ↦ h | inr h ↦ absurd h ]))

reach_marks_14 : Reach 2 0 all_linked marks_14
unfolding mark add open_label collect sweep advance_epoche
reach_marks_14 = later reach_marks_13 (load_epoche 1 one_in refl)

reach_marks_15 : Reach 2 0 all_linked marks_15
unfolding mark add open_label collect sweep advance_epoche
reach_marks_15 = later reach_marks_14 (save_epoche 1 1 one_in refl)

reach_marks_16 : Reach 2 0 all_linked marks_16
unfolding mark add open_label collect sweep advance_epoche
reach_marks_16 = later reach_marks_15 (drain_store 1 1 [] one_in refl)

reach_marks_17 : Reach 2 0 all_linked marks_17
unfolding mark add open_label collect sweep advance_epoche
reach_marks_17 = later reach_marks_16 (acquire 1 0 one_in refl refl)

reach_marks_18 : Reach 2 0 all_linked marks_18
unfolding mark add open_label collect sweep advance_epoche
reach_marks_18 = later reach_marks_17 (unlink 0 0 zero_in refl)

reach_marks_19 : Reach 2 0 all_linked marks_19
unfolding mark add open_label collect sweep advance_epoche
reach_marks_19 = later reach_marks_18 (advance 0 zero_in refl epoche_1 (inr refl))

reach_marks_20 : Reach 2 0 all_linked marks_20
unfolding mark add open_label collect sweep advance_epoche
reach_marks_20 = later reach_marks_19 (start_scan 0 zero_in refl refl one_ne_zero refl)

reach_marks_21 : Reach 2 0 all_linked marks_21
unfolding mark add open_label collect sweep advance_epoche
reach_marks_21 = later reach_marks_20 (scan 0 0 no_epoche zero_in refl zero_in)

reach_marks_22 : Reach 2 0 all_linked marks_22
unfolding mark add open_label collect sweep advance_epoche
reach_marks_22 = later reach_marks_21 (scan 0 1 no_epoche zero_in refl one_in)

reach_marks_23 : Reach 2 0 all_linked marks_23
unfolding mark add open_label collect sweep advance_epoche
reach_marks_23 = later reach_marks_22 (
    free_nodes 0 1 is_zero zero_in refl (λ r h. inr (inl (equal_zero r h)))
      (λ r. elim [
        | inl h ↦ absurd (not_true h)
        | inr (inl e) ↦ zero_equal r e
        | inr (inr h) ↦ absurd h
      ]))

marked_too_early :
    (s : System) × Reach 2 0 all_linked s
    × (s.holds 1 0 ≡ true)
    × (s.freed 0 ≡ true)
    × (s.unseen 1 0 ≡ false)
marked_too_early = (marks_23, reach_marks_23, refl, refl, refl)

abbrev takes_0 : System
takes_0 = init all_linked

abbrev takes_1 : System
takes_1 = set_lists takes_0 0 (store_epoche no_epoche (takes_0.lists 0))

abbrev takes_2 : System
takes_2 = set_pc takes_1 0 (loaded 0)

abbrev takes_3 : System
takes_3 = set_buffer (set_pc takes_2 0 inside) 0 (takes_2.buffer 0 ++ (0 ∷ []))

abbrev takes_4 : System
takes_4 = record takes_3 {
  holds = update takes_3.holds 0 (update (takes_3.holds 0) 0 true);
  late = update takes_3.late 0 (update (takes_3.late 0) 0 (takes_3.marked 0));
  unseen = update takes_3.unseen 0 (update (takes_3.unseen 0) 0 (pending (takes_3.buffer 0)));
}

abbrev takes_5 : System
takes_5 = set_pc takes_4 1 (loaded 0)

abbrev takes_6 : System
takes_6 = set_buffer (set_pc takes_5 1 inside) 1 (takes_5.buffer 1 ++ (0 ∷ []))

abbrev takes_7 : System
takes_7 = set_buffer (set_lists takes_6 1 (store_epoche 0 (takes_6.lists 1))) 1 []

abbrev takes_8 : System
takes_8 = record takes_7 { linked = update takes_7.linked 0 false }

abbrev takes_9 : System
takes_9 = record (set_lists takes_8 1 (mark 0 0 (takes_8.lists 1))) {
  marked = update takes_8.marked 0 true;
  hasty = update takes_8.hasty 0 (takes_8.hasty 0 || takes_8.linked 0);
}

abbrev takes_10 : System
takes_10 = record (let_go (set_pc takes_9 1 leaving) 1) { current = 1 }

abbrev takes_11 : System
takes_11 =
    set_lists (set_pc takes_10 1 (scanning 0 no_epoche)) 1
      (store_epoche no_epoche (takes_10.lists 1))

abbrev takes_12 : System
takes_12 = set_pc takes_11 1 (scanning 1 no_epoche)

abbrev takes_13 : System
takes_13 = set_pc takes_12 1 (scanning 2 no_epoche)

abbrev takes_14 : System
takes_14 = record (set_lists (set_pc takes_13 1 out) 1 (collect no_epoche (takes_13.lists 1)).0) {
  freed = is_zero;
}

-- Thread 0, whose list has the epoch of `~ThreadInfo`, enters again and takes record 0 before its
-- store of the epoch is visible. Thread 1 enters, unlinks the record, marks it, leaves and frees it.
reach_takes_1 : Reach 2 0 all_linked takes_1
unfolding mark add open_label collect sweep advance_epoche
reach_takes_1 = later start (destroy 0 zero_in refl refl)

reach_takes_2 : Reach 2 0 all_linked takes_2
unfolding mark add open_label collect sweep advance_epoche
reach_takes_2 = later reach_takes_1 (load_epoche 0 zero_in refl)

reach_takes_3 : Reach 2 0 all_linked takes_3
unfolding mark add open_label collect sweep advance_epoche
reach_takes_3 = later reach_takes_2 (save_epoche 0 0 zero_in refl)

reach_takes_4 : Reach 2 0 all_linked takes_4
unfolding mark add open_label collect sweep advance_epoche
reach_takes_4 = later reach_takes_3 (acquire 0 0 zero_in refl refl)

reach_takes_5 : Reach 2 0 all_linked takes_5
unfolding mark add open_label collect sweep advance_epoche
reach_takes_5 = later reach_takes_4 (load_epoche 1 one_in refl)

reach_takes_6 : Reach 2 0 all_linked takes_6
unfolding mark add open_label collect sweep advance_epoche
reach_takes_6 = later reach_takes_5 (save_epoche 1 0 one_in refl)

reach_takes_7 : Reach 2 0 all_linked takes_7
unfolding mark add open_label collect sweep advance_epoche
reach_takes_7 = later reach_takes_6 (drain_store 1 0 [] one_in refl)

reach_takes_8 : Reach 2 0 all_linked takes_8
unfolding mark add open_label collect sweep advance_epoche
reach_takes_8 = later reach_takes_7 (unlink 1 0 one_in refl)

reach_takes_9 : Reach 2 0 all_linked takes_9
unfolding mark add open_label collect sweep advance_epoche
reach_takes_9 = later reach_takes_8 (mark_node 1 0 one_in refl)

reach_takes_10 : Reach 2 0 all_linked takes_10
unfolding mark add open_label collect sweep advance_epoche
reach_takes_10 = later reach_takes_9 (advance 1 one_in refl epoche_0 (inr refl))

reach_takes_11 : Reach 2 0 all_linked takes_11
unfolding mark add open_label collect sweep advance_epoche
reach_takes_11 = later reach_takes_10 (start_scan 1 one_in refl refl one_ne_zero refl)

reach_takes_12 : Reach 2 0 all_linked takes_12
unfolding mark add open_label collect sweep advance_epoche
reach_takes_12 = later reach_takes_11 (scan 1 0 no_epoche one_in refl zero_in)

reach_takes_13 : Reach 2 0 all_linked takes_13
unfolding mark add open_label collect sweep advance_epoche
reach_takes_13 = later reach_takes_12 (scan 1 1 no_epoche one_in refl one_in)

reach_takes_14 : Reach 2 0 all_linked takes_14
unfolding mark add open_label collect sweep advance_epoche
reach_takes_14 = later reach_takes_13 (
    free_nodes 1 no_epoche is_zero one_in refl (λ r h. inr (inl (equal_zero r h)))
      (λ r. elim [
        | inl h ↦ absurd (not_true h)
        | inr (inl e) ↦ zero_equal r e
        | inr (inr h) ↦ absurd h
      ]))

-- Thread 0 takes a record before its epoch is visible; thread 1 unlinks, marks and frees it.
taken_unseen :
    (s : System) × Reach 2 0 all_linked s
    × (s.holds 0 0 ≡ true)
    × (s.freed 0 ≡ true)
    × (s.hasty 0 ≡ false)
taken_unseen = (takes_14, reach_takes_14, refl, refl, refl)

use_after_free_causes_example :
    ((b : ℕ)
      → takes_14.holds b 0 ≡ true
      → (takes_14.unseen b 0 ≡ true) ⊎ ((takes_14.late b 0 ≡ true) × (takes_14.hasty 0 ≡ true)))
    × (takes_14.linked 0 ≡ true → takes_14.hasty 0 ≡ true)
use_after_free_causes_example = use_after_free_causes reach_takes_14 0 refl
