-- ===== src/Tests/Epoches.antt =====
-- Deletion lists of one and of two threads.
use turbo_hash.Common.{true, length, ◌↔◌, ℕ, ◌^◌, ◌<◌, ◌≡◌, refl, true, [], ◌∷◌, arith, In}
use turbo_hash.Cell.{update}
use turbo_hash.Epoche.Sweep.{IsList, InLabels, total, occurs, times, Collects, collect-Collects}
use turbo_hash.Epoche.Mark.{Marks, mark-Marks}
use turbo_hash.Epoche.Exit.{Exits, exit_epoche_and_cleanup-Exits, drain_lem}
use turbo_hash.Epoche.{
  u64, drain, oldest_epoche, DeletionList, Epoche, add, open_label, sweep, mark, collect,
  store_epoche, exit_epoche_and_cleanup,
}

-- A list with record 7, marked at the epoch 3.
abbrev fresh : DeletionList
fresh = record {
  head = [];
  free_labels = [];
  deletion_list_count = 0;
  local_epoche = 0;
  threshold_counter = 0;
  deleted = 0;
  added = 0;
}

fresh-IsList : IsList fresh
fresh-IsList = record { sized = tt; counted = refl; balanced = refl }

mark-Marks_example : Marks 7 3 fresh (mark 7 3 fresh)
mark-Marks_example = mark-Marks 7 3 fresh fresh-IsList

abbrev one_marked : DeletionList
one_marked = mark 7 3 fresh

collect-Collects_example : Collects 4 one_marked (collect 4 one_marked)
collect-Collects_example = collect-Collects 4 one_marked mark-Marks_example.valid

-- Thread 0 has that list and leaves, while thread 1 is at the epoch 5.
abbrev two_threads : Epoche
two_threads = record {
  current_epoche = 5;
  deletion_lists = update (λ i. store_epoche 5 fresh) 0 one_marked;
  threads = 2;
  start_gc_threshold = 0;
}

one_marked_fits : total one_marked.head < 2 ^ 64
unfolding mark add open_label
one_marked_fits = omega arith

exit_epoche_and_cleanup-Exits_example : Exits 0 two_threads (exit_epoche_and_cleanup 0 two_threads)
exit_epoche_and_cleanup-Exits_example =
    exit_epoche_and_cleanup-Exits 0 two_threads mark-Marks_example.valid one_marked_fits

exit_run : (exit_epoche_and_cleanup 0 two_threads).1 ≡ 7 ∷ []
unfolding exit_epoche_and_cleanup collect sweep oldest_epoche mark add open_label
exit_run = refl

drain_lem_example :
    ((c : ℕ) → In c (drain one_marked.head one_marked).1 ↔ ((e : ℕ) × InLabels c e one_marked.head))
    × ((c : ℕ)
        → occurs c (drain one_marked.head one_marked).1 ≡ times c (λ e. true) one_marked.head)
    × (length (drain one_marked.head one_marked).1 ≡ total one_marked.head)
    × ((drain one_marked.head one_marked).0.deletion_list_count ≡ 0)
    × ((drain one_marked.head one_marked).0.added
        ≡ u64 (drain one_marked.head one_marked).0.deleted)
drain_lem_example = drain_lem one_marked mark-Marks_example.valid
