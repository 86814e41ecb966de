-- ===== src/Pmem/Meta/Torn.antt =====
-- A store to an object that two cache lines share.
use turbo_hash.Common.{
  ℕ, ◌^◌, ◌≡◌, ◌⊎◌, In, refl, Bool, true, false, some, List, [], ◌∷◌, inl, inr, arith,
}
use turbo_hash.BucketMeta.{reset}
use turbo_hash.Pmem.Meta.{
  Field, cur_ver, cell_count_leftshit_1, cell_count_leftshit_2, bucket1_ptr, bucket2_ptr, Memory,
  Event, store, flush, run, Survives, store_events, extract, leftshift, bucket_ptr, seen,
  WordSurvives, Word, newest,
}
use turbo_hash.Pmem.Meta.Crash.{IsClean}

seen-WordSurvives : (w : Word) → WordSurvives w (seen w)
seen-WordSurvives w = newest_survives w.persisted w.newer
  where
    newest_survives : (v : ℕ) (newer : List ℕ) → (newest v newer ≡ v) ⊎ In (newest v newer) newer
    newest_survives v [] = inl refl
    newest_survives v (x ∷ xs) = inr (inl refl)

-- The memory after the store in which the second pointer is still the old one.
abbrev torn : (near : Field → Bool) → List Event → Memory → Field → ℕ
torn near es m bucket2_ptr = (m bucket2_ptr).persisted
torn near es m f = seen (run near es m f)

-- If the second pointer of the object is not in the line of its first byte, then after a whole
-- `Store` at version 1 a crash can leave a memory from which `Extract` makes a word with the new
-- size and the address that the second pointer had before.
pub store-torn :
    (near : Field → Bool) (m : Memory) (w : ℕ)
    → IsClean m
    → (m cur_ver).persisted ≡ 1
    → near cur_ver ≡ true
    → near cell_count_leftshit_2 ≡ true
    → near bucket2_ptr ≡ false
    → (es : List Event) × (store_events (m cur_ver).persisted w ≡ some es)
      × ((image : Field → ℕ) × Survives (run near es m) image
          × (extract image ≡ some (reset 0 (m bucket2_ptr).persisted (2 ^ leftshift w))))
unfolding store_events run
store-torn near m w clean v ver_near shift_near ptr_far =
    let es : List Event =
      store bucket2_ptr (bucket_ptr w)
      ∷ store cell_count_leftshit_2 (leftshift w)
      ∷ flush
      ∷ store cur_ver 2
      ∷ flush
      ∷ [] in
    (
      es,
      rw v refl,
      (
        torn near es m,
        elim [
          | cur_ver ↦ seen-WordSurvives (run near es m cur_ver)
          | cell_count_leftshit_1 ↦ seen-WordSurvives (run near es m cell_count_leftshit_1)
          | cell_count_leftshit_2 ↦ seen-WordSurvives (run near es m cell_count_leftshit_2)
          | bucket1_ptr ↦ seen-WordSurvives (run near es m bucket1_ptr)
          | bucket2_ptr ↦ inl (ground (arith, ptr_far))
        ],
        unfold extract in ground (arith, ver_near, shift_near),
      ),
    )
