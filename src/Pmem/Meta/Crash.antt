-- ===== src/Pmem/Meta/Crash.antt =====
-- A crash during `Store` leaves the bucket as it was before or as it is after, if the object lies in
-- one cache line.
use turbo_hash.Common.{
  ℕ, zero, suc, ◌^◌, ◌<◌, ◌≡◌, refl, ap, ◌∙◌, Bool, true, ◌⊎◌, inl, inr, some, List, [], ◌∷◌, take,
  arith,
}
use turbo_hash.BitSet.{ctz}
use turbo_hash.BucketMeta.{reset}
use turbo_hash.BucketMeta.Fields.{Says, ctz-pow}
use turbo_hash.Pmem.Meta.{
  Field, cur_ver, cell_count_leftshit_1, cell_count_leftshit_2, bucket1_ptr, bucket2_ptr, Memory,
  Event, store, flush, run, Survives, WordSurvives, store_events, extract, leftshift,
}

-- Every field is in memory as it was last stored, and the version is 1 or 2.
pub record IsClean (m : Memory) : Type 0 where
  pub settled : (f : Field) → (m f).newer ≡ []
  pub version : ((m cur_ver).persisted ≡ 1) ⊎ ((m cur_ver).persisted ≡ 2)

-- The fields as they are in memory.
abbrev pub persisted : Memory → Field → ℕ
persisted m f = (m f).persisted

-- What a commit of the word promises: `now` is the word that `Extract` makes of it.
pub record Commits (near : Field → Bool) (m : Memory) (now : ℕ) (es : List Event) : Type 0 where
  pub atomic :
      (k : ℕ) (image : Field → ℕ)
      → Survives (run near (take k es) m) image
      → (extract image ≡ extract (persisted m)) ⊎ (extract image ≡ some now)
  pub done : (image : Field → ℕ) → Survives (run near es m) image → extract image ≡ some now
  pub clean : IsClean (run near es m)

take-nil : (k : ℕ) → take {A = Event} k [] ≡ []
take-nil zero = refl
take-nil (suc k) = refl

-- A statement of each of the fields.
abbrev OfAll : (Field → Type 0) → Type 0
OfAll P =
    P cur_ver × P bucket1_ptr × P bucket2_ptr × P cell_count_leftshit_1 × P cell_count_leftshit_2

of_all : (P : Field → Type 0) → ((f : Field) → P f) → OfAll P
of_all P h =
    (h cur_ver, h bucket1_ptr, h bucket2_ptr, h cell_count_leftshit_1, h cell_count_leftshit_2)

module _ (near : Field → Bool) (one_line : (f : Field) → near f ≡ true) (m : Memory)
    (settled : (f : Field) → (m f).newer ≡ []) (addr s : ℕ) where
  lines : OfAll (λ f. near f ≡ true)
  lines = of_all _ one_line

  old : OfAll (λ f. (m f).newer ≡ [])
  old = of_all _ settled

  abbrev events_1 : List Event
  events_1 =
      store bucket2_ptr addr ∷ store cell_count_leftshit_2 s ∷ flush ∷ store cur_ver 2 ∷ flush ∷ []

  abbrev events_2 : List Event
  events_2 =
      store bucket1_ptr addr ∷ store cell_count_leftshit_1 s ∷ flush ∷ store cur_ver 1 ∷ flush ∷ []

  module _ (image : Field → ℕ) where
    known : (m' : Memory) → Survives m' image → OfAll (λ f. WordSurvives (m' f) (image f))
    known m' sv = of_all _ sv

    abbrev Atomic : Type 0
    Atomic = (extract image ≡ extract (persisted m)) ⊎ (extract image ≡ some (reset 0 addr (2 ^ s)))

    done_1 : Survives (run near events_1 m) image → extract image ≡ some (reset 0 addr (2 ^ s))
    unfolding run extract
    done_1 sv = ground (arith, known _ sv, lines, old)

    done_2 : Survives (run near events_2 m) image → extract image ≡ some (reset 0 addr (2 ^ s))
    unfolding run extract
    done_2 sv = ground (arith, known _ sv, lines, old)

    atomic_1 :
        (m cur_ver).persisted ≡ 1 → (k : ℕ) → Survives (run near (take k events_1) m) image → Atomic
    unfolding run extract
    atomic_1 v (suc (suc (suc (suc (suc k))))) sv = inr (done_1 (rw (take-nil k) at sv))
    atomic_1 v k sv = ground (arith, known _ sv, lines, old)

    atomic_2 :
        (m cur_ver).persisted ≡ 2 → (k : ℕ) → Survives (run near (take k events_2) m) image → Atomic
    unfolding run extract
    atomic_2 v (suc (suc (suc (suc (suc k))))) sv = inr (done_2 (rw (take-nil k) at sv))
    atomic_2 v k sv = ground (arith, known _ sv, lines, old)

  IsClean-events_1 : IsClean (run near events_1 m)
  unfolding run
  IsClean-events_1 = record {
    settled = λ f. ground (arith, one_line f);
    version = ground (arith, lines);
  }

  IsClean-events_2 : IsClean (run near events_2 m)
  unfolding run
  IsClean-events_2 = record {
    settled = λ f. ground (arith, one_line f);
    version = ground (arith, lines);
  }

-- If the object lies in one cache line and is settled in memory with version 1 or 2, and a bucket's
-- word has an address of 48 bits and 2 ^ s cells, s below 32, then `Store` ends, and a crash after
-- any number of its stores and flushes leaves a memory from which `Extract` makes the word that it
-- made before or the one with the new address and size, and that one when `Store` has ended. The
-- object is then settled again.
pub store-Commits :
    (near : Field → Bool) (m : Memory) (low addr s w : ℕ)
    → ((f : Field) → near f ≡ true)
    → IsClean m
    → s < 32
    → Says low addr s w
    → (es : List Event) × (store_events (m cur_ver).persisted w ≡ some es)
      × Commits near m (reset 0 addr (2 ^ s)) es
unfolding store_events
store-Commits near m low addr s w one_line clean few says =
    let size : leftshift w ≡ s = ap (λ (t : ℕ). ctz 32 t) says.cells ∙ ctz-pow 32 s few in
    elim clean.version [
      | inl v ↦ (
        events_1 near one_line m clean.settled addr s,
        rw (v, size, says.at) refl,
        record {
          atomic = λ k image. atomic_1 near one_line m clean.settled addr s image v k;
          done = done_1 near one_line m clean.settled addr s;
          clean = IsClean-events_1 near one_line m clean.settled addr s;
        },
      )
      | inr v ↦ (
        events_2 near one_line m clean.settled addr s,
        rw (v, size, says.at) refl,
        record {
          atomic = λ k image. atomic_2 near one_line m clean.settled addr s image v k;
          done = done_2 near one_line m clean.settled addr s;
          clean = IsClean-events_2 near one_line m clean.settled addr s;
        },
      )
    ]
