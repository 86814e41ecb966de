-- ===== src/Pmem/Meta.antt =====
-- src/turbo/turbo_hash_pmem.h, class BucketMetaPmem: two places for the address and the size of a
-- bucket, and the version that says which of them counts.
--
-- A store is seen at once, and survives a crash only once it has reached the memory: after a crash
-- a field has the value that it had at the last flush of its line, or one stored since, each field
-- for itself. `FLUSH (this); FLUSHFENCE` flushes the line of the object's first byte; `near f` says
-- that the field is in this line. A pptr is the address that it points to.
pub mod Init
pub mod Crash
pub mod Torn
use turbo_hash.Common.{
  ℕ, zero, suc, ◌+◌, ◌-◌, ◌%◌, ◌^◌, ◌≡◌, Bool, true, false, ◌⊎◌, Option, none, some, List, [], ◌∷◌,
  ◌++◌, ◌==◌, In, if◌then◌else◌,
}
use turbo_hash.BitSet.{ctz}
use turbo_hash.BucketMeta.{address, cell_count, reset}

pub data Field : Type 0 where
  cur_ver : Field
  cell_count_leftshit_1 : Field
  cell_count_leftshit_2 : Field
  bucket1_ptr : Field
  bucket2_ptr : Field

-- Equality of fields, by their order in the object.
abbrev pub place : Field → ℕ
place cur_ver = 0
place cell_count_leftshit_1 = 1
place cell_count_leftshit_2 = 2
place bucket1_ptr = 3
place bucket2_ptr = 4

-- A field's value in memory, and the values stored since, the last one first.
pub record Word : Type 0 where
  pub persisted : ℕ
  pub newer : List ℕ

abbrev pub Memory : Type 0
Memory = Field → Word

-- The value that a load sees.
abbrev pub newest : ℕ → List ℕ → ℕ
newest v [] = v
newest v (x ∷ xs) = x

abbrev pub seen : Word → ℕ
seen w = newest w.persisted w.newer

pub data Event : Type 0 where
  store : Field → ℕ → Event
  flush : Event

module _ (near : Field → Bool) where
  abbrev pub apply : Event → Memory → Memory
  apply (store f v) m g =
      if place f == place g
      then record { persisted = (m g).persisted; newer = v ∷ (m g).newer }
      else m g
  apply flush m g = if near g then record { persisted = seen (m g); newer = [] } else m g

  unfoldable pub run : List Event → Memory → Memory
  run [] m = m
  run (e ∷ es) m = run es (apply e m)

-- What a field can have after a crash.
abbrev pub WordSurvives : Word → ℕ → Type 0
WordSurvives w v = (v ≡ w.persisted) ⊎ In v w.newer

-- A memory after a crash.
abbrev pub Survives : Memory → (Field → ℕ) → Type 0
Survives m image = (f : Field) → WordSurvives (m f) (image f)

-- What `Init` and `Store` write for a bucket's word: its address, and the logarithm of its size.
abbrev pub bucket_ptr : ℕ → ℕ
bucket_ptr w = address w

abbrev pub leftshift : ℕ → ℕ
leftshift w = ctz 32 (cell_count w)

-- `Init (bucket_meta)`
abbrev pub init_events : ℕ → List Event
init_events w =
    store cur_ver 1
    ∷ store bucket1_ptr (bucket_ptr w)
    ∷ store cell_count_leftshit_1 (leftshift w)
    ∷ flush
    ∷ []

-- `Store (bucket_meta)`, at the version that it finds; `none` is `exit (1)`
unfoldable pub store_events : ℕ → ℕ → Option (List Event)
store_events version w =
    let switch = flush ∷ store cur_ver (3 - version) ∷ flush ∷ [] in
    if version == 2
    then some
        (store bucket1_ptr (bucket_ptr w) ∷ store cell_count_leftshit_1 (leftshift w) ∷ switch)
    else if version == 1
    then some
        (store bucket2_ptr (bucket_ptr w) ∷ store cell_count_leftshit_2 (leftshift w) ∷ switch)
    else none

-- `Extract`: a bucket's word; `none` is `exit (1)`
unfoldable pub extract : (Field → ℕ) → Option ℕ
extract image =
    if image cur_ver == 1
    then some (reset 0 (image bucket1_ptr) (2 ^ image cell_count_leftshit_1))
    else if image cur_ver == 2
    then some (reset 0 (image bucket2_ptr) (2 ^ image cell_count_leftshit_2))
    else none

-- One turn of the loop of `Recover`.
abbrev pub recover_one : Option ℕ → Option (List ℕ) → Option (List ℕ)
recover_one none words = none
recover_one (some w) none = none
recover_one (some w) (some ws) = some (w ∷ ws)

-- `Recover`: the words of the buckets, from those in memory
unfoldable pub recover : List (Field → ℕ) → Option (List ℕ)
recover [] = some []
recover (image ∷ images) = recover_one (extract image) (recover images)
