-- ===== src/Bucket/Empty.antt =====
-- The bucket that the constructor makes.
use turbo_hash.Common.{ℕ, ◌≤◌, ◌≡◌, true, false, arith}
use turbo_hash.Common.Bits.{test_bit_high}
use turbo_hash.BitSet.{popcount}
use turbo_hash.Cell.{load_version, of_data}
use turbo_hash.Cell.Live.{live, occupied, deleted}
use turbo_hash.SlotFormat.{SlotFormat}
use turbo_hash.Bucket.{Bucket, new_bucket}
use turbo_hash.Bucket.Valid.{Contains, IsValid}

module _ {E : Type 0} (zero_entry : E) (shift : ℕ) where
  abbrev empty : Bucket E
  empty = new_bucket zero_entry shift

  no_occupied : (ci i : ℕ) → occupied (empty.cells ci) i ≡ false
  unfolding load_version of_data
  no_occupied ci i = test_bit_high 0 0 i (omega arith) (omega arith)

  no_deleted : (ci i : ℕ) → deleted (empty.cells ci) i ≡ false
  unfolding load_version of_data
  no_deleted ci i = test_bit_high 0 0 i (omega arith) (omega arith)

  nothing : (ci i : ℕ) → live (empty.cells ci) i ≡ true → ⊥
  nothing ci i h = ground (arith, no_occupied ci i)

-- The constructor's bucket of up to 2 ^ 15 cells meets the invariant, and has no key.
pub new_bucket-IsValid :
    {K V E : Type 0} (f : SlotFormat K V E) (zero_entry : E) (shift : ℕ)
    → shift ≤ 15
    → IsValid f (new_bucket zero_entry shift)
      × ((k : K) (v : V) → Contains f (new_bucket zero_entry shift) k v → ⊥)
unfolding load_version of_data popcount
new_bucket-IsValid f zero_entry shift small = (
  record {
    small = small;
    sound = λ ci h. record {
      erased = λ i d. ground (arith, no_deleted zero_entry shift ci i);
      spare = omega arith;
    };
    filled = λ ci i h alive. absurd (nothing zero_entry shift ci i alive);
    placed = λ k v ci i h. absurd (nothing zero_entry shift ci i h.alive);
    unique = λ k v w ci i cj j h h'. absurd (nothing zero_entry shift ci i h.alive);
  },
  λ k v (ci, i, h). nothing zero_entry shift ci i h.alive,
)
