-- ===== src/Format/Entry.antt =====
-- src/turbo/turbo_hash.h, SlotRecord::Store: the record that an entry points to, as its bytes.
-- `space` is what the allocated memory has in it before; the record stands at its start.
use turbo_hash.Common.{ℕ, zero, suc, ◌+◌, ◌<◌, ◌≡◌, ◌∙◌, refl, ap, arith, List, get_or}
use turbo_hash.Bytes.{Memory, copy_out}
use turbo_hash.Bytes.Laws.{Agree}
use turbo_hash.Record.{Value, length2, encode2, decode2_first, decode2_second}
use turbo_hash.Record.Layout.{kind_of, Fits2, Stores2}
use turbo_hash.Record.RoundTrip.{encode2-Stores2}

-- `Record2Format::Length`, `Allocate` and `EncodeToRecord2::Encode`
unfoldable pub record_of : Memory → Value → Value → List ℕ
record_of space a b = copy_out (length2 a b) 0 (encode2 a b 0 space)

-- The memory that the entry points to.
abbrev pub memory_of : List ℕ → Memory
memory_of bytes i = get_or bytes i 0

get_or-copy_out :
    (n addr : ℕ) (m : Memory) (i : ℕ) → i < n → get_or (copy_out n addr m) i 0 ≡ m (addr + i)
unfolding copy_out
get_or-copy_out zero addr m i lt = absurd (omega arith)
get_or-copy_out (suc n) addr m zero lt = let e : addr + 0 ≡ addr = omega arith in rw e refl
get_or-copy_out (suc n) addr m (suc i) lt =
    let e : addr + 1 + i ≡ addr + suc i = omega arith in
    get_or-copy_out n (addr + 1) m i (omega arith) ∙ ap m e

module _ (space : Memory) (a b : Value) (fits : Fits2 a b) where
  stored : Stores2 a b 0 space (encode2 a b 0 space)
  stored = encode2-Stores2 a b 0 space fits

  has_bytes : Agree 0 (length2 a b) (memory_of (record_of space a b)) (encode2 a b 0 space)
  unfolding record_of
  has_bytes i le lt =
      let e : 0 + i ≡ i = omega arith in
      get_or-copy_out (length2 a b) 0 (encode2 a b 0 space) i (omega arith)
      ∙ ap (encode2 a b 0 space) e

  -- The record has both values.
  pub first-record_of :
      decode2_first (kind_of a) (kind_of b) 0 (memory_of (record_of space a b)) ≡ a
  first-record_of = stored.first (memory_of (record_of space a b)) has_bytes

  pub second-record_of :
      decode2_second (kind_of a) (kind_of b) 0 (memory_of (record_of space a b)) ≡ b
  second-record_of = stored.second (memory_of (record_of space a b)) has_bytes
