-- ===== src/Bucket/RoundTrip.antt =====
-- What a search finds after one turn of an insertion, and after a deletion.
use turbo_hash.Common.{Option}
use mathlib.Core.Option
use turbo_hash.SlotFormat.{SlotFormat}
use turbo_hash.Bucket.{Bucket, find_slot}
use turbo_hash.Bucket.Valid.{hash}

module _ {K V E : Type 0} (f : SlotFormat K V E) where
  -- What `findSlot` gives the callback of `Find`.
  abbrev pub value_of : Bucket E → K → Option V
  value_of b q = Option.map f.second (find_slot f b q (hash f q))
