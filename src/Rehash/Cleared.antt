-- ===== src/Rehash/Cleared.antt =====
-- The new bucket before the first slot is moved into it, and after the last.
use turbo_hash.Common.{ℕ, ◌≤◌, ◌≡◌, refl, sym, ◌∙◌, true, false, ◌↔◌, leb, arith}
use turbo_hash.Common.Bits.{test_bit_high}
use turbo_hash.BitSet.{popcount}
use turbo_hash.Cell.{HashSlot, load_version, of_data, full}
use turbo_hash.Cell.Live.{live, occupied, deleted}
use turbo_hash.SlotFormat.{SlotFormat}
use turbo_hash.Bucket.{Bucket}
use turbo_hash.Bucket.Valid.{At, Contains, IsValidWithin}
use turbo_hash.Bucket.Search.{Reaches-mono}
use turbo_hash.Rehash.{Moving, clear_rest, start_moving}
use turbo_hash.Rehash.Pack.{IsPacked, bucket_of}

module _ {K V E : Type 0} (f : SlotFormat K V E) (s : ℕ) (space : ℕ → ℕ → HashSlot E) where
  abbrev start : Moving E
  start = start_moving space

  start_occupied : (ci i : ℕ) → occupied (start.cells ci) i ≡ false
  unfolding load_version of_data
  start_occupied ci i = test_bit_high 0 0 i (omega arith) (omega arith)

  start_deleted : (ci i : ℕ) → deleted (start.cells ci) i ≡ false
  unfolding load_version of_data
  start_deleted ci i = test_bit_high 0 0 i (omega arith) (omega arith)

  pub start-IsPacked : IsPacked start
  unfolding load_version of_data popcount
  start-IsPacked = record {
    vec_range = λ ci. (omega arith, omega arith);
    taken = λ ci j. ground (arith, start_occupied ci j);
    kept = start_deleted;
    counted = λ ci. omega arith;
  }

  start-empty : (ci i : ℕ) → live (start.cells ci) i ≡ true → ⊥
  start-empty ci i h = ground (arith, start_occupied ci i)

  pub start-IsValidWithin : s ≤ 15 → IsValidWithin f 16 (bucket_of start s)
  start-IsValidWithin small = record {
    small = small;
    sound = λ ci h. record {
      erased = λ i d. ground (arith, start_deleted ci i);
      spare = omega (arith, start-IsPacked.counted ci);
    };
    filled = λ ci i h alive. absurd (start-empty ci i alive);
    placed = λ k v ci i h. absurd (start-empty ci i h.alive);
    unique = λ k v w ci i cj j h h'. absurd (start-empty ci i h.alive);
  }

  pub not_Contains-start : (q : K) (w : V) → Contains f (bucket_of start s) q w → ⊥
  not_Contains-start q w (ci, i, h) = start-empty ci i h.alive

module _ {K V E : Type 0} (f : SlotFormat K V E) (s : ℕ) (zero_entry : E) (m : Moving E)
    (packed : IsPacked m) where
  abbrev final : Bucket E
  final = clear_rest zero_entry m s

  cleared_lem :
      (ci i : ℕ) → live (m.cells ci) i ≡ true → ((final.cells ci).slots i ≡ (m.cells ci).slots i)
  unfolding clear_rest
  cleared_lem ci i h =
      let low : leb (m.slot_vec ci) i ≡ false = ground (arith, packed.taken ci i) in rw low refl

  live_cleared : (ci i : ℕ) → live (final.cells ci) i ≡ live (m.cells ci) i
  unfolding clear_rest load_version
  live_cleared ci i = refl

  At-cleared : (q : K) (w : V) (ci i : ℕ) → At f final q w ci i ↔ At f (bucket_of m s) q w ci i
  unfolding clear_rest load_version
  At-cleared q w ci i = (
    λ h. record {
      inside = h.inside;
      alive = h.alive;
      holds = (h.holds.0, sym (cleared_lem ci i h.alive) ∙ h.holds.1);
    },
    λ h. record {
      inside = h.inside;
      alive = h.alive;
      holds = (h.holds.0, cleared_lem ci i h.alive ∙ h.holds.1);
    },
  )

  pub Contains-cleared : (q : K) (w : V) → Contains f final q w ↔ Contains f (bucket_of m s) q w
  Contains-cleared q w = (
    λ (ci, i, h). (ci, i, (At-cleared q w ci i).0 h),
    λ (ci, i, h). (ci, i, (At-cleared q w ci i).1 h),
  )

  full_cleared : (ci : ℕ) → full (m.cells ci) ≡ true → full (final.cells ci) ≡ true
  unfolding clear_rest load_version full
  full_cleared ci h = h

  pub cleared-IsValidWithin : IsValidWithin f 16 (bucket_of m s) → IsValidWithin f 16 final
  unfolding clear_rest load_version
  cleared-IsValidWithin valid = record {
    small = valid.small;
    sound = λ ci h. record { erased = (valid.sound ci h).erased; spare = (valid.sound ci h).spare };
    filled = λ ci i h alive.
        let r = valid.filled ci i h alive in
        record {
          key = r.key;
          value = r.value;
          holds = (r.holds.0, cleared_lem ci i alive ∙ r.holds.1);
          tagged = r.tagged;
        };
    placed = λ q w ci i h.
        Reaches-mono f (bucket_of m s) final q ci refl full_cleared
          (valid.placed q w ci i ((At-cleared q w ci i).0 h));
    unique = λ q w x ci i cj j h h'.
        valid.unique q w x ci i cj j ((At-cleared q w ci i).0 h) ((At-cleared q x cj j).0 h');
  }
