-- ===== src/Rehash/Content.antt =====
-- The content and the invariant of the bucket that `MinorRehash` makes.
use turbo_hash.Common.{
  ℕ, ◌+◌, ◌^◌, ◌≤◌, ◌<◌, ◌≡◌, refl, Bool, ◌⊎◌, ◌↔◌, inl, inr, Option, none, some, length, ltb,
  arith, if◌then◌else◌, Bool-cases,
}
use turbo_hash.Cell.{HashSlot}
use turbo_hash.Probe.Path.{pow_mono}
use turbo_hash.SlotFormat.{SlotFormat}
use turbo_hash.Bucket.{Bucket, cell_count}
use turbo_hash.Bucket.Valid.{Contains, IsValid, IsValidWithin}
use turbo_hash.Rehash.{Moving, minor_rehash, start_moving, clear_rest, and_then, cell_count_limit}
use turbo_hash.Rehash.Pack.{IsPacked, bucket_of}
use turbo_hash.Rehash.Iterate.{live_slots, visit-live_slots}
use turbo_hash.Rehash.Move.{IsStuck, MovesOrStuck, move_all-MovesOrStuck}
use turbo_hash.Rehash.Visited.{visited-AreLive, Among-Contains}
use turbo_hash.Rehash.Cleared.{
  start-IsPacked, start-IsValidWithin, not_Contains-start, Contains-cleared, cleared-IsValidWithin,
}

module _ {K V E : Type 0} (f : SlotFormat K V E) (b : Bucket E) (isgc : Bool) where
  abbrev pub new_shift : ℕ
  new_shift = if isgc then b.cell_shift else b.cell_shift + 1

  -- The new bucket has the pairs of the old one, each at most 15 steps from home.
  pub record Rehashes (r : Bucket E × ℕ) : Type 0 where
    pub content : (q : K) (w : V) → Contains f r.0 q w ↔ Contains f b q w
    pub shift : r.0.cell_shift ≡ new_shift
    pub near : IsValidWithin f 16 r.0
    pub few_cells : new_shift ≤ 3 → IsValid f r.0
    pub counted : r.1 ≡ length (live_slots b (cell_count b) 0)

  module _ (old : IsValid f b) where
    -- A state of the loop that has only pairs of the bucket, and has no slot left in the 16 cells
    -- from the home cell of a pair of the bucket on.
    pub record Exit : Type 0 where
      pub key : K
      pub value : V
      pub pair : Contains f b key value
      pub small : new_shift ≤ 15
      pub state : Moving E
      pub packed : IsPacked state
      pub valid : IsValidWithin f 16 (bucket_of state new_shift)
      pub moved : (q : K) (w : V) → Contains f (bucket_of state new_shift) q w → Contains f b q w
      pub stuck : IsStuck f new_shift small state key

    -- `exit`: the new bucket would be too large, or some pair has no place within 16 cells.
    abbrev pub RehashesOrExits : Option (Bucket E × ℕ) → Type 0
    RehashesOrExits (some r) = Rehashes r
    RehashesOrExits none = (cell_count_limit < 2 ^ new_shift) ⊎ Exit

    -- Less than 16 cells from home is less than 15 in a bucket of at most 8 cells.
    narrow : (c : Bucket E) → c.cell_shift ≤ 3 → IsValidWithin f 16 c → IsValid f c
    narrow c few near = record {
      small = near.small;
      sound = near.sound;
      filled = near.filled;
      placed = λ q w ci i h.
          let r = near.placed q w ci i h in
          record {
            steps = r.steps;
            near = omega (arith, r.within, pow_mono c.cell_shift 3 few);
            within = r.within;
            there = r.there;
            full_before = r.full_before;
          };
      unique = near.unique;
    }

    module _ (zero_entry : E) (space : ℕ → ℕ → HashSlot E) where
      moved-Rehashes :
          (small : new_shift ≤ 15) (n : ℕ)
          → n ≡ length (live_slots b (cell_count b) 0)
          → (o : Option (Moving E))
          → MovesOrStuck f new_shift small b old
              (live_slots b (cell_count b) 0)
              (start_moving space)
              o
          → RehashesOrExits (and_then o (λ m. some (clear_rest zero_entry m new_shift, n)))
      unfolding clear_rest
      moved-Rehashes small n e none exits = inr (record {
        key = exits.key;
        value = exits.value;
        pair = exits.pair;
        small = small;
        state = exits.state;
        packed = exits.packed;
        valid = exits.valid;
        moved = λ q w c. elim (exits.moved q w c) [
          | inl c' ↦ absurd (not_Contains-start f new_shift space q w c')
          | inr a ↦ (Among-Contains f new_shift small b old q w).0 a
        ];
        stuck = exits.stuck;
      })
      moved-Rehashes small n e (some m) moves =
          let near = cleared-IsValidWithin f new_shift zero_entry m moves.packed moves.valid in
          record {
            content = λ q w. (
              λ c.
                  elim ((moves.content q w).0
                    ((Contains-cleared f new_shift zero_entry m moves.packed q w).0 c)) [
                      | inl c' ↦ absurd (not_Contains-start f new_shift space q w c')
                      | inr a ↦ (Among-Contains f new_shift small b old q w).0 a
                    ],
              λ c.
                  (Contains-cleared f new_shift zero_entry m moves.packed q w).1 (
                    (moves.content q w).1 (inr ((Among-Contains f new_shift small b old q w).1 c))),
            );
            shift = refl;
            near = near;
            few_cells = λ few. narrow (clear_rest zero_entry m new_shift) few near;
            counted = e;
          }

      width : 2 ^ new_shift ≤ cell_count_limit → new_shift ≤ 15
      width h = elim (split new_shift) [
        | inl le ↦ le
        | inr gt ↦ absurd (omega (arith, pow_mono 16 new_shift gt))
      ]
        where
          split : (n : ℕ) → (n ≤ 15) ⊎ (16 ≤ n)
          split n = omega arith

      -- `MinorRehash` of a valid bucket makes a bucket with the same pairs, of the same number of
      -- cells for a garbage collection and twice as many otherwise, with each pair at most 15
      -- steps from its home cell and all cells before it full, and counts the live slots; with at
      -- most 8 cells the new bucket meets the invariant of the searches. Or it exits: the new
      -- bucket would have more than kCellCountLimit cells, or, with only pairs of the old bucket in
      -- it, it has no slot left in the 16 cells from the home cell of one of these pairs on.
      pub minor_rehash-RehashesOrExits : RehashesOrExits (minor_rehash f b isgc zero_entry space)
      unfolding minor_rehash
      minor_rehash-RehashesOrExits = elim (Bool-cases (ltb cell_count_limit (2 ^ new_shift))) [
        | inl over ↦ rw over (inl (ground arith))
        | inr fits ↦
            let small = width (ground arith) in
            rw (fits, visit-live_slots b)
              (moved-Rehashes small (length (live_slots b (cell_count b) 0)) refl _ (
                move_all-MovesOrStuck f new_shift small b old (live_slots b (cell_count b) 0)
                  (start_moving space) (start-IsPacked f new_shift space)
                  (start-IsValidWithin f new_shift space small)
                  (visited-AreLive f new_shift small b old)
                  (λ q w x a c. not_Contains-start f new_shift space q x c)))
      ]
