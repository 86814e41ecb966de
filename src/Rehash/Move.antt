-- ===== src/Rehash/Move.antt =====
-- The loop of `MinorRehash`, and the pairs that it moves.
use turbo_hash.Common.{
  ℕ, ◌-◌, ◌^◌, ◌≤◌, ◌<◌, ◌≡◌, ap, ◌∙◌, true, false, ◌⊎◌, ◌↔◌, inl, inr, leb, Option, none, some,
  List, [], ◌∷◌, arith,
}
use turbo_hash.Hasher.{h2_of}
use turbo_hash.Cell.{HashSlot}
use turbo_hash.Cell.Live.{live}
use turbo_hash.Probe.Path.{cell_at}
use turbo_hash.SlotFormat.{SlotFormat}
use turbo_hash.Bucket.{Bucket, cell_count}
use turbo_hash.Bucket.Valid.{hash, home, Holds, At, Contains, Filled, IsValid, IsValidWithin}
use turbo_hash.Bucket.Match.{Holds-key, Holds-value}
use turbo_hash.Rehash.{Moving, find_next_slot, move_one, move_to, move_all, and_then}
use turbo_hash.Rehash.Next.{IsPlace, find_next_slot-IsPlace}
use turbo_hash.Rehash.Pack.{
  IsPacked, bucket_of, next, next-IsPacked, next-IsValidWithin, Contains-next,
}

module _ {K V E : Type 0} (f : SlotFormat K V E) (s : ℕ) (small : s ≤ 15) where
  -- The 16 cells from the key's home on have no slot left.
  abbrev pub IsStuck : Moving E → K → Type 0
  IsStuck m k = (e : ℕ) → e ≤ 15 → 7 ≤ m.slot_vec (cell_at s (home f k) e)

  module _ (m : Moving E) (k : K) (v : V) (slot : HashSlot E) (tag : ℕ)
      (holds : Holds f slot k v) where
    home_lem : f.h1_to_hash slot.h1 ≡ home f k
    home_lem = ap (λ t. f.h1_to_hash t.h1) holds.1 ∙ ap f.h1_to_hash (f.h1-store (hash f k) k v)

    -- The pair is moved: the new bucket has it besides what it had.
    record Adds (m' : Moving E) : Type 0 where
      packed : IsPacked m'
      valid : IsValidWithin f 16 (bucket_of m' s)
      content :
          (q : K) (w : V)
          → Contains f (bucket_of m' s) q w ↔ (((q ≡ k) × (w ≡ v)) ⊎ Contains f (bucket_of m s) q w)

    abbrev AddsOrStuck : Option (Moving E) → Type 0
    AddsOrStuck none = IsStuck m k
    AddsOrStuck (some m') = Adds m'

    module _ (packed : IsPacked m) (valid : IsValidWithin f 16 (bucket_of m s))
        (tagged : tag ≡ h2_of (hash f k))
        (absent : (w : V) → Contains f (bucket_of m s) k w → ⊥) where
      next-Adds :
          (d : ℕ) (near : d ≤ 15) (free : m.slot_vec (cell_at s (home f k) d) < 7)
          (before : (e : ℕ) → e < d → 7 ≤ m.slot_vec (cell_at s (home f k) e))
          → Adds (next f s small m packed valid k v slot tag holds tagged absent d near free before)
      next-Adds d near free before = record {
        packed =
            next-IsPacked f s small m packed valid k v slot tag holds tagged absent d near free
              before;
        valid =
            next-IsValidWithin f s small m packed valid k v slot tag holds tagged absent d near free
              before;
        content =
            Contains-next f s small m packed valid k v slot tag holds tagged absent d near free
              before;
      }

      move_to-AddsOrStuck :
          (o : Option ℕ)
          → IsPlace m.slot_vec s (home f k) small o
          → AddsOrStuck (move_to slot tag m o)
      unfolding move_to
      move_to-AddsOrStuck none stuck = stuck
      move_to-AddsOrStuck (some ci) (d, near, there, free, before) =
          let room : leb 7 (m.slot_vec ci) ≡ false = ground arith in
          rw (room, there) (next-Adds d near (rw there at free) before)

      move_one-AddsOrStuck : AddsOrStuck (move_one f (2 ^ s - 1) slot tag m)
      unfolding move_one
      move_one-AddsOrStuck =
          move_to-AddsOrStuck (find_next_slot f m.slot_vec slot.h1 (2 ^ s - 1))
            (rw home_lem at (find_next_slot-IsPlace f m.slot_vec s slot.h1 small))

  module _ (b : Bucket E) (old : IsValid f b) where
    -- One of the visited slots has the pair.
    abbrev pub Among : List (ℕ × ℕ) → K → V → Type 0
    Among [] q w = ⊥
    Among ((ci, i) ∷ rest) q w = At f b q w ci i ⊎ Among rest q w

    -- The slots are live slots of the bucket, each visited once.
    abbrev pub AreLive : List (ℕ × ℕ) → Type 0
    AreLive [] = Unit
    AreLive ((ci, i) ∷ rest) =
        (ci < cell_count b)
        × (live (b.cells ci) i ≡ true)
        × ((q : K) (w x : V) → At f b q w ci i → Among rest q x → ⊥)
        × AreLive rest

    pub record Moves (ps : List (ℕ × ℕ)) (m m' : Moving E) : Type 0 where
      pub packed : IsPacked m'
      pub valid : IsValidWithin f 16 (bucket_of m' s)
      pub content :
          (q : K) (w : V)
          → Contains f (bucket_of m' s) q w ↔ (Contains f (bucket_of m s) q w ⊎ Among ps q w)

    -- `exit`: when some of the pairs were moved, the next one found no slot left in the 16 cells from
    -- its home on.
    pub record Exits (ps : List (ℕ × ℕ)) (m : Moving E) : Type 0 where
      pub key : K
      pub value : V
      pub pair : Contains f b key value
      pub state : Moving E
      pub packed : IsPacked state
      pub valid : IsValidWithin f 16 (bucket_of state s)
      pub moved :
          (q : K) (w : V)
          → Contains f (bucket_of state s) q w
          → Contains f (bucket_of m s) q w ⊎ Among ps q w
      pub stuck : IsStuck state key

    abbrev pub MovesOrStuck : List (ℕ × ℕ) → Moving E → Option (Moving E) → Type 0
    MovesOrStuck ps m none = Exits ps m
    MovesOrStuck ps m (some m') = Moves ps m m'

    compose :
        (ci i : ℕ) (rest : List (ℕ × ℕ)) (m m' : Moving E) (k : K) (v : V)
        → At f b k v ci i
        → ((q : K) (w : V)
            → Contains f (bucket_of m' s) q w
              ↔ (((q ≡ k) × (w ≡ v)) ⊎ Contains f (bucket_of m s) q w))
        → (o : Option (Moving E)) → MovesOrStuck rest m' o
        → MovesOrStuck ((ci, i) ∷ rest) m o
    compose ci i rest m m' k v at content none exits = record {
      key = exits.key;
      value = exits.value;
      pair = exits.pair;
      state = exits.state;
      packed = exits.packed;
      valid = exits.valid;
      moved = λ q w c. elim (exits.moved q w c) [
        | inl c' ↦ elim ((content q w).0 c') [
          | inl (e, e') ↦ inr (inl (rw (e, e') at))
          | inr c'' ↦ inl c''
        ]
        | inr p ↦ inr (inr p)
      ];
      stuck = exits.stuck;
    }
    compose ci i rest m m' k v at content (some m'') moves = record {
      packed = moves.packed;
      valid = moves.valid;
      content = λ q w. (
        λ c. elim ((moves.content q w).0 c) [
          | inl c' ↦ elim ((content q w).0 c') [
            | inl (e, e') ↦ inr (inl (rw (e, e') at))
            | inr c'' ↦ inl c''
          ]
          | inr p ↦ inr (inr p)
        ],
        elim [
          | inl c ↦ (moves.content q w).1 (inl ((content q w).1 (inr c)))
          | inr (inl at') ↦
              let there = at'.holds in
              let slot = (b.cells ci).slots i in
              (moves.content q w).1 (
                inl (
                  (content q w).1 (
                    inl (
                      Holds-key f slot q k w v there at.holds,
                      Holds-value f slot q k w v there at.holds,
                    ))))
          | inr (inr p) ↦ (moves.content q w).1 (inr p)
        ],
      );
    }

    pub move_all-MovesOrStuck :
        (ps : List (ℕ × ℕ)) (m : Moving E)
        → IsPacked m
        → IsValidWithin f 16 (bucket_of m s)
        → AreLive ps
        → ((q : K) (w x : V) → Among ps q w → Contains f (bucket_of m s) q x → ⊥)
        → MovesOrStuck ps m (move_all f b (2 ^ s - 1) ps m)
    unfolding move_all
    move_all-MovesOrStuck [] m packed valid live' new = record {
      packed = packed;
      valid = valid;
      content = λ q w. (inl, elim [ inl c ↦ c | inr p ↦ absurd p ]);
    }
    move_all-MovesOrStuck ((ci, i) ∷ rest) m packed valid (inside, alive, once, live') new =
        after (λ m' p v n. move_all-MovesOrStuck rest m' p v live' n)
          (move_one f (2 ^ s - 1) ((b.cells ci).slots i) ((b.cells ci).tags i) m)
          (move_one-AddsOrStuck m r.key r.value ((b.cells ci).slots i) ((b.cells ci).tags i) r.holds
            packed valid r.tagged (λ w c. new r.key r.value w (inl at) c))
      where
        r : Filled f (b.cells ci) i
        r = old.filled ci i inside alive

        at : At f b r.key r.value ci i
        at = record { inside = inside; alive = alive; holds = r.holds }

        after :
            ((m' : Moving E)
              → IsPacked m'
              → IsValidWithin f 16 (bucket_of m' s)
              → ((q : K) (w x : V) → Among rest q w → Contains f (bucket_of m' s) q x → ⊥)
              → MovesOrStuck rest m' (move_all f b (2 ^ s - 1) rest m'))
            → (o : Option (Moving E))
            → AddsOrStuck m r.key r.value ((b.cells ci).slots i) ((b.cells ci).tags i) r.holds o
            → MovesOrStuck ((ci, i) ∷ rest) m (and_then o (move_all f b (2 ^ s - 1) rest))
        after again none stuck = record {
          key = r.key;
          value = r.value;
          pair = (ci, i, at);
          state = m;
          packed = packed;
          valid = valid;
          moved = λ q w c. inl c;
          stuck = stuck;
        }
        after again (some m') adds =
            compose ci i rest m m' r.key r.value at adds.content (move_all f b (2 ^ s - 1) rest m')
              (again m' adds.packed adds.valid (λ q w x p c. elim ((adds.content q x).0 c) [
                | inl (e, _) ↦ once q r.value w (rw e at) p
                | inr c' ↦ new q w x (inr p) c'
              ]))
