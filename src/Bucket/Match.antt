-- ===== src/Bucket/Match.antt =====
-- The search within one cell.
use turbo_hash.Common.{
  In, ℕ, ◌<◌, ◌^◌, ◌≡◌, refl, sym, ap, ◌∙◌, Bool, true, false, ◌&&◌, ◌↔◌, inl, inr, none, some,
  List, [], ◌∷◌, ◌==◌, ==_iff, Bool-cases, arith,
}
use turbo_hash.Common.Bits.{test_bit, bit_and-lt}
use turbo_hash.BitSet.{positions}
use turbo_hash.BitSet.Laws.{In-set_bits, positions-eq-set_bits}
use turbo_hash.Hasher.{h2_of}
use turbo_hash.Cell.{Cell, HashSlot, match_bitset, bit_map_mask}
use turbo_hash.Cell.Live.{live, test_bit-match_bitset, occupied_range}
use turbo_hash.SlotFormat.{SlotFormat}
use turbo_hash.Bucket.{first_match, slot_matches, match_slot}
use turbo_hash.Bucket.Valid.{hash, Holds, Filled}

pub first_match-some :
    (test : ℕ → Bool) (xs : List ℕ) (i : ℕ)
    → first_match test xs ≡ some i
    → In i xs × (test i ≡ true)
unfolding first_match
first_match-some test [] i h = cc
first_match-some test (x ∷ xs) i h = elim (Bool-cases (test x)) [
  | inl hit ↦ let e : x ≡ i = ground arith in (inl (sym e), rw e at hit)
  | inr miss ↦ let (m, t) = first_match-some test xs i (rw miss at h) in (inr m, t)
]

pub first_match-none :
    (test : ℕ → Bool) (xs : List ℕ) (i : ℕ) → first_match test xs ≡ none → In i xs → test i ≡ false
unfolding first_match
first_match-none test [] i h m = absurd m
first_match-none test (x ∷ xs) i h m = elim (Bool-cases (test x)) [
  | inl hit ↦ ground arith
  | inr miss ↦ elim m [ inl e ↦ rw e miss | inr m' ↦ first_match-none test xs i (rw miss at h) m' ]
]

module _ {E : Type 0} (c : Cell E) (h2 : ℕ) where
  match_bitset-lt : match_bitset c h2 < 2 ^ 8
  unfolding match_bitset
  match_bitset-lt = bit_and-lt 8 _ bit_map_mask (omega arith)

  pub In-match_bitset :
      (i : ℕ) → In i (positions (match_bitset c h2)) ↔ ((live c i && h2 == c.tags i) ≡ true)
  In-match_bitset i =
      rw
        (
          positions-eq-set_bits (match_bitset c h2) (omega (arith, match_bitset-lt)),
          ← test_bit-match_bitset c h2 i,
        )
        (
          λ m. ((In-set_bits 32 (match_bitset c h2) i).0 m).1,
          λ t. (In-set_bits 32 (match_bitset c h2) i).1 (below t, t),
        )
    where
      below : test_bit (match_bitset c h2) i ≡ true → i < 32
      below t = ground (arith, test_bit-match_bitset c h2 i, occupied_range c i)

module _ {K V E : Type 0} (f : SlotFormat K V E) where
  pub Holds-key : (s : HashSlot E) (k q : K) (v w : V) → Holds f s k v → Holds f s q w → k ≡ q
  Holds-key s k q v w (x, e) (y, e') =
      sym (f.first-store (hash f k) k v x)
      ∙ ap f.first (sym e ∙ e')
      ∙ f.first-store (hash f q) q w y

  pub Holds-value : (s : HashSlot E) (k q : K) (v w : V) → Holds f s k v → Holds f s q w → v ≡ w
  Holds-value s k q v w (x, e) (y, e') =
      sym (f.second-store (hash f k) k v x)
      ∙ ap f.second (sym e ∙ e')
      ∙ f.second-store (hash f q) q w y

  -- The comparison of H1 words and then of keys decides whether the slot is the key's.
  pub slot_matches-Holds :
      (q k : K) (v : V) (s : HashSlot E)
      → Holds f s k v
      → (slot_matches f q (hash f q) s ≡ true) ↔ (q ≡ k)
  unfolding slot_matches
  slot_matches-Holds q k v s (x, e) =
      let same = f.equal-store q k v x in
      let word = f.h1-store (hash f k) k v in
      rw (e, word)
        (
          λ t. ground (arith, (same (ground arith)).0),
          λ p. ground (arith, ==_iff (f.h1_of k (hash f k)) (f.h1_of q (hash f q)), same),
        )

  module _ (c : Cell E) (q : K) where
    -- A hit is a live slot that holds the key.
    pub match_slot-some :
        (i : ℕ)
        → ((j : ℕ) → live c j ≡ true → Filled f c j)
        → match_slot f q (hash f q) c ≡ some i
        → (live c i ≡ true) × ((v : V) × Holds f (c.slots i) q v)
    unfolding match_slot
    match_slot-some i filled h =
        let (m, t) =
          first_match-some (λ i. slot_matches f q (hash f q) (c.slots i))
            (positions (match_bitset c (h2_of (hash f q)))) i h in
        let alive : live c i ≡ true =
          ground (arith, (In-match_bitset c (h2_of (hash f q)) i).0 m) in
        let r = filled i alive in
        let same : q ≡ r.key = (slot_matches-Holds q r.key r.value (c.slots i) r.holds).0 t in
        (alive, (r.value, rw same r.holds))

    -- A miss leaves no live slot that holds the key.
    pub match_slot-none :
        (i : ℕ) (v : V)
        → ((j : ℕ) → live c j ≡ true → Filled f c j)
        → match_slot f q (hash f q) c ≡ none
        → live c i ≡ true
        → Holds f (c.slots i) q v
        → ⊥
    unfolding match_slot
    match_slot-none i v filled h alive holds =
        let r = filled i alive in
        let same = Holds-key (c.slots i) r.key q r.value v r.holds holds in
        let tag : h2_of (hash f q) ≡ c.tags i = rw (r.tagged, same) in
        let m = (In-match_bitset c (h2_of (hash f q)) i).1 (ground arith) in
        let miss = first_match-none (λ i. slot_matches f q (hash f q) (c.slots i)) _ i h m in
        let hit = (slot_matches-Holds q q v (c.slots i) holds).1 refl in cc
