-- ===== src/Reader/Stable.antt =====
-- What stays of the cell that a reader has loaded the version of, while writers go on.
use turbo_hash.Common.{
  ℕ, suc, ◌≤◌, ◌≡◌, refl, sym, ap, ◌∙◌, true, false, inl, inr, arith, ◌==◌, Bool-cases,
}
use turbo_hash.Cell.{Cell, load_version}
use turbo_hash.Cell.Live.{live}
use turbo_hash.SlotFormat.{SlotFormat}
use turbo_hash.Bucket.{Target}
use turbo_hash.Bucket.Valid.{hash, Holds}
use turbo_hash.Bucket.Write.{written}
use turbo_hash.Bucket.Erase.{erased_cell, slots-erased_cell}
use turbo_hash.Reader.{
  Phase, chosen, h1_stored, entry_stored, tag_stored, Writer, waiting, putting, under_way, Chooses,
  memory, meta_of,
}
use turbo_hash.Reader.Sound.{IsSound, Chooses-Writes, other_slot}

-- A slot that is not live is not one that is.
live-apart :
    {E : Type 0} (meta : Cell E) (i j : ℕ)
    → live meta i ≡ false
    → live meta j ≡ true
    → (i == j) ≡ false
live-apart meta i j gone alive = elim (Bool-cases (i == j)) [
  | inl here ↦ let e : i ≡ j = ground arith in let gone' = rw e at gone in cc
  | inr other ↦ other
]

module _ {K V E : Type 0} (f : SlotFormat K V E) where
  -- An insertion under way has a target and a pair that fits.
  abbrev pub IsBusy : Cell E → Writer K V → Type 0
  IsBusy c waiting = Unit
  IsBusy c (putting phase k v t) = Chooses f k c t × (f.fits k v ≡ true)

  -- The writer does not write a slot that is live in `meta`.
  abbrev pub Avoids : Cell E → Writer K V → Type 0
  Avoids meta waiting = Unit
  Avoids meta (putting phase k v t) = live meta t.slot ≡ false

  -- The writes of an insertion under way change its target's slot, and no version.
  pub memory-other :
      (c : Cell E) (w : Writer K V) (meta : Cell E) (j : ℕ)
      → Avoids meta w
      → live meta j ≡ true
      → (memory f c w).slots j ≡ c.slots j
  memory-other c waiting meta j avoids alive = refl
  memory-other c (putting chosen k v t) meta j avoids alive = refl
  memory-other c (putting h1_stored k v t) meta j avoids alive =
      let other = live-apart meta t.slot j avoids alive in rw other refl
  memory-other c (putting entry_stored k v t) meta j avoids alive =
      let other = live-apart meta t.slot j avoids alive in rw other refl
  memory-other c (putting tag_stored k v t) meta j avoids alive =
      let other = live-apart meta t.slot j avoids alive in rw other refl

  pub word-memory : (c : Cell E) (w : Writer K V) → (memory f c w).word ≡ c.word
  word-memory c waiting = refl
  word-memory c (putting chosen k v t) = refl
  word-memory c (putting h1_stored k v t) = refl
  word-memory c (putting entry_stored k v t) = refl
  word-memory c (putting tag_stored k v t) = refl

  -- The cell `meta` at the load of the version, and the cell `c` after it.
  pub record Snapshot (c : Cell E) (w : Writer K V) (begun : ℕ) (meta : Cell E) : Type 0 where
    pub pending : under_way w ≤ begun
    pub before : begun ≡ 0 → (j : ℕ) → live meta j ≡ true → live c j ≡ true
    pub avoids : begun ≡ 1 → Avoids meta w
    pub same : begun ≤ 1 → (j : ℕ) → live meta j ≡ true → c.slots j ≡ meta.slots j
    pub filled : (j : ℕ) → live meta j ≡ true → (k : K) × (v : V) × Holds f (meta.slots j) k v

  module _ (c : Cell E) (meta : Cell E) where
    -- An insertion begins.
    pub Snapshot-choose :
        (n : ℕ) (k : K) (v : V) (t : Target)
        → live c t.slot ≡ false
        → Snapshot c waiting n meta
        → Snapshot c (putting chosen k v t) (suc n) meta
    Snapshot-choose n k v t free snap = record {
      pending = omega arith;
      before = λ e. absurd (omega (arith, e));
      avoids = λ e. elim (Bool-cases (live meta t.slot)) [
        | inl alive ↦ let still = snap.before (omega (arith, e)) t.slot alive in cc
        | inr gone ↦ gone
      ];
      same = λ le. snap.same (omega (arith, le));
      filled = snap.filled;
    }

    -- Its writes before the version.
    pub Snapshot-write :
        (n : ℕ) (phase phase' : Phase) (k : K) (v : V) (t : Target)
        → Snapshot c (putting phase k v t) n meta
        → Snapshot c (putting phase' k v t) n meta
    Snapshot-write n phase phase' k v t snap = record {
      pending = snap.pending;
      before = snap.before;
      avoids = snap.avoids;
      same = snap.same;
      filled = snap.filled;
    }

    -- The version of an insertion.
    pub Snapshot-publish :
        (n : ℕ) (k : K) (v : V) (t : Target)
        → Snapshot c (putting tag_stored k v t) n meta
        → Snapshot (written f (hash f k) k v c t) waiting n meta
    Snapshot-publish n k v t snap = record {
      pending = omega arith;
      before = λ e. absurd (omega (arith, e, snap.pending));
      avoids = λ e. tt;
      same = λ le j alive.
          let one : n ≡ 1 = omega (arith, le, snap.pending) in
          let other = live-apart meta t.slot j (snap.avoids one) alive in
          (other_slot f k v c t j other).0 ∙ snap.same le j alive;
      filled = snap.filled;
    }

    -- A deletion.
    pub Snapshot-erase :
        (n i : ℕ) → Snapshot c waiting n meta → Snapshot (erased_cell c i) waiting (suc n) meta
    Snapshot-erase n i snap = record {
      pending = omega arith;
      before = λ e. absurd (omega (arith, e));
      avoids = λ e. tt;
      same = λ le j alive.
          ap (λ s. s j) (slots-erased_cell c i).0 ∙ snap.same (omega (arith, le)) j alive;
      filled = snap.filled;
    }

  -- The load of the version.
  pub live-meta_of :
      (tags : ℕ → ℕ) (c : Cell E) (w : Writer K V) (j : ℕ)
      → live (meta_of f tags (memory f c w)) j ≡ live c j
  unfolding load_version
  live-meta_of tags c w j = ap (λ word. live (record c { word = word }) j) (word-memory c w)

  pub Snapshot-load :
      (tags : ℕ → ℕ) (c : Cell E) (w : Writer K V)
      → IsSound f c
      → IsBusy c w
      → Snapshot c w (under_way w) (meta_of f tags (memory f c w))
  Snapshot-load tags c w sound busy = record {
    pending = omega arith;
    before = λ e j alive. sym (live-meta_of tags c w j) ∙ alive;
    avoids = λ e. avoids_meta w busy;
    same = λ le j alive. sym (kept j alive);
    filled = λ j alive.
        let r = sound.filled j (sym (live-meta_of tags c w j) ∙ alive) in
        (r.key, r.value, (r.holds.0, kept j alive ∙ r.holds.1));
  }
    where
      avoids_meta : (w' : Writer K V) → IsBusy c w' → Avoids (meta_of f tags (memory f c w)) w'
      avoids_meta waiting _ = tt
      avoids_meta (putting phase k v t) b =
          live-meta_of tags c w t.slot ∙ (Chooses-Writes f k v c t sound b.0).free

      kept :
          (j : ℕ)
          → live (meta_of f tags (memory f c w)) j ≡ true
          → (memory f c w).slots j ≡ c.slots j
      kept j alive = memory-other c w (meta_of f tags (memory f c w)) j (avoids_meta w busy) alive

  -- While at most one writer has begun, a load of a slot that was live gives what it had then.
  pub seen-Snapshot :
      (c : Cell E) (w : Writer K V) (n : ℕ) (meta : Cell E) (j : ℕ)
      → Snapshot c w n meta
      → n ≤ 1
      → live meta j ≡ true
      → (memory f c w).slots j ≡ meta.slots j
  seen-Snapshot c w n meta j snap le alive =
      memory-other c w meta j (avoids_now w snap.pending snap.avoids) alive ∙ snap.same le j alive
    where
      avoids_now : (w' : Writer K V) → under_way w' ≤ n → (n ≡ 1 → Avoids meta w') → Avoids meta w'
      avoids_now waiting pending avoids = tt
      avoids_now (putting phase k v t) pending avoids = avoids (omega (arith, le, pending))
