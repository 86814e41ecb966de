-- ===== src/Reader/Missed.antt =====
-- An update that overlaps with the load of the tags and the version.
use turbo_hash.Common.{
  In, ℕ, ◌≡◌, ◌≢◌, refl, ap, ◌∙◌, true, false, ◌&&◌, not, ◌==◌, List, [], ◌∷◌, some, arith,
  Bool-cases, inl, inr,
}
use turbo_hash.BitSet.{positions, lowest}
use turbo_hash.Hasher.{h2_of}
use turbo_hash.Cell.{Cell, match_bitset, backup_bitset, load_version}
use turbo_hash.Cell.Live.{live}
use turbo_hash.SlotFormat.{SlotFormat}
use turbo_hash.Bucket.{Target, match_slot}
use turbo_hash.Bucket.Valid.{hash, Holds}
use turbo_hash.Bucket.Match.{In-match_bitset, match_slot-some}
use turbo_hash.Bucket.Write.{written, slots-written}
use turbo_hash.Reader.{
  chosen, h1_stored, entry_stored, tag_stored, waiting, putting, Chooses, for_update, meta_of,
  start, tags_loaded, scanning, miss, State, choose, store_h1, store_entry, store_tag, publish,
  load_tags, load_ver, no_match, Reach, here, later,
}
use turbo_hash.Reader.Sound.{IsSound, Chooses-Writes}

nothing_in : (is : List ℕ) → ((i : ℕ) → In i is → ⊥) → is ≡ []
nothing_in [] h = refl
nothing_in (i ∷ is) h = absurd (h i (inl refl))

module _ {K V E : Type 0} (f : SlotFormat K V E) (q : K) (c : Cell E) (sound : IsSound f c) (v : V)
    (fit : f.fits q v ≡ true) (t : Target) (same : t.equal_key ≡ true)
    (found : match_slot f q (hash f q) c ≡ some t.old_slot)
    (slot : t.slot ≡ lowest (backup_bitset c)) (new_tag : c.tags t.slot ≢ h2_of (hash f q))
    (alone : (j : ℕ)
      → live c j ≡ true
      → (t.old_slot == j) ≡ false
      → c.tags j ≢ h2_of (hash f q)) where
  ch : Chooses f q c t
  ch = for_update t same found slot

  abbrev updated : Cell E
  updated = written f (hash f q) q v c t

  -- With the old tags, no slot of the updated cell matches.
  stale_tags : positions (match_bitset (meta_of f c.tags updated) (h2_of (hash f q))) ≡ []
  unfolding load_version
  stale_tags = nothing_in _ (λ i m.
      let hit = (In-match_bitset (meta_of f c.tags updated) (h2_of (hash f q)) i).0 m in
      let tag : c.tags i ≡ h2_of (hash f q) = ground (arith, hit) in
      let alive : live updated i ≡ true = ground (arith, hit) in no_live i tag alive)
    where
      no_live : (i : ℕ) → c.tags i ≡ h2_of (hash f q) → live updated i ≡ true → ⊥
      no_live i tag alive = elim (Bool-cases (t.slot == i)) [
        | inl here' ↦ let e : t.slot ≡ i = ground arith in new_tag (rw e tag)
        | inr other ↦
            let after = (Chooses-Writes f q v c t sound ch).write.live_after i in
            let before : live c i && not (t.old_slot == i) ≡ true =
              ground (arith, after, alive, other, same) in
            alone i (ground (arith, before)) (ground (arith, before)) tag
      ]

  -- A read of a key that has loaded the tags, and loads the version after an update of the key that
  -- began after it, finds no match, if the tag of the update's slot was another one before and no
  -- other live slot has the key's tag: the key is in the cell all the time, before the read with
  -- the old value and after it with the new one.
  pub missed_read :
      (s : State K V E) × Reach f q (start f c) s
      × ((meta : Cell E) × (s.reader ≡ miss meta))
      × (live c t.old_slot ≡ true)
      × ((w : V) × Holds f (c.slots t.old_slot) q w)
      × (live s.cell t.slot ≡ true)
      × Holds f (s.cell.slots t.slot) q v
  unfolding load_version
  missed_read =
      let s1 : State K V E = record (start f c) { reader = tags_loaded c.tags } in
      let s2 : State K V E = record s1 { writer = putting chosen q v t; begun = 1 } in
      let s3 : State K V E = record s2 { writer = putting h1_stored q v t } in
      let s4 : State K V E = record s3 { writer = putting entry_stored q v t } in
      let s5 : State K V E = record s4 { writer = putting tag_stored q v t } in
      let s6 : State K V E = record s5 { cell = updated; writer = waiting; published = 1 } in
      let meta : Cell E = meta_of f c.tags updated in
      let s7 : State K V E = record s6 {
        reader = scanning meta (positions (match_bitset meta (h2_of (hash f q))));
        begun = 0;
        published = 0;
      } in
      let s8 : State K V E = record s7 { reader = miss meta } in
      let writes = Chooses-Writes f q v c t sound ch in
      let (alive, old) = match_slot-some f c q t.old_slot sound.filled found in
      let (slots, tags) = slots-written f (hash f q) q v c t in
      let at_slot : (t.slot == t.slot) ≡ true = ground arith in
      (
        s8,
        later
            (later
              (later
                (later
                  (later
                    (later (later (later here (load_tags refl)) (choose q v t refl ch fit))
                      (store_h1 q v t refl))
                    (store_entry q v t refl))
                  (store_tag q v t refl))
                (publish q v t refl))
              (load_ver c.tags refl))
            (no_match meta (ap (scanning meta) stale_tags)),
        (meta, refl),
        alive,
        old,
        ground (arith, writes.write.live_after t.slot),
        (fit, ap (λ r. r t.slot) slots ∙ rw at_slot refl),
      )
