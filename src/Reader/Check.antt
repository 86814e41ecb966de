-- ===== src/Reader/Check.antt =====
-- The second load of the version: what `findSlot` learns from the sequence numbers.
use turbo_hash.Common.{
  ℕ, suc, ◌+◌, ◌%◌, ◌^◌, ◌≤◌, ◌<◌, ◌≡◌, ◌↔◌, refl, ap, false, arith, Bool-cases, inl, inr,
}
use turbo_hash.Cell.{
  Version, Cell, HashSlot, load_version, store_version, set_slot, exchange_slot, mark_deleted,
}
use turbo_hash.Cell.Word.{IsVersion, load_version-store_version, load_version-IsVersion}
use turbo_hash.Cell.Change.{set_slot-IsVersion, exchange_slot-IsVersion, mark_deleted-IsVersion}
use turbo_hash.SlotFormat.{SlotFormat}
use turbo_hash.Bucket.{Target, insert_to_slot}
use turbo_hash.Bucket.Valid.{hash}
use turbo_hash.Bucket.Write.{written}
use turbo_hash.Bucket.Erase.{erased_cell}
use turbo_hash.Reader.{
  Writer, memory, meta_of, seen, retries, Reader, idle, tags_loaded, scanning, h1_equal, key_equal,
  h1_copied, copied, hit, miss, State, start, Step, choose, store_h1, store_entry, store_tag,
  publish, erase, load_tags, load_ver, same_h1, other_h1, same_key, other_key, copy_h1, copy_entry,
  accept, retry, no_match, Reach, here, later,
}
use turbo_hash.Reader.Stable.{word-memory}

abbrev pub seq : {E : Type 0} → Cell E → ℕ
seq c = (load_version c).seq_no

module _ {K V E : Type 0} (f : SlotFormat K V E) where
  seq-stored : (c : Cell E) (v : Version) → IsVersion v → seq (store_version c v) ≡ v.seq_no
  seq-stored c v is = ap (λ (w : Version). w.seq_no) (load_version-store_version c v is)

  seq-written :
      (k : K) (v : V) (c : Cell E) (t : Target)
      → seq (written f (hash f k) k v c t) ≡ (seq c + 1) % 2 ^ 32
  unfolding insert_to_slot load_version set_slot exchange_slot
  seq-written k v c t =
      let version = load_version c in
      elim (Bool-cases t.equal_key) [
        | inl e ↦ rw e (
            seq-stored _ (exchange_slot version t.slot t.old_slot)
              (exchange_slot-IsVersion version t.slot t.old_slot (load_version-IsVersion c)))
        | inr e ↦ rw e (
            seq-stored _ (set_slot version t.slot)
              (set_slot-IsVersion version t.slot (load_version-IsVersion c)))
      ]

  seq-erased : (c : Cell E) (i : ℕ) → seq (erased_cell c i) ≡ (seq c + 1) % 2 ^ 32
  unfolding mark_deleted
  seq-erased c i =
      seq-stored c (mark_deleted (load_version c) i)
        (mark_deleted-IsVersion (load_version c) i (load_version-IsVersion c))

  -- The sequence number counts the versions that were stored since `meta` was loaded.
  abbrev Counts : ℕ → ℕ → Cell E → Type 0
  Counts now published meta = now ≡ (seq meta + published) % 2 ^ 32

  abbrev ReaderCounts : ℕ → ℕ → Reader E → Type 0
  ReaderCounts now n idle = Unit
  ReaderCounts now n (tags_loaded tags) = Unit
  ReaderCounts now n (scanning meta is) = Counts now n meta
  ReaderCounts now n (h1_equal meta i is) = Counts now n meta
  ReaderCounts now n (key_equal meta i) = Counts now n meta
  ReaderCounts now n (h1_copied meta i h1) = Counts now n meta
  ReaderCounts now n (copied meta i r) = Counts now n meta
  ReaderCounts now n (hit meta i r) = Unit
  ReaderCounts now n (miss meta) = Unit

  ReaderCounts-suc :
      (now n : ℕ) (r : Reader E)
      → ReaderCounts now n r
      → ReaderCounts ((now + 1) % 2 ^ 32) (suc n) r
  ReaderCounts-suc now n idle h = tt
  ReaderCounts-suc now n (tags_loaded tags) h = tt
  ReaderCounts-suc now n (scanning meta is) h = omega (arith, h)
  ReaderCounts-suc now n (h1_equal meta i is) h = omega (arith, h)
  ReaderCounts-suc now n (key_equal meta i) h = omega (arith, h)
  ReaderCounts-suc now n (h1_copied meta i h1) h = omega (arith, h)
  ReaderCounts-suc now n (copied meta i r) h = omega (arith, h)
  ReaderCounts-suc now n (hit meta i r) h = tt
  ReaderCounts-suc now n (miss meta) h = tt

  abbrev Counted : State K V E → Type 0
  Counted s = ReaderCounts (seq s.cell) s.published s.reader

  seq-lt : (c : Cell E) → seq c < 2 ^ 32
  seq-lt c = (load_version-IsVersion c).seq_no_word

  -- The tags do not change the version, nor does an insertion under way.
  seq-meta_of : (tags : ℕ → ℕ) (c : Cell E) → seq (meta_of f tags c) ≡ seq c
  unfolding load_version
  seq-meta_of tags c = refl

  pub seq-memory : (c : Cell E) (w : Writer K V) → seq (memory f c w) ≡ seq c
  unfolding load_version
  seq-memory c w = ap (λ word. seq (record c { word = word })) (word-memory f c w)

  Counts-load :
      (tags : ℕ → ℕ) (c : Cell E) (w : Writer K V)
      → Counts (seq c) 0 (meta_of f tags (memory f c w))
  Counts-load tags c w = omega (arith, seq-meta_of tags (memory f c w), seq-memory c w, seq-lt c)

  Step-Counted : {q : K} {s t : State K V E} → Step f q s t → Counted s → Counted t
  Step-Counted (choose k v t e ch fit) h = h
  Step-Counted (store_h1 k v t e) h = h
  Step-Counted (store_entry k v t e) h = h
  Step-Counted (store_tag k v t e) h = h
  Step-Counted {s = s} (publish k v t e) h =
      rw (seq-written k v s.cell t) (ReaderCounts-suc (seq s.cell) s.published s.reader h)
  Step-Counted {s = s} (erase k i e found) h =
      rw (seq-erased s.cell i) (ReaderCounts-suc (seq s.cell) s.published s.reader h)
  Step-Counted (load_tags e) h = tt
  Step-Counted {s = s} (load_ver tags e) h = Counts-load tags s.cell s.writer
  Step-Counted (same_h1 meta i is e same) h = rw e at h
  Step-Counted (other_h1 meta i is e other) h = rw e at h
  Step-Counted (same_key meta i is e same) h = rw e at h
  Step-Counted (other_key meta i is e other) h = rw e at h
  Step-Counted (copy_h1 meta i e) h = rw e at h
  Step-Counted (copy_entry meta i h1 e) h = rw e at h
  Step-Counted (accept meta i r e fresh) h = tt
  Step-Counted (retry meta i r e stale) h = tt
  Step-Counted (no_match meta e) h = tt

  Reach-Counted : {q : K} {s t : State K V E} → Counted s → Reach f q s t → Counted t
  Reach-Counted h here = h
  Reach-Counted h (later r st) = Step-Counted st (Reach-Counted h r)

  -- In every state that the threads reach from a cell that nobody reads or writes, in which the
  -- reader has copied a record, and in which the sequence number has not wrapped round since its
  -- load: the check passes exactly if at most one version was stored since, and the number loaded
  -- is not the largest one of 32 bits. With the largest one `findSlot` loads the cell again, also
  -- if nobody writes.
  pub retries_iff :
      (q : K) (c : Cell E) (s : State K V E)
      → Reach f q (start f c) s
      → (meta : Cell E) (i : ℕ) (r : HashSlot E) → s.reader ≡ copied meta i r
      → seq meta + s.published < 2 ^ 32
      → (retries (load_version meta) (load_version (seen f s)) ≡ false)
        ↔ ((s.published ≤ 1) × (seq meta + 1 < 2 ^ 32))
  unfolding retries
  retries_iff q c s reach meta i r e fits =
      let counted : ReaderCounts (seq s.cell) s.published (copied meta i r) =
        rw e at (Reach-Counted tt reach) in
      let now : seq (seen f s) ≡ seq meta + s.published =
        omega (arith, counted, fits, seq-memory s.cell s.writer) in
      rw now (λ h. ground (arith, h), λ h. ground (arith, h))
