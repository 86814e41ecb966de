-- ===== src/Reader/Torn.antt =====
-- A second insertion that overlaps with a read.
use turbo_hash.Common.{ℕ, suc, ◌≡◌, refl, ap, true, false, ◌==◌, arith}
use turbo_hash.Cell.{Cell, load_version}
use turbo_hash.SlotFormat.{SlotFormat}
use turbo_hash.Bucket.{Target}
use turbo_hash.Reader.{
  chosen, h1_stored, entry_stored, waiting, putting, Chooses, memory, to_store, key_equal,
  h1_copied, copied, hit, State, choose, store_h1, store_entry, copy_h1, copy_entry, accept, Reach,
  later, retries, seen,
}

module _ {K V E : Type 0} (f : SlotFormat K V E) (q : K) where
  -- After the reader has compared the keys, and while the version still passes its check, as it does
  -- when one version was stored since, an insertion that takes the slot for its target can write it
  -- before the reader copies it: `findSlot` then returns the record of the other key.
  pub torn_read :
      (s0 s : State K V E)
      → Reach f q s0 s
      → (meta : Cell E) (i : ℕ) → s.reader ≡ key_equal meta i
      → s.writer ≡ waiting
      → retries (load_version meta) (load_version s.cell) ≡ false
      → (k : K) (v : V) (t : Target) → Chooses f k s.cell t
      → f.fits k v ≡ true
      → t.slot ≡ i
      → (r : State K V E) × Reach f q s0 r × (r.reader ≡ hit meta i (to_store f k v))
  unfolding load_version
  torn_read s0 s reach meta i reads free passes k v t ch fit target =
      let s1 = record s { writer = putting chosen k v t; begun = suc s.begun } in
      let s2 = record s1 { writer = putting h1_stored k v t } in
      let s3 = record s2 { writer = putting entry_stored k v t } in
      let same : ((memory f s.cell (putting entry_stored k v t)).slots i) ≡ to_store f k v =
        let at_slot : (t.slot == i) ≡ true = ground arith in rw at_slot refl in
      let s4 = record s3 { reader = h1_copied meta i ((seen f s3).slots i).h1 } in
      let s5 = record s4 {
        reader =
            copied meta i
              (record { h1 = ((seen f s3).slots i).h1; entry = ((seen f s4).slots i).entry });
      } in
      let s6 = record s5 {
        reader =
            hit meta i
              (record { h1 = ((seen f s3).slots i).h1; entry = ((seen f s4).slots i).entry });
      } in
      (
        s6,
        later
            (later
              (later
                (later (later (later reach (choose k v t free ch fit)) (store_h1 k v t refl))
                  (store_entry k v t refl))
                (copy_h1 meta i reads))
              (copy_entry meta i _ refl))
            (accept meta i _ refl passes),
        ap (hit meta i) same,
      )
