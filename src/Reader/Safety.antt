-- ===== src/Reader/Safety.antt =====
-- The record that a reader returns.
use turbo_hash.Common.{In, ℕ, suc, ◌≤◌, ◌≡◌, refl, ap, true, inl, inr, List, ◌∷◌, arith, ◌==◌}
use turbo_hash.Hasher.{h2_of}
use turbo_hash.Cell.{Cell, HashSlot}
use turbo_hash.Cell.Live.{live}
use turbo_hash.SlotFormat.{SlotFormat}
use turbo_hash.Bucket.{slot_matches}
use turbo_hash.Bucket.Valid.{hash, Holds}
use turbo_hash.Bucket.Match.{In-match_bitset, slot_matches-Holds}
use turbo_hash.Bucket.Write.{written}
use turbo_hash.Bucket.Erase.{erased_cell}
use turbo_hash.Reader.{
  chosen, h1_stored, entry_stored, tag_stored, Writer, waiting, putting, meta_of, seen, Reader,
  idle, tags_loaded, scanning, h1_equal, key_equal, h1_copied, copied, hit, miss, State, start,
  Step, choose, store_h1, store_entry, store_tag, publish, erase, load_tags, load_ver, same_h1,
  other_h1, same_key, other_key, copy_h1, copy_entry, accept, retry, no_match, Reach, here, later,
}
use turbo_hash.Reader.Sound.{IsSound, Chooses-Writes, written-IsSound, erased-IsSound}
use turbo_hash.Reader.Stable.{
  IsBusy, Snapshot, Snapshot-choose, Snapshot-write, Snapshot-publish, Snapshot-erase,
  Snapshot-load, seen-Snapshot,
}

module _ {K V E : Type 0} (f : SlotFormat K V E) (q : K) where
  abbrev AllLive : Cell E → List ℕ → Type 0
  AllLive meta is = (i : ℕ) → In i is → live meta i ≡ true

  -- The slot of the snapshot matches the key, and what was copied of it is `P`.
  abbrev Finds : ℕ → Cell E → ℕ → Type 0 → Type 0
  Finds n meta i P =
      (live meta i ≡ true) × (n ≤ 1 → (slot_matches f q (hash f q) (meta.slots i) ≡ true) × P)

  -- What a reader knows of the cell that it loaded the version of.
  abbrev ReaderKnows : Cell E → Writer K V → ℕ → Reader E → Type 0
  ReaderKnows c w n idle = Unit
  ReaderKnows c w n (tags_loaded tags) = Unit
  ReaderKnows c w n (scanning meta is) = Snapshot f c w n meta × AllLive meta is
  ReaderKnows c w n (h1_equal meta i is) =
      Snapshot f c w n meta
      × AllLive meta is
      × (live meta i ≡ true)
      × (n ≤ 1 → ((meta.slots i).h1 == f.h1_of q (hash f q)) ≡ true)
  ReaderKnows c w n (key_equal meta i) = Snapshot f c w n meta × Finds n meta i Unit
  ReaderKnows c w n (h1_copied meta i h1) =
      Snapshot f c w n meta × Finds n meta i (h1 ≡ (meta.slots i).h1)
  ReaderKnows c w n (copied meta i r) = Snapshot f c w n meta × Finds n meta i (r ≡ meta.slots i)
  ReaderKnows c w n (hit meta i r) = Snapshot f c w n meta × Finds n meta i (r ≡ meta.slots i)
  ReaderKnows c w n (miss meta) = Unit

  -- A step of a writer.
  ReaderKnows-move :
      (c c' : Cell E) (w w' : Writer K V) (n n' : ℕ)
      → ((meta : Cell E) → Snapshot f c w n meta → Snapshot f c' w' n' meta)
      → n ≤ n'
      → (r : Reader E) → ReaderKnows c w n r
      → ReaderKnows c' w' n' r
  ReaderKnows-move c c' w w' n n' move le idle h = tt
  ReaderKnows-move c c' w w' n n' move le (tags_loaded tags) h = tt
  ReaderKnows-move c c' w w' n n' move le (scanning meta is) (s, all) = (move meta s, all)
  ReaderKnows-move c c' w w' n n' move le (h1_equal meta i is) (s, all, alive, same) =
      (move meta s, all, alive, λ few. same (omega (arith, few, le)))
  ReaderKnows-move c c' w w' n n' move le (key_equal meta i) (s, (alive, finds)) =
      (move meta s, (alive, λ few. finds (omega (arith, few, le))))
  ReaderKnows-move c c' w w' n n' move le (h1_copied meta i h1) (s, (alive, finds)) =
      (move meta s, (alive, λ few. finds (omega (arith, few, le))))
  ReaderKnows-move c c' w w' n n' move le (copied meta i r) (s, (alive, finds)) =
      (move meta s, (alive, λ few. finds (omega (arith, few, le))))
  ReaderKnows-move c c' w w' n n' move le (hit meta i r) (s, (alive, finds)) =
      (move meta s, (alive, λ few. finds (omega (arith, few, le))))
  ReaderKnows-move c c' w w' n n' move le (miss meta) h = tt

  both :
      (s : HashSlot E)
      → (s.h1 == f.h1_of q (hash f q)) ≡ true
      → f.slot_key_equal q s ≡ true
      → slot_matches f q (hash f q) s ≡ true
  unfolding slot_matches
  both s word key = ground (arith, word, key)

  record Inv (s : State K V E) : Type 0 where
    sound : IsSound f s.cell
    busy : IsBusy f s.cell s.writer
    knows : ReaderKnows s.cell s.writer s.begun s.reader

  Step-Inv : {s t : State K V E} → Step f q s t → Inv s → Inv t
  Step-Inv {s} (choose k v t e ch fit) inv = record {
    sound = inv.sound;
    busy = (ch, fit);
    knows =
        ReaderKnows-move s.cell s.cell s.writer (putting chosen k v t) s.begun (suc s.begun)
          (λ meta snap.
            Snapshot-choose f s.cell meta s.begun k v t
              (Chooses-Writes f k v s.cell t inv.sound ch).free (rw e at snap))
          (omega arith) s.reader inv.knows;
  }
  Step-Inv {s} (store_h1 k v t e) inv = record {
    sound = inv.sound;
    busy = rw e at inv.busy;
    knows =
        ReaderKnows-move s.cell s.cell s.writer (putting h1_stored k v t) s.begun s.begun
          (λ meta snap. Snapshot-write f s.cell meta s.begun chosen h1_stored k v t (rw e at snap))
          (omega arith) s.reader inv.knows;
  }
  Step-Inv {s} (store_entry k v t e) inv = record {
    sound = inv.sound;
    busy = rw e at inv.busy;
    knows =
        ReaderKnows-move s.cell s.cell s.writer (putting entry_stored k v t) s.begun s.begun
          (λ meta snap.
            Snapshot-write f s.cell meta s.begun h1_stored entry_stored k v t (rw e at snap))
          (omega arith) s.reader inv.knows;
  }
  Step-Inv {s} (store_tag k v t e) inv = record {
    sound = inv.sound;
    busy = rw e at inv.busy;
    knows =
        ReaderKnows-move s.cell s.cell s.writer (putting tag_stored k v t) s.begun s.begun
          (λ meta snap.
            Snapshot-write f s.cell meta s.begun entry_stored tag_stored k v t (rw e at snap))
          (omega arith) s.reader inv.knows;
  }
  Step-Inv {s} (publish k v t e) inv =
      let (ch, fit) : IsBusy f s.cell (putting tag_stored k v t) = rw e at inv.busy in
      record {
        sound =
            written-IsSound f k v s.cell t inv.sound fit
              (Chooses-Writes f k v s.cell t inv.sound ch);
        busy = tt;
        knows =
            ReaderKnows-move s.cell (written f (hash f k) k v s.cell t) s.writer waiting s.begun
              s.begun (λ meta snap. Snapshot-publish f s.cell meta s.begun k v t (rw e at snap))
              (omega arith) s.reader inv.knows;
      }
  Step-Inv {s} (erase k i e found) inv = record {
    sound = erased-IsSound f k s.cell i inv.sound found;
    busy = rw e tt;
    knows =
        ReaderKnows-move s.cell (erased_cell s.cell i) s.writer s.writer s.begun (suc s.begun)
          (λ meta snap. rw e (Snapshot-erase f s.cell meta s.begun i (rw e at snap))) (omega arith)
          s.reader inv.knows;
  }
  Step-Inv (load_tags e) inv = record { sound = inv.sound; busy = inv.busy; knows = tt }
  Step-Inv {s} (load_ver tags e) inv = record {
    sound = inv.sound;
    busy = inv.busy;
    knows = (
      Snapshot-load f tags s.cell s.writer inv.sound inv.busy,
      λ i m.
          let found = (In-match_bitset (meta_of f tags (seen f s)) (h2_of (hash f q)) i).0 m in
          ground (arith, found),
    );
  }
  Step-Inv {s} (same_h1 meta i is e same) inv =
      let (snap, all) : ReaderKnows s.cell s.writer s.begun (scanning meta (i ∷ is)) =
        rw e at inv.knows in
      record {
        sound = inv.sound;
        busy = inv.busy;
        knows = (
          snap,
          λ j m. all j (inr m),
          all i (inl refl),
          λ few.
              rw (seen-Snapshot f s.cell s.writer s.begun meta i snap few (all i (inl refl))) at
                same,
        );
      }
  Step-Inv {s} (other_h1 meta i is e other) inv =
      let (snap, all) : ReaderKnows s.cell s.writer s.begun (scanning meta (i ∷ is)) =
        rw e at inv.knows in
      record { sound = inv.sound; busy = inv.busy; knows = (snap, λ j m. all j (inr m)) }
  Step-Inv {s} (same_key meta i is e same) inv =
      let (snap, all, alive, word) : ReaderKnows s.cell s.writer s.begun (h1_equal meta i is) =
        rw e at inv.knows in
      record {
        sound = inv.sound;
        busy = inv.busy;
        knows = (
          snap,
          (
            alive,
            λ few.
                let same' =
                  rw (seen-Snapshot f s.cell s.writer s.begun meta i snap few alive) at same in
                (both (meta.slots i) (word few) same', tt),
          ),
        );
      }
  Step-Inv {s} (other_key meta i is e other) inv =
      let (snap, all, alive, word) : ReaderKnows s.cell s.writer s.begun (h1_equal meta i is) =
        rw e at inv.knows in
      record { sound = inv.sound; busy = inv.busy; knows = (snap, all) }
  Step-Inv {s} (copy_h1 meta i e) inv =
      let (snap, (alive, finds)) : ReaderKnows s.cell s.writer s.begun (key_equal meta i) =
        rw e at inv.knows in
      record {
        sound = inv.sound;
        busy = inv.busy;
        knows = (
          snap,
          (
            alive,
            λ few. (
              (finds few).0,
              ap (λ r. r.h1) (seen-Snapshot f s.cell s.writer s.begun meta i snap few alive),
            ),
          ),
        );
      }
  Step-Inv {s} (copy_entry meta i h1 e) inv =
      let (snap, (alive, finds)) : ReaderKnows s.cell s.writer s.begun (h1_copied meta i h1) =
        rw e at inv.knows in
      record {
        sound = inv.sound;
        busy = inv.busy;
        knows = (
          snap,
          (
            alive,
            λ few.
                let entry =
                  ap (λ (r : HashSlot E). r.entry)
                    (seen-Snapshot f s.cell s.writer s.begun meta i snap few alive) in
                ((finds few).0, ground (arith, (finds few).1, entry)),
          ),
        );
      }
  Step-Inv {s} (accept meta i r e fresh) inv = record {
    sound = inv.sound;
    busy = inv.busy;
    knows = rw e at inv.knows;
  }
  Step-Inv (retry meta i r e stale) inv = record { sound = inv.sound; busy = inv.busy; knows = tt }
  Step-Inv (no_match meta e) inv = record { sound = inv.sound; busy = inv.busy; knows = tt }

  Reach-Inv : {s t : State K V E} → Inv s → Reach f q s t → Inv t
  Reach-Inv inv here = inv
  Reach-Inv inv (later r st) = Step-Inv st (Reach-Inv inv r)

  -- From a cell that meets the invariant and that nobody reads or writes: in every state that the
  -- threads reach in which the reader returns a record, and in which at most one writer has begun
  -- since the reader's load of the version, one under way then included, the record is one that
  -- `Store` wrote for the reader's key, and its slot was live at that load.
  pub hit-Holds :
      (c : Cell E)
      → IsSound f c
      → (s : State K V E) → Reach f q (start f c) s
      → (meta : Cell E) (i : ℕ) (r : HashSlot E) → s.reader ≡ hit meta i r
      → s.begun ≤ 1
      → (live meta i ≡ true) × ((v : V) × Holds f r q v)
  hit-Holds c sound s reach meta i r e few =
      let inv = Reach-Inv (record { sound = sound; busy = tt; knows = tt }) reach in
      let (snap, (alive, finds)) : ReaderKnows s.cell s.writer s.begun (hit meta i r) =
        rw e at inv.knows in
      let (matches, copy) = finds few in
      let (k, v, holds) = snap.filled i alive in
      let same : q ≡ k = (slot_matches-Holds f q k v (meta.slots i) holds).0 matches in
      (alive, (v, rw (copy, same) holds))
