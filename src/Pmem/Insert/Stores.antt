-- ===== src/Pmem/Insert/Stores.antt =====
-- What the stores of an insertion before the version make of the memory.
use turbo_hash.Common.{
  ℕ, zero, suc, ◌+◌, ◌<◌, ◌≡◌, refl, ◌∙◌, arith, Bool, true, false, ◌&&◌, ◌||◌, ◌==◌, ltb, leb,
  List, [], ◌∷◌, length, get_or,
}
use turbo_hash.Pmem.Line.{Place, word, tag, h1, entry, byte, same, Memory, store, run, apply}
use turbo_hash.Pmem.Line.Cut.{stores_to, stores_to-append, run-append, run_other}
use turbo_hash.Pmem.Insert.{Stored, inline, pointing, byte_stores, slot_stores}

-- The bytes of the record.
abbrev pub in_record : Stored → ℕ → Bool
in_record (inline key value) a = false
in_record (pointing hash addr bytes) a = leb addr a && ltb a (addr + length bytes)

-- The places that a slot's stores write.
abbrev pub touches : ℕ → Stored → Place → Bool
touches i st word = false
touches i st (tag j) = false
touches i st (h1 j) = i == j
touches i st (entry j) = i == j
touches i st (byte a) = in_record st a

byte_stores-byte :
    (a : ℕ) (bs : List ℕ) (x : ℕ)
    → stores_to (byte x) (byte_stores a bs) ≡ (leb a x && ltb x (a + length bs))
byte_stores-byte a [] x = ground arith
byte_stores-byte a (b ∷ bs) x = let rest = byte_stores-byte (suc a) bs x in ground (arith, rest)

-- The stores to bytes are to bytes.
byte_stores_else :
    (p : Place) (a : ℕ) (bs : List ℕ)
    → ((x : ℕ) → same (byte x) p ≡ false)
    → stores_to p (byte_stores a bs) ≡ false
byte_stores_else p a [] other = refl
byte_stores_else p a (b ∷ bs) other =
    let rest = byte_stores_else p (suc a) bs other in ground (arith, rest, other a)

pub slot_stores-touches :
    (i : ℕ) (st : Stored) (p : Place) → stores_to p (slot_stores i st) ≡ touches i st p
slot_stores-touches i (inline k v) word = refl
slot_stores-touches i (inline k v) (tag j) = refl
slot_stores-touches i (inline k v) (h1 j) = ground arith
slot_stores-touches i (inline k v) (entry j) = ground arith
slot_stores-touches i (inline k v) (byte a) = refl
slot_stores-touches i (pointing h addr bs) p =
    stores_to-append p (byte_stores addr bs) (store (h1 i) h ∷ store (entry i) addr ∷ []) ∙ at_end p
  where
    at_end :
        (p : Place)
        → (stores_to p (byte_stores addr bs)
            || stores_to p (store (h1 i) h ∷ store (entry i) addr ∷ []))
          ≡ touches i (pointing h addr bs) p
    at_end word = ground (arith, byte_stores_else word addr bs (λ x. refl))
    at_end (tag j) = ground (arith, byte_stores_else (tag j) addr bs (λ x. refl))
    at_end (h1 j) = ground (arith, byte_stores_else (h1 j) addr bs (λ x. refl))
    at_end (entry j) = ground (arith, byte_stores_else (entry j) addr bs (λ x. refl))
    at_end (byte a) = ground (arith, byte_stores-byte addr bs a)

-- The bytes of the record after the stores.
run-byte_stores :
    (bs : List ℕ) (m : Memory) (a n : ℕ)
    → n < length bs
    → run m (byte_stores a bs) (byte (a + n)) ≡ get_or bs n 0
unfolding run
run-byte_stores [] m a n lt = absurd (omega arith)
run-byte_stores (b ∷ bs) m a zero lt =
    let first : a + 0 ≡ a = omega arith in
    let after : stores_to (byte a) (byte_stores (suc a) bs) ≡ false =
      ground (arith, byte_stores-byte (suc a) bs a) in
    let itself : (a == a) ≡ true = ground arith in
    rw first (
      run_other (byte a) (byte_stores (suc a) bs) (apply m (store (byte a) b)) after
      ∙ rw itself refl)
run-byte_stores (b ∷ bs) m a (suc n) lt =
    let next : a + suc n ≡ suc a + n = omega arith in
    rw next (run-byte_stores bs (apply m (store (byte a) b)) (suc a) n (omega arith))

-- The contents of a slot, and of the record that it points to.
abbrev pub SlotIs : Memory → ℕ → Stored → Type 0
SlotIs m i (inline key value) = (m (h1 i) ≡ key) × (m (entry i) ≡ value)
SlotIs m i (pointing hash addr bytes) =
    (m (h1 i) ≡ hash)
    × (m (entry i) ≡ addr)
    × ((n : ℕ) → n < length bytes → m (byte (addr + n)) ≡ get_or bytes n 0)

pub run-slot_stores : (m : Memory) (i : ℕ) (st : Stored) → SlotIs (run m (slot_stores i st)) i st
unfolding run
run-slot_stores m i (inline k v) =
    let itself : (i == i) ≡ true = ground arith in (rw itself refl, rw itself refl)
run-slot_stores m i (pointing h addr bs) =
    let itself : (i == i) ≡ true = ground arith in
    let both = run-append m (byte_stores addr bs) (store (h1 i) h ∷ store (entry i) addr ∷ []) in
    (
      rw (both, itself) refl,
      rw (both, itself) refl,
      λ n lt. rw both (run-byte_stores bs m addr n lt),
    )
