-- ===== src/Pmem/Line/Cut.antt =====
-- What a prefix of the stores makes of a place.
use turbo_hash.Common.{
  ℕ, zero, suc, ◌+◌, ◌≤◌, ◌≡◌, ◌⊎◌, refl, ap, ◌∙◌, Bool, true, false, ◌||◌, List, [], ◌∷◌, ◌++◌,
  take, length, if◌then◌else◌, arith, Bool-cases, inl, inr,
}
use turbo_hash.Pmem.Line.{
  Place, same, Memory, Event, store, flush, one_of, run, flushes, certain, apply,
}

-- Some store is to the place.
abbrev pub stores_to : Place → List Event → Bool
stores_to p [] = false
stores_to p (store q v ∷ es) = same q p || stores_to p es
stores_to p (flush ls ∷ es) = stores_to p es

pub run-append : (m : Memory) (xs ys : List Event) → run m (xs ++ ys) ≡ run (run m xs) ys
unfolding run
run-append m [] ys = refl
run-append m (x ∷ xs) ys = run-append (apply m x) xs ys

-- A place that no store is to stays.
pub run_other :
    (p : Place) (es : List Event) (m : Memory) → stores_to p es ≡ false → run m es p ≡ m p
unfolding run
run_other p [] m none = refl
run_other p (store q v ∷ es) m none =
    let (here, rest) : (same q p ≡ false) × (stores_to p es ≡ false) = ground (arith, none) in
    run_other p es (apply m (store q v)) rest ∙ rw here refl
run_other p (flush ls ∷ es) m none = run_other p es (apply m (flush ls)) none

pub stores_to-take :
    (p : Place) (n : ℕ) (es : List Event) → stores_to p es ≡ false → stores_to p (take n es) ≡ false
stores_to-take p zero es none = refl
stores_to-take p (suc n) [] none = refl
stores_to-take p (suc n) (store q v ∷ es) none =
    let rest = stores_to-take p n es in ground (arith, none, rest)
stores_to-take p (suc n) (flush ls ∷ es) none = stores_to-take p n es none

pub take_all : (n : ℕ) (es : List Event) → length es ≤ n → take n es ≡ es
take_all zero [] le = refl
take_all zero (e ∷ es) le = absurd (omega arith)
take_all (suc n) [] le = refl
take_all (suc n) (e ∷ es) le = ap (λ rest. e ∷ rest) (take_all n es (omega arith))

-- A cut after the first part keeps it.
pub cut_after :
    (n : ℕ) (xs ys : List Event)
    → length xs ≤ n
    → (r : ℕ) × (n ≡ length xs + r) × (take n (xs ++ ys) ≡ xs ++ take r ys)
cut_after n [] ys le = (n, omega arith, refl)
cut_after zero (x ∷ xs) ys le = absurd (omega arith)
cut_after (suc n) (x ∷ xs) ys le =
    let (r, e, rest) = cut_after n xs ys (omega arith) in
    (r, omega (arith, e), ap (λ rest. x ∷ rest) rest)

pub take-append_le : (n : ℕ) (xs ys : List Event) → n ≤ length xs → take n (xs ++ ys) ≡ take n xs
take-append_le zero xs ys le = refl
take-append_le (suc n) [] ys le = absurd (omega arith)
take-append_le (suc n) (x ∷ xs) ys le = ap (λ rest. x ∷ rest) (take-append_le n xs ys (omega arith))

pub certain-append :
    (l at sure : ℕ) (xs ys : List Event) (on : ℕ)
    → on ≡ at + length xs
    → certain l at sure (xs ++ ys) ≡ certain l on (certain l at sure xs) ys
unfolding certain
certain-append l at sure [] ys on e = let e' : on ≡ at = omega (arith, e) in rw e' refl
certain-append l at sure (x ∷ xs) ys on e =
    certain-append l (suc at) (if flushes l x then at else sure) xs ys on (omega (arith, e))

-- What is certain stays certain.
pub certain_ge : (l at sure : ℕ) (es : List Event) → sure ≤ at → sure ≤ certain l at sure es
unfolding certain
certain_ge l at sure [] le = omega arith
certain_ge l at sure (e ∷ es) le = elim (Bool-cases (flushes l e)) [
  | inl flushed ↦
      let h = certain_ge l (suc at) at es (omega arith) in rw flushed (omega (arith, h, le))
  | inr other ↦ rw other (certain_ge l (suc at) sure es (omega arith))
]

certain-length :
    (l at sure : ℕ) (es : List Event) → sure ≤ at → certain l at sure es ≤ at + length es
unfolding certain
certain-length l at sure [] le = omega arith
certain-length l at sure (e ∷ es) le = elim (Bool-cases (flushes l e)) [
  | inl flushed ↦
      let h = certain-length l (suc at) at es (omega arith) in rw flushed (omega (arith, h))
  | inr other ↦
      let h = certain-length l (suc at) sure es (omega arith) in rw other (omega (arith, h))
]

pub certain_le : (l : ℕ) (es : List Event) → certain l 0 0 es ≤ length es
certain_le l es = omega (arith, certain-length l 0 0 es (omega arith))

-- A flush makes the events before it certain for its lines.
pub certain-flush :
    (l : ℕ) (xs : List Event) (ls : List ℕ) (ys : List Event)
    → one_of l ls ≡ true
    → length xs ≤ certain l 0 0 (xs ++ flush ls ∷ ys)
unfolding certain
certain-flush l xs ls ys among =
    rw (certain-append l 0 0 xs (flush ls ∷ ys) (length xs) (omega arith), among)
      (certain_ge l (suc (length xs)) (length xs) ys (omega arith))

-- A cut of a cut.
pub take_both :
    (n k : ℕ) (xs : List Event)
    → (j : ℕ) × (j ≤ k) × ((j ≡ n) ⊎ (j ≡ k)) × (take n (take k xs) ≡ take j xs)
take_both zero k xs = (0, omega arith, inl refl, refl)
take_both (suc n) zero xs = (0, omega arith, inr refl, refl)
take_both (suc n) (suc k) [] = (suc k, omega arith, inr refl, refl)
take_both (suc n) (suc k) (x ∷ xs) =
    let (j, le, which, both) = take_both n k xs in
    (
      suc j,
      omega (arith, le),
      elim which [ inl e ↦ inl (ap suc e) | inr e ↦ inr (ap suc e) ],
      ap (λ rest. x ∷ rest) both,
    )

pub stores_to-append :
    (p : Place) (xs ys : List Event) → stores_to p (xs ++ ys) ≡ (stores_to p xs || stores_to p ys)
stores_to-append p [] ys = refl
stores_to-append p (store q v ∷ xs) ys = let rest = stores_to-append p xs ys in ground (arith, rest)
stores_to-append p (flush ls ∷ xs) ys = stores_to-append p xs ys
