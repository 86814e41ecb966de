-- ===== src/Slice/Order.antt =====
-- `compare` is the lexicographic order of byte strings, and `operator==` is equality.
use turbo_hash.Common.{
  ℕ, suc, ◌≡◌, ◌<◌, refl, sym, ◌↔◌, inl, inr, true, List, [], ◌∷◌, ltb, arith, Bool-cases,
  if◌then◌else◌,
}
use mathlib.Core.List.{head-eq_of_cons-eq, tail-eq_of_cons-eq}
use turbo_hash.Slice.{Sign, negative, null, positive, memcmp, min_len, by_length, compare, equal}

-- The lexicographic order, by its rules.
pub data Before : List ℕ → List ℕ → Type 0 where
  shorter : {b : ℕ} {bs : List ℕ} → Before [] (b ∷ bs)
  smaller : {a b : ℕ} {as' bs : List ℕ} → a < b → Before (a ∷ as') (b ∷ bs)
  same : {a b : ℕ} {as' bs : List ℕ} → a ≡ b → Before as' bs → Before (a ∷ as') (b ∷ bs)

min_len-cons : (x y : ℕ) (xs ys : List ℕ) → min_len (x ∷ xs) (y ∷ ys) ≡ suc (min_len xs ys)
min_len-cons x y xs ys = ground arith

by_length-cons :
    (s : Sign) (x y : ℕ) (xs ys : List ℕ) → by_length s (x ∷ xs) (y ∷ ys) ≡ by_length s xs ys
by_length-cons null x y xs ys = ground arith
by_length-cons negative x y xs ys = refl
by_length-cons positive x y xs ys = refl

compare-cons :
    (x y : ℕ) (xs ys : List ℕ)
    → compare (x ∷ xs) (y ∷ ys)
      ≡ (if ltb x y then negative else (if ltb y x then positive else compare xs ys))
unfolding compare memcmp
compare-cons x y xs ys = rw (min_len-cons x y xs ys) (elim (Bool-cases (ltb x y)) [
  | inl e ↦ rw (e, memcmp) refl
  | inr e ↦ elim (Bool-cases (ltb y x)) [
    | inl e' ↦ rw (e, e', memcmp) refl
    | inr e' ↦ rw (e, e', memcmp) (by_length-cons (memcmp (min_len xs ys) xs ys) x y xs ys)
  ]
])

abbrev Compares : List ℕ → List ℕ → Sign → Type 0
Compares a b negative = Before a b
Compares a b null = a ≡ b
Compares a b positive = Before b a

nil-compare-cons : (y : ℕ) (ys : List ℕ) → compare [] (y ∷ ys) ≡ negative
unfolding compare memcmp
nil-compare-cons y ys = ground arith

cons-compare-nil : (x : ℕ) (xs : List ℕ) → compare (x ∷ xs) [] ≡ positive
unfolding compare memcmp
cons-compare-nil x xs = ground arith

cons-Compares :
    (x y : ℕ) (xs ys : List ℕ) (s : Sign) → x ≡ y → Compares xs ys s → Compares (x ∷ xs) (y ∷ ys) s
cons-Compares x y xs ys negative e h = same e h
cons-Compares x y xs ys null e h = cc
cons-Compares x y xs ys positive e h = same (sym e) h

compare-Compares : (a b : List ℕ) → Compares a b (compare a b)
compare-Compares [] [] = unfold compare memcmp in refl
compare-Compares [] (y ∷ ys) = rw (nil-compare-cons y ys) shorter
compare-Compares (x ∷ xs) [] = rw (cons-compare-nil x xs) shorter
compare-Compares (x ∷ xs) (y ∷ ys) =
    let rest = compare-Compares xs ys in
    rw (compare-cons x y xs ys) (elim (Bool-cases (ltb x y)) [
      | inl e ↦ rw e (smaller (ground (arith, e)))
      | inr e ↦ elim (Bool-cases (ltb y x)) [
        | inl e' ↦ rw (e, e') (smaller (ground (arith, e')))
        | inr e' ↦ rw (e, e') (cons-Compares x y xs ys (compare xs ys) (ground (arith, e, e')) rest)
      ]
    ])

Before-compare : {a b : List ℕ} → Before a b → (compare a b ≡ negative) × (compare b a ≡ positive)
Before-compare (shorter {b} {bs}) = (nil-compare-cons b bs, cons-compare-nil b bs)
Before-compare (smaller {a} {b} {as'} {bs} lt) =
    (ground (arith, compare-cons a b as' bs, lt), ground (arith, compare-cons b a bs as', lt))
Before-compare (same {a} {b} {as'} {bs} e h) =
    let (n, p) = Before-compare h in
    (ground (arith, compare-cons a b as' bs, n, e), ground (arith, compare-cons b a bs as', p, e))

compare_self : (a : List ℕ) → compare a a ≡ null
compare_self [] = unfold compare memcmp in refl
compare_self (x ∷ xs) = ground (arith, compare-cons x x xs xs, compare_self xs)

equal_iff : (a b : List ℕ) → (equal a b ≡ true) ↔ (a ≡ b)
unfolding equal memcmp
equal_iff [] [] = (λ h. refl, λ h. refl)
equal_iff [] (y ∷ ys) = (λ h. ground (arith, h), λ h. cc)
equal_iff (x ∷ xs) [] = (λ h. ground (arith, h), λ h. cc)
equal_iff (x ∷ xs) (y ∷ ys) =
    let (there, back) = equal_iff xs ys in
    (
      λ h. let e : x ≡ y = ground (arith, h) in let rest = there (ground (arith, h)) in cc,
      λ h.
          let e : x ≡ y = head-eq_of_cons-eq h in
          let rest = back (tail-eq_of_cons-eq h) in ground (arith, e, rest),
    )

-- `compare` is negative exactly if the slice comes before the other in the lexicographic order of
-- bytes, positive exactly if it comes after, and 0 exactly if the two are equal, which is when
-- `operator==` holds.
pub compare_lem :
    (a b : List ℕ)
    → ((compare a b ≡ negative) ↔ Before a b)
      × ((compare a b ≡ null) ↔ (a ≡ b))
      × ((compare a b ≡ positive) ↔ Before b a)
      × ((equal a b ≡ true) ↔ (a ≡ b))
compare_lem a b =
    let found = compare-Compares a b in
    (
      (λ h. rw h at found, λ h. (Before-compare h).0),
      (λ h. rw h at found, λ h. rw h (compare_self b)),
      (λ h. rw h at found, λ h. (Before-compare h).1),
      equal_iff a b,
    )
