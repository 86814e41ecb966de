-- ===== src/Bytes/Laws.antt =====
-- Loads after stores.
use turbo_hash.Common.{
  ℕ, zero, suc, ◌+◌, ◌*◌, ◌/◌, ◌%◌, ◌^◌, ◌≤◌, ◌<◌, ◌≡◌, ◌⊎◌, inl, refl, arith, List, [], ◌∷◌,
  length,
}
use native.Mathlib.Numerals.{towards_suc}
use turbo_hash.Cell.{update}
use turbo_hash.Bytes.{Memory, store_number, load_number, copy_in, copy_out}

-- The memories have the same bytes in a range.
abbrev pub Agree : ℕ → ℕ → Memory → Memory → Type 0
Agree addr n m m' = (i : ℕ) → addr ≤ i → i < addr + n → m i ≡ m' i

pub load_number-Agree :
    (n addr : ℕ) (m m' : Memory) → Agree addr n m m' → load_number n addr m ≡ load_number n addr m'
unfolding load_number
load_number-Agree zero addr m m' same = refl
load_number-Agree (suc n) addr m m' same = omega (
  arith,
  same addr (omega arith) (omega arith),
  load_number-Agree n (addr + 1) m m' (λ i le lt. same i (omega arith) (omega arith)),
)

pub copy_out-Agree :
    (n addr : ℕ) (m m' : Memory) → Agree addr n m m' → copy_out n addr m ≡ copy_out n addr m'
unfolding copy_out
copy_out-Agree zero addr m m' same = refl
copy_out-Agree (suc n) addr m m' same =
    let rest = copy_out-Agree n (addr + 1) m m' (λ i le lt. same i (omega arith) (omega arith)) in
    rw (same addr (omega arith) (omega arith), rest) refl

-- A store changes only its bytes.
pub store_number-outside :
    (n addr v : ℕ) (m : Memory) (i : ℕ)
    → (i < addr) ⊎ (addr + n ≤ i)
    → store_number n addr v m i ≡ m i
unfolding store_number
store_number-outside zero addr v m i out = refl
store_number-outside (suc n) addr v m i out =
    let rest =
      store_number-outside n (addr + 1) (v / 2 ^ 8) (update m addr (v % 2 ^ 8)) i
        (ground (arith, out)) in
    ground (arith, rest, out)

pub copy_in-outside :
    (bs : List ℕ) (addr : ℕ) (m : Memory) (i : ℕ)
    → (i < addr) ⊎ (addr + length bs ≤ i)
    → copy_in addr bs m i ≡ m i
unfolding copy_in
copy_in-outside [] addr m i out = refl
copy_in-outside (b ∷ bs) addr m i out =
    let rest = copy_in-outside bs (addr + 1) (update m addr b) i (ground (arith, out)) in
    ground (arith, rest, out)

byte_more : (n : ℕ) → 2 ^ (8 * suc n) ≡ 2 ^ 8 * 2 ^ (8 * n)
byte_more n = let e : 8 * suc n ≡ 8 * n + 8 = omega arith in rw e (simp towards_suc (omega arith))

pub load-store :
    (n addr v : ℕ) (m : Memory) → v < 2 ^ (8 * n) → load_number n addr (store_number n addr v m) ≡ v
unfolding load_number store_number
load-store zero addr v m fits = omega arith
load-store (suc n) addr v m fits =
    let wide = byte_more n in
    ground (
      arith,
      wide,
      store_number-outside n (addr + 1) (v / 2 ^ 8) (update m addr (v % 2 ^ 8)) addr
          (inl (omega arith)),
      load-store n (addr + 1) (v / 2 ^ 8) (update m addr (v % 2 ^ 8)) (omega (arith, wide)),
    )

pub copy_out-copy_in :
    (bs : List ℕ) (addr : ℕ) (m : Memory) → copy_out (length bs) addr (copy_in addr bs m) ≡ bs
unfolding copy_out copy_in
copy_out-copy_in [] addr m = refl
copy_out-copy_in (b ∷ bs) addr m =
    let first : copy_in (addr + 1) bs (update m addr b) addr ≡ b =
      ground (arith, copy_in-outside bs (addr + 1) (update m addr b) addr (inl (omega arith))) in
    rw (first, copy_out-copy_in bs (addr + 1) (update m addr b)) refl
