-- ===== src/Pmem/Flush/Lines.antt =====
-- The lines that are flushed are those that the range has a byte in.
use mathlib.Core.Option
use turbo_hash.Common.{
  ℕ, zero, suc, ◌+◌, ◌-◌, ◌*◌, ◌/◌, ◌%◌, ◌^◌, ◌≤◌, ◌<◌, ◌≡◌, refl, ◌↔◌, ◌⊎◌, inl, inr, In, arith,
  bit_and, ltb, Bool-cases, true, false, Option, none, some, List, [], ◌∷◌,
}
use turbo_hash.Common.Bits.{bit_and_fields, bit_and_mask, bit_and-zero}
use turbo_hash.Pmem.Flush.{line_of, end_of, flush_loop, clflush}

line_of_lem : (a : ℕ) → a < 2 ^ 64 → line_of a ≡ a - a % 64
unfolding line_of
line_of_lem a fits =
    let parts : a / 64 * 2 ^ 6 + a % 64 ≡ a = omega arith in
    let fields = bit_and_fields 6 (a / 64) (a % 64) (2 ^ 58 - 1) 0 (omega arith) (omega arith) in
    let fields' : bit_and a (2 ^ 64 - 1 - 63)
        ≡ bit_and (a / 64) (2 ^ 58 - 1) * 2 ^ 6 + bit_and (a % 64) 0 =
      rw parts at fields in
    omega (arith, fields', bit_and_mask 58 (a / 64), bit_and-zero (a % 64))

end_of_lem : (a n : ℕ) → n < 2 ^ 31 → a + n < 2 ^ 64 → end_of a n ≡ a + n
unfolding end_of
end_of_lem a n short fits =
    let low : n % 2 ^ 32 ≡ n = omega arith in
    let small : ltb n (2 ^ 31) ≡ true = ground arith in rw (low, small) (omega arith)

-- What was flushed are the lines from `from` on that start before `end`, and the loop ended.
abbrev pub Flushes : ℕ → ℕ → Option (List ℕ) → Type 0
Flushes from end none = ⊥
Flushes from end (some ls) = (l : ℕ) → In l ls ↔ ((l % 64 ≡ 0) × (from < l + 64) × (l < end))

Flushes-cons :
    (ptr end : ℕ)
    → ptr % 64 ≡ 0
    → ptr < end
    → (rest : Option (List ℕ)) → Flushes (ptr + 64) end rest
    → Flushes ptr end (Option.map (λ ls. ptr ∷ ls) rest)
Flushes-cons ptr end whole more none bad = bad
Flushes-cons ptr end whole more (some ls) rest = λ l. (
  elim [
    | inl e ↦ (omega (arith, e), omega (arith, e), omega (arith, e))
    | inr h ↦ let (a, b, c) = (rest l).0 h in (a, omega arith, c)
  ],
  λ (a, b, c). elim (first_or_later ptr l whole a b) [
    | inl e ↦ inl e
    | inr le ↦ inr ((rest l).1 (a, le, c))
  ],
)
  where
    first_or_later : (p q : ℕ) → p % 64 ≡ 0 → q % 64 ≡ 0 → p < q + 64 → (q ≡ p) ⊎ (p + 64 < q + 64)
    first_or_later p q hp hq le = omega arith

loop_lines :
    (fuel ptr end : ℕ)
    → ptr % 64 ≡ 0
    → end ≤ 2 ^ 64 - 64
    → end ≤ ptr + 64 * fuel
    → Flushes ptr end (flush_loop (suc fuel) ptr end)
unfolding flush_loop
loop_lines zero ptr end whole bound enough =
    let done : ltb ptr end ≡ false = ground arith in
    rw done (λ l. (λ h. absurd h, λ (a, b, c). absurd (omega arith)))
loop_lines (suc fuel) ptr end whole bound enough = elim (Bool-cases (ltb ptr end)) [
  | inl more ↦
      let less : ptr < end = ground (arith, more) in
      let next : (ptr + 64) % 2 ^ 64 ≡ ptr + 64 = omega arith in
      let rest = loop_lines fuel (ptr + 64) end (omega arith) bound (omega arith) in
      rw (more, next) (Flushes-cons ptr end whole less _ rest)
  | inr done ↦ rw done (λ l. (
    λ h. absurd h,
    λ (a, b, c). absurd (none_between ptr l end whole a b c (ground (arith, done))),
  ))
]
  where
    none_between : (p q end : ℕ) → p % 64 ≡ 0 → q % 64 ≡ 0 → p < q + 64 → q < end → end ≤ p → ⊥
    none_between p q end hp hq le below over = omega arith

-- What a flush of `len` bytes at `addr` does: it ends; it flushes a line exactly if that is the line
-- of the first address or a later one that starts before the end of the range; and so the line of
-- each byte is among them.
abbrev pub Covers : ℕ → ℕ → Option (List ℕ) → Type 0
Covers addr len none = ⊥
Covers addr len (some ls) =
    ((l : ℕ) → In l ls ↔ ((l % 64 ≡ 0) × (addr < l + 64) × (l < addr + len)))
    × ((i : ℕ) → i < len → In (line_of (addr + i)) ls)

Flushes-Covers :
    (addr len : ℕ)
    → addr + len ≤ 2 ^ 64 - 64
    → (r : Option (List ℕ)) → Flushes (line_of addr) (addr + len) r
    → Covers addr len r
Flushes-Covers addr len fits none bad = bad
Flushes-Covers addr len fits (some ls) from = (lines, covered)
  where
    lines : (l : ℕ) → In l ls ↔ ((l % 64 ≡ 0) × (addr < l + 64) × (l < addr + len))
    lines l =
        let at = line_of_lem addr (omega arith) in
        (
          λ h. let (a, b, c) = (from l).0 h in (a, omega (arith, a, b, at), c),
          λ (a, b, c). (from l).1 (a, omega (arith, a, b, at), c),
        )

    covered : (i : ℕ) → i < len → In (line_of (addr + i)) ls
    covered i h =
        let at = line_of_lem (addr + i) (omega arith) in
        (lines (line_of (addr + i))).1 (omega (arith, at), omega (arith, at), omega (arith, at))

-- For fewer than 2 ^ 31 bytes that end before the last line of the addresses, `TURBO_PMEM_CLFLUSH`
-- ends, and flushes a line exactly if it is the line of the first address or a later one that
-- starts before the end of the range. So the line of every byte of the range is among them.
pub clflush_lem :
    (addr len : ℕ) → len < 2 ^ 31 → addr + len ≤ 2 ^ 64 - 64 → Covers addr len (clflush addr len)
unfolding clflush
clflush_lem addr len short fits =
    let at = line_of_lem addr (omega arith) in
    rw (end_of_lem addr len short (omega arith)) (
      Flushes-Covers addr len fits _ (
        loop_lines (len / 64 + 2) (line_of addr) (addr + len) (omega (arith, at)) fits
          (omega (arith, at))))

-- A size from 2 ^ 31 up to a line below 2 ^ 32 is a negative length, and nothing is flushed.
pub clflush-negative :
    (addr size : ℕ)
    → 2 ^ 31 ≤ size
    → size ≤ 2 ^ 32 - 64
    → 2 ^ 31 ≤ addr
    → addr < 2 ^ 64
    → clflush addr size ≡ some []
unfolding clflush flush_loop end_of
clflush-negative addr size long below above fits =
    let low : size % 2 ^ 32 ≡ size = omega arith in
    let negative : ltb size (2 ^ 31) ≡ false = ground arith in
    let over : ltb (line_of addr) ((addr + 2 ^ 64 - (2 ^ 32 - size)) % 2 ^ 64) ≡ false =
      ground (arith, line_of_lem addr fits) in
    rw (low, negative, over) refl
