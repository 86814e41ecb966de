-- ===== src/Pmem/Meta/Init.antt =====
-- What `Init` leaves in memory, and the recovery of a table of buckets.
use turbo_hash.Common.{
  ◌≢◌, ℕ, ◌^◌, ◌<◌, ◌≡◌, refl, ap, ◌∙◌, Bool, true, Option, some, List, [], ◌∷◌, arith, map, inl,
  ◌↔◌, none,
}
use mathlib.Core.List.{head-eq_of_cons-eq, tail-eq_of_cons-eq}
use turbo_hash.BitSet.{ctz}
use turbo_hash.BucketMeta.{reset}
use turbo_hash.BucketMeta.Fields.{Says, ctz-pow, reset-Says}
use turbo_hash.Pmem.Meta.{
  Field, cur_ver, cell_count_leftshit_1, bucket1_ptr, Memory, run, Survives, init_events, extract,
  leftshift, recover, recover_one,
}
use turbo_hash.Pmem.Meta.Crash.{IsClean}

-- If the object lies in one cache line, and a bucket's word has an address of 48 bits and 2 ^ s
-- cells, s below 32, then `Init` leaves the object settled in memory, whatever was there before,
-- and from any memory after a crash `Extract` makes a word with the address, the size and no lock.
pub init-Says :
    (near : Field → Bool) (m : Memory) (low addr s w : ℕ)
    → ((f : Field) → near f ≡ true)
    → addr < 2 ^ 48
    → s < 32
    → Says low addr s w
    → IsClean (run near (init_events w) m)
      × ((image : Field → ℕ)
          → Survives (run near (init_events w) m) image
          → (w' : ℕ) × (extract image ≡ some w') × Says 0 addr s w')
unfolding run
init-Says near m low addr s w one_line short few says =
    let size : leftshift w ≡ s = ap (λ (t : ℕ). ctz 32 t) says.cells ∙ ctz-pow 32 s few in
    (
      record {
        settled = λ f. ground (arith, one_line f);
        version = inl (ground (arith, one_line cur_ver));
      },
      λ image sv. (
        reset 0 addr (2 ^ s),
        unfold extract in
            ground (
              arith,
              sv cur_ver,
              sv bucket1_ptr,
              sv cell_count_leftshit_1,
              one_line cur_ver,
              one_line bucket1_ptr,
              one_line cell_count_leftshit_1,
              size,
              says.at,
            ),
        (reset-Says 0 addr s short few).0,
      ),
    )

recover_one_lem :
    (o : Option ℕ) (r : Option (List ℕ)) (w : ℕ) (ws : List ℕ)
    → (recover_one o r ≡ some (w ∷ ws)) ↔ ((o ≡ some w) × (r ≡ some ws))
recover_one_lem none r w ws = (λ h. cc, λ (p, q). cc)
recover_one_lem (some v) none w ws = (λ h. cc, λ (p, q). cc)
recover_one_lem (some v) (some vs) w ws =
    (λ h. (ground (arith, h), ground (arith, h)), λ (p, q). ground (arith, p, q))

recover_one-ne-nil : (o : Option ℕ) (r : Option (List ℕ)) → recover_one o r ≢ some []
recover_one-ne-nil none r h = cc
recover_one-ne-nil (some v) none h = cc
recover_one-ne-nil (some v) (some vs) h = ground (arith, h)

-- `Recover` makes the words of all buckets, in order, exactly if `Extract` makes each of them;
-- otherwise it exits.
recover_lem :
    (images : List (Field → ℕ)) (words : List ℕ)
    → (recover images ≡ some words) ↔ (map extract images ≡ map some words)
unfolding recover
recover_lem [] [] = (λ e. refl, λ e. refl)
recover_lem [] (w ∷ ws) = (λ e. ground (arith, e), λ e. cc)
recover_lem (image ∷ images) [] =
    (λ h. absurd (recover_one-ne-nil (extract image) (recover images) h), λ e. cc)
recover_lem (image ∷ images) (w ∷ ws) =
    let (there, back) = recover_lem images ws in
    let (parts, whole) = recover_one_lem (extract image) (recover images) w ws in
    (
      λ h. let (p, q) = parts h in let rest = there q in cc,
      λ e. whole (head-eq_of_cons-eq e, back (tail-eq_of_cons-eq e)),
    )
