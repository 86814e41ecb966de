-- ===== src/Common/Shuffle.antt =====
-- The orders in which the calls of several threads can happen.
use mathlib.Core.List.{Permᴰ}
use mathlib.Core.List.Permᴰ
use turbo_hash.Common.{refl, List, [], ◌∷◌, ◌++◌}

module _ {ℓ} {A : Type ℓ} where
  -- `zs` has the elements of `xs` in their order, and those of `ys` in theirs.
  pub data Shuffle : List A → List A → List A → Type ℓ where
    none_left : Shuffle [] [] []
    first : {x : A} {xs ys zs : List A} → Shuffle xs ys zs → Shuffle (x ∷ xs) ys (x ∷ zs)
    second : {y : A} {xs ys zs : List A} → Shuffle xs ys zs → Shuffle xs (y ∷ ys) (y ∷ zs)

  -- The last list has the elements of each of the lists, each list in its order.
  pub data Interleaves : List (List A) → List A → Type ℓ where
    no_list : Interleaves [] []
    one_more :
        {xs ys zs : List A} {xss : List (List A)}
        → Interleaves xss ys
        → Shuffle xs ys zs
        → Interleaves (xs ∷ xss) zs

  abbrev pub concat : List (List A) → List A
  concat [] = []
  concat (xs ∷ xss) = xs ++ concat xss

  Shuffle-perm : {xs ys zs : List A} → Shuffle xs ys zs → Permᴰ zs (xs ++ ys)
  Shuffle-perm none_left = Permᴰ.nil
  Shuffle-perm (first s) = Permᴰ.cons refl (Shuffle-perm s)
  Shuffle-perm (second {y} {xs} {ys} {zs} s) =
      Permᴰ.trans (Permᴰ.cons refl (Shuffle-perm s)) (Permᴰ.symm (Permᴰ.middle y xs ys))

  pub Interleaves-perm :
      {xss : List (List A)} {zs : List A} → Interleaves xss zs → Permᴰ zs (concat xss)
  Interleaves-perm no_list = Permᴰ.nil
  Interleaves-perm (one_more {xs} is s) =
      Permᴰ.trans (Shuffle-perm s) (Permᴰ.append_left xs (Interleaves-perm is))
