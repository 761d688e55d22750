-- ===== src/Utils/Chunks.antt =====
-- src/utils.rs: the chunks of a slice.
use pipop_core.Base.{
  ℕ, zero, suc, ◌≤◌, ◌<◌, ◌≡◌, refl, ap, ◌∙◌, some, List, [], ◌∷◌, ◌++◌, length, take, drop,
  append-take-drop, length-take, length-drop, arith,
}
use mathlib.Core.List.{flatten}
use pipop_core.Utils.{chunk_loop, chunk_vector}

module _ {T : Type 0} where
  -- Every chunk but the last has `n` elements, and the last has 1 to `n`.
  abbrev pub IsChunked : ℕ → List (List T) → Type 0
  IsChunked n [] = Unit
  IsChunked n (c ∷ []) = (0 < length c) × (length c ≤ n)
  IsChunked n (c ∷ d ∷ cs) = (length c ≡ n) × IsChunked n (d ∷ cs)

  flatten-chunk_loop :
      (n fuel : ℕ) (xs : List T) → length xs ≤ fuel → flatten (chunk_loop (suc n) fuel xs) ≡ xs
  unfolding chunk_loop flatten
  flatten-chunk_loop n zero [] h = refl
  flatten-chunk_loop n zero (x ∷ xs) h = absurd (omega arith)
  flatten-chunk_loop n (suc fuel) [] h = refl
  flatten-chunk_loop n (suc fuel) (x ∷ xs) h =
      let ih = flatten-chunk_loop n fuel (drop n xs) (omega (arith, length-drop n xs)) in
      ap (λ (t : List T). x ∷ (take n xs ++ t)) ih
      ∙ ap (λ (t : List T). x ∷ t) (append-take-drop n xs)

  length-take-le : (n : ℕ) (xs : List T) → length (take n xs) ≤ n
  length-take-le zero xs = omega arith
  length-take-le (suc n) [] = omega arith
  length-take-le (suc n) (x ∷ xs) = omega (arith, length-take-le n xs)

  -- A chunk in front: it is full, unless nothing lies behind it.
  IsChunked-cons :
      (n fuel : ℕ) (x : T) (xs rest : List T)
      → drop n xs ≡ rest
      → IsChunked (suc n) (chunk_loop (suc n) fuel rest)
      → IsChunked (suc n) ((x ∷ take n xs) ∷ chunk_loop (suc n) fuel rest)
  unfolding chunk_loop
  IsChunked-cons n zero x xs rest e ih = (omega arith, omega (arith, length-take-le n xs))
  IsChunked-cons n (suc fuel) x xs [] e ih = (omega arith, omega (arith, length-take-le n xs))
  IsChunked-cons n (suc fuel) x xs (y ∷ ys) e ih =
      let m = ap (λ (t : List T). length t) e in
      (omega (arith, length-take n xs (omega (arith, m, length-drop n xs))), ih)

  chunk_loop-IsChunked :
      (n fuel : ℕ) (xs : List T) → length xs ≤ fuel → IsChunked (suc n) (chunk_loop (suc n) fuel xs)
  unfolding chunk_loop
  chunk_loop-IsChunked n zero xs h = tt
  chunk_loop-IsChunked n (suc fuel) [] h = tt
  chunk_loop-IsChunked n (suc fuel) (x ∷ xs) h =
      IsChunked-cons n fuel x xs (drop n xs) refl
        (chunk_loop-IsChunked n fuel (drop n xs) (omega (arith, length-drop n xs)))

  -- For a positive chunk size `chunk_vector` returns chunks that joined together are the input, all
  -- of them of the chunk size but the last, which has at least one element and no more.
  pub chunk_vector_lem :
      (xs : List T) (n : ℕ)
      → 0 < n
      → (cs : List (List T)) × (chunk_vector xs n ≡ some cs) × (flatten cs ≡ xs) × IsChunked n cs
  unfolding chunk_vector
  chunk_vector_lem xs zero h = absurd (omega arith)
  chunk_vector_lem xs (suc n) h = (
    chunk_loop (suc n) (length xs) xs,
    refl,
    flatten-chunk_loop n (length xs) xs (omega arith),
    chunk_loop-IsChunked n (length xs) xs (omega arith),
  )
