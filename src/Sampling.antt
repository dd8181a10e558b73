-- ===== src/Sampling.antt =====
-- The sampler, src/sampling/samplers.h and samplers.cpp. `float` and `double` are one type of numbers
-- here, with the operations that the code uses on them. The draw of the random generator is an
-- argument. `top_p_sample_`, which nothing calls, is left out.
pub mod Numbers
pub mod Greedy
pub mod Sorted
pub mod TopK
pub mod Bounds
use Prim.Native.Nat.{min}
use zinfer_lm.Base.{
  ℕ, zero, suc, ◌+◌, ◌-◌, Bool, true, false, Option, none, some, List, [], ◌∷◌, map, length,
  get_elem?, ltb, if◌then◌else◌, Result, ok, err, wild, ◌>>=◌,
}
use zinfer_lm.Sampling.Numbers.{Floats}

-- The members of `Sampler` that the code sets; `top_p_` is never set.
pub record Sampler {ℓ} (F : Type ℓ) : Type ℓ where
  pub temp : F
  pub top_k : ℕ

module _ {ℓ} {F : Type ℓ} ⦃fl : Floats F⦄ where
  -- `std::max_element` of the values behind `best`, which stands at the index `at`; `i` is the index
  -- of the next one. The first of the greatest.
  unfoldable pub max_from : ℕ → F → ℕ → List F → ℕ × F
  max_from at best i [] = (at, best)
  max_from at best i (x ∷ xs) = elim (fl.lt best x) [
    | true ↦ max_from i x (i + 1) xs
    | false ↦ max_from at best (i + 1) xs
  ]

  -- `greedy_`. On no values the code reads `*end()`.
  unfoldable pub greedy : List F → Result (ℕ × F)
  greedy [] = err wild
  greedy (x ∷ xs) = ok (max_from 0 x 1 xs)

  -- `sum += p[i]` over the values.
  unfoldable pub sum_from : F → List F → F
  sum_from acc [] = acc
  sum_from acc (p ∷ ps) = sum_from (fl.add acc p) ps

  -- `softmax_`.
  unfoldable pub softmax : List F → Result (List F)
  unfolding sum_from
  softmax [] = err wild
  softmax (x ∷ xs) =
      let m = (max_from 0 x 1 xs).1 in
      let p = map (λ l. fl.exp (fl.sub l m)) (x ∷ xs) in
      let sum = sum_from fl.zero p in ok (map (λ v. fl.scale v sum) p)

  -- `std::partial_sort` by `std::greater` of values none of which is NaN, from the greatest on.
  unfoldable pub insert_greater : F → List F → List F
  insert_greater x [] = x ∷ []
  insert_greater x (y ∷ ys) = if fl.lt y x then x ∷ y ∷ ys else y ∷ insert_greater x ys

  unfoldable pub sort_greater : List F → List F
  unfolding insert_greater
  sort_greater [] = []
  sort_greater (x ∷ xs) = insert_greater x (sort_greater xs)

  -- Whether one of the values is NaN.
  unfoldable pub any_nan : List F → Bool
  any_nan [] = false
  any_nan (x ∷ xs) = if fl.is_nan x then true else any_nan xs

  -- `vals[k - 1]` of the sorted values. Where one of several is NaN, `std::greater` is no order that
  -- `std::partial_sort` may be called with, and its behaviour is undefined. With a `k` of 0, or none
  -- of that index, the read is wild.
  unfoldable pub threshold : ℕ → List F → Result F
  unfolding sort_greater any_nan
  threshold zero logits = err wild
  threshold (suc k) logits = elim (any_nan logits) [
    | true ↦ err wild
    | false ↦ elim (get_elem? (sort_greater logits) k) [ none ↦ err wild | some t ↦ ok t ]
  ]

  -- The loop that puts minus infinity in the place of what is below the threshold.
  unfoldable pub mask : F → List F → List F
  mask t [] = []
  mask t (l ∷ ls) = (if fl.lt l t then fl.minus_infinity else l) ∷ mask t ls

  -- The loop over the probabilities, from index `i` on; `none` where it ends without an answer.
  unfoldable pub draw : F → F → ℕ → List F → Option (ℕ × F)
  draw rand cum i [] = none
  draw rand cum i (p ∷ ps) = elim (fl.not_positive p) [
    | true ↦ draw rand cum (i + 1) ps
    | false ↦ elim (fl.reaches (fl.add cum p) rand) [
      | true ↦ some (i, p)
      | false ↦ draw rand (fl.add cum p) (i + 1) ps
    ]
  ]

  -- `probs.back()`.
  unfoldable pub back : List F → Result F
  back [] = err wild
  back (p ∷ []) = ok p
  back (p ∷ q ∷ ps) = back (q ∷ ps)

  -- The return in the loop of `top_k_sample_`, or the one behind it.
  unfoldable pub drawn_or_last : Option (ℕ × F) → List F → ℕ → Result (ℕ × F)
  unfolding back
  drawn_or_last (some r) probs n = ok r
  drawn_or_last none probs n = do p ← back probs; ok (n - 1, p)

  -- `top_k_sample_`, for the number that the generator draws.
  unfoldable pub top_k_sample : F → ℕ → List F → Result (ℕ × F)
  unfolding threshold softmax draw drawn_or_last mask
  top_k_sample rand top_k logits = do
    t ← threshold (min top_k (length logits)) logits
    probs ← softmax (mask t logits)
    drawn_or_last (draw rand fl.zero 0 probs) probs (length logits)

  -- `sample`.
  unfoldable pub sample : F → Sampler F → List F → Result (ℕ × F)
  unfolding greedy top_k_sample
  sample rand s [] = ok (0, fl.zero)
  sample rand s (l ∷ ls) =
      let scaled = if fl.lt fl.zero s.temp then map (λ x. fl.div x s.temp) (l ∷ ls) else l ∷ ls in
      if ltb 0 s.top_k then top_k_sample rand s.top_k scaled else greedy scaled
