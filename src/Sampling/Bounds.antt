-- ===== src/Sampling/Bounds.antt =====
-- Which entry `sample` and `top_k_sample_` answer with.
use Prim.Native.Nat.{min}
use mathlib.Core.Path.{subst}
use zinfer_lm.Base.{
  ℕ, zero, suc, ◌-◌, ◌≤◌, ◌<◌, ◌≡◌, refl, ◌⊎◌, true, false, Bool-cases, none, inl, inr, some, List,
  [], ◌∷◌, All, map, length, length-map, get_elem?, get_elem?_bound, get_elem?-All, ltb, lt→ltb,
  if◌then◌else◌, arith, Result, ok,
}
use zinfer_lm.Sampling.Numbers.{Floats, IsOrdered}
use zinfer_lm.Sampling.{
  Sampler, any_nan, draw, mask, sort_greater, threshold, greedy, top_k_sample, sample,
}
use zinfer_lm.Sampling.TopK.{
  max_from-lt, threshold_total, top_k_sample-Draws, max_of, sum_of, probability, masked_first,
  probabilities,
}
use zinfer_lm.Sampling.Sorted.{count_greater, count_greater_sorted, All-sort}

module _ {ℓ} {F : Type ℓ} ⦃fl : Floats F⦄ where
  -- The call answers with an index of the `n` values.
  abbrev pub AnswersBelow : ℕ → Result (ℕ × F) → Type ℓ
  AnswersBelow n r = (i : ℕ) × (p : F) × (r ≡ ok (i, p)) × (i < n)

  top_k_sample_bound :
      (rand : F) (k : ℕ) (l : F) (ls : List F)
      → any_nan (l ∷ ls) ≡ false
      → 0 < k
      → AnswersBelow (suc (length ls)) (top_k_sample rand k (l ∷ ls))
  top_k_sample_bound rand k l ls clean h =
      let (t, e, place) =
        threshold_total (min k (length (l ∷ ls))) (l ∷ ls) clean (omega arith) (omega arith) in
      let (i, p, answer, from) = top_k_sample-Draws rand k l ls t e in
      elim from [
        | inl (x, v, inside, value, positive) ↦ (i, p, answer, get_elem?_bound (l ∷ ls) i x inside)
        | inr (last, none_drawn) ↦ (i, p, answer, omega arith)
      ]

  greedy_bound : (l : F) (ls : List F) → AnswersBelow (suc (length ls)) (greedy (l ∷ ls))
  unfolding greedy
  greedy_bound l ls = (_, _, refl, omega (arith, max_from-lt 0 1 l ls (omega arith)))

  chosen_bound :
      (rand : F) (k : ℕ) (l : F) (ls : List F)
      → any_nan (l ∷ ls) ≡ false
      → AnswersBelow
          (suc (length ls))
          (if ltb 0 k then top_k_sample rand k (l ∷ ls) else greedy (l ∷ ls))
  chosen_bound rand zero l ls clean = greedy_bound l ls
  chosen_bound rand (suc k) l ls clean =
      rw (lt→ltb 0 (suc k) (omega arith)) (top_k_sample_bound rand (suc k) l ls clean (omega arith))

  -- The values divided by the temperature, where it is positive.
  abbrev pub scaled : Sampler F → List F → List F
  scaled s xs = if fl.lt fl.zero s.temp then map (λ x. fl.div x s.temp) xs else xs

  -- Where none of the values, divided by a positive temperature, is NaN, `sample` of one value at least
  -- ends without an error and answers with an index inside the values, whatever the temperature,
  -- `top_k_` and the draw are.
  pub sample_in_bounds :
      (rand : F) (s : Sampler F) (l : F) (ls : List F)
      → any_nan (scaled s (l ∷ ls)) ≡ false
      → AnswersBelow (length (l ∷ ls)) (sample rand s (l ∷ ls))
  unfolding sample
  sample_in_bounds rand s l ls clean = elim (Bool-cases (fl.lt fl.zero s.temp)) [
    | inl h ↦
        let divided = map (λ x. fl.div x s.temp) ls in
        let same : length divided ≡ length ls = length-map ls (λ x. fl.div x s.temp) in
        let clean' : any_nan (fl.div l s.temp ∷ divided) ≡ false = rw h at clean in
        let (i, p, answer, inside) = chosen_bound rand s.top_k (fl.div l s.temp) divided clean' in
        (i, p, rw (h, sample) answer, omega arith)
    | inr h ↦
        let clean' : any_nan (l ∷ ls) ≡ false = rw h at clean in
        rw (h, sample) (chosen_bound rand s.top_k l ls clean')
  ]

  module _ (number : F → Type 0) (laws : IsOrdered F number) where
    All-any_nan : (xs : List F) → All number xs → any_nan xs ≡ false
    unfolding any_nan
    All-any_nan [] h = refl
    All-any_nan (x ∷ xs) (n, ns) = rw (laws.not_nan x n) (All-any_nan xs ns)

    count_greater_mono :
        (x t : F) (ys : List F)
        → number x
        → number t
        → All number ys
        → fl.lt x t ≡ false
        → count_greater x ys ≤ count_greater t ys
    count_greater_mono x t [] nx nt ns h = omega arith
    count_greater_mono x t (y ∷ ys) nx nt (ny, ns) h =
        let later = count_greater_mono x t ys nx nt ns h in
        elim (Bool-cases (fl.lt x y)) [
          | inl e ↦ rw (e, laws.lt_of_not_lt x t y nx nt ny h e) (omega (arith, later))
          | inr e ↦ rw e (omega (arith, later))
        ]

    -- The answer is one of the `k` greatest values: fewer than `k` are greater. Or else no sum of the
    -- probabilities has reached the draw, and the answer is the last index.
    abbrev pub IsTop : F → ℕ → F → List F → F → ℕ → Type ℓ
    IsTop rand k l ls t i =
        ((x : F) × (get_elem? (l ∷ ls) i ≡ some x) × (count_greater x (l ∷ ls) < k))
        ⊎ ((i ≡ length ls) × (draw rand fl.zero 0 (probabilities t l ls) ≡ none))

    -- Of one value at least, none of which is NaN, and with a positive `top_k_`: where the threshold is
    -- `t` and the probability of a masked value is not positive, `top_k_sample_` answers with one of
    -- the `top_k_` greatest values, than which fewer are greater; or, where no sum of the
    -- probabilities has reached the draw, with the last index.
    pub top_k_sample-IsTop :
        (rand : F) (k : ℕ) (l : F) (ls : List F) (t : F)
        → 0 < k
        → All number (l ∷ ls)
        → threshold (min k (length (l ∷ ls))) (l ∷ ls) ≡ ok t
        → fl.not_positive (
            probability
              (max_of (masked_first t l) (mask t ls))
              (sum_of (masked_first t l) (mask t ls))
              fl.minus_infinity)
          ≡ true
        → (i : ℕ) × (p : F) × (top_k_sample rand k (l ∷ ls) ≡ ok (i, p)) × IsTop rand k l ls t i
    top_k_sample-IsTop rand k l ls t h ns e masked =
        let (t', e', place) =
          threshold_total (min k (length (l ∷ ls))) (l ∷ ls) (All-any_nan (l ∷ ls) ns) (omega arith)
            (omega arith) in
        let same : t' ≡ t = cc (e, e') in
        let place' =
          subst (λ u. get_elem? (sort_greater (l ∷ ls)) (min k (length (l ∷ ls)) - 1) ≡ some u) same
            place in
        let m = max_of (masked_first t l) (mask t ls) in
        let s = sum_of (masked_first t l) (mask t ls) in
        let nt =
          get_elem?-All number (sort_greater (l ∷ ls)) (min k (length (l ∷ ls)) - 1) t
            (All-sort number (l ∷ ls) ns) place' in
        let few =
          count_greater_sorted number laws (l ∷ ls) (min k (length (l ∷ ls)) - 1) t ns place' in
        let (i, p, answer, from) = top_k_sample-Draws rand k l ls t e in
        elim from [
          | inl (x, v, inside, value, positive) ↦ elim (Bool-cases (fl.lt x t)) [
            | inl below ↦
                let hidden : masked_first t x ≡ fl.minus_infinity = rw below in
                let zero_probability : v ≡ probability m s fl.minus_infinity = rw hidden at value in
                absurd (cc (zero_probability, positive, masked))
            | inr above ↦
                let nx = get_elem?-All number (l ∷ ls) i x ns inside in
                let fewer = count_greater_mono x t (l ∷ ls) nx nt ns above in
                (i, p, answer, inl (x, inside, omega arith))
          ]
          | inr last ↦ (i, p, answer, inr last)
        ]
