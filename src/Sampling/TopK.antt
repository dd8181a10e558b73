-- ===== src/Sampling/TopK.antt =====
-- What `sample` and `top_k_sample_` can answer.
use Prim.Native.Nat.{min}
use zinfer_lm.Base.{
  ℕ, zero, suc, ◌+◌, ◌-◌, ◌≤◌, ◌<◌, ◌≡◌, refl, ap, ◌∙◌, ◌⊎◌, false, Bool-cases, Option,
  Option-cases, none, inl, inr, some, List, [], ◌∷◌, map, length, get_elem?, get_elem?_inside,
  if◌then◌else◌, arith, ok, ◌>>=◌,
}
use mathlib.Core.Path.{subst}
use zinfer_lm.Sampling.Numbers.{Floats}
use zinfer_lm.Sampling.{
  max_from, sum_from, softmax, insert_greater, any_nan, sort_greater, threshold, mask, draw, back,
  drawn_or_last, top_k_sample,
}

module _ {ℓ} {F : Type ℓ} ⦃fl : Floats F⦄ where
  pub max_from-lt :
      (at i : ℕ) (best : F) (xs : List F) → at < i → (max_from at best i xs).0 < i + length xs
  unfolding max_from
  max_from-lt at i best [] h = omega arith
  max_from-lt at i best (x ∷ xs) h = elim (Bool-cases (fl.lt best x)) [
    | inl e ↦ rw (e, max_from) (omega (arith, max_from-lt i (i + 1) x xs (omega arith)))
    | inr e ↦ rw (e, max_from) (omega (arith, max_from-lt at (i + 1) best xs (omega arith)))
  ]

  length-mask : (t : F) (ls : List F) → length (mask t ls) ≡ length ls
  unfolding mask
  length-mask t [] = refl
  length-mask t (l ∷ ls) = ap suc (length-mask t ls)

  length-insert_greater : (x : F) (ys : List F) → length (insert_greater x ys) ≡ suc (length ys)
  unfolding insert_greater
  length-insert_greater x [] = refl
  length-insert_greater x (y ∷ ys) = elim (Bool-cases (fl.lt y x)) [
    | inl e ↦ rw e
    | inr e ↦ rw (e, length-insert_greater x ys)
  ]

  length-sort_greater : (xs : List F) → length (sort_greater xs) ≡ length xs
  unfolding sort_greater
  length-sort_greater [] = refl
  length-sort_greater (x ∷ xs) =
      length-insert_greater x (sort_greater xs) ∙ ap suc (length-sort_greater xs)

  -- An answer of the loop is an entry whose value is positive.
  draw_found :
      (rand cum : F) (i k : ℕ) (ps : List F) (v : F)
      → draw rand cum i ps ≡ some (k, v)
      → (j : ℕ) × (k ≡ i + j) × (get_elem? ps j ≡ some v) × (fl.not_positive v ≡ false)
  unfolding draw
  draw_found rand cum i k [] v e = absurd (cc)
  draw_found rand cum i k (p ∷ ps) v e = elim (Bool-cases (fl.not_positive p)) [
    | inl h ↦
        let later : draw rand cum (i + 1) ps ≡ some (k, v) = rw (h, draw) at e in
        let (j, q, found, positive) = draw_found rand cum (i + 1) k ps v later in
        (suc j, omega arith, found, positive)
    | inr h ↦ elim (Bool-cases (fl.reaches (fl.add cum p) rand)) [
      | inl reached ↦
          let here : some (i, p) ≡ some (k, v) = rw (h, draw, reached, draw) at e in
          let index : i ≡ k = cc (here) in
          let value : p ≡ v = cc (here) in (0, omega arith, ap some value, rw (← value) h)
      | inr short ↦
          let later : draw rand (fl.add cum p) (i + 1) ps ≡ some (k, v) =
            rw (h, draw, short, draw) at e in
          let (j, q, found, positive) = draw_found rand (fl.add cum p) (i + 1) k ps v later in
          (suc j, omega arith, found, positive)
    ]
  ]

  back_total : (p : F) (ps : List F) → (q : F) × (back (p ∷ ps) ≡ ok q)
  unfolding back
  back_total p [] = (p, refl)
  back_total p (q ∷ ps) = back_total q ps

  -- The threshold is the entry `k - 1` of the sorted values, where none is NaN and `k` is neither 0
  -- nor too large.
  pub threshold_total :
      (k : ℕ) (xs : List F)
      → any_nan xs ≡ false
      → 0 < k
      → k ≤ length xs
      → (t : F) × (threshold k xs ≡ ok t) × (get_elem? (sort_greater xs) (k - 1) ≡ some t)
  unfolding threshold
  threshold_total zero xs clean h l = absurd (omega arith)
  threshold_total (suc k) xs clean h l =
      let (t, e) = get_elem?_inside (sort_greater xs) k (omega (arith, length-sort_greater xs)) in
      let index : suc k - 1 ≡ k = omega arith in
      (t, rw (clean, threshold, e, threshold), rw index e)

  -- The greatest value and the sum that `softmax_` goes by, and the probability of one value.
  abbrev pub max_of : F → List F → F
  max_of x xs = (max_from 0 x 1 xs).1

  abbrev pub sum_of : F → List F → F
  sum_of x xs = sum_from fl.zero (map (λ l. fl.exp (fl.sub l (max_of x xs))) (x ∷ xs))

  abbrev pub probability : F → F → F → F
  probability m s l = fl.scale (fl.exp (fl.sub l m)) s

  get-probability :
      (m s t : F) (ls : List F) (j : ℕ) (v : F)
      → get_elem? (map (λ v. fl.scale v s) (map (λ l. fl.exp (fl.sub l m)) (mask t ls))) j ≡ some v
      → (l : F) × (get_elem? ls j ≡ some l)
        × (v ≡ probability m s (if fl.lt l t then fl.minus_infinity else l))
  unfolding mask
  get-probability m s t [] j v e = absurd (cc)
  get-probability m s t (l ∷ ls) zero v e = (l, refl, cc e)
  get-probability m s t (l ∷ ls) (suc j) v e = get-probability m s t ls j v e

  abbrev pub masked_first : F → F → F
  masked_first t l = if fl.lt l t then fl.minus_infinity else l

  -- The probabilities that `softmax_` makes of the values masked by `t`.
  abbrev pub probabilities : F → F → List F → List F
  probabilities t l ls =
      map (λ v. fl.scale v (sum_of (masked_first t l) (mask t ls)))
        (map (λ x. fl.exp (fl.sub x (max_of (masked_first t l) (mask t ls))))
          (masked_first t l ∷ mask t ls))

  -- An answer stands inside the values; or it is an entry drawn with a positive probability, or else
  -- no sum of the probabilities has reached the draw, and the answer is the last index.
  abbrev pub Draws : F → F → F → List F → ℕ → Type ℓ
  Draws rand t l ls i =
      ((x : F) × (v : F) × (get_elem? (l ∷ ls) i ≡ some x)
        × (v
            ≡ probability (max_of (masked_first t l) (mask t ls))
                (sum_of (masked_first t l) (mask t ls)) (masked_first t x))
        × (fl.not_positive v ≡ false))
      ⊎ ((i ≡ length ls) × (draw rand fl.zero 0 (probabilities t l ls) ≡ none))

  drawn_or_last_found :
      (o : Option (ℕ × F)) (r : ℕ × F) (probs : List F) (n : ℕ)
      → o ≡ some r
      → drawn_or_last o probs n ≡ ok r
  unfolding drawn_or_last
  drawn_or_last_found o r probs n e = rw (e, drawn_or_last)

  drawn_or_last_end :
      (o : Option (ℕ × F)) (q : F) (ps : List F) (n : ℕ)
      → o ≡ none
      → back ps ≡ ok q
      → drawn_or_last o ps (suc n) ≡ ok (n, q)
  unfolding drawn_or_last
  drawn_or_last_end o q ps n e last =
      let index : suc n - 1 ≡ n = omega arith in rw (e, drawn_or_last, last, index)

  probabilities_lem :
      (t l : F) (ls : List F) → softmax (mask t (l ∷ ls)) ≡ ok (probabilities t l ls)
  unfolding softmax mask
  probabilities_lem t l ls = refl

  back-probabilities : (t l : F) (ls : List F) → (q : F) × (back (probabilities t l ls) ≡ ok q)
  unfolding mask
  back-probabilities t l ls =
      let ps = mask t ls in
      let m = max_of (masked_first t l) ps in
      let s = sum_of (masked_first t l) ps in
      back_total (probability m s (masked_first t l))
        (map (λ v. fl.scale v s) (map (λ x. fl.exp (fl.sub x m)) ps))

  top_k_sample_steps :
      (rand : F) (k : ℕ) (l : F) (ls : List F) (t : F)
      → threshold (min k (length (l ∷ ls))) (l ∷ ls) ≡ ok t
      → top_k_sample rand k (l ∷ ls)
        ≡ drawn_or_last
            (draw rand fl.zero 0 (probabilities t l ls))
            (probabilities t l ls)
            (length (l ∷ ls))
  unfolding top_k_sample
  top_k_sample_steps rand k l ls t e = rw e (
      ap (λ r. r >>= λ probs. drawn_or_last (draw rand fl.zero 0 probs) probs (length (l ∷ ls)))
        (probabilities_lem t l ls))

  pub top_k_sample-Draws :
      (rand : F) (k : ℕ) (l : F) (ls : List F) (t : F)
      → threshold (min k (length (l ∷ ls))) (l ∷ ls) ≡ ok t
      → (i : ℕ) × (p : F) × (top_k_sample rand k (l ∷ ls) ≡ ok (i, p)) × Draws rand t l ls i
  unfolding mask
  top_k_sample-Draws rand k l ls t e =
      let steps = top_k_sample_steps rand k l ls t e in
      let o = draw rand fl.zero 0 (probabilities t l ls) in
      elim (Option-cases o) [
        | inl none_drawn ↦
            let (q, last) = back-probabilities t l ls in
            (
              length ls,
              q,
              steps ∙ drawn_or_last_end o q (probabilities t l ls) (length ls) none_drawn last,
              inr (refl, none_drawn),
            )
        | inr ((i, p), drawn) ↦
            let (j, index, found, positive) =
              draw_found rand fl.zero 0 i (probabilities t l ls) p drawn in
            let (x, inside, value) = get-probability _ _ t (l ∷ ls) j p found in
            let same : j ≡ i = omega arith in
            (
              i,
              p,
              steps ∙ drawn_or_last_found o (i, p) _ _ drawn,
              inl (x, p, subst (λ m. get_elem? (l ∷ ls) m ≡ some x) same inside, value, positive),
            )
      ]
