-- ===== src/Debug/Axis.antt =====
-- Which indices the loops of the printing show.
use zinfer_lm.Base.{
  ℕ, zero, suc, ◌+◌, ◌-◌, ◌*◌, ◌≤◌, ◌<◌, ◌≡◌, refl, ap, sym, ◌∙◌, ◌⊎◌, inl, inr, true, false,
  Bool-cases, List, ◌++◌, append_assoc, ltb, lt→ltb, ltb→lt, Result, ok, err, ◌>>=◌, arith,
}
use zinfer_lm.Debug.{skips, axis_loop, whole_loop}

-- The first indices, the dots, and the last ones.
abbrev pub ends : ℕ → ℕ → ℕ → ℕ → List ℕ → (ℕ → Result (List ℕ)) → Result (List ℕ)
ends k i n ne dots body = do
  first ← whole_loop k body i
  last ← whole_loop n body (ne - n)
  ok (first ++ (dots ++ last))

skip-chain :
    (r s : Result (List ℕ)) (dots : List ℕ)
    → (do a ← r; b ← s; ok (dots ++ (a ++ b)))
      ≡ (do last ← (do a ← r; b ← s; ok (a ++ b)); ok (dots ++ last))
skip-chain (err f) s dots = refl
skip-chain (ok a) (err f) dots = refl
skip-chain (ok a) (ok b) dots = refl

step-chain :
    (r s t : Result (List ℕ)) (dots : List ℕ)
    → (do a ← r; b ← (do first ← s; last ← t; ok (first ++ (dots ++ last))); ok (a ++ b))
      ≡ (do first ← (do a ← r; b ← s; ok (a ++ b)); last ← t; ok (first ++ (dots ++ last)))
step-chain (err f) s t dots = refl
step-chain (ok a) (err f) t dots = refl
step-chain (ok a) (ok b) (err f) dots = refl
step-chain (ok a) (ok b) (ok c) dots = ap ok (sym (append_assoc a b (dots ++ c)))

le_or_gt : (a b : ℕ) → (a ≤ b) ⊎ (b < a)
le_or_gt a b = elim (Bool-cases (ltb b a)) [
  | inl e ↦ inr (ltb→lt b a e)
  | inr e ↦ inl (ground (arith, lt→ltb b a))
]

no_skip : (n ne i : ℕ) → (n < i) ⊎ (i < n) ⊎ (ne ≤ 2 * n) → skips n ne i ≡ false
unfolding skips
no_skip n ne i h = ground arith

skip_here : (n ne i : ℕ) → i ≡ n → 2 * n < ne → skips n ne i ≡ true
unfolding skips
skip_here n ne i e h = ground arith

module _ (n ne : ℕ) (dots : List ℕ) (body : ℕ → Result (List ℕ)) where
  round :
      (f i : ℕ)
      → i < ne
      → skips n ne i ≡ false
      → axis_loop (suc f) n ne dots body i
        ≡ (do shown ← body i; rest ← axis_loop f n ne dots body (i + 1); ok (shown ++ rest))
  unfolding axis_loop
  round f i h e = rw (lt→ltb i ne h, axis_loop, e, axis_loop) refl

  to_the_end :
      (f i k : ℕ)
      → i + k ≡ ne
      → k < f
      → (n < i) ⊎ (ne ≤ 2 * n)
      → axis_loop f n ne dots body i ≡ whole_loop k body i
  unfolding axis_loop whole_loop
  to_the_end zero i k e h c = absurd (omega arith)
  to_the_end (suc f) i zero e h c =
      let over : ltb i ne ≡ false = ground arith in rw (over, axis_loop) refl
  to_the_end (suc f) i (suc k) e h c =
      let free : skips n ne i ≡ false =
        no_skip n ne i (elim c [ inl l ↦ inl l | inr l ↦ inr (inr l) ]) in
      let on : (n < i + 1) ⊎ (ne ≤ 2 * n) = elim c [ inl l ↦ inl (omega arith) | inr l ↦ inr l ] in
      round f i (omega arith) free
      ∙ ap (λ r. body i >>= λ shown. r >>= λ rest. ok (shown ++ rest))
          (to_the_end f (i + 1) k (omega arith) (omega arith) on)

  to_the_dots :
      (f i k m : ℕ)
      → n ≡ suc m
      → 2 * n < ne
      → i + k ≡ n
      → ne < f + i
      → axis_loop f n ne dots body i ≡ ends k i n ne dots body
  unfolding axis_loop whole_loop
  to_the_dots zero i k m e w h l = absurd (omega arith)
  to_the_dots (suc f) i zero m e w h l =
      let here = skip_here n ne i (omega arith) w in
      let last = to_the_end f (ne - n + 1) m (omega arith) (omega arith) (inl (omega arith)) in
      rw (lt→ltb i ne (omega arith), axis_loop, here, axis_loop, last)
        (rw e (skip-chain (body (ne - suc m)) (whole_loop m body (ne - suc m + 1)) dots))
  to_the_dots (suc f) i (suc k) m e w h l =
      round f i (omega arith) (no_skip n ne i (inr (inl (omega arith))))
      ∙ ap (λ r. body i >>= λ shown. r >>= λ rest. ok (shown ++ rest))
          (to_the_dots f (i + 1) k m e w (omega arith) (omega arith))
      ∙ step-chain (body i) (whole_loop k body (i + 1)) (whole_loop n body (ne - n)) dots

-- A loop that shows a positive number of entries at each end comes to its end. Where the entries are
-- at most twice as many, it shows all of them in order; where they are more, the first ones, the
-- dots, and the last ones.
pub axis_loop-ends :
    (m ne : ℕ) (dots : List ℕ) (body : ℕ → Result (List ℕ))
    → ((ne ≤ 2 * suc m) × (axis_loop (suc ne) (suc m) ne dots body 0 ≡ whole_loop ne body 0))
      ⊎ ((2 * suc m < ne)
          × (axis_loop (suc ne) (suc m) ne dots body 0 ≡ ends (suc m) 0 (suc m) ne dots body))
axis_loop-ends m ne dots body = elim (le_or_gt ne (2 * suc m)) [
  | inl few ↦
      inl (few, to_the_end (suc m) ne dots body (suc ne) 0 ne (omega arith) (omega arith) (inr few))
  | inr many ↦ inr (
    many,
    to_the_dots (suc m) ne dots body (suc ne) 0 (suc m) m refl many (omega arith) (omega arith),
  )
]
