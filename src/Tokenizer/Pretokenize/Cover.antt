-- ===== src/Tokenizer/Pretokenize/Cover.antt =====
-- The chunks of `pretokenize` are the text, cut into pieces.
use zinfer_lm.Base.{
  ℕ, zero, suc, ◌+◌, ◌-◌, ◌≤◌, ◌<◌, ◌≡◌, refl, sym, true, false, Bool-cases, List, [], ◌∷◌, ◌++◌,
  inl, inr, arith, length, length-drop, length-take, take, drop, take-append-drop, All, concat,
  append-nil, append_assoc, ltb, lt→ltb, leb, Result, ok,
}
use zinfer_lm.Tokenizer.Pretokenize.{
  Match, no_match, error, found, Matcher, substr, pretokenize_loop, pretokenize, IsAnchored,
  Anchored, IsNonempty,
}

drop-nil : (n : ℕ) → drop {A = ℕ} n [] ≡ []
drop-nil zero = refl
drop-nil (suc n) = refl

drop-drop : (a e : ℕ) (text : List ℕ) → a ≤ e → drop e text ≡ drop (e - a) (drop a text)
drop-drop zero e text h = let e' : e - 0 ≡ e = omega arith in rw e'
drop-drop (suc a) zero text h = elim h [ ]
drop-drop (suc a) (suc e) [] h = sym (drop-nil (suc e - suc a))
drop-drop (suc a) (suc e) (c ∷ cs) h =
    let e' : suc e - suc a ≡ e - a = omega arith in rw e' (drop-drop a e cs (omega arith))

empty_of_length : (xs : List ℕ) → length xs ≡ 0 → xs ≡ []
empty_of_length [] h = refl
empty_of_length (x ∷ xs) h = absurd (omega arith)

IsNonempty-of_length : (xs : List ℕ) → 0 < length xs → IsNonempty xs
IsNonempty-of_length [] h = elim h [ ]
IsNonempty-of_length (x ∷ xs) h = tt

-- What is left of the text is its first piece and what stands behind it.
drop_split :
    (start e : ℕ) (text : List ℕ)
    → start ≤ e
    → take (e - start) (drop start text) ++ drop e text ≡ drop start text
drop_split start e text h =
    rw (drop-drop start e text h) (take-append-drop (e - start) (drop start text))

-- The new chunks together are what was left of the text, and none of them is empty.
abbrev Covers : List ℕ → List (List ℕ) → Result (List (List ℕ)) → Type 0
Covers text chunks r =
    (new : List (List ℕ)) × (r ≡ ok (chunks ++ new)) × (concat new ≡ text) × All IsNonempty new

Covers-cons :
    (text c : List ℕ) (chunks : List (List ℕ)) (start e : ℕ) (r : Result (List (List ℕ)))
    → start < e
    → e ≤ length text
    → c ≡ take (e - start) (drop start text)
    → Covers (drop e text) (chunks ++ c ∷ []) r
    → Covers (drop start text) chunks r
Covers-cons text c chunks start e r h k p (new, q, joined, full) = (
  c ∷ new,
  rw (q, append_assoc chunks (c ∷ []) new),
  rw (joined, p) (drop_split start e text (omega arith)),
  (
    IsNonempty-of_length c
        (rw p (omega (arith, length-take (e - start) (drop start text), length-drop start text))),
    full,
  ),
)

module _ (re : Matcher) (text : List ℕ) where
  loop-no_match :
      (f start : ℕ) (chunks : List (List ℕ))
      → start < length text
      → re text start ≡ no_match
      → pretokenize_loop (suc f) re text start chunks
        ≡ pretokenize_loop f re text (start + 1) (chunks ++ take 1 (drop start text) ∷ [])
  unfolding pretokenize_loop
  loop-no_match f start chunks l e = rw (lt→ltb start (length text) l, e, pretokenize_loop)

  loop-found :
      (f start e : ℕ) (chunks : List (List ℕ))
      → start < e
      → e ≤ length text
      → re text start ≡ found start e
      → pretokenize_loop (suc f) re text start chunks
        ≡ pretokenize_loop f re text e (chunks ++ take (e - start) (drop start text) ∷ [])
  unfolding pretokenize_loop substr
  loop-found f start e chunks h k eq =
      let inside : ltb start (length text) ≡ true = ground arith in
      let before : ltb (length text) start ≡ false = ground arith in
      let ordered : leb start e ≡ true = ground arith in
      rw (inside, eq, before, ordered, pretokenize_loop, substr)

  loop-over :
      (f start : ℕ) (chunks : List (List ℕ))
      → ltb start (length text) ≡ false
      → pretokenize_loop (suc f) re text start chunks ≡ ok chunks
  unfolding pretokenize_loop
  loop-over f start chunks h = rw (h, pretokenize_loop)

  -- One round, given what the later rounds do.
  round-Covers :
      (f start : ℕ) (chunks : List (List ℕ)) (answer : Match)
      → start < length text
      → re text start ≡ answer
      → IsAnchored answer start (length text)
      → ((e : ℕ) (cs : List (List ℕ))
          → start < e
          → e ≤ length text
          → Covers (drop e text) cs (pretokenize_loop f re text e cs))
      → Covers (drop start text) chunks (pretokenize_loop (suc f) re text start chunks)
  round-Covers f start chunks no_match l eq a later =
      let one : start + 1 - start ≡ 1 = omega arith in
      rw (loop-no_match f start chunks l eq) (
        Covers-cons text (take 1 (drop start text)) chunks start (start + 1) _ (omega arith)
          (omega arith) (rw one) (later (start + 1) _ (omega arith) (omega arith)))
  round-Covers f start chunks error l eq a later = absurd a
  round-Covers f start chunks (found s e) l eq (p, q, r) later =
      rw (loop-found f start e chunks q r (rw p at eq)) (
        Covers-cons text (take (e - start) (drop start text)) chunks start e _ q r refl
          (later e _ q r))

module _ (re : Matcher) (text : List ℕ) (anchored : Anchored re) where
  loop-Covers :
      (f start : ℕ) (chunks : List (List ℕ))
      → length text < f + start
      → start ≤ length text
      → Covers (drop start text) chunks (pretokenize_loop f re text start chunks)
  loop-Covers zero start chunks h l = absurd (omega arith)
  loop-Covers (suc f) start chunks h l = elim (Bool-cases (ltb start (length text))) [
    | inl more ↦
        round-Covers re text f start chunks (re text start) (ground arith) refl
          (anchored text start (ground arith)) (λ e cs p q. loop-Covers f e cs (omega arith) q)
    | inr over ↦
        let over_le : length text ≤ start = ground arith in
        (
          [],
          rw (loop-over re text f start chunks over, append-nil chunks),
          sym (empty_of_length (drop start text) (omega (arith, length-drop start text))),
          tt,
        )
  ]

  -- For a pattern that matches wherever it looks and never the empty string, every text is cut into
  -- chunks without an error: together they are the text, byte for byte, and none of them is empty.
  pub pretokenize-Covers :
      (chunks : List (List ℕ)) × (pretokenize re text ≡ ok chunks)
      × (concat chunks ≡ text)
      × All IsNonempty chunks
  unfolding pretokenize
  pretokenize-Covers = loop-Covers (suc (length text)) 0 [] (omega arith) (omega arith)
