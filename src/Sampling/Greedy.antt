-- ===== src/Sampling/Greedy.antt =====
-- The greedy choice is the first of the greatest values.
use zinfer_lm.Base.{
  ℕ, zero, suc, ◌+◌, ◌<◌, ◌≡◌, refl, ap, sym, ◌⊎◌, true, false, Bool-cases, inl, inr, some, List,
  [], ◌∷◌, ◌++◌, append_assoc, append-nil, length-append, All-append, All, length, get_elem?,
  get_elem?-All, arith, ok,
}
use mathlib.Core.Path.{subst}
use zinfer_lm.Sampling.Numbers.{Floats, IsOrdered}
use zinfer_lm.Sampling.{max_from, greedy}

get-snoc {ℓ} : {A : Type ℓ} (xs : List A) (x : A) → get_elem? (xs ++ x ∷ []) (length xs) ≡ some x
get-snoc [] x = refl
get-snoc (y ∷ xs) x = get-snoc xs x

get-append_some {ℓ} :
    {A : Type ℓ} (xs ys : List A) (i : ℕ) (v : A)
    → get_elem? xs i ≡ some v
    → get_elem? (xs ++ ys) i ≡ some v
get-append_some [] ys i v e = absurd (cc)
get-append_some (x ∷ xs) ys zero v e = e
get-append_some (x ∷ xs) ys (suc i) v e = get-append_some xs ys i v e

get-snoc_cases {ℓ} :
    {A : Type ℓ} (xs : List A) (x y : A) (j : ℕ)
    → get_elem? (xs ++ x ∷ []) j ≡ some y
    → (get_elem? xs j ≡ some y) ⊎ ((j ≡ length xs) × (x ≡ y))
get-snoc_cases [] x y zero e = inr (refl, cc)
get-snoc_cases [] x y (suc j) e = absurd (cc)
get-snoc_cases (z ∷ xs) x y zero e = inl e
get-snoc_cases (z ∷ xs) x y (suc j) e = elim (get-snoc_cases xs x y j e) [
  | inl p ↦ inl p
  | inr (p, q) ↦ inr (ap suc p, q)
]

module _ {ℓ} {F : Type ℓ} ⦃fl : Floats F⦄ where
  -- The value `v` stands at the index `i`, nothing is greater, and all that stands before is less.
  pub record IsFirstMax (xs : List F) (i : ℕ) (v : F) : Type ℓ where
    pub found : get_elem? xs i ≡ some v
    pub greatest : (j : ℕ) (y : F) → get_elem? xs j ≡ some y → fl.lt v y ≡ false
    pub first : (j : ℕ) (y : F) → j < i → get_elem? xs j ≡ some y → fl.lt y v ≡ true

  module _ (number : F → Type 0) (laws : IsOrdered F number) where
    open laws use {lt_irrefl, lt_trans, lt_of_not_lt}

    IsFirstMax-greater :
        (xs : List F) (i : ℕ) (v x : F)
        → All number xs
        → number v
        → number x
        → IsFirstMax xs i v
        → fl.lt v x ≡ true
        → IsFirstMax (xs ++ x ∷ []) (length xs) x
    IsFirstMax-greater xs i v x ns nv nx m h = record {
      found = get-snoc xs x;
      greatest = λ j y e. elim (get-snoc_cases xs x y j e) [
        | inl p ↦ elim (Bool-cases (fl.lt x y)) [
          | inl q ↦
              absurd
                (cc (m.greatest j y p, lt_trans v x y nv nx (get_elem?-All number xs j y ns p) h q))
          | inr q ↦ q
        ]
        | inr (p, q) ↦ rw (← q) (lt_irrefl x nx)
      ];
      first = λ j y l e. elim (get-snoc_cases xs x y j e) [
        | inl p ↦ lt_of_not_lt v y x nv (get_elem?-All number xs j y ns p) nx (m.greatest j y p) h
        | inr (p, q) ↦ absurd (omega arith)
      ];
    }

    IsFirstMax-same :
        (xs : List F) (i : ℕ) (v x : F)
        → i < length xs
        → IsFirstMax xs i v
        → fl.lt v x ≡ false
        → IsFirstMax (xs ++ x ∷ []) i v
    IsFirstMax-same xs i v x inside m h = record {
      found = get-append_some xs (x ∷ []) i v m.found;
      greatest = λ j y e. elim (get-snoc_cases xs x y j e) [
        | inl p ↦ m.greatest j y p
        | inr (p, q) ↦ rw (← q) h
      ];
      first = λ j y l e. elim (get-snoc_cases xs x y j e) [
        | inl p ↦ m.first j y l p
        | inr (p, q) ↦ absurd (omega arith)
      ];
    }

    max_from-IsFirstMax :
        (rest xs : List F) (at i : ℕ) (best : F)
        → All number xs
        → All number rest
        → number best
        → at < length xs
        → i ≡ length xs
        → IsFirstMax xs at best
        → IsFirstMax (xs ++ rest) (max_from at best i rest).0 (max_from at best i rest).1
    unfolding max_from
    max_from-IsFirstMax [] xs at i best ns nr nb l e m = rw (append-nil xs) m
    max_from-IsFirstMax (x ∷ rest) xs at i best ns nr nb l e m =
        let ns' = All-append number xs (x ∷ []) ns (nr.0, tt) in
        let longer : i + 1 ≡ length (xs ++ x ∷ []) = omega (arith, length-append xs (x ∷ [])) in
        rw (← append_assoc xs (x ∷ []) rest) (elim (Bool-cases (fl.lt best x)) [
          | inl h ↦
              rw (h, max_from)
                (max_from-IsFirstMax rest (xs ++ x ∷ []) i (i + 1) x ns' nr.1 nr.0 (omega arith)
                  longer
                  (subst (λ k. IsFirstMax (xs ++ x ∷ []) k x) (sym e)
                    (IsFirstMax-greater xs at best x ns nb nr.0 m h)))
          | inr h ↦
              rw (h, max_from)
                (max_from-IsFirstMax rest (xs ++ x ∷ []) at (i + 1) best ns' nr.1 nb (omega arith)
                  longer (IsFirstMax-same xs at best x l m h))
        ])

    -- On values none of which is NaN, and one at least, the greedy choice is the index and the value
    -- of the first of the greatest: nothing is greater, and all that stands before it is less.
    pub greedy-IsFirstMax :
        (x : F) (xs : List F)
        → All number (x ∷ xs)
        → (i : ℕ) × (v : F) × (greedy (x ∷ xs) ≡ ok (i, v)) × IsFirstMax (x ∷ xs) i v
    unfolding greedy
    greedy-IsFirstMax x xs (nx, ns) = (
      _,
      _,
      refl,
      max_from-IsFirstMax xs (x ∷ []) 0 1 x (nx, tt) ns nx (omega arith) refl
          (record {
            found = refl;
            greatest = λ j y e. elim (get-snoc_cases [] x y j e) [
              | inl p ↦ absurd (cc p)
              | inr (p, q) ↦ rw (← q) (lt_irrefl x nx)
            ];
            first = λ j y l e. elim l [ ];
          }),
    )
