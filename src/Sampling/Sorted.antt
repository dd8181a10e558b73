-- ===== src/Sampling/Sorted.antt =====
-- The threshold: fewer than `k` values are greater than the value at `k - 1` of the sorted ones.
use mathlib.Core.Path.{subst}
use zinfer_lm.Base.{
  ℕ, zero, suc, ◌+◌, ◌≤◌, ◌≡◌, refl, true, false, Bool-cases, inl, inr, some, List, [], ◌∷◌, All,
  get_elem?, get_elem?-All, if◌then◌else◌, arith,
}
use zinfer_lm.Sampling.Numbers.{Floats, IsOrdered}
use zinfer_lm.Sampling.{insert_greater, sort_greater}

module _ {ℓ} {F : Type ℓ} ⦃fl : Floats F⦄ where
  -- How many values are greater than `t`.
  abbrev pub count_greater : F → List F → ℕ
  count_greater t [] = 0
  count_greater t (x ∷ xs) = (if fl.lt t x then 1 else 0) + count_greater t xs

  -- `x` is not less than any of them, and so on down the list.
  abbrev Descends : List F → Type 0
  Descends [] = Unit
  Descends (x ∷ xs) = All (λ y. fl.lt x y ≡ false) xs × Descends xs

  count-insert :
      (t x : F) (xs : List F) → count_greater t (insert_greater x xs) ≡ count_greater t (x ∷ xs)
  unfolding insert_greater
  count-insert t x [] = refl
  count-insert t x (y ∷ ys) = elim (Bool-cases (fl.lt y x)) [
    | inl e ↦ rw e
    | inr e ↦ rw e (omega (arith, count-insert t x ys))
  ]

  pub count-sort : (t : F) (xs : List F) → count_greater t (sort_greater xs) ≡ count_greater t xs
  unfolding sort_greater
  count-sort t [] = refl
  count-sort t (x ∷ xs) = omega (arith, count-insert t x (sort_greater xs), count-sort t xs)

  count_none : (t : F) (xs : List F) → All (λ y. fl.lt t y ≡ false) xs → count_greater t xs ≡ 0
  count_none t [] h = refl
  count_none t (x ∷ xs) h = rw h.0 (omega (arith, count_none t xs h.1))

  All-insert : (P : F → Type 0) (x : F) (xs : List F) → P x → All P xs → All P (insert_greater x xs)
  unfolding insert_greater
  All-insert P x [] p h = (p, tt)
  All-insert P x (y ∷ ys) p h = elim (Bool-cases (fl.lt y x)) [
    | inl e ↦ rw e (p, h)
    | inr e ↦ rw e (h.0, All-insert P x ys p h.1)
  ]

  pub All-sort : (P : F → Type 0) (xs : List F) → All P xs → All P (sort_greater xs)
  unfolding sort_greater
  All-sort P [] h = tt
  All-sort P (x ∷ xs) h = All-insert P x (sort_greater xs) h.0 (All-sort P xs h.1)

  -- At an index of a descending list there are no more greater values than before it.
  count_descending :
      (k : ℕ) (t : F) (xs : List F)
      → fl.lt t t ≡ false
      → Descends xs
      → get_elem? xs k ≡ some t
      → count_greater t xs ≤ k
  count_descending k t [] i d e = absurd (cc)
  count_descending zero t (x ∷ xs) i d e =
      let same : x ≡ t = cc e in
      rw (same, i)
        (omega (arith, count_none t xs (subst (λ y. All (λ z. fl.lt y z ≡ false) xs) same d.0)))
  count_descending (suc k) t (x ∷ xs) i d e = elim (Bool-cases (fl.lt t x)) [
    | inl h ↦ rw h (omega (arith, count_descending k t xs i d.1 e))
    | inr h ↦ rw h (omega (arith, count_descending k t xs i d.1 e))
  ]

  module _ (number : F → Type 0) (laws : IsOrdered F number) where
    open laws use {lt_irrefl, lt_trans, lt_of_not_lt}

    -- Nothing that `y` is not less than is greater than something that `y` is less than.
    not_lt_over :
        (x y : F) (zs : List F)
        → number x
        → number y
        → fl.lt y x ≡ true
        → All number zs
        → All (λ z. fl.lt y z ≡ false) zs
        → All (λ z. fl.lt x z ≡ false) zs
    not_lt_over x y [] nx ny h ns ds = tt
    not_lt_over x y (z ∷ zs) nx ny h (nz, ns) (d, ds) = (
      elim (Bool-cases (fl.lt x z)) [
        | inl e ↦ absurd (cc (d, lt_trans y x z ny nx nz h e))
        | inr e ↦ e
      ],
      not_lt_over x y zs nx ny h ns ds,
    )

    insert-Descends :
        (x : F) (xs : List F)
        → number x
        → All number xs
        → Descends xs
        → Descends (insert_greater x xs)
    unfolding insert_greater
    insert-Descends x [] nx ns d = (tt, tt)
    insert-Descends x (y ∷ ys) nx (ny, ns) (dy, ds) = elim (Bool-cases (fl.lt y x)) [
      | inl e ↦ rw e (not_lt_over x y (y ∷ ys) nx ny e (ny, ns) (lt_irrefl y ny, dy), (dy, ds))
      | inr e ↦ rw e (All-insert (λ z. fl.lt y z ≡ false) x ys e dy, insert-Descends x ys nx ns ds)
    ]

    sort-Descends : (xs : List F) → All number xs → Descends (sort_greater xs)
    unfolding sort_greater
    sort-Descends [] ns = tt
    sort-Descends (x ∷ xs) (nx, ns) =
        insert-Descends x (sort_greater xs) nx (All-sort number xs ns) (sort-Descends xs ns)

    pub count_greater_sorted :
        (xs : List F) (k : ℕ) (t : F)
        → All number xs
        → get_elem? (sort_greater xs) k ≡ some t
        → count_greater t xs ≤ k
    count_greater_sorted xs k t ns e =
        let nt = get_elem?-All number (sort_greater xs) k t (All-sort number xs ns) e in
        rw (← count-sort t xs)
          (count_descending k t (sort_greater xs) (lt_irrefl t nt) (sort-Descends xs ns) e)
