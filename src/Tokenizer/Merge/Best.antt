-- ===== src/Tokenizer/Merge/Best.antt =====
-- `rank_pairs` and `std::min_element` together pick the leftmost of the pairs of least rank.
use mathlib.Core.Path.{subst}
use zinfer_lm.Base.{
  ℕ, zero, suc, ◌+◌, ◌≤◌, ◌<◌, ◌≡◌, refl, sym, ap, ◌⊎◌, inl, inr, Option, none, some, Option-cases,
  Bool, true, false, Bool-cases, List, [], ◌∷◌, All, ltb, if◌then◌else◌, arith,
}
use zinfer_lm.Tokenizer.Merge.{Merges, rank, rank_pairs, min_pair}

-- The rank of the tokens `n` and `n + 1` as a pair, if there are two and they have one.
abbrev pub rank_at : Merges → ℕ → List (List ℕ) → Option ℕ
rank_at m n [] = none
rank_at m n (a ∷ []) = none
rank_at m zero (a ∷ b ∷ ts) = rank m a b
rank_at m (suc n) (a ∷ b ∷ ts) = rank_at m n (b ∷ ts)

abbrev In : ℕ × ℕ → List (ℕ × ℕ) → Type 0
In p [] = ⊥
In p (q ∷ qs) = (p ≡ q) ⊎ In p qs

All-In : (P : ℕ × ℕ → Type 0) (p : ℕ × ℕ) (qs : List (ℕ × ℕ)) → All P qs → In p qs → P p
All-In P p [] h i = absurd i
All-In P p (q ∷ qs) h (inl e) = rw e h.0
All-In P p (q ∷ qs) h (inr i) = All-In P p qs h.1 i

rank_pairs_complete :
    (m : Merges) (i n j s : ℕ) (ts : List (List ℕ))
    → j ≡ i + n
    → rank_at m n ts ≡ some s
    → In (j, s) (rank_pairs m i ts)
unfolding rank_pairs
rank_pairs_complete m i n j s [] e h = absurd (cc)
rank_pairs_complete m i n j s (a ∷ []) e h = absurd (cc)
rank_pairs_complete m i zero j s (a ∷ b ∷ ts) e h =
    rw (h, rank_pairs) (inl (ap (λ k. (k, s)) (omega arith)))
rank_pairs_complete m i (suc n) j s (a ∷ b ∷ ts) e h =
    let rest = rank_pairs_complete m (i + 1) n j s (b ∷ ts) (omega arith) h in
    elim (Option-cases (rank m a b)) [
      | inl miss ↦ rw (miss, rank_pairs) rest
      | inr (r, hit) ↦ rw (hit, rank_pairs) (inr rest)
    ]

-- A pair of the list stands for the tokens at its index, and the indices grow.
abbrev Sound : Merges → ℕ → List (List ℕ) → ℕ × ℕ → Type 0
Sound m i ts q = (n : ℕ) × (q.0 ≡ i + n) × (rank_at m n ts ≡ some q.1)

Sound-suc :
    (m : Merges) (i : ℕ) (a b : List ℕ) (ts : List (List ℕ)) (qs : List (ℕ × ℕ))
    → All (Sound m (i + 1) (b ∷ ts)) qs
    → All (Sound m i (a ∷ b ∷ ts)) qs
Sound-suc m i a b ts [] h = tt
Sound-suc m i a b ts (q ∷ qs) ((n, e, p), h) = ((suc n, omega arith, p), Sound-suc m i a b ts qs h)

rank_pairs-Sound :
    (m : Merges) (i : ℕ) (ts : List (List ℕ)) → All (Sound m i ts) (rank_pairs m i ts)
unfolding rank_pairs
rank_pairs-Sound m i [] = tt
rank_pairs-Sound m i (a ∷ []) = tt
rank_pairs-Sound m i (a ∷ b ∷ ts) =
    let rest = Sound-suc m i a b ts _ (rank_pairs-Sound m (i + 1) (b ∷ ts)) in
    elim (Option-cases (rank m a b)) [
      | inl miss ↦ rw (miss, rank_pairs) rest
      | inr (r, hit) ↦ rw (hit, rank_pairs) ((zero, omega arith, hit), rest)
    ]

abbrev Ascends : ℕ → List (ℕ × ℕ) → Type 0
Ascends i [] = Unit {0}
Ascends i (q ∷ qs) = (i ≤ q.0) × Ascends (suc q.0) qs

Ascends-mono : (i j : ℕ) (qs : List (ℕ × ℕ)) → i ≤ j → Ascends j qs → Ascends i qs
Ascends-mono i j [] h a = tt
Ascends-mono i j (q ∷ qs) h a = (omega arith, a.1)

rank_pairs-Ascends : (m : Merges) (i : ℕ) (ts : List (List ℕ)) → Ascends i (rank_pairs m i ts)
unfolding rank_pairs
rank_pairs-Ascends m i [] = tt
rank_pairs-Ascends m i (a ∷ []) = tt
rank_pairs-Ascends m i (a ∷ b ∷ ts) =
    let rest = rank_pairs-Ascends m (i + 1) (b ∷ ts) in
    elim (Option-cases (rank m a b)) [
      | inl miss ↦ rw (miss, rank_pairs) (Ascends-mono i (i + 1) _ (omega arith) rest)
      | inr (r, hit) ↦
          rw (hit, rank_pairs) (omega arith, Ascends-mono (suc i) (i + 1) _ (omega arith) rest)
    ]

-- Of less rank, or of the same rank and not further right.
abbrev pub Before : ℕ × ℕ → ℕ × ℕ → Type 0
Before p q = (p.1 < q.1) ⊎ ((p.1 ≡ q.1) × (p.0 ≤ q.0))

Before-trans : (p q r : ℕ × ℕ) → Before p q → Before q r → Before p r
Before-trans p q r (inl h) (inl k) = inl (omega arith)
Before-trans p q r (inl h) (inr k) = inl (omega arith)
Before-trans p q r (inr h) (inl k) = inl (omega arith)
Before-trans p q r (inr h) (inr k) = inr (omega arith, omega arith)

not_less-Before : (p q : ℕ × ℕ) → p.0 < q.0 → ltb q.1 p.1 ≡ false → Before p q
not_less-Before p q h e = ground arith

min_pair-cons :
    (p q : ℕ × ℕ) (qs : List (ℕ × ℕ)) (b : Bool)
    → ltb q.1 p.1 ≡ b
    → min_pair p (q ∷ qs) ≡ min_pair (if b then q else p) qs
unfolding min_pair
min_pair-cons p q qs b e = rw (e, min_pair)

min_pair-Before :
    (p : ℕ × ℕ) (qs : List (ℕ × ℕ))
    → Ascends (suc p.0) qs
    → Before (min_pair p qs) p × All (Before (min_pair p qs)) qs
min_pair-Before p [] a = unfold min_pair in (inr (refl, omega arith), tt)
min_pair-Before p (q ∷ qs) a = elim (Bool-cases (ltb q.1 p.1)) [
  | inl less ↦
      let (head, tail) = min_pair-Before q qs a.1 in
      subst (λ r. Before r p × (Before r q × All (Before r) qs))
        (sym (min_pair-cons p q qs true less))
        (Before-trans (min_pair q qs) q p head (inl (ground arith)), (head, tail))
  | inr not_less ↦
      let (head, tail) =
        min_pair-Before p qs (Ascends-mono (suc p.0) (suc q.0) qs (omega arith) a.1) in
      subst (λ r. Before r p × (Before r q × All (Before r) qs))
        (sym (min_pair-cons p q qs false not_less))
        (head, (Before-trans (min_pair p qs) p q head (not_less-Before p q a.0 not_less), tail))
]

min_pair-All :
    (P : ℕ × ℕ → Type 0) (p : ℕ × ℕ) (qs : List (ℕ × ℕ)) → P p → All P qs → P (min_pair p qs)
unfolding min_pair
min_pair-All P p [] h hs = h
min_pair-All P p (q ∷ qs) h hs = elim (Bool-cases (ltb q.1 p.1)) [
  | inl e ↦ rw (e, min_pair) (min_pair-All P q qs hs.0 hs.1)
  | inr e ↦ rw (e, min_pair) (min_pair-All P p qs h hs.1)
]

-- The tokens `i` and `i + 1` have the rank `r`, and every other pair with a rank comes after.
pub record IsBest (m : Merges) (ts : List (List ℕ)) (i r : ℕ) : Type 0 where
  pub ranked : rank_at m i ts ≡ some r
  pub least : (n s : ℕ) → rank_at m n ts ≡ some s → Before (i, r) (n, s)

pub min_pair-IsBest :
    (m : Merges) (ts : List (List ℕ)) (p : ℕ × ℕ) (ps : List (ℕ × ℕ))
    → rank_pairs m 0 ts ≡ p ∷ ps
    → IsBest m ts (min_pair p ps).0 (min_pair p ps).1
min_pair-IsBest m ts p ps e =
    let sound : All (Sound m 0 ts) (p ∷ ps) =
      subst (All (Sound m 0 ts)) e (rank_pairs-Sound m 0 ts) in
    let ascends : Ascends 0 (p ∷ ps) = subst (Ascends 0) e (rank_pairs-Ascends m 0 ts) in
    let (n, at, ranked) = min_pair-All (Sound m 0 ts) p ps sound.0 sound.1 in
    let before = min_pair-Before p ps ascends.1 in
    let at_n : (min_pair p ps).0 ≡ n = omega arith in
    record {
      ranked = rw at_n ranked;
      least = λ k s h.
          All-In (Before (min_pair p ps)) (k, s) (p ∷ ps) before
            (subst (In (k, s)) e (rank_pairs_complete m 0 k k s ts (omega arith) h));
    }

pub rank_pairs-none :
    (m : Merges) (ts : List (List ℕ)) (n : ℕ) → rank_pairs m 0 ts ≡ [] → rank_at m n ts ≡ none
rank_pairs-none m ts n e = elim (Option-cases (rank_at m n ts)) [
  | inl h ↦ h
  | inr (s, h) ↦ absurd (rw e at (rank_pairs_complete m 0 n n s ts (omega arith) h))
]
