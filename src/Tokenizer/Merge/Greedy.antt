-- ===== src/Tokenizer/Merge/Greedy.antt =====
-- The loop of `split_and_merge_` against the rules of byte pair encoding.
use mathlib.Core.Path.{subst}
use zinfer_lm.Base.{
  ℕ, zero, suc, ◌+◌, ◌≤◌, ◌<◌, ◌≡◌, refl, ◌⊎◌, inl, inr, none, some, List, [], ◌∷◌, map, length,
  length-map, ok, arith,
}
use zinfer_lm.Tokenizer.ByteMap.{Maps, spell_byte}
use zinfer_lm.Tokenizer.Merge.{Merges, rank_pairs, min_pair, merge_at, merge_loop, split_and_merge}
use zinfer_lm.Tokenizer.Merge.Best.{rank_at, IsBest, min_pair-IsBest, rank_pairs-none}

-- Byte pair encoding by its rules: merge the leftmost of the pairs of least rank, again and again,
-- and stop when no pair has a rank.
pub data Merged (m : Merges) : List (List ℕ) → List (List ℕ) → Type 0 where
  done : (ts : List (List ℕ)) → ((n : ℕ) → rank_at m n ts ≡ none) → Merged m ts ts
  merge :
      {ts us : List (List ℕ)} (i r : ℕ)
      → IsBest m ts i r
      → Merged m (merge_at i ts) us
      → Merged m ts us

length-merge_at :
    (m : Merges) (i r : ℕ) (ts : List (List ℕ))
    → rank_at m i ts ≡ some r
    → length (merge_at i ts) + 1 ≡ length ts
unfolding merge_at
length-merge_at m i r [] h = absurd (cc)
length-merge_at m i r (a ∷ []) h = absurd (cc)
length-merge_at m zero r (a ∷ b ∷ ts) h = omega arith
length-merge_at m (suc i) r (a ∷ b ∷ ts) h = omega (arith, length-merge_at m i r (b ∷ ts) h)

length_of_ranked :
    (m : Merges) (i r : ℕ) (ts : List (List ℕ)) → rank_at m i ts ≡ some r → 2 ≤ length ts
length_of_ranked m i r [] h = absurd (cc)
length_of_ranked m i r (a ∷ []) h = absurd (cc)
length_of_ranked m i r (a ∷ b ∷ ts) h = omega arith

pairs-cases : (ps : List (ℕ × ℕ)) → (ps ≡ []) ⊎ ((p : ℕ × ℕ) × (qs : List (ℕ × ℕ)) × (ps ≡ p ∷ qs))
pairs-cases [] = inl refl
pairs-cases (p ∷ qs) = inr (p, qs, refl)

merge_loop-Merged :
    (f : ℕ) (m : Merges) (ts : List (List ℕ))
    → 0 < f
    → length ts ≤ f
    → (us : List (List ℕ)) × (merge_loop f m ts ≡ ok us) × Merged m ts us
unfolding merge_loop
merge_loop-Merged zero m ts h l = absurd (omega arith)
merge_loop-Merged (suc f) m ts h l = elim (pairs-cases (rank_pairs m 0 ts)) [
  | inl e ↦ (ts, rw (e, merge_loop) refl, done ts (λ n. rank_pairs-none m ts n e))
  | inr (p, ps, e) ↦
      let best = min_pair-IsBest m ts p ps e in
      let shorter = length-merge_at m (min_pair p ps).0 _ ts best.ranked in
      let two = length_of_ranked m (min_pair p ps).0 _ ts best.ranked in
      let (us, e', merged) =
        merge_loop-Merged f m (merge_at (min_pair p ps).0 ts) (omega arith) (omega arith) in
      (us, rw (e, merge_loop) e', merge (min_pair p ps).0 (min_pair p ps).1 best merged)
]

best_unique :
    (m : Merges) (ts : List (List ℕ)) (i r j s : ℕ) → IsBest m ts i r → IsBest m ts j s → i ≡ j
best_unique m ts i r j s p q = grind (arith, p.least j s q.ranked, q.least i r p.ranked)

-- The rules leave no choice: from the same tokens they lead to one result only.
Merged-unique : (m : Merges) {ts us vs : List (List ℕ)} → Merged m ts us → Merged m ts vs → us ≡ vs
Merged-unique m (done ts h) (done _ k) = refl
Merged-unique m (done ts h) (merge i r best rest) = absurd (cc (h i, best.ranked))
Merged-unique m (merge i r best rest) (done ts k) = absurd (cc (k i, best.ranked))
Merged-unique m (merge {ts = ts} {us = us} i r best rest) (merge {us = vs} j s best' rest') =
    Merged-unique m rest
      (subst (λ k. Merged m (merge_at k ts) vs) (best_unique m ts j s i r best' best) rest')

-- On every chunk of at least one byte the loop ends with tokens, and they are what byte pair encoding
-- makes of the spelled bytes: each step merges the leftmost of the neighbouring pairs of least rank,
-- and at the end no two neighbours have a rank. No other tokens are.
pub split_and_merge-Merged :
    (b : Maps) (m : Merges) (c : ℕ) (cs : List ℕ)
    → (us : List (List ℕ)) × (split_and_merge b m (c ∷ cs) ≡ ok us)
      × Merged m (map (spell_byte b) (c ∷ cs)) us
      × ((vs : List (List ℕ)) → Merged m (map (spell_byte b) (c ∷ cs)) vs → us ≡ vs)
unfolding split_and_merge
split_and_merge-Merged b m c cs =
    let (us, e, merged) =
      merge_loop-Merged (suc (length cs)) m (map (spell_byte b) (c ∷ cs)) (omega arith)
        (omega (arith, length-map cs (spell_byte b))) in
    (us, e, merged, λ vs other. Merged-unique m merged other)
