-- ===== src/Tokenizer/Merge.antt =====
-- Byte pair merging: `build_merges_map_` and `split_and_merge_` of src/tokenizer/tokenizer_impl.cpp.
pub mod Best
pub mod Greedy
pub mod Text
use zinfer_lm.Base.{
  ℕ, zero, suc, ◌+◌, Option, none, some, List, [], ◌∷◌, ◌++◌, map, length, ltb, if◌then◌else◌,
  Result, ok, err, wild, stuck, find, assign, bytes_eq,
}
use zinfer_lm.Tokenizer.ByteMap.{Maps, spell_byte}

abbrev pub Merges : Type 0
Merges = List (List ℕ × ℕ)

-- `build_merges_map_`, from index `i` on.
unfoldable pub merges_loop : List (List ℕ) → ℕ → Merges → Merges
merges_loop [] i m = m
merges_loop (s ∷ ss) i m = merges_loop ss (i + 1) (assign s i m)

unfoldable pub build_merges_map : List (List ℕ) → Merges
unfolding merges_loop
build_merges_map merges = merges_loop merges 0 []

-- `merges_map_.find(tokens[i] + " " + tokens[i + 1])`.
unfoldable pub rank : Merges → List ℕ → List ℕ → Option ℕ
rank m a b = find (a ++ b' ' ∷ b) m

-- The loop that fills `rank_pairs`, from index `i` on.
unfoldable pub rank_pairs : Merges → ℕ → List (List ℕ) → List (ℕ × ℕ)
rank_pairs m i [] = []
rank_pairs m i (a ∷ []) = []
rank_pairs m i (a ∷ b ∷ ts) =
    let rest = rank_pairs m (i + 1) (b ∷ ts) in
    elim (rank m a b) [ none ↦ rest | some r ↦ (i, r) ∷ rest ]

-- `std::min_element` by rank: the first of the least.
unfoldable pub min_pair : ℕ × ℕ → List (ℕ × ℕ) → ℕ × ℕ
min_pair p [] = p
min_pair p (q ∷ qs) = min_pair (if ltb q.1 p.1 then q else p) qs

-- `tokens[i] += tokens[i + 1]`, and the erasure of `tokens[i + 1]`.
unfoldable pub merge_at : ℕ → List (List ℕ) → List (List ℕ)
merge_at i [] = []
merge_at i (a ∷ []) = a ∷ []
merge_at zero (a ∷ b ∷ ts) = (a ++ b) ∷ ts
merge_at (suc i) (a ∷ b ∷ ts) = a ∷ merge_at i (b ∷ ts)

-- The `while (true)` loop. Each round takes one token away, so as many rounds as tokens are enough.
unfoldable pub merge_loop : ℕ → Merges → List (List ℕ) → Result (List (List ℕ))
merge_loop zero m ts = err stuck
merge_loop (suc f) m ts = elim (rank_pairs m 0 ts) [
  | [] ↦ ok ts
  | p ∷ ps ↦ merge_loop f m (merge_at (min_pair p ps).0 ts)
]

-- `split_and_merge_`. On an empty chunk `tokens.size() - 1` wraps, and `tokens[0]` is `wild`.
unfoldable pub split_and_merge : Maps → Merges → List ℕ → Result (List (List ℕ))
split_and_merge b m [] = err wild
split_and_merge b m (c ∷ cs) = merge_loop (suc (length cs)) m (map (spell_byte b) (c ∷ cs))
