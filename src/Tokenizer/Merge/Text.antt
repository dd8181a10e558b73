-- ===== src/Tokenizer/Merge/Text.antt =====
-- Merging moves the borders between tokens and nothing else.
use mathlib.Core.Path.{ap₂}
use zinfer_lm.Base.{
  ℕ, zero, suc, ◌≡◌, refl, sym, ap, ◌∙◌, some, List, [], ◌∷◌, ◌++◌, append-nil, append_assoc, map,
  All, concat,
}
use zinfer_lm.Tokenizer.ByteMap.{spell_byte, build_byte_to_unicode_map}
use zinfer_lm.Tokenizer.ByteMap.Inverse.{spell, spell-append}
use zinfer_lm.Tokenizer.Merge.{Merges, rank, merge_at}
use zinfer_lm.Tokenizer.Merge.Best.{rank_at}
use zinfer_lm.Tokenizer.Merge.Greedy.{Merged, done, merge}

concat-merge_at : (i : ℕ) (ts : List (List ℕ)) → concat (merge_at i ts) ≡ concat ts
unfolding merge_at
concat-merge_at i [] = refl
concat-merge_at i (a ∷ []) = refl
concat-merge_at zero (a ∷ b ∷ ts) = append_assoc a b (concat ts)
concat-merge_at (suc i) (a ∷ b ∷ ts) = ap (◌++◌ a) (concat-merge_at i (b ∷ ts))

merge_at-spell :
    (i : ℕ) (ts : List (List ℕ)) → merge_at i (map spell ts) ≡ map spell (merge_at i ts)
unfolding merge_at
merge_at-spell i [] = refl
merge_at-spell i (a ∷ []) = refl
merge_at-spell zero (a ∷ b ∷ ts) = ap (λ s. s ∷ map spell ts) (sym (spell-append a b))
merge_at-spell (suc i) (a ∷ b ∷ ts) = ap (◌∷◌ (spell a)) (merge_at-spell i (b ∷ ts))

-- The tokens are the spellings of consecutive parts of `text`.
abbrev pub Segments : List ℕ → List (List ℕ) → Type 0
Segments text us = (parts : List (List ℕ)) × (us ≡ map spell parts) × (concat parts ≡ text)

Merged-Segments :
    (m : Merges) {ts us : List (List ℕ)} (text : List ℕ)
    → Merged m ts us
    → Segments text ts
    → Segments text us
Merged-Segments m text (done ts h) s = s
Merged-Segments m text (merge {ts = ts} i r best rest) (parts, e, c) =
    Merged-Segments m text rest
      (merge_at i parts, ap (merge_at i) e ∙ merge_at-spell i parts, concat-merge_at i parts ∙ c)

spell-single : (c : ℕ) → spell (c ∷ []) ≡ spell_byte build_byte_to_unicode_map c
unfolding spell
spell-single c = append-nil (spell_byte build_byte_to_unicode_map c)

bytes-Segments : (cs : List ℕ) → Segments cs (map (spell_byte build_byte_to_unicode_map) cs)
bytes-Segments [] = ([], refl, refl)
bytes-Segments (c ∷ cs) =
    let (parts, e, p) = bytes-Segments cs in
    ((c ∷ []) ∷ parts, ap₂ ◌∷◌ (sym (spell-single c)) e, ap (◌∷◌ c) p)

pub Merged-bytes-Segments :
    (m : Merges) (cs : List ℕ) {us : List (List ℕ)}
    → Merged m (map (spell_byte build_byte_to_unicode_map) cs) us
    → Segments cs us
Merged-bytes-Segments m cs h = Merged-Segments m cs h (bytes-Segments cs)

-- What holds of the spelled bytes and of every ranked pair holds of every token.
module _ (P : List ℕ → Type 0) (m : Merges) where
  merge_at-All :
      (i r : ℕ) (ts : List (List ℕ))
      → ((a b : List ℕ) (r : ℕ) → rank m a b ≡ some r → P (a ++ b))
      → rank_at m i ts ≡ some r
      → All P ts
      → All P (merge_at i ts)
  unfolding merge_at
  merge_at-All i r [] close e h = tt
  merge_at-All i r (a ∷ []) close e h = h
  merge_at-All zero r (a ∷ b ∷ ts) close e (ha, (hb, h)) = (close a b r e, h)
  merge_at-All (suc i) r (a ∷ b ∷ ts) close e (ha, h) = (ha, merge_at-All i r (b ∷ ts) close e h)

  pub Merged-All :
      {ts us : List (List ℕ)}
      → ((a b : List ℕ) (r : ℕ) → rank m a b ≡ some r → P (a ++ b))
      → Merged m ts us
      → All P ts
      → All P us
  Merged-All close (done ts k) h = h
  Merged-All close (merge {ts = ts} i r best rest) h =
      Merged-All close rest (merge_at-All i r ts close best.ranked h)
