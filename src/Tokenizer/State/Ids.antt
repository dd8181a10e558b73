-- ===== src/Tokenizer/State/Ids.antt =====
-- The maps between tokens and ids that `build_token_id_map_` makes.
use zinfer_lm.Base.{
  ℕ, zero, suc, ◌+◌, ◌<◌, ◌≡◌, ◌⊎◌, inl, inr, refl, ◌∙◌, Bool-cases, some, List, [], ◌∷◌, get_elem?,
  arith, find, assign, find-assign, bytes_eq, nat_eq, bytes_beq, bytes_beq_iff, ==_iff,
}
use mathlib.Core.Path.{subst}
use zinfer_lm.Tokenizer.State.{TokenIds, token_id_loop}

abbrev pub Inverse : TokenIds → List (ℕ × List ℕ) → Type 0
Inverse ids tokens = (s : List ℕ) (k : ℕ) → find s ids ≡ some k → find k tokens ≡ some s

abbrev pub Below : TokenIds → ℕ → Type 0
Below ids i = (s : List ℕ) (k : ℕ) → find s ids ≡ some k → k < i

assigned-Inverse :
    (t : List ℕ) (i : ℕ) (ids : TokenIds) (tokens : List (ℕ × List ℕ))
    → Below ids i
    → Inverse ids tokens
    → Inverse (assign t i ids) (assign i t tokens)
assigned-Inverse t i ids tokens below inverse s k e = grind (
  arith,
  find-assign t s i ids,
  find-assign i k t tokens,
  inverse s k,
  below s k,
  bytes_beq_iff t s,
  ==_iff i k,
)

assigned-Below :
    (t : List ℕ) (i : ℕ) (ids : TokenIds) → Below ids i → Below (assign t i ids) (i + 1)
assigned-Below t i ids below s k e = grind (arith, find-assign t s i ids, below s k)

-- Every token of the list has an id afterwards, and what had one still has one.
abbrev pub Knows : List ℕ → TokenIds → Type 0
Knows s ids = (k : ℕ) × (find s ids ≡ some k)

assigned-Knows :
    (t s : List ℕ) (i : ℕ) (ids : TokenIds) → (t ≡ s) ⊎ Knows s ids → Knows s (assign t i ids)
assigned-Knows t s i ids h = elim (Bool-cases (bytes_beq t s)) [
  | inl e ↦ (i, find-assign t s i ids ∙ rw e refl)
  | inr e ↦ elim h [
    | inl same ↦ absurd (cc (e, (bytes_beq_iff t s).1 same))
    | inr (k, known) ↦ (k, find-assign t s i ids ∙ rw e known)
  ]
]

-- What the loop has made of the tokens that are left.
pub record Mapped (ts : List (List ℕ)) (i : ℕ) (ids : TokenIds) (tokens : List (ℕ × List ℕ))
    (r : TokenIds × List (ℕ × List ℕ)) : Type 0 where
  pub inverse : Inverse r.0 r.1
  pub kept : (s : List ℕ) → Knows s ids → Knows s r.0
  pub listed : (j : ℕ) (s : List ℕ) → get_elem? ts j ≡ some s → Knows s r.0
  pub old : (k : ℕ) → k < i → find k r.1 ≡ find k tokens
  pub placed : (j : ℕ) (s : List ℕ) → get_elem? ts j ≡ some s → find (i + j) r.1 ≡ some s

pub loop-Mapped :
    (ts : List (List ℕ)) (i : ℕ) (ids : TokenIds) (tokens : List (ℕ × List ℕ))
    → Below ids i
    → Inverse ids tokens
    → Mapped ts i ids tokens (token_id_loop ts i (ids, tokens))
unfolding token_id_loop
loop-Mapped [] i ids tokens below inverse = record {
  inverse = inverse;
  kept = λ s h. h;
  listed = λ j s e. absurd (cc e);
  old = λ k l. refl;
  placed = λ j s e. absurd (cc e);
}
loop-Mapped (t ∷ ts) i ids tokens below inverse =
    let rest =
      loop-Mapped ts (i + 1) (assign t i ids) (assign i t tokens) (assigned-Below t i ids below)
        (assigned-Inverse t i ids tokens below inverse) in
    record {
      inverse = rest.inverse;
      kept = λ s h. rest.kept s (assigned-Knows t s i ids (inr h));
      listed = listed_first t ts _ (rest.kept t (assigned-Knows t t i ids (inl refl))) rest.listed;
      old = λ k l. rest.old k (omega arith) ∙ grind (arith, find-assign i k t tokens, ==_iff i k);
      placed =
          placed_first t ts i _
            (rest.old i (omega arith) ∙ grind (arith, find-assign i i t tokens, ==_iff i i))
            rest.placed;
    }
  where
    listed_first :
        (t : List ℕ) (ts : List (List ℕ)) (r : TokenIds)
        → Knows t r
        → ((j : ℕ) (s : List ℕ) → get_elem? ts j ≡ some s → Knows s r)
        → (j : ℕ) (s : List ℕ) → get_elem? (t ∷ ts) j ≡ some s
        → Knows s r
    listed_first t ts r h later zero s e = subst (λ s. Knows s r) (cc e) h
    listed_first t ts r h later (suc j) s e = later j s e

    placed_first :
        (t : List ℕ) (ts : List (List ℕ)) (i : ℕ) (r : List (ℕ × List ℕ))
        → find i r ≡ some t
        → ((j : ℕ) (s : List ℕ) → get_elem? ts j ≡ some s → find (i + 1 + j) r ≡ some s)
        → (j : ℕ) (s : List ℕ) → get_elem? (t ∷ ts) j ≡ some s
        → find (i + j) r ≡ some s
    placed_first t ts i r h later zero s e = let here : i + 0 ≡ i = omega arith in rw here (h ∙ e)
    placed_first t ts i r h later (suc j) s e =
        let place : i + suc j ≡ i + 1 + j = omega arith in rw place (later j s e)
