-- ===== src/Tokenizer/Trie/Longest.antt =====
-- `match` finds the longest special token that the text begins with.
use zinfer_lm.Base.{
  ℕ, zero, suc, ◌≤◌, ◌<◌, ◌≡◌, refl, ◌∙◌, inl, inr, Option, none, some, Option-cases, List, [], ◌∷◌,
  arith, length, take,
}
use zinfer_lm.Tokenizer.Trie.{Trie, token_id, kid, kids, match_loop, match_token}
use zinfer_lm.Tokenizer.Trie.Laws.{lookup}

-- No beginning of the text longer than `n` bytes is a token.
abbrev pub NoneBeyond : Trie → List ℕ → ℕ → Type 0
NoneBeyond t text n = (m : ℕ) → n < m → m ≤ length text → lookup t (take m text) ≡ none

-- The first `n` bytes of the text, at least one, are the token `i`, and no more bytes are a token.
abbrev pub IsLongest : Trie → List ℕ → Option ℕ → Type 0
IsLongest t text none = NoneBeyond t text 0
IsLongest t text (some i) =
    (n : ℕ) × (0 < n) × (n ≤ length text) × (lookup t (take n text) ≡ some i) × NoneBeyond t text n

-- The same of the loop, which has `best` to fall back on.
data Finds (t : Trie) (text : List ℕ) (best : Option ℕ) (r : Option ℕ) : Type 0 where
  falls_back : r ≡ best → NoneBeyond t text 0 → Finds t text best r
  finds :
      (i n : ℕ)
      → r ≡ some i
      → 0 < n
      → n ≤ length text
      → lookup t (take n text) ≡ some i
      → NoneBeyond t text n
      → Finds t text best r

module _ (t : Trie) (c : ℕ) (cs : List ℕ) where
  missing-NoneBeyond : kid c (kids t) ≡ none → NoneBeyond t (c ∷ cs) 0
  unfolding lookup
  missing-NoneBeyond e zero l h = elim l [ ]
  missing-NoneBeyond e (suc m) l h = rw (e, lookup)

  kid-NoneBeyond :
      (u : Trie) (n : ℕ)
      → kid c (kids t) ≡ some u
      → NoneBeyond u cs n
      → NoneBeyond t (c ∷ cs) (suc n)
  unfolding lookup
  kid-NoneBeyond u n e h zero l k = elim l [ ]
  kid-NoneBeyond u n e h (suc m) l k = rw (e, lookup) (h m (omega arith) (omega arith))

  -- A walk through the child `u` finds what a walk from `u` finds.
  kid-lookup :
      (u : Trie) (w : List ℕ) {o : Option ℕ}
      → kid c (kids t) ≡ some u
      → lookup u w ≡ o
      → lookup t (c ∷ w) ≡ o
  unfolding lookup
  kid-lookup u w e p = rw (e, lookup) p

  no_id-NoneBeyond :
      (u : Trie)
      → kid c (kids t) ≡ some u
      → token_id u ≡ none
      → NoneBeyond u cs 0
      → NoneBeyond t (c ∷ cs) 0
  no_id-NoneBeyond u e p h zero l k = elim l [ ]
  no_id-NoneBeyond u e p h (suc zero) l k = kid-lookup u [] e (unfold lookup in p)
  no_id-NoneBeyond u e p h (suc (suc m)) l k =
      kid-lookup u (take (suc m) cs) e (h (suc m) (omega arith) (omega arith))

  kid-Finds :
      (u : Trie) (best o r : Option ℕ)
      → kid c (kids t) ≡ some u
      → token_id u ≡ o
      → Finds u cs (elim o [ none ↦ best | some i ↦ some i ]) r
      → Finds t (c ∷ cs) best r
  kid-Finds u best none r e p (falls_back q h) = falls_back q (no_id-NoneBeyond u e p h)
  kid-Finds u best (some i) r e p (falls_back q h) =
      finds i 1 q (omega arith) (omega arith) (kid-lookup u [] e (unfold lookup in p))
        (kid-NoneBeyond u 0 e h)
  kid-Finds u best o r e p (finds i n q pos le found h) =
      finds i (suc n) q (omega arith) (omega arith) (kid-lookup u (take n cs) e found)
        (kid-NoneBeyond u n e h)

match_loop-Finds :
    (text : List ℕ) (t : Trie) (best : Option ℕ) → Finds t text best (match_loop text t best)
unfolding match_loop
match_loop-Finds [] t best = falls_back refl (λ m l h. absurd (omega arith))
match_loop-Finds (c ∷ cs) t best = elim (Option-cases (kid c (kids t))) [
  | inl e ↦ rw (e, match_loop) (falls_back refl (missing-NoneBeyond t c cs e))
  | inr (u, e) ↦
      rw (e, match_loop)
        (kid-Finds t c cs u best (token_id u) _ e refl
          (match_loop-Finds cs u (elim (token_id u) [ none ↦ best | some i ↦ some i ])))
]

Finds-IsLongest :
    (t : Trie) (text : List ℕ) (r : Option ℕ) → Finds t text none r → IsLongest t text r
Finds-IsLongest t text none (falls_back q h) = h
Finds-IsLongest t text (some i) (falls_back q h) = absurd (cc)
Finds-IsLongest t text none (finds i n q pos le found h) = absurd (cc)
Finds-IsLongest t text (some j) (finds i n q pos le found h) = (n, pos, le, found ∙ cc, h)

-- `match` answers a token exactly where the text begins with one, and then the longest one: the
-- answer is the id at the end of some beginning of the text, of one byte at least, and no longer
-- beginning is a token; without an answer no beginning of the text is a token.
pub match_token-IsLongest : (t : Trie) (text : List ℕ) → IsLongest t text (match_token t text)
unfolding match_token
match_token-IsLongest t text = Finds-IsLongest t text _ (match_loop-Finds text t none)
