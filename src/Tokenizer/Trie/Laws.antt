-- ===== src/Tokenizer/Trie/Laws.antt =====
-- The trie as a dictionary from strings to token ids.
use zinfer_lm.Base.{
  ℕ, ◌+◌, ◌≤◌, ◌≡◌, refl, ap, ◌∙◌, inl, inr, Option, none, some, Option-cases, List, [], ◌∷◌, arith,
  ok, length, bytes_beq, ◌==◌, ==_iff, if◌then◌else◌,
}
use zinfer_lm.Tokenizer.Trie.{
  Trie, Kids, node, nil, child, empty_node, kid, change_kid, put_token, SpecialTokenTrie,
  build_step, build_loop, build_from_tokens, token_id, kids,
}

-- The token id at the end of a walk along `w`.
unfoldable pub lookup : Trie → List ℕ → Option ℕ
lookup t [] = token_id t
lookup t (c ∷ cs) = elim (kid c (kids t)) [ none ↦ none | some u ↦ lookup u cs ]

pub lookup-empty_node : (w : List ℕ) → lookup empty_node w ≡ none
unfolding lookup empty_node token_id kids kid
lookup-empty_node [] = refl
lookup-empty_node (c ∷ w) = refl

-- The child after a change.
kid-change_kid :
    (c d : ℕ) (f : Trie → Trie) (ks : Kids)
    → kid d (change_kid c f ks)
      ≡ (if c == d then some (elim (kid c ks) [ none ↦ f empty_node | some t ↦ f t ]) else kid d ks)
unfolding kid change_kid
kid-change_kid c d f nil = ground (arith, ==_iff c d)
kid-change_kid c d f (child e t ks) = ground (arith, kid-change_kid c d f ks)

pub lookup-put_token :
    (w v : List ℕ) (i : ℕ) (t : Trie)
    → lookup (put_token w i t) v ≡ (if bytes_beq w v then some i else lookup t v)
unfolding lookup put_token token_id kids
lookup-put_token [] [] i (node t ks) = refl
lookup-put_token [] (d ∷ v) i (node t ks) = refl
lookup-put_token (c ∷ w) [] i (node t ks) = refl
lookup-put_token (c ∷ w) (d ∷ v) i (node t ks) = elim (Option-cases (kid c ks)) [
  | inl missing ↦ ground (
    arith,
    kid-change_kid c d (λ u. put_token w i u) ks,
    ==_iff c d,
    lookup-put_token w v i empty_node,
    lookup-empty_node v,
  )
  | inr (u, found) ↦
      ground
        (arith, kid-change_kid c d (λ u. put_token w i u) ks, ==_iff c d, lookup-put_token w v i u)
]

-- The id of the last token that is spelled `v` and is not of the type `normal`; `best` if none is.
abbrev pub last_special : List ℕ → List (List ℕ) → ℕ → List ℕ → Option ℕ → Option ℕ
last_special v [] i types best = best
last_special v (tok ∷ toks) i [] best = best
last_special v (tok ∷ toks) i (ty ∷ types) best =
    last_special v toks (i + 1) types
      (if ty == 1 then best else if bytes_beq tok v then some i else best)

build_step-lookup :
    (v tok : List ℕ) (i ty : ℕ) (t : SpecialTokenTrie)
    → lookup (build_step tok i ty t).root v
      ≡ (if ty == 1 then lookup t.root v else if bytes_beq tok v then some i else lookup t.root v)
unfolding build_step
build_step-lookup v tok i ty t = ground (arith, lookup-put_token tok v i t.root)

build_loop-lookup :
    (v : List ℕ) (toks : List (List ℕ)) (i : ℕ) (types : List ℕ) (t : SpecialTokenTrie)
    → length toks ≤ length types
    → (t' : SpecialTokenTrie) × (build_loop toks i types t ≡ ok t')
      × (lookup t'.root v ≡ last_special v toks i types (lookup t.root v))
unfolding build_loop
build_loop-lookup v [] i types t h = (t, refl, refl)
build_loop-lookup v (tok ∷ toks) i [] t h = elim h [ ]
build_loop-lookup v (tok ∷ toks) i (ty ∷ types) t h =
    let (t', e, p) = build_loop-lookup v toks (i + 1) types (build_step tok i ty t) (omega arith) in
    (t', e, p ∙ ap (last_special v toks (i + 1) types) (build_step-lookup v tok i ty t))

-- With a type for each token the trie is built, and a walk along any string ends at the id of the
-- last token of that spelling that is not of the type `normal`, and at no id where there is none.
pub build_from_tokens-lookup :
    (v : List ℕ) (tokens : List (List ℕ)) (types : List ℕ)
    → length tokens ≤ length types
    → (t : SpecialTokenTrie) × (build_from_tokens tokens types ≡ ok t)
      × (lookup t.root v ≡ last_special v tokens 0 types none)
unfolding build_from_tokens
build_from_tokens-lookup v tokens types h =
    let (t, e, p) = build_loop-lookup v tokens 0 types (record { root = empty_node; size = 0 }) h in
    (t, e, p ∙ ap (last_special v tokens 0 types) (lookup-empty_node v))
