-- ===== src/Tokenizer/Trie.antt =====
-- The trie of special tokens, src/tokenizer/special_token_vocab.cpp, and `token_type` and
-- `trie_node_t` of tokenizer_impl.h.
pub mod Laws
pub mod Longest
use zinfer_lm.Base.{
  ℕ, ◌+◌, Option, none, some, List, [], ◌∷◌, ◌==◌, if◌then◌else◌, Result, ok, err, wild,
}

-- The values of `token_type`.
pub data TokenType : Type 0 where
  undefined normal unknown control user_defined unused byte : TokenType

unfoldable pub token_type_value : TokenType → ℕ
token_type_value undefined = 0
token_type_value normal = 1
token_type_value unknown = 2
token_type_value control = 3
token_type_value user_defined = 4
token_type_value unused = 5
token_type_value byte = 6

-- `trie_node_t`: the token id, `none` for -1, and the children by their byte. A null child, which
-- `operator[]` leaves behind when it is asked for a byte that is not there, counts as no child in
-- every place that looks, and is not kept.
mutual
  pub data Trie : Type 0 where
    node : Option ℕ → Kids → Trie

  pub data Kids : Type 0 where
    nil : Kids
    child : ℕ → Trie → Kids → Kids

unfoldable pub empty_node : Trie
empty_node = node none nil

unfoldable pub kid : ℕ → Kids → Option Trie
kid c nil = none
kid c (child d t ks) = if d == c then some t else kid c ks

-- `auto &child = next[c]`, made where it is missing, and changed by `f`.
unfoldable pub change_kid : ℕ → (Trie → Trie) → Kids → Kids
unfolding empty_node
change_kid c f nil = child c (f empty_node) nil
change_kid c f (child d t ks) = if d == c then child d (f t) ks else child d t (change_kid c f ks)

-- The walk along one token, and `current->token_id = i` at its end.
unfoldable pub put_token : List ℕ → ℕ → Trie → Trie
put_token [] i (node t ks) = node (some i) ks
put_token (c ∷ cs) i (node t ks) = node t (change_kid c (λ u. put_token cs i u) ks)

-- `SpecialTokenTrie`.
pub record SpecialTokenTrie : Type 0 where
  pub root : Trie
  pub size : ℕ

-- One round of the loop over the tokens, for a token of the type `ty`.
unfoldable pub build_step : List ℕ → ℕ → ℕ → SpecialTokenTrie → SpecialTokenTrie
unfolding token_type_value
build_step tok i ty t =
    if ty == token_type_value normal
    then t
    else record { root = put_token tok i t.root; size = t.size + 1 }

-- The loop from index `i` on. Reading `token_types[i]` past its end is `wild`.
unfoldable pub build_loop : List (List ℕ) → ℕ → List ℕ → SpecialTokenTrie → Result SpecialTokenTrie
build_loop [] i types t = ok t
build_loop (tok ∷ toks) i [] t = err wild
build_loop (tok ∷ toks) i (ty ∷ types) t = build_loop toks (i + 1) types (build_step tok i ty t)

unfoldable pub build_from_tokens : List (List ℕ) → List ℕ → Result SpecialTokenTrie
unfolding empty_node
build_from_tokens tokens types = build_loop tokens 0 types (record { root = empty_node; size = 0 })

unfoldable pub token_id : Trie → Option ℕ
token_id (node t ks) = t

unfoldable pub kids : Trie → Kids
kids (node t ks) = ks

-- The loop of `match` over the bytes from `i` to `end`, with the last token id that it has met.
unfoldable pub match_loop : List ℕ → Trie → Option ℕ → Option ℕ
unfolding token_id kids
match_loop [] t best = best
match_loop (c ∷ cs) t best = elim (kid c (kids t)) [
  | none ↦ best
  | some u ↦ match_loop cs u (elim (token_id u) [ none ↦ best | some i ↦ some i ])
]

-- `match`, on the text from `start` on.
unfoldable pub match_token : Trie → List ℕ → Option ℕ
unfolding match_loop
match_token root text = match_loop text root none
