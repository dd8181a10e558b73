-- ===== src/Tokenizer/State/Vocabulary.antt =====
-- The tokenizer that `for_model` makes of a vocabulary.
use zinfer_lm.Base.{
  ℕ, zero, suc, ◌+◌, ◌<◌, ◌≤◌, ◌≡◌, ◌⊎◌, inl, inr, refl, sym, ap, ◌∙◌, Bool-cases, Option, none,
  some, List, [], ◌∷◌, ◌++◌, map, length, take, drop, take-append-drop, get_elem?, concat, arith,
  ok, find, bytes_eq, nat_eq, bytes_beq, bytes_beq_iff, ◌==◌,
}
use mathlib.Core.Path.{subst}
use zinfer_lm.Gguf.Loader.{TokenizerInfo}
use zinfer_lm.Tokenizer.ByteMap.{build_byte_to_unicode_map, spell_byte}
use zinfer_lm.Tokenizer.ByteMap.Inverse.{AreBytes, to_chars}
use zinfer_lm.Tokenizer.Trie.{SpecialTokenTrie, build_from_tokens, match_token}
use zinfer_lm.Tokenizer.Trie.Laws.{lookup, last_special, build_from_tokens-lookup}
use zinfer_lm.Tokenizer.Trie.Longest.{IsLongest, match_token-IsLongest}
use zinfer_lm.Tokenizer.Merge.{rank, build_merges_map}
use zinfer_lm.Tokenizer.Pretokenize.{Anchored, IsNonempty}
use zinfer_lm.Tokenizer.State.{
  Tokenizer, TokenIds, Patterns, get_pretokenizer_regex, build_token_id_map, for_model, token_of,
  tokenize, decode,
}
use zinfer_lm.Tokenizer.State.RoundTrip.{tokenize-decode}
use zinfer_lm.Tokenizer.State.Ready.{InVocabulary, IsSpecial, IsReady}
use zinfer_lm.Tokenizer.State.Ids.{Mapped, loop-Mapped}

-- The id of a special token is its place in the list.
last_special_at :
    (v : List ℕ) (ts : List (List ℕ)) (i : ℕ) (types : List ℕ) (best : Option ℕ) (id : ℕ)
    → last_special v ts i types best ≡ some id
    → (best ≡ some id) ⊎ ((j : ℕ) × (id ≡ i + j) × (get_elem? ts j ≡ some v))
last_special_at v [] i types best id e = inl e
last_special_at v (t ∷ ts) i [] best id e = inl e
last_special_at v (t ∷ ts) i (ty ∷ types) best id e =
    elim (last_special_at v ts (i + 1) types _ id e) [
      | inr (j, p, q) ↦ inr (suc j, omega arith, q)
      | inl chosen ↦ elim (Bool-cases (ty == 1)) [
        | inl normal ↦ inl (rw normal at chosen)
        | inr special ↦ elim (Bool-cases (bytes_beq t v)) [
          | inl same ↦
              let here : some i ≡ some id = rw (special, same) at chosen in
              let number : i ≡ id = cc here in
              inr (0, omega arith, ap some ((bytes_beq_iff t v).0 same))
          | inr other ↦ inl (rw (special, other) at chosen)
        ]
      ]
    ]

abbrev pub Listed : TokenizerInfo → List ℕ → Type 0
Listed info s = (j : ℕ) × (get_elem? info.tokens j ≡ some s)

-- A vocabulary that has a type for each token, the spelling of every byte, the pair that each merge
-- rule joins, and special tokens that are plain text; its pattern matches wherever it looks.
pub record IsVocabulary (p : Patterns) (info : TokenizerInfo) : Type 0 where
  pub types : length info.tokens ≤ length info.token_type
  pub anchored : Anchored (get_pretokenizer_regex p info.pre)
  pub plain :
      (v : List ℕ) (id : ℕ)
      → last_special v info.tokens 0 info.token_type none ≡ some id
      → to_chars v ≡ v
  pub byte_listed : (b : ℕ) → b < 256 → Listed info (spell_byte build_byte_to_unicode_map b)
  pub merge_listed :
      (a b : List ℕ) (r : ℕ)
      → rank (build_merges_map info.merges) a b ≡ some r
      → Listed info (a ++ b)

IsNonempty-take : (n : ℕ) (text : List ℕ) → 0 < n → n ≤ length text → IsNonempty (take n text)
IsNonempty-take zero text h l = absurd (omega arith)
IsNonempty-take (suc n) [] h l = absurd (omega arith)
IsNonempty-take (suc n) (c ∷ cs) h l = tt

module _ (p : Patterns) (info : TokenizerInfo) (v : IsVocabulary p info) where
  abbrev maps : TokenIds × List (ℕ × List ℕ)
  maps = build_token_id_map info.tokens

  mapped : Mapped info.tokens 0 [] [] maps
  unfolding build_token_id_map find
  mapped = loop-Mapped info.tokens 0 [] [] (λ s k e. absurd (cc e)) (λ s k e. absurd (cc e))

  abbrev made : SpecialTokenTrie → Tokenizer
  made trie = record {
    info = info;
    re = get_pretokenizer_regex p info.pre;
    merges = build_merges_map info.merges;
    bytes = build_byte_to_unicode_map;
    token_to_id = maps.0;
    id_to_token = maps.1;
    trie = trie;
  }

  Listed-known : (trie : SpecialTokenTrie) (s : List ℕ) → Listed info s → InVocabulary (made trie) s
  Listed-known trie s (j, e) = mapped.listed j s e

  made-IsSpecial :
      (trie : SpecialTokenTrie) (text : List ℕ) (id : ℕ)
      → build_from_tokens info.tokens info.token_type ≡ ok trie
      → match_token trie.root text ≡ some id
      → IsSpecial (made trie) text (token_of (made trie) id)
  unfolding token_of
  made-IsSpecial trie text id built e =
      let (n, pos, le, hit, beyond) =
        subst (IsLongest trie.root text) e (match_token-IsLongest trie.root text) in
      let s = take n text in
      let (trie', built', looked) =
        build_from_tokens-lookup s info.tokens info.token_type v.types in
      let same : trie' ≡ trie = cc (built, built') in
      let last : last_special s info.tokens 0 info.token_type none ≡ some id =
        sym looked ∙ ap (λ t. lookup t.root s) same ∙ hit in
      elim (last_special_at s info.tokens 0 info.token_type none id last) [
        | inl nothing ↦ absurd (cc nothing)
        | inr (j, index, place) ↦
            let at_id : find id maps.1 ≡ some s = rw index (mapped.placed j s place) in
            rw (at_id, token_of)
              (
                drop n text,
                sym (take-append-drop n text),
                IsNonempty-take n text pos le,
                mapped.listed j s place,
                v.plain s id last,
              )
      ]

  made-IsReady :
      (trie : SpecialTokenTrie)
      → build_from_tokens info.tokens info.token_type ≡ ok trie
      → IsReady (made trie)
  made-IsReady trie built = record {
    maps = refl;
    anchored = v.anchored;
    inverse = λ s i e. mapped.inverse s i e;
    special = λ text id e. made-IsSpecial trie text id built e;
    byte_known = λ b h. Listed-known trie _ (v.byte_listed b h);
    merge_known = λ a b r h. Listed-known trie _ (v.merge_listed a b r h);
  }

  -- Of such a vocabulary `for_model` makes a tokenizer that is ready: on every text `tokenize` returns
  -- ids, without an error and without a change, and the decoded ids one behind the other are the text.
  pub for_model-tokenize :
      (text : List ℕ)
      → AreBytes text
      → (t : Tokenizer) × (ids : List ℕ) × (for_model p info ≡ ok t)
        × (tokenize t text ≡ ok (ids, t))
        × (concat (map (decode t) ids) ≡ text)
  unfolding for_model
  for_model-tokenize text h =
      let (trie, built, looked) = build_from_tokens-lookup [] info.tokens info.token_type v.types in
      let (ids, e, q) = tokenize-decode (made trie) (made-IsReady trie built) text h in
      (made trie, ids, rw built refl, e, q)
