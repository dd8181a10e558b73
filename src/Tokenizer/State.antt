-- ===== src/Tokenizer/State.antt =====
-- `TokenizerImpl` of src/tokenizer/tokenizer_impl.h and tokenizer_impl.cpp.
pub mod Ready
pub mod RoundTrip
pub mod Ids
pub mod Vocabulary
use zinfer_lm.Base.{
  ℕ, zero, suc, ◌+◌, Bool, true, false, none, some, List, [], ◌∷◌, ◌++◌, length, drop,
  if◌then◌else◌, Result, ok, err, stuck, ◌>>=◌, codes, find, assign, bytes_eq, nat_eq, bytes_beq,
}
use zinfer_lm.Gguf.Loader.{TokenizerInfo}
use zinfer_lm.Tokenizer.ByteMap.{Maps, build_byte_to_unicode_map, unicode_to_chars}
use zinfer_lm.Tokenizer.Trie.{SpecialTokenTrie, build_from_tokens, match_token}
use zinfer_lm.Tokenizer.Merge.{Merges, build_merges_map, split_and_merge}
use zinfer_lm.Tokenizer.Pretokenize.{Matcher, pretokenize}

abbrev pub TokenIds : Type 0
TokenIds = List (List ℕ × ℕ)

-- The fields that the operations use; `re` stands for the compiled pattern and its match data.
pub record Tokenizer : Type 0 where
  pub info : TokenizerInfo
  pub re : Matcher
  pub merges : Merges
  pub bytes : Maps
  pub token_to_id : TokenIds
  pub id_to_token : List (ℕ × List ℕ)
  pub trie : SpecialTokenTrie

-- `build_token_id_map_`, from index `i` on.
unfoldable pub token_id_loop :
    List (List ℕ) → ℕ → TokenIds × List (ℕ × List ℕ) → TokenIds × List (ℕ × List ℕ)
token_id_loop [] i (ids, tokens) = (ids, tokens)
token_id_loop (t ∷ ts) i (ids, tokens) =
    token_id_loop ts (i + 1) (assign t i ids, assign i t tokens)

unfoldable pub build_token_id_map : List (List ℕ) → TokenIds × List (ℕ × List ℕ)
unfolding token_id_loop
build_token_id_map tokens = token_id_loop tokens 0 ([], [])

-- `get_pretokenizer_regex` chooses a pattern by the model's `pre`; a pattern is what it is to PCRE2.
pub record Patterns : Type 0 where
  pub qwen2 : Matcher
  pub llama_bpe : Matcher
  pub empty : Matcher

unfoldable pub get_pretokenizer_regex : Patterns → List ℕ → Matcher
get_pretokenizer_regex p pre =
    if bytes_beq pre (codes "qwen2")
    then p.qwen2
    else if bytes_beq pre (codes "llama-bpe")
    then p.llama_bpe
    else p.empty

-- `TokenizerImpl::for_model`.
unfoldable pub for_model : Patterns → TokenizerInfo → Result Tokenizer
for_model p info = do
  trie ← build_from_tokens info.tokens info.token_type
  let maps = build_token_id_map info.tokens
  ok (record {
    info = info;
    re = get_pretokenizer_regex p info.pre;
    merges = build_merges_map info.merges;
    bytes = build_byte_to_unicode_map;
    token_to_id = maps.0;
    id_to_token = maps.1;
    trie = trie;
  })

-- The loop of `bpe_` over the chunks.
unfoldable pub bpe_loop : Tokenizer → List (List ℕ) → List (List ℕ) → Result (List (List ℕ))
bpe_loop t [] tokens = ok tokens
bpe_loop t (c ∷ cs) tokens = do
  new ← split_and_merge t.bytes t.merges c
  bpe_loop t cs (tokens ++ new)

-- `bpe_`, which adds to `tokens`.
unfoldable pub bpe : Tokenizer → List ℕ → List (List ℕ) → Result (List (List ℕ))
bpe t text tokens = do chunks ← pretokenize t.re text; bpe_loop t chunks tokens

-- `id_to_token_map_[id]`: the empty string where the id is missing. The entry that `operator[]`
-- leaves behind is seen by no operation, all of which take a missing id for the empty string.
unfoldable pub token_of : Tokenizer → ℕ → List ℕ
token_of t id = elim (find id t.id_to_token) [ none ↦ [] | some s ↦ s ]

-- The loop of `tokenize`. `rest` is the text from `start` on. A special token that takes no bytes
-- would repeat for ever: the fuel bounds the rounds.
unfoldable pub special_loop :
    ℕ → Tokenizer → List ℕ → List ℕ → List (List ℕ) → Result (List (List ℕ))
special_loop zero t rest pretext final = err stuck
special_loop (suc f) t [] [] final = ok final
special_loop (suc f) t [] (c ∷ cs) final = bpe t (c ∷ cs) final
special_loop (suc f) t (c ∷ rest) pretext final = elim (match_token t.trie.root (c ∷ rest)) [
  | none ↦ special_loop f t rest (pretext ++ c ∷ []) final
  | some id ↦ bpe t pretext final >>= λ final'.
      special_loop f t (drop (length (token_of t id)) (c ∷ rest)) [] (final' ++ token_of t id ∷ [])
]

unfoldable pub final_tokens : Tokenizer → List ℕ → Result (List (List ℕ))
final_tokens t text = special_loop (suc (length text)) t text [] []

-- `token_to_id_map_[s]` for each token in turn. A token that is missing gets the id 0, and
-- `operator[]` keeps it in the map.
unfoldable pub lookup_ids : List (List ℕ) → TokenIds → List ℕ × TokenIds
lookup_ids [] ids = ([], ids)
lookup_ids (s ∷ ss) ids = elim (find s ids) [
  | some id ↦ let (found, ids') = lookup_ids ss ids in (id ∷ found, ids')
  | none ↦ let (found, ids') = lookup_ids ss (assign s 0 ids) in (0 ∷ found, ids')
]

-- `tokenize`: the ids, and the tokenizer after it.
unfoldable pub tokenize : Tokenizer → List ℕ → Result (List ℕ × Tokenizer)
tokenize t text = do
  final ← final_tokens t text
  let ids = lookup_ids final t.token_to_id
  ok (ids.0, record t { token_to_id = ids.1 })

-- `decode`, and the loop of a client that decodes one id after the other.
unfoldable pub decode : Tokenizer → ℕ → List ℕ
decode t id = elim (find id t.id_to_token) [
  | none ↦ []
  | some s ↦ unicode_to_chars t.bytes.to_byte 0 s
]

-- The UTF-8 bytes of DeepSeek's token, whose bars are the wide ones of U+FF5C.
abbrev end_of_sentence : List ℕ
end_of_sentence =
    codes "<" ++ (0xef ∷ 0xbd ∷ 0x9c ∷ codes "end of sentence") ++ (0xef ∷ 0xbd ∷ 0x9c ∷ codes ">")

-- `stop_tokens_`, as the constructor fills it.
abbrev pub stop_tokens : List (List ℕ)
stop_tokens =
    codes "<|im_end|>"
    ∷ codes "<|endoftext|>"
    ∷ codes "<|eot_id|>"
    ∷ codes "<|end_of_text|>"
    ∷ codes "</s>"
    ∷ codes "[/INST]"
    ∷ codes "<end_of_turn>"
    ∷ codes "<eos>"
    ∷ end_of_sentence
    ∷ codes "<|end|>"
    ∷ codes "<|END_OF_TURN_TOKEN|>"
    ∷ []

unfoldable pub contains : List (List ℕ) → List ℕ → Bool
contains [] s = false
contains (x ∷ xs) s = if bytes_beq x s then true else contains xs s

-- `is_stop_token`.
unfoldable pub is_stop_token : Tokenizer → List ℕ → Bool
unfolding contains
is_stop_token t s =
    if contains stop_tokens s
    then elim (find s t.token_to_id) [ none ↦ false | some id ↦ true ]
    else false

-- `get_bos` and `get_eos`, which both read `bos_token_id`.
unfoldable pub get_bos : Tokenizer → List ℕ
unfolding token_of
get_bos t = token_of t t.info.bos_token_id

unfoldable pub get_eos : Tokenizer → List ℕ
unfolding token_of
get_eos t = token_of t t.info.bos_token_id
