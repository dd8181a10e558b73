-- ===== src/Examples/Texts.antt =====
-- The tokenizer's theorems on a text of a word, a character of two bytes and a special token.
use zinfer_lm.Base.{
  Bool, refl, find, bytes_eq, nat_eq, ◌+◌, ℕ, ◌≡◌, List, [], ◌∷◌, ◌++◌, map, All, concat, ok, codes,
  arith, none,
}
use zinfer_lm.Tokenizer.ByteMap.{build_byte_to_unicode_map, spell_byte}
use zinfer_lm.Tokenizer.ByteMap.Inverse.{AreBytes}
use zinfer_lm.Tokenizer.Trie.{
  SpecialTokenTrie, build_from_tokens, match_token, match_loop, token_id, kids, kid, put_token,
  change_kid, empty_node,
}
use zinfer_lm.Tokenizer.Trie.Laws.{lookup, last_special, build_from_tokens-lookup}
use zinfer_lm.Tokenizer.Trie.Longest.{IsLongest, match_token-IsLongest}
use zinfer_lm.Tokenizer.Merge.{Merges, split_and_merge, merge_loop, rank_pairs, rank}
use zinfer_lm.Tokenizer.Merge.Greedy.{Merged, split_and_merge-Merged}
use zinfer_lm.Tokenizer.Pretokenize.{pretokenize, pretokenize_loop, substr, IsNonempty}
use zinfer_lm.Tokenizer.Pretokenize.Cover.{pretokenize-Covers}
use zinfer_lm.Tokenizer.State.{
  tokenize, decode, final_tokens, special_loop, bpe, bpe_loop, lookup_ids,
}
use zinfer_lm.Tokenizer.State.RoundTrip.{tokenize-decode}
use zinfer_lm.Server.{Json, streamed}
use zinfer_lm.Server.Trace.{token_messages, Ends, streamed-invoke}
use zinfer_lm.Cli.Printing.{yellow, PrintsEnd, printed, printed-invoke}
use zinfer_lm.Inference.{Run, Dispatched, tokenizer_started, tokenizer_completed, invoke_with}
use zinfer_lm.Inference.Trace.{texts, numbered, prefill_events, Stops, invoke-trace}
use zinfer_lm.Examples.Vocabulary.{
  sample, sample-IsReady, special_text, one_byte, one_byte-Anchored,
}

-- "he", U+00E9 and "<s>".
abbrev greeting : List ℕ
greeting = codes "he" ++ (0xc3 ∷ 0xa9 ∷ special_text)

greeting-AreBytes : AreBytes greeting
greeting-AreBytes = (
  omega arith,
  (omega arith, (omega arith, (omega arith, (omega arith, (omega arith, (omega arith, tt)))))),
)

tokenize-decode_example :
    (ids : List ℕ) × (tokenize sample greeting ≡ ok (ids, sample))
    × (concat (map (decode sample) ids) ≡ greeting)
tokenize-decode_example = tokenize-decode sample sample-IsReady greeting greeting-AreBytes

abbrev two_rules : Merges
two_rules = (codes "l l", 0) ∷ (codes "e ll", 1) ∷ []

split_and_merge-Merged_example :
    (us : List (List ℕ)) × (split_and_merge build_byte_to_unicode_map two_rules (codes "ell")
      ≡ ok us)
    × Merged two_rules (map (spell_byte build_byte_to_unicode_map) (codes "ell")) us
    × ((vs : List (List ℕ))
        → Merged two_rules (map (spell_byte build_byte_to_unicode_map) (codes "ell")) vs
        → us ≡ vs)
split_and_merge-Merged_example =
    split_and_merge-Merged build_byte_to_unicode_map two_rules b'e' (codes "ll")

match_token-IsLongest_example :
    IsLongest sample.trie.root (codes "<s>he") (match_token sample.trie.root (codes "<s>he"))
match_token-IsLongest_example = match_token-IsLongest sample.trie.root (codes "<s>he")

build_from_tokens-lookup_example :
    (t : SpecialTokenTrie) × (build_from_tokens (codes "a" ∷ special_text ∷ []) (1 ∷ 3 ∷ []) ≡ ok t)
    × (lookup t.root special_text
        ≡ last_special special_text (codes "a" ∷ special_text ∷ []) 0 (1 ∷ 3 ∷ []) none)
build_from_tokens-lookup_example =
    build_from_tokens-lookup special_text (codes "a" ∷ special_text ∷ []) (1 ∷ 3 ∷ []) (omega arith)

pretokenize-Covers_example :
    (chunks : List (List ℕ)) × (pretokenize one_byte greeting ≡ ok chunks)
    × (concat chunks ≡ greeting)
    × All IsNonempty chunks
pretokenize-Covers_example = pretokenize-Covers one_byte greeting one_byte-Anchored

-- A model that answers the byte behind the last token's.
abbrev next_byte : List ℕ → ℕ → ℕ
next_byte [] past = 0
next_byte (id ∷ ids) past = id + 1

ab_tokens : tokenize sample (codes "ab") ≡ ok (97 ∷ 98 ∷ [], sample)
unfolding tokenize final_tokens special_loop bpe bpe_loop pretokenize pretokenize_loop substr
    match_token match_loop token_id kids kid put_token change_kid empty_node split_and_merge
    spell_byte build_byte_to_unicode_map merge_loop rank_pairs rank lookup_ids find
ab_tokens = refl

invoke-trace_example :
    (r : Run) × (k : ℕ) × (last : Dispatched) × (invoke_with next_byte sample (codes "ab") 3 ≡ ok r)
    × (r.output ≡ concat (texts next_byte sample k (97 ∷ 98 ∷ []) 0))
    × (r.dispatched
        ≡ tokenizer_started 2
          ∷ tokenizer_completed 2
          ∷ (prefill_events next_byte sample 3 (97 ∷ 98 ∷ [])
              ++ (numbered 0 (texts next_byte sample k (97 ∷ 98 ∷ []) 0) ++ last ∷ [])))
    × Stops next_byte sample 3 0 k (97 ∷ 98 ∷ []) 0 last
invoke-trace_example =
    invoke-trace next_byte sample sample (codes "ab") (97 ∷ 98 ∷ []) 3 ab_tokens (omega arith)

streamed-invoke_example :
    (r : Run) × (k : ℕ) × (m : Json × Bool) × (invoke_with next_byte sample (codes "ab") 3 ≡ ok r)
    × (streamed r.dispatched ≡ token_messages (texts next_byte sample k (97 ∷ 98 ∷ []) 0) ++ m ∷ [])
    × Ends next_byte sample 3 k (97 ∷ 98 ∷ []) m
    × (r.output ≡ concat (texts next_byte sample k (97 ∷ 98 ∷ []) 0))
streamed-invoke_example =
    streamed-invoke next_byte sample sample (codes "ab") (97 ∷ 98 ∷ []) 3 ab_tokens (omega arith)

printed-invoke_example :
    (r : Run) × (k : ℕ) × (ending : List ℕ) × (invoke_with next_byte sample (codes "ab") 3 ≡ ok r)
    × (printed r.dispatched
        ≡ concat (map (λ x. yellow ++ x) (texts next_byte sample k (97 ∷ 98 ∷ []) 0)) ++ ending)
    × PrintsEnd next_byte sample 3 k (97 ∷ 98 ∷ []) ending
    × (r.output ≡ concat (texts next_byte sample k (97 ∷ 98 ∷ []) 0))
printed-invoke_example =
    printed-invoke next_byte sample sample (codes "ab") (97 ∷ 98 ∷ []) 3 ab_tokens (omega arith)
