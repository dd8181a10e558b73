-- ===== src/Examples/Models.antt =====
-- A vocabulary of 258 tokens, as a model file lists it: the bytes, the merged token `he` and the
-- special token `<s>`.
use zinfer_lm.Base.{
  ℕ, zero, suc, ◌+◌, ◌≡◌, refl, inl, inr, true, Bool-cases, none, some, List, [], ◌∷◌, ◌++◌, map,
  replicate, get_elem?, concat, arith, ok, find, assign, bytes_eq, bytes_beq, bytes_beq_iff, codes,
  if◌then◌else◌,
}
use mathlib.Core.Path.{subst}
use zinfer_lm.Gguf.Loader.{TokenizerInfo}
use zinfer_lm.Tokenizer.ByteMap.{
  spell_byte, build_byte_to_unicode_map, unicode_to_chars, piece_to_chars, utf8_len,
}
use zinfer_lm.Tokenizer.ByteMap.Inverse.{all_below, all_below_sound, to_chars}
use zinfer_lm.Tokenizer.Trie.Laws.{last_special}
use zinfer_lm.Tokenizer.Merge.{Merges, merges_loop, rank, build_merges_map}
use zinfer_lm.Tokenizer.State.{
  Tokenizer, Patterns, for_model, tokenize, decode, get_pretokenizer_regex,
}
use zinfer_lm.Tokenizer.State.Vocabulary.{IsVocabulary, Listed, for_model-tokenize}
use zinfer_lm.Examples.Vocabulary.{
  special_text, one_byte, one_byte-Anchored, joins, is_entry, is_entry_lem,
}

abbrev spellings : ℕ → ℕ → List (List ℕ)
spellings zero i = []
spellings (suc n) i = spell_byte build_byte_to_unicode_map i ∷ spellings n (i + 1)

abbrev listed_tokens : List (List ℕ)
listed_tokens = spellings 256 0 ++ codes "he" ∷ special_text ∷ []

abbrev listed_info : TokenizerInfo
listed_info = record {
  model = codes "gpt2";
  pre = codes "qwen2";
  tokens = listed_tokens;
  merges = codes "h e" ∷ [];
  token_type = replicate 257 1 ++ 3 ∷ [];
  bos_token_id = 257;
  eos_token_id = 257;
  padding_token_id = 257;
  add_bos_token = 0;
  template_str = [];
}

abbrev patterns : Patterns
patterns = record { qwen2 = one_byte; llama_bpe = one_byte; empty = one_byte }

bytes_listed :
    all_below 256
      (λ b. is_entry (get_elem? listed_tokens b) (spell_byte build_byte_to_unicode_map b))
    ≡ true
unfolding all_below spell_byte build_byte_to_unicode_map find
bytes_listed = refl

only_special :
    (v : List ℕ)
    → last_special v listed_tokens 0 listed_info.token_type none
      ≡ (if bytes_beq special_text v then some 257 else none)
only_special v = refl

special_plain : to_chars special_text ≡ special_text
unfolding find unicode_to_chars build_byte_to_unicode_map piece_to_chars utf8_len
special_plain = refl

plain :
    (v : List ℕ) (id : ℕ)
    → last_special v listed_tokens 0 listed_info.token_type none ≡ some id
    → to_chars v ≡ v
plain v id e = elim (Bool-cases (bytes_beq special_text v)) [
  | inl h ↦ subst (λ w. to_chars w ≡ w) ((bytes_beq_iff special_text v).0 h) special_plain
  | inr h ↦ let nothing : none ≡ some id = rw (only_special v, h) at e in absurd (cc nothing)
]

abbrev rules : Merges
rules = (codes "h e", 0) ∷ []

built_rules : build_merges_map (codes "h e" ∷ []) ≡ rules
unfolding build_merges_map merges_loop assign
built_rules = refl

rule-Listed : (a b : List ℕ) (r : ℕ) → rank rules a b ≡ some r → Listed listed_info (a ++ b)
unfolding rank find
rule-Listed a b r e =
    let p =
      joins b'h' b'e' b' ' a b (omega arith) (omega arith)
        (ground (arith, bytes_beq_iff (codes "h e") (a ++ b' ' ∷ b))) in
    subst (Listed listed_info) p (256, refl)

merge-Listed :
    (a b : List ℕ) (r : ℕ)
    → rank (build_merges_map (codes "h e" ∷ [])) a b ≡ some r
    → Listed listed_info (a ++ b)
merge-Listed a b r e = rule-Listed a b r (rw built_rules at e)

listed_info-IsVocabulary : IsVocabulary patterns listed_info
unfolding get_pretokenizer_regex
listed_info-IsVocabulary = record {
  types = omega arith;
  anchored = one_byte-Anchored;
  plain = plain;
  byte_listed = λ b h. (
    b,
    is_entry_lem _ _ (
        all_below_sound 256
          (λ b. is_entry (get_elem? listed_tokens b) (spell_byte build_byte_to_unicode_map b)) b
          bytes_listed h),
  );
  merge_listed = merge-Listed;
}

for_model-tokenize_example :
    (t : Tokenizer) × (ids : List ℕ) × (for_model patterns listed_info ≡ ok t)
    × (tokenize t (codes "he<s>") ≡ ok (ids, t))
    × (concat (map (decode t) ids) ≡ codes "he<s>")
for_model-tokenize_example =
    for_model-tokenize patterns listed_info listed_info-IsVocabulary (codes "he<s>")
      (omega arith, (omega arith, (omega arith, (omega arith, (omega arith, tt)))))
