-- ===== src/Examples/Vocabulary.antt =====
-- A tokenizer of 258 tokens: the bytes, the merged token `he` and the special token `<s>`.
use zinfer_lm.Base.{
  ℕ, ◌+◌, ◌≡◌, ◌≢◌, refl, sym, ap, ◌∙◌, take-append-drop, Bool, true, false, ◌&&◌, Option, none,
  some, List, [], ◌∷◌, ◌++◌, arith, find, bytes_eq, nat_eq, bytes_beq, bytes_beq_iff, codes, take,
  drop,
}
use mathlib.Core.Path.{subst}
use zinfer_lm.Gguf.Loader.{TokenizerInfo}
use zinfer_lm.Tokenizer.ByteMap.{
  spell_byte, build_byte_to_unicode_map, unicode_to_chars, piece_to_chars, utf8_len,
}
use zinfer_lm.Tokenizer.ByteMap.Inverse.{all_below, all_below_sound}
use zinfer_lm.Tokenizer.Trie.{put_token, empty_node, match_token}
use zinfer_lm.Tokenizer.Trie.Laws.{lookup, lookup-put_token, lookup-empty_node}
use zinfer_lm.Tokenizer.Trie.Longest.{match_token-IsLongest, IsLongest}
use zinfer_lm.Tokenizer.Merge.{Merges, rank}
use zinfer_lm.Tokenizer.Pretokenize.{Matcher, found, Anchored}
use zinfer_lm.Tokenizer.State.{Tokenizer, TokenIds, token_of}
use zinfer_lm.Tokenizer.State.Ready.{IsReady, IsSpecial, InVocabulary}

abbrev pub special_text : List ℕ
special_text = codes "<s>"

-- A pattern that takes one byte at a time.
abbrev pub one_byte : Matcher
one_byte text start = found start (start + 1)

pub one_byte-Anchored : Anchored one_byte
one_byte-Anchored text start h = (refl, omega arith, omega arith)

abbrev merges : Merges
merges = (codes "h e", 0) ∷ []

abbrev ids : TokenIds
ids = (codes "he", 256) ∷ (special_text, 257) ∷ build_byte_to_unicode_map.to_byte

abbrev tokens : List (ℕ × List ℕ)
tokens = (256, codes "he") ∷ (257, special_text) ∷ build_byte_to_unicode_map.to_unicode

abbrev pub sample_info : TokenizerInfo
sample_info = record {
  model = codes "gpt2";
  pre = codes "qwen2";
  tokens = [];
  merges = codes "h e" ∷ [];
  token_type = [];
  bos_token_id = 257;
  eos_token_id = 257;
  padding_token_id = 257;
  add_bos_token = 0;
  template_str = [];
}

abbrev pub sample : Tokenizer
sample = record {
  info = sample_info;
  re = one_byte;
  merges = merges;
  bytes = build_byte_to_unicode_map;
  token_to_id = ids;
  id_to_token = tokens;
  trie = record { root = put_token special_text 257 empty_node; size = 1 };
}

abbrev pub is_entry : Option (List ℕ) → List ℕ → Bool
is_entry none s = false
is_entry (some u) s = bytes_beq u s

pub is_entry_lem : (o : Option (List ℕ)) (s : List ℕ) → is_entry o s ≡ true → o ≡ some s
is_entry_lem none s h = absurd (cc)
is_entry_lem (some u) s h = ap some ((bytes_beq_iff u s).0 h)

-- Every id of the list leads back to its string.
all_back : List (ℕ × List ℕ) → TokenIds → Bool
all_back m [] = true
all_back m ((s, i) ∷ xs) = is_entry (find i m) s && all_back m xs

all_back-find :
    (m : List (ℕ × List ℕ)) (xs : TokenIds) (s : List ℕ) (i : ℕ)
    → all_back m xs ≡ true
    → find s xs ≡ some i
    → find i m ≡ some s
unfolding all_back find
all_back-find m [] s i h e = absurd (cc)
all_back-find m ((u, j) ∷ xs) s i h e =
    ground (arith, bytes_beq_iff u s, is_entry_lem (find j m) u, all_back-find m xs s i)

sample_back : all_back tokens ids ≡ true
unfolding all_back find build_byte_to_unicode_map
sample_back = refl

is_some : Option ℕ → Bool
is_some none = false
is_some (some i) = true

is_some_lem : (o : Option ℕ) → is_some o ≡ true → (i : ℕ) × (o ≡ some i)
unfolding is_some
is_some_lem none h = absurd (cc)
is_some_lem (some i) h = (i, refl)

sample_bytes :
    all_below 256 (λ b. is_some (find (spell_byte build_byte_to_unicode_map b) ids)) ≡ true
unfolding all_below is_some find build_byte_to_unicode_map spell_byte
sample_bytes = refl

special_lookup :
    (w : List ℕ) (id : ℕ) → lookup sample.trie.root w ≡ some id → (w ≡ special_text) × (id ≡ 257)
special_lookup w id e = grind (
  arith,
  lookup-put_token special_text w 257 empty_node,
  lookup-empty_node w,
  bytes_beq_iff special_text w,
)

IsSpecial-known :
    (text rest : List ℕ) → text ≡ special_text ++ rest → IsSpecial sample text (token_of sample 257)
unfolding token_of find unicode_to_chars build_byte_to_unicode_map piece_to_chars utf8_len
IsSpecial-known text rest e = (rest, e, tt, (257, refl), refl)

sample-IsSpecial :
    (text : List ℕ) (id : ℕ)
    → match_token sample.trie.root text ≡ some id
    → IsSpecial sample text (token_of sample id)
sample-IsSpecial text id e =
    let (n, pos, le, hit, beyond) =
      subst (IsLongest sample.trie.root text) e (match_token-IsLongest sample.trie.root text) in
    let (whole, number) = special_lookup (take n text) id hit in
    rw number (
      IsSpecial-known text (drop n text)
        (sym (take-append-drop n text) ∙ ap (λ w. w ++ drop n text) whole))

pub joins :
    (p q space : ℕ) (a b : List ℕ)
    → p ≢ space
    → q ≢ space
    → p ∷ space ∷ q ∷ [] ≡ a ++ space ∷ b
    → p ∷ q ∷ [] ≡ a ++ b
joins p q space [] b np nq e = absurd (np (cc))
joins p q space (x ∷ []) b np nq e = cc
joins p q space (x ∷ y ∷ []) b np nq e = absurd (nq (cc))
joins p q space (x ∷ y ∷ z ∷ ws) b np nq e = nonempty p q space x y z ws b e
  where
    nonempty :
        (p q space x y z : ℕ) (ws b : List ℕ)
        → p ∷ space ∷ q ∷ [] ≡ x ∷ y ∷ z ∷ (ws ++ space ∷ b)
        → p ∷ q ∷ [] ≡ x ∷ y ∷ z ∷ (ws ++ b)
    nonempty p q space x y z [] b e = absurd (cc)
    nonempty p q space x y z (w ∷ ws) b e = absurd (cc)

merge_known : (a b : List ℕ) (r : ℕ) → rank merges a b ≡ some r → InVocabulary sample (a ++ b)
unfolding rank find
merge_known a b r e =
    let p =
      joins b'h' b'e' b' ' a b (omega arith) (omega arith)
        (ground (arith, bytes_beq_iff (codes "h e") (a ++ b' ' ∷ b))) in
    subst (InVocabulary sample) p (256, unfold find in refl)

pub sample-IsReady : IsReady sample
unfolding find
sample-IsReady = record {
  maps = refl;
  anchored = one_byte-Anchored;
  inverse = λ s i e. all_back-find tokens ids s i sample_back e;
  special = sample-IsSpecial;
  byte_known = λ b h. is_some_lem _ (
      all_below_sound 256 (λ b. is_some (find (spell_byte build_byte_to_unicode_map b) ids)) b
        sample_bytes h);
  merge_known = merge_known;
}
