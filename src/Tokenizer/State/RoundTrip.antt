-- ===== src/Tokenizer/State/RoundTrip.antt =====
-- Decoding the ids that `tokenize` returns gives the text back.
use zinfer_lm.Base.{
  ℕ, zero, suc, ◌<◌, ◌≡◌, refl, sym, ap, ◌∙◌, none, some, Option-cases, inl, inr, List, [], ◌∷◌,
  ◌++◌, append_assoc, append-nil, map, All, All-append, concat, arith, length, length-append, drop,
  drop-append, Result, ok, ◌>>=◌, find, bytes_eq, nat_eq,
}
use mathlib.Core.Path.{subst, ap₂}
use zinfer_lm.Tokenizer.ByteMap.Inverse.{AreBytes, to_chars}
use zinfer_lm.Tokenizer.Trie.{match_token}
use zinfer_lm.Tokenizer.Pretokenize.{IsNonempty}
use zinfer_lm.Tokenizer.State.{
  Tokenizer, token_of, bpe, special_loop, final_tokens, lookup_ids, tokenize, decode,
}
use zinfer_lm.Tokenizer.State.Ready.{
  InVocabulary, IsSpecial, IsReady, Reads, Reads-append, AreBytes-split, bpe-Reads,
}

AreBytes-append : (xs ys : List ℕ) → AreBytes xs → AreBytes ys → AreBytes (xs ++ ys)
AreBytes-append = All-append λ b. b < 256

-- `final` has grown by tokens that read as `text`.
abbrev Grows : Tokenizer → List ℕ → List (List ℕ) → Result (List (List ℕ)) → Type 0
Grows t text final r = (new : List (List ℕ)) × (r ≡ ok (final ++ new)) × Reads t text new

length-nonempty : (s : List ℕ) → IsNonempty s → 0 < length s
length-nonempty [] h = absurd h
length-nonempty (c ∷ cs) h = omega arith

joined :
    (final new more : List (List ℕ)) (s : List ℕ)
    → ((final ++ new) ++ s ∷ []) ++ more ≡ final ++ (new ++ (s ∷ more))
joined final new more s = simp append_assoc

module _ (t : Tokenizer) (ready : IsReady t) where
  special-Reads : (text s : List ℕ) → IsSpecial t text s → Reads t s (s ∷ [])
  special-Reads text s (rest, e, full, known, plain) = (rw plain (append-nil s), (known, tt))

  -- The round that meets a special token, given what the later rounds do.
  special-Grows :
      (text pretext s : List ℕ) (final : List (List ℕ))
      (loop : List ℕ → List (List ℕ) → Result (List (List ℕ)))
      → AreBytes pretext
      → IsSpecial t text s
      → ((rest : List ℕ) (final' : List (List ℕ))
          → text ≡ s ++ rest
          → Grows t rest final' (loop rest final'))
      → Grows t
          (pretext ++ text)
          final
          (bpe t pretext final >>= λ final'. loop (drop (length s) text) (final' ++ s ∷ []))
  special-Grows text pretext s final loop hp special later =
      let (new, e, reads) = bpe-Reads t ready pretext final hp in
      let (rest, split, _, _, _) = special in
      let (more, e', reads') = later rest ((final ++ new) ++ s ∷ []) split in
      (
        new ++ (s ∷ more),
        rw (e, split, drop-append s rest {n = length s} refl)
            (e' ∙ ap ok (joined final new more s)),
        rw split (
            Reads-append t pretext (s ++ rest) new (s ∷ more) reads
              (Reads-append t s rest (s ∷ []) more (special-Reads text s special) reads')),
      )

  loop_none :
      (f c : ℕ) (rest pretext : List ℕ) (final : List (List ℕ))
      → match_token t.trie.root (c ∷ rest) ≡ none
      → special_loop (suc f) t (c ∷ rest) pretext final
        ≡ special_loop f t rest (pretext ++ c ∷ []) final
  unfolding special_loop
  loop_none f c rest [] final e = rw (e, special_loop)
  loop_none f c rest (p ∷ ps) final e = rw (e, special_loop)

  loop_some :
      (f c : ℕ) (rest pretext : List ℕ) (final : List (List ℕ)) (id : ℕ)
      → match_token t.trie.root (c ∷ rest) ≡ some id
      → special_loop (suc f) t (c ∷ rest) pretext final ≡ (
          bpe t pretext final >>= λ final'.
          special_loop f t
            (drop (length (token_of t id)) (c ∷ rest))
            []
            (final' ++ token_of t id ∷ []))
  unfolding special_loop
  loop_some f c rest [] final id e = rw (e, special_loop)
  loop_some f c rest (p ∷ ps) final id e = rw (e, special_loop)

  shorter :
      (text s rest : List ℕ) (f : ℕ)
      → IsSpecial t text s
      → text ≡ s ++ rest
      → length text < suc f
      → length rest < f
  shorter text s rest f (_, _, full, _, _) split l =
      omega (arith, ap length split, length-append s rest, length-nonempty s full)

  special_loop-Grows :
      (f : ℕ) (rest pretext : List ℕ) (final : List (List ℕ))
      → length rest < f
      → AreBytes pretext
      → AreBytes rest
      → Grows t (pretext ++ rest) final (special_loop f t rest pretext final)
  special_loop-Grows zero rest pretext final l hp hr = elim l [ ]
  special_loop-Grows (suc f) [] [] final l hp hr =
      unfold special_loop in ([], ap ok (sym (append-nil final)), (refl, tt))
  special_loop-Grows (suc f) [] (c ∷ cs) final l hp hr =
      unfold special_loop in rw (append-nil (c ∷ cs)) (bpe-Reads t ready (c ∷ cs) final hp)
  special_loop-Grows (suc f) (c ∷ rest) pretext final l hp hr =
      elim (Option-cases (match_token t.trie.root (c ∷ rest))) [
        | inl e ↦
            let (new, e', reads) =
              special_loop-Grows f rest (pretext ++ c ∷ []) final (omega arith)
                (AreBytes-append pretext (c ∷ []) hp (hr.0, tt)) hr.1 in
            (
              new,
              loop_none f c rest pretext final e ∙ e',
              (reads.0 ∙ append_assoc pretext (c ∷ []) rest, reads.1),
            )
        | inr (id, e) ↦ rw (loop_some f c rest pretext final id e) (
            special-Grows (c ∷ rest) pretext (token_of t id) final
              (λ rest' final'. special_loop f t rest' [] final') hp (ready.special (c ∷ rest) id e)
              (λ rest' final' split.
                special_loop-Grows f rest' [] final'
                  (shorter (c ∷ rest) (token_of t id) rest' f (ready.special (c ∷ rest) id e) split
                    (omega arith))
                  tt (AreBytes-split (token_of t id) rest' (subst AreBytes split hr)).1))
      ]

  final_tokens-Reads :
      (text : List ℕ)
      → AreBytes text
      → (new : List (List ℕ)) × (final_tokens t text ≡ ok new) × Reads t text new
  unfolding final_tokens
  final_tokens-Reads text h = special_loop-Grows (suc (length text)) text [] [] (omega arith) tt h

  decode-token : (s : List ℕ) (i : ℕ) → find s t.token_to_id ≡ some i → decode t i ≡ to_chars s
  unfolding decode
  decode-token s i e = rw (ready.inverse s i e, decode, ready.maps)

  -- The ids of tokens of the vocabulary decode to what the tokens read as, and the map stays.
  lookup_ids-decode :
      (ss : List (List ℕ))
      → All (InVocabulary t) ss
      → (ids : List ℕ) × (lookup_ids ss t.token_to_id ≡ (ids, t.token_to_id))
        × (map (decode t) ids ≡ map to_chars ss)
  unfolding lookup_ids
  lookup_ids-decode [] h = ([], refl, refl)
  lookup_ids-decode (s ∷ ss) ((i, e), h) =
      let (ids, e', p) = lookup_ids-decode ss h in
      (i ∷ ids, rw (e, lookup_ids, e'), ap₂ ◌∷◌ (decode-token s i e) p)

  -- On every text `tokenize` returns ids, without an error and without a change of the tokenizer, and
  -- the decoded ids one behind the other are the text, byte for byte. The tokenizer has to be ready:
  -- its byte maps are the built ones, its pattern matches wherever it looks and never the empty
  -- string, the id of a token leads back to the token, a special token that `match` reports is one
  -- that the text begins with and that decodes to itself, and the vocabulary holds the spelling of
  -- every byte, the special tokens and every pair that a merge rule joins.
  pub tokenize-decode :
      (text : List ℕ)
      → AreBytes text
      → (ids : List ℕ) × (tokenize t text ≡ ok (ids, t)) × (concat (map (decode t) ids) ≡ text)
  unfolding tokenize
  tokenize-decode text h =
      let (new, e, reads) = final_tokens-Reads text h in
      let (ids, e', p) = lookup_ids-decode new reads.1 in (ids, rw (e, e'), ap concat p ∙ reads.0)
