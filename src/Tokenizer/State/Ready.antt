-- ===== src/Tokenizer/State/Ready.antt =====
-- What `tokenize` relies on, and byte pair encoding of a piece of text under it.
use zinfer_lm.Base.{
  ℕ, ◌<◌, ◌≡◌, refl, sym, ap, ◌∙◌, some, List, [], ◌∷◌, ◌++◌, append_assoc, append-nil, map, All,
  All-append, concat, concat-append, ok, find, bytes_eq, nat_eq,
}
use mathlib.Core.List.{map-append}
use zinfer_lm.Tokenizer.ByteMap.{build_byte_to_unicode_map, spell_byte}
use zinfer_lm.Tokenizer.ByteMap.Inverse.{spell, AreBytes, to_chars, to_chars-spell}
use zinfer_lm.Tokenizer.Trie.{match_token}
use zinfer_lm.Tokenizer.Merge.{rank, split_and_merge}
use zinfer_lm.Tokenizer.Merge.Greedy.{split_and_merge-Merged}
use zinfer_lm.Tokenizer.Merge.Text.{Merged-bytes-Segments, Merged-All}
use zinfer_lm.Tokenizer.Pretokenize.{Anchored, IsNonempty}
use zinfer_lm.Tokenizer.Pretokenize.Cover.{pretokenize-Covers}
use zinfer_lm.Tokenizer.State.{Tokenizer, token_of, bpe_loop, bpe}

abbrev pub InVocabulary : Tokenizer → List ℕ → Type 0
InVocabulary t s = (i : ℕ) × (find s t.token_to_id ≡ some i)

-- A special token that the text begins with, as `match` reports it.
abbrev pub IsSpecial : Tokenizer → List ℕ → List ℕ → Type 0
IsSpecial t text s =
    (rest : List ℕ) × (text ≡ s ++ rest) × IsNonempty s × InVocabulary t s × (to_chars s ≡ s)

-- A tokenizer whose vocabulary is closed under what byte pair encoding does, and whose pattern
-- matches wherever it looks.
pub record IsReady (t : Tokenizer) : Type 0 where
  pub maps : t.bytes ≡ build_byte_to_unicode_map
  pub anchored : Anchored t.re
  pub inverse : (s : List ℕ) (i : ℕ) → find s t.token_to_id ≡ some i → find i t.id_to_token ≡ some s
  pub special :
      (text : List ℕ) (id : ℕ)
      → match_token t.trie.root text ≡ some id
      → IsSpecial t text (token_of t id)
  pub byte_known : (b : ℕ) → b < 256 → InVocabulary t (spell_byte build_byte_to_unicode_map b)
  pub merge_known : (a b : List ℕ) (r : ℕ) → rank t.merges a b ≡ some r → InVocabulary t (a ++ b)

-- The tokens read as the text, and the vocabulary has all of them.
abbrev pub Reads : Tokenizer → List ℕ → List (List ℕ) → Type 0
Reads t text new = (concat (map to_chars new) ≡ text) × All (InVocabulary t) new

pub Reads-append :
    (t : Tokenizer) (text more : List ℕ) (xs ys : List (List ℕ))
    → Reads t text xs
    → Reads t more ys
    → Reads t (text ++ more) (xs ++ ys)
Reads-append t text more xs ys (p, h) (q, k) = (
  rw (map-append to_chars xs, concat-append (map to_chars xs) (map to_chars ys), p, q),
  All-append (InVocabulary t) xs ys h k,
)

pub AreBytes-split : (xs ys : List ℕ) → AreBytes (xs ++ ys) → AreBytes xs × AreBytes ys
AreBytes-split [] ys h = (tt, h)
AreBytes-split (x ∷ xs) ys h = let (a, b) = AreBytes-split xs ys h.1 in ((h.0, a), b)

parts-read :
    (parts : List (List ℕ))
    → AreBytes (concat parts)
    → concat (map to_chars (map spell parts)) ≡ concat parts
parts-read [] h = refl
parts-read (p ∷ ps) h =
    let (a, b) = AreBytes-split p (concat ps) h in rw (to_chars-spell p a, parts-read ps b)

bytes-known :
    (t : Tokenizer)
    → IsReady t
    → (cs : List ℕ) → AreBytes cs
    → All (InVocabulary t) (map (spell_byte build_byte_to_unicode_map) cs)
bytes-known t r [] h = tt
bytes-known t r (c ∷ cs) h = (r.byte_known c h.0, bytes-known t r cs h.1)

module _ (t : Tokenizer) (r : IsReady t) where
  chunk-Reads :
      (chunk : List ℕ)
      → IsNonempty chunk
      → AreBytes chunk
      → (us : List (List ℕ)) × (split_and_merge t.bytes t.merges chunk ≡ ok us) × Reads t chunk us
  chunk-Reads [] full h = absurd full
  chunk-Reads (c ∷ cs) full h =
      let (us, e, merged, _) = split_and_merge-Merged build_byte_to_unicode_map t.merges c cs in
      let (parts, spelled, joined) = Merged-bytes-Segments t.merges (c ∷ cs) merged in
      let bytes : AreBytes (concat parts) = rw joined h in
      (
        us,
        rw r.maps e,
        (
          rw spelled (parts-read parts bytes ∙ joined),
          Merged-All (InVocabulary t) t.merges r.merge_known merged (bytes-known t r (c ∷ cs) h),
        ),
      )

  bpe_loop-Reads :
      (chunks tokens : List (List ℕ))
      → All IsNonempty chunks
      → AreBytes (concat chunks)
      → (new : List (List ℕ)) × (bpe_loop t chunks tokens ≡ ok (tokens ++ new))
        × Reads t (concat chunks) new
  unfolding bpe_loop
  bpe_loop-Reads [] tokens full h = ([], ap ok (sym (append-nil tokens)), (refl, tt))
  bpe_loop-Reads (c ∷ cs) tokens full h =
      let (a, b) = AreBytes-split c (concat cs) h in
      let (us, e, reads) = chunk-Reads c full.0 a in
      let (new, e', reads') = bpe_loop-Reads cs (tokens ++ us) full.1 b in
      (
        us ++ new,
        rw e (e' ∙ ap ok (append_assoc tokens us new)),
        Reads-append t c (concat cs) us new reads reads',
      )

  -- Byte pair encoding adds tokens of the vocabulary that read as the text.
  pub bpe-Reads :
      (text : List ℕ) (tokens : List (List ℕ))
      → AreBytes text
      → (new : List (List ℕ)) × (bpe t text tokens ≡ ok (tokens ++ new)) × Reads t text new
  unfolding bpe
  bpe-Reads text tokens h =
      let (chunks, e, joined, full) = pretokenize-Covers t.re text r.anchored in
      let (new, e', reads) = bpe_loop-Reads chunks tokens full (rw joined h) in
      (new, rw e e', (reads.0 ∙ joined, reads.1))
