-- ===== src/Tokenizer/Pretokenize.antt =====
-- `pretokenize` of src/tokenizer/tokenizer_impl.cpp. The regular expression is matched by PCRE2,
-- whose answer is a parameter.
pub mod Cover
use zinfer_lm.Base.{
  ℕ, zero, suc, ◌+◌, ◌-◌, ◌≤◌, ◌<◌, ◌≡◌, true, false, List, [], ◌∷◌, ◌++◌, length, take, drop, ltb,
  leb, if◌then◌else◌, Result, ok, err, regex_error, out_of_range, stuck, ◌>>=◌,
}

-- What `pcre2_jit_match` answers: no match, another error, or the first two offsets.
pub data Match : Type 0 where
  no_match error : Match
  found : ℕ → ℕ → Match

-- The text and the offset to start at.
abbrev pub Matcher : Type 0
Matcher = List ℕ → ℕ → Match

-- `text.substr(start, end - start)`. An `end` before `start` wraps to a count that reaches to the
-- end of the text.
unfoldable pub substr : List ℕ → ℕ → ℕ → Result (List ℕ)
substr text start end =
    if ltb (length text) start
    then err out_of_range
    else ok (take (if leb start end then end - start else length text) (drop start text))

-- The loop. Its fuel bounds the rounds.
unfoldable pub pretokenize_loop : ℕ → Matcher → List ℕ → ℕ → List (List ℕ) → Result (List (List ℕ))
pretokenize_loop zero re text start chunks = err stuck
pretokenize_loop (suc f) re text start chunks = elim (ltb start (length text)) [
  | false ↦ ok chunks
  | true ↦ elim (re text start) [
    | no_match ↦ pretokenize_loop f re text (start + 1) (chunks ++ take 1 (drop start text) ∷ [])
    | error ↦ err regex_error
    | found s e ↦ substr text s e >>= λ c. pretokenize_loop f re text e (chunks ++ c ∷ [])
  ]
]

unfoldable pub pretokenize : Matcher → List ℕ → Result (List (List ℕ))
pretokenize re text = pretokenize_loop (suc (length text)) re text 0 []

-- How PCRE2 answers for a pattern that matches at the offset it starts from wherever it matches at
-- all, and never the empty string, as the two patterns of tokenizer_impl.h do: their alternatives
-- take one character at least, and between them every character.
abbrev pub IsAnchored : Match → ℕ → ℕ → Type 0
IsAnchored no_match start len = Unit {0}
IsAnchored error start len = ⊥
IsAnchored (found s e) start len = (s ≡ start) × (start < e) × (e ≤ len)

abbrev pub Anchored : Matcher → Type 0
Anchored re =
    (text : List ℕ) (start : ℕ)
    → start < length text
    → IsAnchored (re text start) start (length text)

abbrev pub IsNonempty : List ℕ → Type 0
IsNonempty [] = ⊥
IsNonempty (c ∷ cs) = Unit {0}
