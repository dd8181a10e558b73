-- ===== src/Cli/Printing.antt =====
-- What the callback of tools/cli/cli.cpp prints of a run.
use zinfer_lm.Base.{
  ℕ, zero, suc, ◌+◌, ◌<◌, ◌≡◌, refl, sym, ap, ◌∙◌, ◌⊎◌, inl, inr, true, false, All, List, [], ◌∷◌,
  ◌++◌, map, append_assoc, append-nil, length, concat, ok, codes,
}
use zinfer_lm.Tokenizer.State.{Tokenizer, tokenize, is_stop_token}
use zinfer_lm.Inference.{
  StreamStatus, continue, eos, max_ctx_reached, Dispatched, tokenizer_started, tokenizer_completed,
  prefill_start, prefill_end, token_generated, generation_completed, Run, invoke_with,
}
use zinfer_lm.Inference.Trace.{numbered, text_at, texts, prefill_events, Stops, invoke-trace}

-- The escape sequences that begin the colour of the answer, and that end it.
abbrev pub yellow : List ℕ
yellow = 27 ∷ codes "[33m"

abbrev pub plain : List ℕ
plain = 27 ∷ codes "[0m"

-- The end of a run.
unfoldable pub status_text : StreamStatus → List ℕ
status_text max_ctx_reached = 10 ∷ codes "Maximum Context Reached" ++ 10 ∷ []
status_text eos = 10 ∷ []
status_text continue = []

-- The callback, `cb`.
unfoldable pub print_event : Dispatched → List ℕ
unfolding status_text
print_event (token_generated i text) = yellow ++ text
print_event (generation_completed status n) = status_text status ++ plain
print_event (tokenizer_started n) = []
print_event (tokenizer_completed n) = []
print_event (prefill_start n) = []
print_event (prefill_end n) = []

unfoldable pub printed : List Dispatched → List ℕ
unfolding print_event
printed [] = []
printed (e ∷ es) = print_event e ++ printed es

printed-append : (xs ys : List Dispatched) → printed (xs ++ ys) ≡ printed xs ++ printed ys
unfolding printed
printed-append [] ys = refl
printed-append (x ∷ xs) ys =
    ap (λ zs. print_event x ++ zs) (printed-append xs ys)
    ∙ sym (append_assoc (print_event x) (printed xs) (printed ys))

printed-numbered :
    (i : ℕ) (xs : List (List ℕ)) → printed (numbered i xs) ≡ concat (map (λ x. yellow ++ x) xs)
unfolding printed
printed-numbered i [] = refl
printed-numbered i (x ∷ xs) = ap (λ zs. (yellow ++ x) ++ zs) (printed-numbered (i + 1) xs)

printed-prefill :
    (choose : List ℕ → ℕ → ℕ) (t : Tokenizer) (n : ℕ) (tokens : List ℕ)
    → printed (prefill_events choose t n tokens) ≡ []
unfolding printed
printed-prefill choose t zero tokens = refl
printed-prefill choose t (suc n) tokens = refl

module _ (choose : List ℕ → ℕ → ℕ) (t : Tokenizer) where
  -- What is printed behind the texts of a run that generates `k` of at most `n` tokens, and no stop
  -- token: a line of its own where there are `n`, and an end of line where the next one is a stop
  -- token; then the plain colour.
  abbrev pub PrintsEnd : ℕ → ℕ → List ℕ → List ℕ → Type 0
  PrintsEnd n k tokens ending =
      All (λ x. is_stop_token t x ≡ false) (texts choose t k tokens 0)
      × (((k ≡ n) × (ending ≡ (10 ∷ codes "Maximum Context Reached" ++ 10 ∷ []) ++ plain))
          ⊎ ((k < n)
              × (is_stop_token t (text_at choose t k tokens 0) ≡ true)
              × (ending ≡ 10 ∷ plain)))

  printed-last :
      (n k : ℕ) (tokens : List ℕ) (last : Dispatched)
      → Stops choose t n 0 k tokens 0 last
      → PrintsEnd n k tokens (printed (last ∷ []))
  unfolding printed status_text
  printed-last n k tokens last (h, inl (p, e)) = rw e (h, inl (p, append-nil _))
  printed-last n k tokens last (h, inr (p, s, e)) = rw e (h, inr (p, s, append-nil _))

-- Of a run on an input of one token at least, the command line prints the text of each generated token
-- once, in order, in yellow: those that the model predicts one after the other, and they are the
-- output of the run. Then it prints that the maximum is reached, where `max_tokens` tokens were
-- generated, or ends the line, where fewer were and the next one is a stop token; and it goes back to
-- the plain colour.
pub printed-invoke :
    (choose : List ℕ → ℕ → ℕ) (t t' : Tokenizer) (input tokens : List ℕ) (max_tokens : ℕ)
    → tokenize t input ≡ ok (tokens, t')
    → 0 < length tokens
    → (r : Run) × (k : ℕ) × (ending : List ℕ) × (invoke_with choose t input max_tokens ≡ ok r)
      × (printed r.dispatched
          ≡ concat (map (λ x. yellow ++ x) (texts choose t' k tokens 0)) ++ ending)
      × PrintsEnd choose t' max_tokens k tokens ending
      × (r.output ≡ concat (texts choose t' k tokens 0))
unfolding printed
printed-invoke choose t t' input tokens max_tokens e full =
    let (r, k, last, run, output, dispatched, stops) =
      invoke-trace choose t t' input tokens max_tokens e full in
    let xs = texts choose t' k tokens 0 in
    let all : printed r.dispatched ≡ concat (map (λ x. yellow ++ x) xs) ++ printed (last ∷ []) =
      rw
        (
          dispatched,
          printed-append (prefill_events choose t' max_tokens tokens) (numbered 0 xs ++ last ∷ []),
          printed-prefill choose t' max_tokens tokens,
          printed-append (numbered 0 xs) (last ∷ []),
          printed-numbered 0 xs,
        )
        refl in
    (
      r,
      k,
      printed (last ∷ []),
      run,
      all,
      printed-last choose t' max_tokens k tokens last stops,
      output,
    )
