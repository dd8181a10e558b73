-- ===== src/Inference/Trace.antt =====
-- What a run dispatches and returns, against the stream of tokens that the model predicts.
use zinfer_lm.Base.{
  ℕ, zero, suc, ◌+◌, ◌%◌, ◌^◌, ◌<◌, ◌≡◌, refl, sym, ap, ◌∙◌, ◌⊎◌, inl, inr, true, false, Bool-cases,
  List, [], ◌∷◌, ◌++◌, append_assoc, append-nil, length, All, concat, arith, ok,
}
use mathlib.Core.Path.{subst, ap₂}
use zinfer_lm.Tokenizer.State.{Tokenizer, tokenize, decode, is_stop_token}
use zinfer_lm.Inference.{
  eos, max_ctx_reached, Dispatched, tokenizer_started, tokenizer_completed, prefill_start,
  prefill_end, token_generated, generation_completed, Run, prefill, log, generated, generate,
  invoke_with,
}

-- The events of the generated tokens, numbered from `i` on.
abbrev pub numbered : ℕ → List (List ℕ) → List Dispatched
numbered i [] = []
numbered i (x ∷ xs) = token_generated i x ∷ numbered (i + 1) xs

abbrev run_of : List ℕ → List Dispatched → Run
run_of output dispatched = record { output = output; dispatched = dispatched }

module _ (choose : List ℕ → ℕ → ℕ) (t : Tokenizer) where
  -- The text of the `k`th token after a context: each token is predicted from the one before it,
  -- and all tokens before that one are past.
  abbrev pub text_at : ℕ → List ℕ → ℕ → List ℕ
  text_at zero tokens past = decode t (choose tokens past % 2 ^ 32)
  text_at (suc k) tokens past = text_at k (choose tokens past ∷ []) (past + length tokens)

  -- The texts of the first `k`.
  abbrev pub texts : ℕ → List ℕ → ℕ → List (List ℕ)
  texts zero tokens past = []
  texts (suc k) tokens past =
      decode t (choose tokens past % 2 ^ 32)
      ∷ texts k (choose tokens past ∷ []) (past + length tokens)

  -- Of at most `n` tokens exactly the first `k` are generated: none of them is a stop token, and
  -- there are `n` of them, or the next one is a stop token.
  abbrev pub Stops : ℕ → ℕ → ℕ → List ℕ → ℕ → Dispatched → Type 0
  Stops n i k tokens past last =
      All (λ x. is_stop_token t x ≡ false) (texts k tokens past)
      × (((k ≡ n) × (last ≡ generation_completed max_ctx_reached 0))
          ⊎ ((k < n)
              × (is_stop_token t (text_at k tokens past) ≡ true)
              × (last ≡ generation_completed eos (i + k))))

  abbrev pub ran : Run → List Dispatched → ℕ → List (List ℕ) → Dispatched → Run
  ran r before i new last = record {
    output = r.output ++ concat new;
    dispatched = r.dispatched ++ (before ++ (numbered i new ++ last ∷ []));
  }

  abbrev Runs : ℕ → ℕ → List ℕ → ℕ → Run → List Dispatched → Type 0
  Runs n i tokens past r before =
      (k : ℕ) × (last : Dispatched) × (generate choose t n i tokens past r
        ≡ ran r before i (texts k tokens past) last)
      × Stops n i k tokens past last

  log-ran :
      (r : Run) (before : List Dispatched) (i : ℕ) (last : Dispatched)
      → log (log r before) (last ∷ []) ≡ ran r before i [] last
  unfolding log
  log-ran r before i last =
      ap₂ run_of (sym (append-nil r.output)) (append_assoc r.dispatched before (last ∷ []))

  generated-ran :
      (r : Run) (before : List Dispatched) (i : ℕ) (x : List ℕ) (new : List (List ℕ))
      (last : Dispatched)
      → ran (generated (log r before) i x) [] (i + 1) new last ≡ ran r before i (x ∷ new) last
  unfolding log generated
  generated-ran r before i x new last =
      let behind = numbered (i + 1) new ++ last ∷ [] in
      ap₂ run_of (append_assoc r.output x (concat new)) (
        append_assoc (r.dispatched ++ before) (token_generated i x ∷ []) behind
        ∙ append_assoc r.dispatched before (token_generated i x ∷ behind))

  stop_round :
      (n i : ℕ) (tokens : List ℕ) (past : ℕ) (r : Run)
      → is_stop_token t (text_at 0 tokens past) ≡ true
      → generate choose t (suc n) i tokens past r
        ≡ log (log r (prefill past tokens)) (generation_completed eos i ∷ [])
  unfolding generate
  stop_round n i tokens past r e = rw e

  next_round :
      (n i : ℕ) (tokens : List ℕ) (past : ℕ) (r : Run)
      → is_stop_token t (text_at 0 tokens past) ≡ false
      → generate choose t (suc n) i tokens past r
        ≡ generate choose t n
            (i + 1)
            (choose tokens past ∷ [])
            (past + length tokens)
            (generated (log r (prefill past tokens)) i (text_at 0 tokens past))
  unfolding generate
  next_round n i tokens past r e = rw e

  Stops-suc :
      (n i k : ℕ) (tokens : List ℕ) (past : ℕ) (last : Dispatched)
      → is_stop_token t (text_at 0 tokens past) ≡ false
      → Stops n (i + 1) k (choose tokens past ∷ []) (past + length tokens) last
      → Stops (suc n) i (suc k) tokens past last
  Stops-suc n i k tokens past last e (none_stops, inl (p, q)) = ((e, none_stops), inl (ap suc p, q))
  Stops-suc n i k tokens past last e (none_stops, inr (p, stops, q)) = (
    (e, none_stops),
    inr (omega arith, stops, q ∙ ap (λ m. generation_completed eos m) (omega arith)),
  )

  round-Runs :
      (n i : ℕ) (tokens : List ℕ) (past : ℕ) (r : Run)
      → ((r' : Run) → Runs n (i + 1) (choose tokens past ∷ []) (past + length tokens) r' [])
      → Runs (suc n) i tokens past r (prefill past tokens)
  round-Runs n i tokens past r later = elim (Bool-cases (is_stop_token t (text_at 0 tokens past))) [
    | inl e ↦ (
      0,
      generation_completed eos i,
      stop_round n i tokens past r e ∙ log-ran r (prefill past tokens) i _,
      (tt, inr (omega arith, e, ap (λ m. generation_completed eos m) (omega arith))),
    )
    | inr e ↦
        let (k, last, p, stops) =
          later (generated (log r (prefill past tokens)) i (text_at 0 tokens past)) in
        (
          suc k,
          last,
          next_round n i tokens past r e
              ∙ p
              ∙ generated-ran r (prefill past tokens) i (text_at 0 tokens past) _ last,
          Stops-suc n i k tokens past last e stops,
        )
  ]

  prefill_past : (past : ℕ) (tokens : List ℕ) → 0 < past → prefill past tokens ≡ []
  unfolding prefill
  prefill_past past tokens h = ground arith

  generate-Runs :
      (n i : ℕ) (tokens : List ℕ) (past : ℕ) (r : Run) → 0 < past → Runs n i tokens past r []
  unfolding generate log
  generate-Runs zero i tokens past r h = (
    0,
    generation_completed max_ctx_reached 0,
    ap₂ run_of (sym (append-nil r.output)) refl,
    (tt, inl (refl, refl)),
  )
  generate-Runs (suc n) i tokens past r h =
      subst (Runs (suc n) i tokens past r) (prefill_past past tokens h) (
        round-Runs n i tokens past r (λ r'.
          generate-Runs n (i + 1) (choose tokens past ∷ []) (past + length tokens) r'
            (omega arith)))

  -- The events of the prefill, which a run without rounds does not reach.
  abbrev pub prefill_events : ℕ → List ℕ → List Dispatched
  prefill_events zero tokens = []
  prefill_events (suc n) tokens = prefill_start (length tokens) ∷ prefill_end (length tokens) ∷ []

  first-Runs :
      (n : ℕ) (tokens : List ℕ) (r : Run)
      → 0 < length tokens
      → Runs n 0 tokens 0 r (prefill_events n tokens)
  unfolding generate log prefill
  first-Runs zero tokens r h = (
    0,
    generation_completed max_ctx_reached 0,
    ap₂ run_of (sym (append-nil r.output)) refl,
    (tt, inl (refl, refl)),
  )
  first-Runs (suc n) tokens r h =
      round-Runs n 0 tokens 0 r
        (λ r'. generate-Runs n 1 (choose tokens 0 ∷ []) (0 + length tokens) r' (omega arith))

-- A run on an input of one token at least returns the generated texts one behind the other, and
-- dispatches, in this order: the start and the end of the tokenizer; one start and one end of the
-- prefill, if a round is allowed; each generated token once, numbered from 0; and one completion. The
-- generated tokens are those that the model predicts one after the other, up to the first stop token
-- or the limit, whichever is first; a completion by a stop token carries the number of the generated
-- tokens, and one by the limit carries 0.
pub invoke-trace :
    (choose : List ℕ → ℕ → ℕ) (t t' : Tokenizer) (input tokens : List ℕ) (max_tokens : ℕ)
    → tokenize t input ≡ ok (tokens, t')
    → 0 < length tokens
    → (r : Run) × (k : ℕ) × (last : Dispatched) × (invoke_with choose t input max_tokens ≡ ok r)
      × (r.output ≡ concat (texts choose t' k tokens 0))
      × (r.dispatched
          ≡ tokenizer_started (length input)
            ∷ tokenizer_completed (length tokens)
            ∷ (prefill_events choose t' max_tokens tokens
                ++ (numbered 0 (texts choose t' k tokens 0) ++ last ∷ [])))
      × Stops choose t' max_tokens 0 k tokens 0 last
unfolding invoke_with
invoke-trace choose t t' input tokens max_tokens e full =
    let r : Run =
      run_of [] (tokenizer_started (length input) ∷ tokenizer_completed (length tokens) ∷ []) in
    let (k, last, p, stops) = first-Runs choose t' max_tokens tokens r full in
    (_, k, last, rw e (ap ok p), refl, refl, stops)
