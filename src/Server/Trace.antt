-- ===== src/Server/Trace.antt =====
-- What a chat streams, against what its run returns.
use zinfer_lm.Base.{
  ℕ, zero, suc, ◌+◌, ◌<◌, ◌≡◌, refl, sym, ap, ◌∙◌, ◌⊎◌, inl, inr, Bool, true, false, List, [], ◌∷◌,
  ◌++◌, append_assoc, All, map, length, concat, ok, codes,
}
use zinfer_lm.Tokenizer.State.{Tokenizer, tokenize, is_stop_token}
use zinfer_lm.Inference.{Dispatched, Run, invoke_with}
use zinfer_lm.Inference.Trace.{numbered, text_at, texts, prefill_events, Stops, invoke-trace}
use zinfer_lm.Server.{Json, token_message, one_member, finish_reason, on_event, streamed}

streamed-append : (xs ys : List Dispatched) → streamed (xs ++ ys) ≡ streamed xs ++ streamed ys
unfolding streamed
streamed-append [] ys = refl
streamed-append (x ∷ xs) ys =
    ap (λ zs. on_event x ++ zs) (streamed-append xs ys)
    ∙ sym (append_assoc (on_event x) (streamed xs) (streamed ys))

abbrev pub token_messages : List (List ℕ) → List (Json × Bool)
token_messages xs = map (λ x. (token_message x, false)) xs

streamed-numbered : (i : ℕ) (xs : List (List ℕ)) → streamed (numbered i xs) ≡ token_messages xs
unfolding streamed on_event
streamed-numbered i [] = refl
streamed-numbered i (x ∷ xs) =
    ap (λ zs. (token_message x, false) ∷ zs) (streamed-numbered (i + 1) xs)

streamed-prefill :
    (choose : List ℕ → ℕ → ℕ) (t : Tokenizer) (n : ℕ) (tokens : List ℕ)
    → streamed (prefill_events choose t n tokens) ≡ []
unfolding streamed on_event
streamed-prefill choose t zero tokens = refl
streamed-prefill choose t (suc n) tokens = refl

module _ (choose : List ℕ → ℕ → ℕ) (t : Tokenizer) where
  -- The last message of a run that generates `k` of at most `n` tokens, and no stop token: that the
  -- limit is reached where there are `n`, and that the run has stopped where the next one is a stop
  -- token.
  abbrev pub Ends : ℕ → ℕ → List ℕ → (Json × Bool) → Type 0
  Ends n k tokens m =
      All (λ x. is_stop_token t x ≡ false) (texts choose t k tokens 0)
      × (((k ≡ n)
            × (m ≡ (one_member (codes "finish_reason") (codes "Maximum Tokens reached"), true)))
          ⊎ ((k < n)
              × (is_stop_token t (text_at choose t k tokens 0) ≡ true)
              × (m ≡ (one_member (codes "finish_reason") (codes "Stop"), true))))

  streamed-last :
      (n k : ℕ) (tokens : List ℕ) (last : Dispatched)
      → Stops choose t n 0 k tokens 0 last
      → (m : Json × Bool) × (streamed (last ∷ []) ≡ m ∷ []) × Ends n k tokens m
  unfolding streamed on_event finish_reason
  streamed-last n k tokens last (h, inl (p, e)) = rw e (_, refl, (h, inl (p, refl)))
  streamed-last n k tokens last (h, inr (p, s, e)) = rw e (_, refl, (h, inr (p, s, refl)))

-- Of a run on an input of one token at least, a session streams one message for each generated token,
-- in order and none of them marked as the last one, and then one message that is marked so. The
-- generated tokens are those that the model predicts one after the other, and their texts, one behind
-- the other, are the output of the run. The last message says that the maximum is reached where
-- `max_tokens` tokens were generated, and that the run has stopped where fewer were and the next one
-- is a stop token.
pub streamed-invoke :
    (choose : List ℕ → ℕ → ℕ) (t t' : Tokenizer) (input tokens : List ℕ) (max_tokens : ℕ)
    → tokenize t input ≡ ok (tokens, t')
    → 0 < length tokens
    → (r : Run) × (k : ℕ) × (m : Json × Bool) × (invoke_with choose t input max_tokens ≡ ok r)
      × (streamed r.dispatched ≡ token_messages (texts choose t' k tokens 0) ++ m ∷ [])
      × Ends choose t' max_tokens k tokens m
      × (r.output ≡ concat (texts choose t' k tokens 0))
unfolding streamed on_event
streamed-invoke choose t t' input tokens max_tokens e full =
    let (r, k, last, run, output, dispatched, stops) =
      invoke-trace choose t t' input tokens max_tokens e full in
    let xs = texts choose t' k tokens 0 in
    let before = prefill_events choose t' max_tokens tokens in
    let (m, one, ends) = streamed-last choose t' max_tokens k tokens last stops in
    let all : streamed r.dispatched ≡ token_messages xs ++ m ∷ [] =
      rw
        (
          dispatched,
          streamed-append before (numbered 0 xs ++ last ∷ []),
          streamed-prefill choose t' max_tokens tokens,
          streamed-append (numbered 0 xs) (last ∷ []),
          streamed-numbered 0 xs,
          one,
        )
        refl in
    (r, k, m, run, all, ends, output)
