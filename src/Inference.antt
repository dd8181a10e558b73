-- ===== src/Inference.antt =====
-- `Inference::invoke` of src/inference/inference.cpp. What `predict` and the sampler answer together,
-- the next token id for the tokens and the number of past tokens, is the parameter `choose`. The
-- loop's counter and the number of past tokens are taken to stay below 2 ^ 31.
pub mod Trace
use zinfer_lm.Base.{
  ℕ, zero, suc, ◌+◌, ◌%◌, ◌^◌, List, [], ◌∷◌, ◌++◌, length, if◌then◌else◌, ◌==◌, Result, ok, ◌>>=◌,
}
use zinfer_lm.Gguf.Loader.{TokenizerInfo}
use zinfer_lm.Tokenizer.State.{Tokenizer, Patterns, for_model, tokenize, decode, is_stop_token}

-- `StreamStatus`.
pub data StreamStatus : Type 0 where
  continue eos max_ctx_reached : StreamStatus

-- `inference_event_t`, without the time stamps.
pub data Dispatched : Type 0 where
  tokenizer_started tokenizer_completed : ℕ → Dispatched
  prefill_start prefill_end : ℕ → Dispatched
  token_generated : ℕ → List ℕ → Dispatched
  generation_completed : StreamStatus → ℕ → Dispatched

-- The output, and what was dispatched, oldest first.
pub record Run : Type 0 where
  pub output : List ℕ
  pub dispatched : List Dispatched

-- The events around `predict`, which are dispatched while no token is past.
unfoldable pub prefill : ℕ → List ℕ → List Dispatched
prefill past tokens =
    if past == 0 then prefill_start (length tokens) ∷ prefill_end (length tokens) ∷ [] else []

unfoldable pub log : Run → List Dispatched → Run
log r events = record r { dispatched = r.dispatched ++ events }

-- The output grows by a token, which is dispatched.
unfoldable pub generated : Run → ℕ → List ℕ → Run
generated r i text = record {
  output = r.output ++ text;
  dispatched = r.dispatched ++ token_generated i text ∷ [];
}

module _ (choose : List ℕ → ℕ → ℕ) where
  -- The `for` loop with the rounds that are left, in round `i`. Behind the last round the event is
  -- made without a number of tokens, which is then 0.
  unfoldable pub generate : Tokenizer → ℕ → ℕ → List ℕ → ℕ → Run → Run
  generate t zero i tokens past r = log r (generation_completed max_ctx_reached 0 ∷ [])
  generate t (suc n) i tokens past r =
      let id = choose tokens past in
      let text = decode t (id % 2 ^ 32) in
      let before = log r (prefill past tokens) in
      let rest = generate t n (i + 1) (id ∷ []) (past + length tokens) (generated before i text) in
      if is_stop_token t text then log before (generation_completed eos i ∷ []) else rest

  -- `invoke`, from the tokenizer on.
  unfoldable pub invoke_with : Tokenizer → List ℕ → ℕ → Result Run
  invoke_with t input max_tokens = do
    (tokens, t') ← tokenize t input
    ok (
        generate t' max_tokens 0 tokens 0 (record {
          output = [];
          dispatched = tokenizer_started (length input) ∷ tokenizer_completed (length tokens) ∷ [];
        }))

  -- `invoke`.
  unfoldable pub invoke : Patterns → TokenizerInfo → List ℕ → ℕ → Result Run
  invoke p info input max_tokens = for_model p info >>= λ t. invoke_with t input max_tokens
