-- ===== src/Metrics/Runs.antt =====
-- What the collector makes of the events of a run.
use zinfer_lm.Base.{ℕ, ◌<◌, ◌+◌, ◌≡◌, ap, ◌∙◌, some, List, [], ◌∷◌, ◌++◌, length, arith}
use zinfer_lm.Inference.{
  StreamStatus, Dispatched, tokenizer_started, tokenizer_completed, prefill_start, prefill_end,
  token_generated, generation_completed,
}
use zinfer_lm.Inference.Trace.{numbered}
use zinfer_lm.Metrics.{Collector, on_event, milliseconds, get_metrics}

-- The collector after events of which the first is stamped `clock i`, the next `clock (i + 1)`, and
-- so on.
abbrev pub after_events : (ℕ → ℕ) → ℕ → List Dispatched → Collector → Collector
after_events clock i [] c = c
after_events clock i (e ∷ es) c = after_events clock (i + 1) es (on_event (clock i) e c)

later_token :
    (now k : ℕ) (x : List ℕ) (c : Collector) → 0 < k → on_event now (token_generated k x) c ≡ c
unfolding on_event
later_token now k x c h = ground arith

-- Tokens behind the first leave the collector as it is.
later_tokens :
    (clock : ℕ → ℕ) (i k : ℕ) (xs : List (List ℕ)) (rest : List Dispatched) (c : Collector)
    → 0 < k
    → after_events clock i (numbered k xs ++ rest) c ≡ after_events clock (i + length xs) rest c
later_tokens clock i k [] rest c h = ap (λ j. after_events clock j rest c) (omega arith)
later_tokens clock i k (x ∷ xs) rest c h =
    ap (after_events clock (i + 1) (numbered (k + 1) xs ++ rest)) (later_token (clock i) k x c h)
    ∙ later_tokens clock (i + 1) (k + 1) xs rest c (omega arith)
    ∙ ap (λ j. after_events clock j rest c) (omega arith)

-- Of the events of a run that generates a token at least, stamped in any way, the collector makes
-- these metrics: the prefill's latency between its two events; the decoding time from the end of the
-- prefill to the completion; the number of the input's tokens; the number of output tokens that the
-- completion carries; and both the time to the first token and the total time from the end of the
-- tokenizer on, not from its start.
pub get_metrics-run :
    (clock : ℕ → ℕ) (c : Collector) (len n : ℕ) (x : List ℕ) (xs : List (List ℕ))
    (status : StreamStatus) (out : ℕ)
    → get_metrics (
        after_events clock 0
          (tokenizer_started len
            ∷ tokenizer_completed n
            ∷ prefill_start n
            ∷ prefill_end n
            ∷ (numbered 0 (x ∷ xs) ++ generation_completed status out ∷ []))
          c)
      ≡ record {
        prefill_latency = milliseconds (clock 2) (clock 3);
        time_to_first_token = milliseconds (clock 1) (clock 4);
        decode_time = milliseconds (clock 3) (clock (5 + length xs));
        total_time = milliseconds (clock 1) (clock (5 + length xs));
        out_tokens = some out;
        inp_tokens = some n;
      }
unfolding get_metrics on_event
get_metrics-run clock c len n x xs status out =
    ap get_metrics
      (later_tokens clock 5 1 xs (generation_completed status out ∷ []) _ (omega arith))
