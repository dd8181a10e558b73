-- ===== src/Metrics.antt =====
-- The collector of a run's metrics, include/zinferlm/metrics.h and src/metrics/metrics.cpp. A point
-- in time is a number of nanoseconds. A member that the constructor leaves unset is `none`, as is a
-- number that an event leaves unset.
pub mod Runs
use zinfer_lm.Base.{
  ℕ, ◌+◌, ◌-◌, ◌/◌, Bool, true, false, Option, none, some, List, [], ◌∷◌, codes, leb, ◌==◌,
  if◌then◌else◌,
}
use zinfer_lm.Inference.{
  Dispatched, tokenizer_started, tokenizer_completed, prefill_start, prefill_end, token_generated,
  generation_completed,
}
use zinfer_lm.Events as E
use zinfer_lm.Events.{EventDispatcher, InferenceEvent, listen}

-- `LLMMetricsCollector`.
pub record Collector : Type 0 where
  pub prefill_start_time : ℕ
  pub prefill_end_time : ℕ
  pub decode_start_time : ℕ
  pub decode_end_time : ℕ
  pub tokenizer_start_time : ℕ
  pub tokenizer_end_time : ℕ
  pub first_token_generated_time : ℕ
  pub generation_completed_time : ℕ
  pub prefill_tokens_count : Option ℕ
  pub decode_tokens_count : Option ℕ
  pub out_tokens : Option ℕ
  pub inp_tokens : Option ℕ

-- The constructor.
unfoldable pub new_collector : Collector
new_collector = record {
  prefill_start_time = 0;
  prefill_end_time = 0;
  decode_start_time = 0;
  decode_end_time = 0;
  tokenizer_start_time = 0;
  tokenizer_end_time = 0;
  first_token_generated_time = 0;
  generation_completed_time = 0;
  prefill_tokens_count = none;
  decode_tokens_count = none;
  out_tokens = none;
  inp_tokens = none;
}

-- The callback of `collect`, on an event and its time stamp.
unfoldable pub on_event : ℕ → Dispatched → Collector → Collector
on_event now (prefill_start n) c = record c {
  prefill_start_time = now;
  prefill_tokens_count = some n;
}
on_event now (prefill_end n) c = record c { prefill_end_time = now }
on_event now (token_generated i text) c =
    if i == 0 then record c { first_token_generated_time = now } else c
on_event now (tokenizer_started n) c = record c { tokenizer_start_time = now }
on_event now (tokenizer_completed n) c = record c {
  tokenizer_start_time = now;
  inp_tokens = some n;
}
on_event now (generation_completed status n) c = record c {
  generation_completed_time = now;
  out_tokens = some n;
}

-- The set of events that `collect` listens to, and `collect` for the callback of that number.
abbrev pub collected : List InferenceEvent
collected =
    E.tokenizer_started ∷ E.tokenizer_completed ∷ E.prefill_started ∷ E.prefill_completed
    ∷ E.generation_completed ∷ E.token_generated ∷ []

unfoldable pub collect : List ℕ → ℕ → EventDispatcher → EventDispatcher
collect run_id callback d = listen run_id callback collected d

-- `duration_cast<milliseconds>(b - a).count()`, which rounds to zero: whether it is not negative,
-- and how much it is.
unfoldable pub milliseconds : ℕ → ℕ → Bool × ℕ
milliseconds a b = if leb a b then (true, (b - a) / 1000000) else (false, (a - b) / 1000000)

-- The members of `model_metrics_t` that `get_metrics` computes from the times and the counts. The
-- throughput is a float that it computes from `out_tokens` and `decode_time`.
pub record ModelMetrics : Type 0 where
  pub prefill_latency : Bool × ℕ
  pub time_to_first_token : Bool × ℕ
  pub decode_time : Bool × ℕ
  pub total_time : Bool × ℕ
  pub out_tokens : Option ℕ
  pub inp_tokens : Option ℕ

unfoldable pub get_metrics : Collector → ModelMetrics
unfolding milliseconds
get_metrics c = record {
  prefill_latency = milliseconds c.prefill_start_time c.prefill_end_time;
  time_to_first_token = milliseconds c.tokenizer_start_time c.first_token_generated_time;
  decode_time = milliseconds c.prefill_end_time c.generation_completed_time;
  total_time = milliseconds c.tokenizer_start_time c.generation_completed_time;
  out_tokens = c.out_tokens;
  inp_tokens = c.inp_tokens;
}

-- `reset`.
unfoldable pub reset : Collector → Collector
reset c = record c {
  prefill_start_time = 0;
  prefill_end_time = 0;
  decode_start_time = 0;
  decode_end_time = 0;
  prefill_tokens_count = some 0;
  decode_tokens_count = some 0;
}
