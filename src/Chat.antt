-- ===== src/Chat.antt =====
-- A chat, `Chat::invoke` of src/chat/chat.cpp, `ChatTemplate` of src/chat/chat_message.cpp, and
-- `InferenceWorker::execute_task_` of src/inference/worker.cpp, which the worker runs the task of a
-- chat by. Templates are minja's: `template` is what its constructor makes of a text and two tokens,
-- and `apply` what it renders; both may throw.
pub mod Answers
use zinfer_lm.Base.{
  ℕ, suc, Bool, true, false, Option, none, some, List, [], ◌∷◌, ◌++◌, map, Result, ok, err,
  worker_stopped, ◌>>=◌, codes, find, nat_eq,
}
use zinfer_lm.Gguf.Value.{Primitive}
use zinfer_lm.Gguf.Loader.{GgufLoader, TokenizerInfo, tokenizer_info}
use zinfer_lm.Tokenizer.State.{Patterns, for_model, get_bos, get_eos}
use zinfer_lm.Sampling.{Sampler}
use zinfer_lm.Server.{ChatMessage}
use zinfer_lm.Worker.{Worker, add_task, execute_task}
use zinfer_lm.Inference.{Run, Dispatched, invoke}

-- `chat_params_t`.
pub record ChatParams {ℓ} (F : Type ℓ) : Type ℓ where
  pub max_tokens : ℕ
  pub temperature : F
  pub top_k : ℕ
  pub top_p : F

-- `Chat`; the model is known by its loader.
pub record Chat : Type 0 where
  pub model : GgufLoader
  pub chat_id : List ℕ
  pub debug : Bool

-- `inference_task_t`.
pub record InferenceTask {ℓ} (F : Type ℓ) : Type ℓ where
  pub run_id : List ℕ
  pub model : GgufLoader
  pub debug : Bool
  pub sampler : Sampler F
  pub input : List ℕ
  pub max_tokens : ℕ

-- The worker, with the tasks behind its numbers, what the promises were set to, and what was
-- dispatched, with the group, oldest first.
pub record Service {ℓ} (F : Type ℓ) : Type ℓ where
  pub worker : Worker
  pub next : ℕ
  pub tasks : List (ℕ × InferenceTask F)
  pub results : List (ℕ × Result (List ℕ))
  pub dispatched : List (List ℕ × Dispatched)

-- The constructor of `Sampler`, which drops `top_p`.
unfoldable pub sampler_of {ℓ} : {F : Type ℓ} → ChatParams F → Sampler F
sampler_of params = record { temp = params.temperature; top_k = params.top_k }

-- The JSON object of a message, by its members.
unfoldable pub json_message : ChatMessage → List (List ℕ × List ℕ)
json_message m = (codes "role", m.role) ∷ (codes "content", m.message) ∷ []

-- An exception of `apply` is caught.
abbrev pub rendered : Result (List ℕ) → List ℕ
rendered (ok text) = text
rendered (err fault) = []

module _ {ℓ κ} {F : Type ℓ} {T : Type κ} (template : List ℕ → List ℕ → List ℕ → Result T)
    (apply : T → List (List (List ℕ × List ℕ)) → Bool → Result (List ℕ))
    (format : Primitive → List ℕ) (p : Patterns) (choose : Sampler F → List ℕ → ℕ → ℕ) where
  -- `ChatTemplate::render`.
  unfoldable pub render : T → List ChatMessage → Bool → List ℕ
  unfolding json_message
  render tmpl messages add_generation_prompt =
      rendered (apply tmpl (map json_message messages) add_generation_prompt)

  -- The task that `Chat::invoke` makes.
  unfoldable pub chat_task : Chat → List ChatMessage → ChatParams F → Result (InferenceTask F)
  unfolding render sampler_of
  chat_task chat messages params = do
    info ← tokenizer_info format chat.model
    t ← for_model p info
    tmpl ← template info.template_str (get_bos t) (get_eos t)
    ok (record {
      run_id = chat.chat_id;
      model = chat.model;
      debug = chat.debug;
      sampler = sampler_of params;
      input = render tmpl messages true;
      max_tokens = params.max_tokens;
    })

  -- `worker.add_task`, by what it answers; the number of the promise stands for the future too.
  abbrev submitted : InferenceTask F → Service F → Worker × Bool → Result ℕ × Service F
  submitted task s (w, false) = (err worker_stopped, s)
  submitted task s (w, true) = (
    ok s.next,
    record s { worker = w; next = suc s.next; tasks = s.tasks ++ (s.next, task) ∷ [] },
  )

  abbrev asked : Result (InferenceTask F) → Service F → Result ℕ × Service F
  unfolding add_task
  asked (err fault) s = (err fault, s)
  asked (ok task) s = submitted task s (add_task s.next s.worker)

  -- `Chat::invoke`.
  unfoldable pub chat_invoke :
      Chat → List ChatMessage → ChatParams F → Service F → Result ℕ × Service F
  unfolding chat_task asked
  chat_invoke chat messages params s = asked (chat_task chat messages params) s

  -- `inference.invoke` of a task, for the model's tokenizer.
  unfoldable pub run_of_task : InferenceTask F → Result Run
  run_of_task task = tokenizer_info format task.model >>= λ info.
      invoke (choose task.sampler) p info task.input task.max_tokens

  -- What an execution leaves behind: the promise is set to the output, or to the exception that was
  -- caught. What a run that throws has dispatched before, which ends no generation, is left out.
  abbrev ended : ℕ → InferenceTask F → Result Run → Service F → Service F
  ended x task (ok r) s = record s {
    results = s.results ++ (x, ok r.output) ∷ [];
    dispatched = s.dispatched ++ map (λ e. (task.run_id, e)) r.dispatched;
  }
  ended x task (err fault) s = record s { results = s.results ++ (x, err fault) ∷ [] }

  abbrev returned : Result Run → Bool
  returned (ok r) = true
  returned (err fault) = false

  abbrev executed : ℕ → Option (InferenceTask F) → Service F → Option (Service F)
  unfolding run_of_task execute_task
  executed x none s = none
  executed x (some task) s = elim (execute_task (returned (run_of_task task)) s.worker) [
    | none ↦ none
    | some w ↦ some (record (ended x task (run_of_task task) s) { worker = w })
  ]

  -- `execute_task_`, for the task that the worker has in hand.
  unfoldable pub execute : Service F → Option (Service F)
  unfolding executed
  execute s = elim s.worker.executing [ none ↦ none | some x ↦ executed x (find x s.tasks) s ]
