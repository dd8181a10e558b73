-- ===== src/Chat/Answers.antt =====
-- What a chat of src/chat/chat.cpp answers, by the worker's thread, and what a client hears of it.
use zinfer_lm.Base.{ℕ, suc, Bool, true, none, List, [], ◌∷◌, ◌++◌, map, Result, ok, nat_eq}
use zinfer_lm.Gguf.Value.{Primitive}
use zinfer_lm.Tokenizer.State.{Tokenizer, Patterns}
use zinfer_lm.Sampling.{Sampler}
use zinfer_lm.Worker.{Outcome, value, wakes, step}
use zinfer_lm.Inference.{Run, Dispatched}
use zinfer_lm.Chat.{ChatParams, Chat, InferenceTask, Service, sampler_of}

-- The worker's thread takes the next task, if it waits for one.
abbrev pub woken {ℓ} : {F : Type ℓ} → Service F → Service F
woken s = record s { worker = step s.worker wakes }

-- A service whose worker runs and has nothing to do, with numbers left for new promises.
abbrev pub idle_service {ℓ} :
    {F : Type ℓ}
    → ℕ
    → List (ℕ × InferenceTask F)
    → List (ℕ × Result (List ℕ))
    → List (List ℕ × Dispatched)
    → List (ℕ × Outcome)
    → Service F
idle_service next tasks results dispatched settled = record {
  worker = record {
    running = true;
    tasks = [];
    executing = none;
    in_run = true;
    settled = settled;
  };
  next = next;
  tasks = tasks;
  results = results;
  dispatched = dispatched;
}

module _ {ℓ κ} {F : Type ℓ} {T : Type κ} (template : List ℕ → List ℕ → List ℕ → Result T)
    (apply : T → List (List (List ℕ × List ℕ)) → Bool → Result (List ℕ))
    (format : Primitive → List ℕ) (p : Patterns) (choose : Sampler F → List ℕ → ℕ → ℕ) where
  abbrev task_of : Chat → ChatParams F → List ℕ → InferenceTask F
  task_of chat params input = record {
    run_id = chat.chat_id;
    model = chat.model;
    debug = chat.debug;
    sampler = sampler_of params;
    input = input;
    max_tokens = params.max_tokens;
  }

  -- What a service is asked and has in hand.
  abbrev asked_service :
      ℕ
      → List (ℕ × InferenceTask F)
      → List (ℕ × Result (List ℕ))
      → List (List ℕ × Dispatched)
      → List (ℕ × Outcome)
      → InferenceTask F
      → Service F
  asked_service next tasks results dispatched settled task = record {
    worker = record {
      running = true;
      tasks = next ∷ [];
      executing = none;
      in_run = true;
      settled = settled;
    };
    next = suc next;
    tasks = tasks ++ (next, task) ∷ [];
    results = results;
    dispatched = dispatched;
  }

  -- What it has done then.
  abbrev answered_service :
      ℕ
      → List (ℕ × InferenceTask F)
      → List (ℕ × Result (List ℕ))
      → List (List ℕ × Dispatched)
      → List (ℕ × Outcome)
      → InferenceTask F
      → Run
      → Service F
  answered_service next tasks results dispatched settled task r = record {
    worker = record {
      running = true;
      tasks = [];
      executing = none;
      in_run = true;
      settled = settled ++ (next, value) ∷ [];
    };
    next = suc next;
    tasks = tasks ++ (next, task) ∷ [];
    results = results ++ (next, ok r.output) ∷ [];
    dispatched = dispatched ++ map (λ e. (task.run_id, e)) r.dispatched;
  }
