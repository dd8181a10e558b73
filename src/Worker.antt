-- ===== src/Worker.antt =====
-- The task worker, src/worker/worker.hpp, with `InferenceWorker::execute_task_` of
-- src/inference/worker.cpp. A task is named by a number, which stands for its promise too. Each event
-- is one stretch of code under `task_lock_`, or the end of a task, so that a list of events is an
-- interleaving of the worker's thread and its callers.
pub mod Order
pub mod Stop
use zinfer_lm.Base.{
  ℕ, Bool, true, false, Option, none, some, List, [], ◌∷◌, ◌++◌, map, if◌then◌else◌,
}

-- How a promise was settled: by `set_value` or `set_exception` in `execute_task_`, which catches
-- everything, or by the cancellation when the worker stops.
pub data Outcome : Type 0 where
  value exception cancelled : Outcome

-- The members, the task that the thread executes, whether the thread is still in `run`, and the
-- promises that are settled, oldest first.
pub record Worker : Type 0 where
  pub running : Bool
  pub tasks : List ℕ
  pub executing : Option ℕ
  pub in_run : Bool
  pub settled : List (ℕ × Outcome)

-- The constructor.
unfoldable pub start : Worker
start = record { running = true; tasks = []; executing = none; in_run = true; settled = [] }

-- `add_task`, by whether the worker runs: false is the exception `worker_stopped`.
unfoldable pub add_on : Bool → ℕ → Worker → Worker × Bool
add_on true x w = (record w { tasks = w.tasks ++ x ∷ [] }, true)
add_on false x w = (w, false)

unfoldable pub add_task : ℕ → Worker → Worker × Bool
unfolding add_on
add_task x w = add_on w.running x w

-- The first critical section of `stop`.
unfoldable pub stop : Worker → Worker
stop w = record w { running = false }

abbrev pub cancel : List ℕ → List (ℕ × Outcome)
cancel = map λ x. (x, cancelled)

-- The critical section of `run`, entered when the wait is over, by the members: `none` while the
-- thread executes a task, has left the loop or waits.
unfoldable pub wake_on : Option ℕ → Bool → Bool → List ℕ → List (ℕ × Outcome) → Option Worker
wake_on (some x) in_run running tasks settled = none
wake_on none false running tasks settled = none
wake_on none true false tasks settled = some (record {
  running = false;
  tasks = [];
  executing = none;
  in_run = false;
  settled = settled ++ cancel tasks;
})
wake_on none true true [] settled = none
wake_on none true true (x ∷ xs) settled =
    some
      (record { running = true; tasks = xs; executing = some x; in_run = true; settled = settled })

unfoldable pub wake : Worker → Option Worker
unfolding wake_on
wake w = wake_on w.executing w.in_run w.running w.tasks w.settled

-- `execute_task_` settles the promise of its task, by a value or by the exception that it caught.
unfoldable pub execute_on : Bool → Option ℕ → Worker → Option Worker
execute_on returned none w = none
execute_on returned (some x) w = some (record w {
  executing = none;
  settled = w.settled ++ (x, if returned then value else exception) ∷ [];
})

unfoldable pub execute_task : Bool → Worker → Option Worker
unfolding execute_on
execute_task returned w = execute_on returned w.executing w

pub data Event : Type 0 where
  adds : ℕ → Event
  stops wakes : Event
  ends : Bool → Event

abbrev pub or_same : Worker → Option Worker → Worker
or_same w none = w
or_same w (some w') = w'

-- An event that cannot happen leaves everything as it is.
unfoldable pub step : Worker → Event → Worker
unfolding add_task stop wake execute_task
step w (adds x) = (add_task x w).0
step w stops = stop w
step w wakes = or_same w (wake w)
step w (ends returned) = or_same w (execute_task returned w)

unfoldable pub run : Worker → List Event → Worker
run w [] = w
run w (e ∷ es) = run (step w e) es

-- The tasks that were accepted, in the order of the calls.
unfoldable pub accepted : Worker → List Event → List ℕ
accepted w [] = []
accepted w (adds x ∷ es) =
    let rest = accepted (step w (adds x)) es in if w.running then x ∷ rest else rest
accepted w (stops ∷ es) = accepted (step w stops) es
accepted w (wakes ∷ es) = accepted (step w wakes) es
accepted w (ends r ∷ es) = accepted (step w (ends r)) es
