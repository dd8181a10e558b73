-- ===== src/Examples/Threads.antt =====
-- The worker's and the dispatcher's theorems on short runs.
use zinfer_lm.Base.{length, ◌≤◌, ℕ, ◌*◌, some, ◌≡◌, refl, true, false, List, [], ◌∷◌, ◌++◌, codes}
use zinfer_lm.Inference.{
  Dispatched, tokenizer_started, tokenizer_completed, prefill_start, prefill_end,
  generation_completed, eos,
}
use zinfer_lm.Inference.Trace.{numbered}
use zinfer_lm.Metrics.{new_collector, milliseconds, get_metrics}
use zinfer_lm.Metrics.Runs.{after_events, get_metrics-run}
use zinfer_lm.Streaming
use zinfer_lm.Streaming.Order.{chunks, queued, BeginsWithHeader, stream-order}
use zinfer_lm.Worker.{
  start, Event, adds, stops, wakes, ends, step, run, accepted, add_task, add_on, stop, wake,
  wake_on, execute_task, execute_on,
}
use zinfer_lm.Worker.Order.{settled_tasks, in_hand, run-history_start}
use zinfer_lm.Worker.Stop.{stop_settles}
use zinfer_lm.Events as Dispatcher
use zinfer_lm.Events.{dispatch, group_of}
use zinfer_lm.Events.Laws.{
  Call, Called, listens, unlistens, dispatches, empty_dispatcher, since, dispatch-run, run-count,
  total, run as run_calls,
}

-- Three tasks, of which one has ended and one is in hand when the worker stops.
abbrev busy : List Event
busy = adds 1 ∷ adds 2 ∷ wakes ∷ ends true ∷ wakes ∷ adds 3 ∷ stops ∷ adds 4 ∷ []

busy_stopped : (run start busy).running ≡ false
unfolding run start step add_task add_on stop wake wake_on execute_task execute_on
busy_stopped = refl

run-history_start_example :
    settled_tasks (run start busy) ++ (in_hand (run start busy).executing ++ (run start busy).tasks)
    ≡ accepted start busy
run-history_start_example = run-history_start busy

stop_settles_example :
    (settled_tasks (step (step (run start busy) (ends false)) wakes) ≡ accepted start busy)
    × ((step (step (run start busy) (ends false)) wakes).in_run ≡ false)
stop_settles_example = stop_settles busy false busy_stopped

-- A session listens, another one comes and goes, and the first listens again.
abbrev sessions : List Call
sessions =
    listens (codes "a") 1 (Dispatcher.token_generated ∷ [])
    ∷ listens (codes "b") 2 (Dispatcher.token_generated ∷ [])
    ∷ dispatches (codes "c") Dispatcher.token_generated
    ∷ unlistens (codes "b")
    ∷ listens (codes "a") 3 (Dispatcher.token_generated ∷ Dispatcher.generation_completed ∷ [])
    ∷ []

dispatch-run_example :
    Called Dispatcher.token_generated
      (since (codes "a") [] sessions)
      (dispatch (codes "a") Dispatcher.token_generated (run_calls empty_dispatcher sessions)).0
dispatch-run_example = dispatch-run sessions (codes "a") Dispatcher.token_generated

run-count_example :
    let d = run_calls empty_dispatcher sessions in
    (d.callbacks_count ≡ total d.listeners)
    × (length (group_of (codes "a") d.listeners) ≤ d.callbacks_count)
run-count_example = run-count sessions (codes "a")

-- A clock that gains two milliseconds with each event.
abbrev clock : ℕ → ℕ
clock i = 2000000 * i

abbrev two_tokens : List Dispatched
two_tokens =
    tokenizer_started 5
    ∷ tokenizer_completed 2
    ∷ prefill_start 2
    ∷ prefill_end 2
    ∷ (numbered 0 (codes "a" ∷ codes "b" ∷ []) ++ generation_completed eos 2 ∷ [])

get_metrics-run_example : get_metrics (after_events clock 0 two_tokens new_collector) ≡ record {
  prefill_latency = milliseconds (clock 2) (clock 3);
  time_to_first_token = milliseconds (clock 1) (clock 4);
  decode_time = milliseconds (clock 3) (clock 6);
  total_time = milliseconds (clock 1) (clock 6);
  out_tokens = some 2;
  inp_tokens = some 2;
}
get_metrics-run_example = get_metrics-run clock new_collector 5 2 (codes "a") (codes "b" ∷ []) eos 2

-- Two messages, of which the second is queued while the header is on the way.
abbrev two_messages : List Streaming.Event
two_messages =
    Streaming.initiates
    ∷ Streaming.queues (codes "{}") false
    ∷ Streaming.flushes
    ∷ Streaming.queues (codes "[]") true
    ∷ Streaming.writes_end false true
    ∷ Streaming.writes_end false true
    ∷ []

stream-order_example :
    (chunks (Streaming.run Streaming.new_session two_messages).started
        ++ (Streaming.run Streaming.new_session two_messages).streaming_queue
      ≡ queued two_messages)
    × BeginsWithHeader (Streaming.run Streaming.new_session two_messages).started
stream-order_example = stream-order two_messages
