-- ===== src/Events.antt =====
-- The event dispatcher, include/zinferlm/events.h and src/events/events.cpp. Each operation is one
-- critical section; `dispatch` calls the callbacks that it has copied outside of it. A callback is
-- named by a number.
pub mod Laws
use zinfer_lm.Base.{
  ℕ, ◌+◌, ◌-◌, Bool, true, false, none, some, List, [], ◌∷◌, ◌++◌, length, if◌then◌else◌, find,
  assign, erase, bytes_eq,
}

-- `InferenceEvent`.
pub data InferenceEvent : Type 0 where
  tokenizer_started tokenizer_completed token_generated : InferenceEvent
  generation_completed prefill_started prefill_completed : InferenceEvent

unfoldable pub InferenceEvent-discrete : Discrete InferenceEvent
InferenceEvent-discrete = hlevel

-- The value of the enumerator, by which a `std::set` of events is ordered.
abbrev pub event_value : InferenceEvent → ℕ
event_value tokenizer_started = 0
event_value tokenizer_completed = 1
event_value token_generated = 2
event_value generation_completed = 3
event_value prefill_started = 4
event_value prefill_completed = 5

-- `listener_t`.
pub record Listener : Type 0 where
  pub callback : ℕ
  pub events : List InferenceEvent

abbrev pub Listeners : Type 0
Listeners = List (List ℕ × List Listener)

-- `EventDispatcher`. The count is an `int` in the code.
pub record EventDispatcher : Type 0 where
  pub listeners : Listeners
  pub callbacks_count : ℕ

-- The two branches of `listen`.
unfoldable pub add_listener : List ℕ → Listener → Listeners → Listeners
add_listener group l m = elim (find group m) [
  | some ls ↦ assign group (ls ++ l ∷ []) m
  | none ↦ assign group (l ∷ []) m
]

unfoldable pub listen : List ℕ → ℕ → List InferenceEvent → EventDispatcher → EventDispatcher
unfolding add_listener
listen group callback events d = record {
  listeners = add_listener group (record { callback = callback; events = events }) d.listeners;
  callbacks_count = d.callbacks_count + 1;
}

-- `listeners[group]`: the empty vector where the group is missing.
unfoldable pub group_of : List ℕ → Listeners → List Listener
group_of group m = elim (find group m) [ none ↦ [] | some ls ↦ ls ]

unfoldable pub unlisten : List ℕ → EventDispatcher → EventDispatcher
unfolding group_of
unlisten group d = record {
  listeners = erase group d.listeners;
  callbacks_count = d.callbacks_count - length (group_of group d.listeners);
}

-- `events.contains(event_name)`.
unfoldable pub contains : InferenceEvent → List InferenceEvent → Bool
contains e [] = false
contains e (x ∷ xs) = elim (InferenceEvent-discrete x e) [ yes p ↦ true | no n ↦ contains e xs ]

-- The loop that copies the callbacks.
unfoldable pub matching : InferenceEvent → List Listener → List ℕ
unfolding contains
matching e [] = []
matching e (l ∷ ls) = if contains e l.events then l.callback ∷ matching e ls else matching e ls

-- `dispatch`: the callbacks to call, in order, and the dispatcher, where `listeners[group]` has made
-- an entry for a group that was missing.
unfoldable pub dispatch : List ℕ → InferenceEvent → EventDispatcher → List ℕ × EventDispatcher
unfolding matching group_of
dispatch group e d = (
  matching e (group_of group d.listeners),
  record d { listeners = assign group (group_of group d.listeners) d.listeners },
)
