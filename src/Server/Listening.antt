-- ===== src/Server/Listening.antt =====
-- How a session of tools/serve/handlers.cpp listens to its chat, by the dispatcher of
-- src/events/events.cpp: the group is the chat's id, which no other session has.
use zinfer_lm.Base.{
  ℕ, suc, ◌≡◌, refl, sym, subst, ap, ◌∙◌, Bool, true, false, List, [], ◌∷◌, ◌++◌, length, All,
  arith, if◌then◌else◌, beq_refl, bytes_eq, bytes_beq,
}
use mathlib.Core.Path.{ap₂}
use zinfer_lm.Events as E
use zinfer_lm.Events.{
  InferenceEvent, Listener, EventDispatcher, listen, unlisten, dispatch, group_of, matching,
  contains, InferenceEvent-discrete,
}
use zinfer_lm.Events.Laws.{
  IsMap, assign-IsMap, listen-IsMap, group_of-listen, group_of-erase, group_of-dispatch,
}
use zinfer_lm.Inference.{
  Dispatched, tokenizer_started, tokenizer_completed, prefill_start, prefill_end, token_generated,
  generation_completed,
}
use zinfer_lm.Server.{Json, on_event, streamed}

-- The events that the session asks for.
abbrev pub asked_events : List InferenceEvent
asked_events = E.generation_completed ∷ E.token_generated ∷ []

-- The name that an event is dispatched under.
unfoldable pub name_of : Dispatched → InferenceEvent
name_of (tokenizer_started n) = E.tokenizer_started
name_of (tokenizer_completed n) = E.tokenizer_completed
name_of (prefill_start n) = E.prefill_started
name_of (prefill_end n) = E.prefill_completed
name_of (token_generated i text) = E.token_generated
name_of (generation_completed status n) = E.generation_completed

unfoldable pub is_end : Dispatched → Bool
is_end (generation_completed status n) = true
is_end (token_generated i text) = false
is_end (tokenizer_started n) = false
is_end (tokenizer_completed n) = false
is_end (prefill_start n) = false
is_end (prefill_end n) = false

-- An event, by the callbacks that the dispatcher calls for it: the session's streams its messages,
-- and unlistens at the end of the generation. It holds a reference to the id, a local string of
-- `chat_completion` that may be gone by then: `seen` is the id that it reads there.
abbrev heard_by :
    List ℕ → Dispatched → List ℕ × EventDispatcher → List (Json × Bool) × EventDispatcher
unfolding is_end
heard_by seen e ([], d) = ([], d)
heard_by seen e (callback ∷ callbacks, d) = (on_event e, if is_end e then unlisten seen d else d)

unfoldable pub hear :
    List ℕ → List ℕ → Dispatched → EventDispatcher → List (Json × Bool) × EventDispatcher
unfolding name_of heard_by
hear seen chat_id e d = heard_by seen e (dispatch chat_id (name_of e) d)

-- The events of a run, one after the other.
unfoldable pub hear_all :
    List ℕ → List ℕ → List Dispatched → EventDispatcher → List (Json × Bool) × EventDispatcher
unfolding hear
hear_all seen chat_id [] d = ([], d)
hear_all seen chat_id (e ∷ es) d =
    let (messages, d') = hear seen chat_id e d in
    let (rest, d'') = hear_all seen chat_id es d' in (messages ++ rest, d'')

abbrev listener : ℕ → Listener
listener callback = record { callback = callback; events = asked_events }

-- The session alone listens to its chat, beside `n` listeners of others.
abbrev IsHearing : List ℕ → ℕ → ℕ → EventDispatcher → Type 0
IsHearing chat_id callback n d =
    IsMap d.listeners
    × (group_of chat_id d.listeners ≡ listener callback ∷ [])
    × (d.callbacks_count ≡ suc n)

-- Where the session has unlistened `seen`, it is taken off its chat just if that is the chat's id, and
-- then the count is as before it listened.
abbrev IsLeft : List ℕ → List ℕ → ℕ → ℕ → EventDispatcher → Type 0
IsLeft seen chat_id callback n d =
    (group_of chat_id d.listeners ≡ (if bytes_beq seen chat_id then [] else listener callback ∷ []))
    × (seen ≡ chat_id → d.callbacks_count ≡ n)

module _ (seen chat_id : List ℕ) (callback n : ℕ) where
  dispatch-IsHearing :
      (name : InferenceEvent) (d : EventDispatcher)
      → IsHearing chat_id callback n d
      → ((dispatch chat_id name d).0 ≡ matching name (listener callback ∷ []))
        × IsHearing chat_id callback n (dispatch chat_id name d).1
  unfolding dispatch
  dispatch-IsHearing name d (unique, alone, count) = (
    ap (matching name) alone,
    (
      assign-IsMap chat_id (group_of chat_id d.listeners) d.listeners unique,
      group_of-dispatch chat_id chat_id d.listeners ∙ alone,
      count,
    ),
  )

  heard_none :
      (e : Dispatched) (p : List ℕ × EventDispatcher) → p.0 ≡ [] → heard_by seen e p ≡ ([], p.1)
  unfolding heard_by
  heard_none e ([], d) q = refl
  heard_none e (x ∷ xs, d) q = absurd (cc)

  heard_one :
      (e : Dispatched) (p : List ℕ × EventDispatcher)
      → p.0 ≡ callback ∷ []
      → heard_by seen e p ≡ (on_event e, if is_end e then unlisten seen p.1 else p.1)
  unfolding heard_by
  heard_one e ([], d) q = absurd (cc)
  heard_one e (x ∷ xs, d) q = refl

  abbrev Hears : Dispatched → List (Json × Bool) × EventDispatcher → Type 0
  Hears e r = (r.0 ≡ on_event e) × IsHearing chat_id callback n r.1

  -- An event that the session did not ask for.
  hear-Unasked :
      (e : Dispatched) (d : EventDispatcher)
      → on_event e ≡ []
      → matching (name_of e) (listener callback ∷ []) ≡ []
      → IsHearing chat_id callback n d
      → Hears e (hear seen chat_id e d)
  unfolding hear
  hear-Unasked e d silent unasked h =
      let (called, kept) = dispatch-IsHearing (name_of e) d h in
      subst (Hears e) (sym (heard_none e (dispatch chat_id (name_of e) d) (called ∙ unasked)))
        (sym silent, kept)

  hear-on :
      (e : Dispatched) (d : EventDispatcher)
      → is_end e ≡ false
      → IsHearing chat_id callback n d
      → Hears e (hear seen chat_id e d)
  unfolding hear is_end name_of matching contains on_event InferenceEvent-discrete
  hear-on (tokenizer_started k) d on h = hear-Unasked (tokenizer_started k) d refl refl h
  hear-on (tokenizer_completed k) d on h = hear-Unasked (tokenizer_completed k) d refl refl h
  hear-on (prefill_start k) d on h = hear-Unasked (prefill_start k) d refl refl h
  hear-on (prefill_end k) d on h = hear-Unasked (prefill_end k) d refl refl h
  hear-on (generation_completed status k) d on h = absurd (cc)
  hear-on (token_generated i text) d on h =
      let (called, kept) = dispatch-IsHearing E.token_generated d h in
      subst (Hears (token_generated i text))
        (sym (heard_one (token_generated i text) (dispatch chat_id E.token_generated d) called))
        (refl, kept)

  hear-end :
      (e : Dispatched) (d : EventDispatcher)
      → is_end e ≡ true
      → IsHearing chat_id callback n d
      → ((hear seen chat_id e d).0 ≡ on_event e)
        × IsLeft seen chat_id callback n (hear seen chat_id e d).1
  unfolding hear unlisten is_end name_of matching contains InferenceEvent-discrete
  hear-end (generation_completed status k) d last h =
      let e = generation_completed status k in
      let (called, (unique, alone, count)) = dispatch-IsHearing E.generation_completed d h in
      let d' = (dispatch chat_id E.generation_completed d).1 in
      subst (λ r. (r.0 ≡ on_event e) × IsLeft seen chat_id callback n r.1)
        (sym (heard_one e (dispatch chat_id E.generation_completed d) called))
        (
          refl,
          (
            group_of-erase seen chat_id d'.listeners unique
                ∙ ap (λ ls. if bytes_beq seen chat_id then [] else ls) alone,
            λ same. rw same (omega (arith, count, ap length alone)),
          ),
        )
  hear-end (token_generated i text) d last h = absurd (cc)
  hear-end (tokenizer_started k) d last h = absurd (cc)
  hear-end (tokenizer_completed k) d last h = absurd (cc)
  hear-end (prefill_start k) d last h = absurd (cc)
  hear-end (prefill_end k) d last h = absurd (cc)

  hear_all-run :
      (before : List Dispatched) (last : Dispatched) (d : EventDispatcher)
      → All (λ e. is_end e ≡ false) before
      → is_end last ≡ true
      → IsHearing chat_id callback n d
      → ((hear_all seen chat_id (before ++ last ∷ []) d).0 ≡ streamed (before ++ last ∷ []))
        × IsLeft seen chat_id callback n (hear_all seen chat_id (before ++ last ∷ []) d).1
  unfolding hear_all streamed
  hear_all-run [] last d on ends h =
      let (said, left) = hear-end last d ends h in (ap (λ ms. ms ++ []) said, left)
  hear_all-run (e ∷ before) last d on ends h =
      let (said, hearing) = hear-on e d on.0 h in
      let (rest, left) = hear_all-run before last (hear seen chat_id e d).1 on.1 ends hearing in
      (ap₂ ◌++◌ said rest, left)

-- A session that listens to its chat, to which nobody listens yet, is handed just the messages of the
-- run, one for each token and one at the end, whatever else is dispatched to the chat. The event that
-- completes the generation makes it unlisten the id that it reads through its reference, `seen`. Where
-- that is the chat's id, nobody listens to the chat then, and the dispatcher counts as many callbacks
-- as before; where it is another one, the session stays the listener of the chat.
pub listen-hears :
    (seen chat_id : List ℕ) (callback : ℕ) (d : EventDispatcher) (before : List Dispatched)
    (last : Dispatched)
    → IsMap d.listeners
    → group_of chat_id d.listeners ≡ []
    → All (λ e. is_end e ≡ false) before
    → is_end last ≡ true
    → let r =
        hear_all seen chat_id (before ++ last ∷ []) (listen chat_id callback asked_events d) in
      (r.0 ≡ streamed (before ++ last ∷ []))
      × (group_of chat_id r.1.listeners ≡ (
          if bytes_beq seen chat_id
          then []
          else record { callback = callback; events = asked_events } ∷ []))
      × (seen ≡ chat_id → r.1.callbacks_count ≡ d.callbacks_count)
unfolding listen
listen-hears seen chat_id callback d before last unique nobody on ends =
    let (said, left) =
      hear_all-run seen chat_id callback d.callbacks_count before last
        (listen chat_id callback asked_events d) on ends
        (
          listen-IsMap chat_id (listener callback) d.listeners unique,
          group_of-listen chat_id chat_id (listener callback) d.listeners
              ∙ rw (beq_refl chat_id, nobody),
          omega arith,
        ) in
    (said, left.0, left.1)
