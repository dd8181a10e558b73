-- ===== src/Examples/Connections.antt =====
-- A connection of the HTTP server that streams the answer to a chat and is then kept alive.
use zinfer_lm.Base.{
  ℕ, ◌≤◌, ◌≡◌, refl, Option, some, List, [], ◌∷◌, true, false, arith, codes, find, bytes_eq, All,
  ◌++◌,
}
use zinfer_lm.Streaming.{
  new_session, step, chunked_bytes, make_chunk, hex_digits, occurs, new_session,
}
use zinfer_lm.Server.{
  handle_request, handle_post, chat_completion, Json, object, array, no_element, member, no_member,
  Request, post,
}
use zinfer_lm.Events.{EventDispatcher, group_of, listen}
use zinfer_lm.Events.Laws.{IsMap}
use zinfer_lm.Inference.{Dispatched, prefill_start, token_generated, generation_completed, eos}
use zinfer_lm.Server.Listening.{asked_events, is_end, hear_all, listen-hears}
use zinfer_lm.Server.{streamed}
use zinfer_lm.Server.Connection.{
  Connection, accept, outstanding, Event, runs, read_ends, stream_write_ends, says, request, live,
}
use zinfer_lm.Server.Connection.Single.{live-Single}

-- Every body reads as a chat without messages.
abbrev parse : List ℕ → Option Json
parse body = some (object (member (codes "messages") (array no_element) no_member))

abbrev parse_error : List ℕ → List ℕ
parse_error body = []

abbrev asked : Request
asked = record {
  method = post;
  target = codes "/v1/chat/completions";
  content_type = codes "application/json";
  body = [];
}

-- The header, a token and the last message go out one after the other, and the session reads again;
-- the flushes that were posted come between.
abbrev streaming : List Event
streaming =
    runs
    ∷ read_ends (request asked true)
    ∷ runs
    ∷ says (codes "{}") false
    ∷ runs
    ∷ says (codes "null") true
    ∷ stream_write_ends false
    ∷ runs
    ∷ runs
    ∷ runs
    ∷ stream_write_ends false
    ∷ runs
    ∷ stream_write_ends false
    ∷ runs
    ∷ []

-- What has ended of it.
abbrev counts : Connection → List ℕ
counts c = c.session.reads ∷ c.heard ∷ c.written ∷ outstanding c ∷ []

reads_again : counts (live parse parse_error [] accept streaming) ≡ 2 ∷ 1 ∷ 3 ∷ 1 ∷ []
unfolding live accept new_session outstanding step chunked_bytes make_chunk hex_digits
    handle_request handle_post occurs chat_completion
reads_again = refl

live-Single_example : outstanding (live parse parse_error [] accept streaming) ≤ 1
live-Single_example = live-Single parse parse_error [] streaming (
  tt,
  (
    tt,
    (
      tt,
      (
        (omega arith, (omega arith, tt)),
        (
          tt,
          (
            (omega arith, (omega arith, (omega arith, (omega arith, tt)))),
            (tt, (tt, (tt, (tt, (tt, (tt, (tt, (tt, tt)))))))),
          ),
        ),
      ),
    ),
  ),
)

-- Another session listens too.
abbrev others : EventDispatcher
others = record {
  listeners = (codes "b", record { callback = 1; events = asked_events } ∷ []) ∷ [];
  callbacks_count = 1;
}

nobody_asked : group_of (codes "a") others.listeners ≡ []
unfolding group_of find
nobody_asked = refl

others-IsMap : IsMap others.listeners
unfolding find
others-IsMap = (refl, tt)

abbrev spoken : List Dispatched
spoken = prefill_start 2 ∷ token_generated 0 (codes "x") ∷ []

spoken_on : All (λ e. is_end e ≡ false) spoken
unfolding is_end
spoken_on = (refl, (refl, tt))

last_ends : is_end (generation_completed eos 1) ≡ true
unfolding is_end
last_ends = refl

listen-hears_example :
    let r =
      hear_all
        (codes "a")
        (codes "a")
        (spoken ++ generation_completed eos 1 ∷ [])
        (listen (codes "a") 2 asked_events others) in
    (r.0 ≡ streamed (spoken ++ generation_completed eos 1 ∷ []))
    × (group_of (codes "a") r.1.listeners ≡ [])
    × (codes "a" ≡ codes "a" → r.1.callbacks_count ≡ 1)
listen-hears_example =
    listen-hears (codes "a") (codes "a") 2 others spoken (generation_completed eos 1) others-IsMap
      nobody_asked spoken_on last_ends
