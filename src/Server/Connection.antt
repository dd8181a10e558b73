-- ===== src/Server/Connection.antt =====
-- The life of a connection, `Session` of tools/serve/server.cpp: which operation on the socket is
-- started when. All handlers run one by one on the strand, in the order in which they were posted;
-- `posted` is that queue. An operation that ends posts its handler. `stream_json_message` queues a
-- message under a lock and posts its flush behind it; here the two are one event, so that no task of
-- the strand runs between them.
pub mod Phases
pub mod Writes
pub mod Tasks
pub mod Ends
pub mod Single
use zinfer_lm.Base.{
  ℕ, suc, ◌+◌, ◌-◌, Bool, true, false, List, [], ◌∷◌, ◌++◌, length, Option, none, some, Result, ok,
  err, if◌then◌else◌, ltb,
}
use zinfer_lm.Streaming.{
  Session, new_session, flush, finish, written_on, push, chunked_bytes, step, initiates,
}
use zinfer_lm.Server.{Reply, html_response, json_response, stream, Request, Json, handle_request}

-- How a read ends: by the end of the stream, by another error, or with a request and whether it is
-- kept alive.
pub data Heard : Type 0 where
  end_of_stream read_error : Heard
  request : Request → Bool → Heard

-- What is posted to the strand: the calls of `do_read_`, of the write of a response, of
-- `initiate_streaming` and of `flush_streaming_queue_`, and the handlers of what has ended, with
-- whether there was an error.
pub data Posted : Type 0 where
  starts_reading : Posted
  has_read : Heard → Posted
  sends : Posted
  has_sent : Bool → Posted
  begins_stream flushes_queue : Posted
  has_written : Bool → Posted

-- The session, with `reads` for the reads that it has started and `started` for its writes of the
-- stream; how many of these have ended; the responses that are being written; `req_.keep_alive()`;
-- and whether a chat may still stream to the session.
pub record Connection : Type 0 where
  pub session : Session
  pub heard : ℕ
  pub written : ℕ
  pub responding : ℕ
  pub posted : List Posted
  pub keep_alive : Bool
  pub producing : Bool

-- `run`, for a new session.
unfoldable pub accept : Connection
accept = record {
  session = new_session;
  heard = 0;
  written = 0;
  responding = 0;
  posted = starts_reading ∷ [];
  keep_alive = false;
  producing = false;
}

-- The operations on the socket that have not ended.
unfoldable pub outstanding : Connection → ℕ
outstanding c =
    (c.session.reads - c.heard) + ((length c.session.started - c.written) + c.responding)

unfoldable pub post_task : Posted → Connection → Connection
post_task p c = record c { posted = c.posted ++ p ∷ [] }

-- `do_read_`, and `do_close_`.
unfoldable pub do_read : Connection → Connection
unfolding finish
do_read c = record c { session = finish true c.session }

unfoldable pub do_close : Connection → Connection
unfolding finish
do_close c = record c { session = finish false c.session }

-- What a reply does: `send_response_` posts the write, and a chat is streamed, since `streaming` is
-- always true in `chat_completion`.
unfoldable pub send_reply : Reply → Connection → Connection
unfolding post_task
send_reply (html_response status body) c = post_task sends c
send_reply (json_response status payload) c = post_task sends c
send_reply (stream messages) c = record (post_task begins_stream c) { producing = true }

unfoldable pub send_replies : List Reply → Connection → Connection
unfolding send_reply
send_replies [] c = c
send_replies (r ∷ rs) c = send_replies rs (send_reply r c)

-- An exception leaves the handler.
abbrev pub send_all : Result (List Reply) → Connection → Connection
unfolding send_replies
send_all (err fault) c = c
send_all (ok replies) c = send_replies replies c

-- The handler of the write of a response.
unfoldable pub response_sent : Bool → Bool → Connection → Connection
unfolding do_read do_close
response_sent true keep_alive c = c
response_sent false true c = do_read c
response_sent false false c = do_close c

-- What happens: a task of the strand runs; an operation on the socket ends; or the chat streams a
-- message, the last one or not.
pub data Event : Type 0 where
  runs : Event
  read_ends : Heard → Event
  response_ends stream_write_ends : Bool → Event
  says : List ℕ → Bool → Event

-- The end of an operation, if there is one.
unfoldable pub end_read : Heard → Connection → Connection
unfolding post_task
end_read h c =
    if ltb c.heard c.session.reads
    then record (post_task (has_read h) c) { heard = suc c.heard }
    else c

unfoldable pub end_response : Bool → Connection → Connection
unfolding post_task
end_response error c =
    if ltb 0 c.responding
    then record (post_task (has_sent error) c) { responding = c.responding - 1 }
    else c

unfoldable pub end_stream_write : Bool → Connection → Connection
unfolding post_task
end_stream_write error c =
    if ltb c.written (length c.session.started)
    then record (post_task (has_written error) c) { written = suc c.written }
    else c

-- `stream_json_message`; behind the last message the chat's callback is not called again.
unfoldable pub say : List ℕ → Bool → Connection → Connection
unfolding post_task push chunked_bytes
say payload is_end c =
    if c.producing
    then record (post_task flushes_queue c) {
      session = push (chunked_bytes payload is_end) c.session;
      producing = if is_end then false else true;
    }
    else c

module _ (parse : List ℕ → Option Json) (parse_error : List ℕ → List ℕ) (index_html : List ℕ) where
  -- The handler of a read.
  unfoldable pub handle_read : Heard → Connection → Connection
  unfolding do_close send_replies
  handle_read end_of_stream c = do_close c
  handle_read read_error c = c
  handle_read (request r keep_alive) c =
      send_all (handle_request parse parse_error index_html r)
        (record c { keep_alive = keep_alive })

  -- One task of the strand.
  unfoldable pub run_task : Posted → Connection → Connection
  unfolding do_read handle_read response_sent
  run_task starts_reading c = do_read c
  run_task (has_read h) c = handle_read h c
  run_task sends c = record c { responding = suc c.responding }
  run_task (has_sent error) c = response_sent error c.keep_alive c
  run_task begins_stream c = record c { session = step c.session initiates }
  run_task flushes_queue c = record c { session = flush c.session }
  run_task (has_written error) c = record c {
    session = written_on error c.keep_alive c.session.in_flight c.session;
  }

  unfoldable pub run_first : List Posted → Connection → Connection
  unfolding run_task
  run_first [] c = c
  run_first (p ∷ ps) c = run_task p (record c { posted = ps })

  unfoldable pub react : Connection → Event → Connection
  unfolding run_first end_read end_response end_stream_write say
  react c runs = run_first c.posted c
  react c (read_ends h) = end_read h c
  react c (response_ends error) = end_response error c
  react c (stream_write_ends error) = end_stream_write error c
  react c (says payload is_end) = say payload is_end c

  unfoldable pub live : Connection → List Event → Connection
  unfolding react
  live c [] = c
  live c (e ∷ es) = live (react c e) es
