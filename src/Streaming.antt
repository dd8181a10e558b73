-- ===== src/Streaming.antt =====
-- The streaming of a response, `Session` of tools/serve/server.hpp and server.cpp. All that touches
-- the socket runs on one strand, so that the state changes by one event at a time: a message that any
-- thread queues, a call that was posted to the strand, or the end of a write. JSON and the socket are
-- Boost's: a message is the text that `json::serialize` gave.
pub mod Order
pub mod Clean
use zinfer_lm.Base.{
  ℕ, zero, suc, ◌+◌, ◌/◌, ◌%◌, Bool, true, false, Option, none, some, List, [], ◌∷◌, ◌++◌, length,
  codes, ltb, if◌then◌else◌, take, bytes_beq,
}

-- The digits that `std::hex` puts out, with the digits that are behind; the fuel bounds them.
abbrev pub hex_digit : ℕ → ℕ
hex_digit d = if ltb d 10 then 48 + d else 87 + d

unfoldable pub hex_digits : ℕ → ℕ → List ℕ → List ℕ
hex_digits zero n behind = behind
hex_digits (suc f) n behind =
    let more = hex_digits f (n / 16) (hex_digit (n % 16) ∷ behind) in
    if ltb n 16 then hex_digit n ∷ behind else more

abbrev pub line_end : List ℕ
line_end = 13 ∷ 10 ∷ []

-- `make_chunk_`.
unfoldable pub make_chunk : List ℕ → List ℕ
unfolding hex_digits
make_chunk raw = hex_digits (suc (length raw)) (length raw) [] ++ (line_end ++ (raw ++ line_end))

abbrev pub last_chunk : List ℕ
last_chunk = codes "0" ++ (line_end ++ line_end)

abbrev pub event_end : List ℕ
event_end = 10 ∷ 10 ∷ []

-- The bytes that `stream_json_message` queues.
unfoldable pub chunked_bytes : List ℕ → Bool → List ℕ
unfolding make_chunk
chunked_bytes payload true =
    make_chunk (codes "data: " ++ (payload ++ (event_end ++ (codes "data: [DONE]" ++ event_end))))
    ++ last_chunk
chunked_bytes payload false = make_chunk (codes "data: " ++ (payload ++ event_end))

-- `find` on a string: whether `s` occurs in the text.
unfoldable pub occurs : List ℕ → List ℕ → Bool
occurs s [] = bytes_beq s []
occurs s (c ∷ cs) = if bytes_beq s (take (length s) (c ∷ cs)) then true else occurs s cs

pub data Write : Type 0 where
  header : Write
  chunk : List ℕ → Write

-- The members; the write that has not ended yet; the writes that were started, oldest first; and how
-- often the session went on to read or to close. A chunk stands for what the buffer of its write
-- holds when `async_write` is called: that buffer is a local string of `flush_streaming_queue_`, and
-- what the socket later reads there is not modelled. The callback has a copy of its own.
pub record Session : Type 0 where
  pub header_sent : Bool
  pub is_writing : Bool
  pub streaming_queue : List (List ℕ)
  pub in_flight : Option Write
  pub started : List Write
  pub reads : ℕ
  pub closes : ℕ

unfoldable pub new_session : Session
new_session = record {
  header_sent = false;
  is_writing = false;
  streaming_queue = [];
  in_flight = none;
  started = [];
  reads = 0;
  closes = 0;
}

-- `flush_streaming_queue_` by its members.
unfoldable pub flush_on : Bool → Bool → List (List ℕ) → Session → Session
flush_on true sent queue s = s
flush_on false false queue s = record s {
  is_writing = true;
  in_flight = some header;
  started = s.started ++ header ∷ [];
}
flush_on false true [] s = s
flush_on false true (c ∷ cs) s = record s {
  is_writing = true;
  streaming_queue = cs;
  in_flight = some (chunk c);
  started = s.started ++ chunk c ∷ [];
}

unfoldable pub flush : Session → Session
unfolding flush_on
flush s = flush_on s.is_writing s.header_sent s.streaming_queue s

-- `do_read_` or `do_close_`, behind the last chunk.
unfoldable pub finish : Bool → Session → Session
finish true s = record s { reads = s.reads + 1 }
finish false s = record s { closes = s.closes + 1 }

-- The callbacks of the two writes, by whether there was an error.
unfoldable pub header_written : Bool → Session → Session
unfolding flush
header_written true s = record s { in_flight = none; closes = s.closes + 1 }
header_written false s =
    flush (record s { in_flight = none; header_sent = true; is_writing = false })

unfoldable pub chunk_written : Bool → Bool → List ℕ → Session → Session
unfolding flush finish occurs
chunk_written true keep_alive c s = record s {
  in_flight = none;
  is_writing = false;
  closes = s.closes + 1;
}
chunk_written false keep_alive c s =
    let idle : Session = record s { in_flight = none; is_writing = false } in
    if occurs last_chunk c then finish keep_alive idle else flush idle

unfoldable pub written_on : Bool → Bool → Option Write → Session → Session
unfolding header_written chunk_written
written_on error keep_alive none s = s
written_on error keep_alive (some header) s = header_written error s
written_on error keep_alive (some (chunk c)) s = chunk_written error keep_alive c s

pub data Event : Type 0 where
  queues : List ℕ → Bool → Event
  initiates flushes : Event
  writes_end : Bool → Bool → Event

-- The critical section of `stream_json_message`; the flush that it posts is an event of its own.
unfoldable pub push : List ℕ → Session → Session
push c s = record s { streaming_queue = s.streaming_queue ++ c ∷ [] }

unfoldable pub step : Session → Event → Session
unfolding push flush written_on chunked_bytes
step s (queues payload is_end) = push (chunked_bytes payload is_end) s
step s initiates = flush (record s { header_sent = false })
step s flushes = flush s
step s (writes_end error keep_alive) = written_on error keep_alive s.in_flight s

unfoldable pub run : Session → List Event → Session
run s [] = s
run s (e ∷ es) = run (step s e) es
