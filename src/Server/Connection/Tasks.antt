-- ===== src/Server/Connection/Tasks.antt =====
-- The tasks of a connection of tools/serve/server.cpp outside of a stream.
use zinfer_lm.Base.{
  ℕ, ◌≡◌, sym, subst, inl, inr, Bool, true, false, List, [], Option, arith, Result, Result-cases,
}
use zinfer_lm.Streaming.{finish}
use zinfer_lm.Server.{Json, Reply, html_response, json_response, stream, Request, handle_request}
use zinfer_lm.Server.Replies.{handle_request-once}
use zinfer_lm.Server.Connection.{
  Heard, end_of_stream, read_error, request, Posted, starts_reading, has_read, sends, has_sent,
  begins_stream, flushes_queue, has_written, Connection, post_task, do_read, do_close, send_reply,
  send_replies, send_all, response_sent, handle_read, run_task,
}
use zinfer_lm.Server.Connection.Phases.{
  Fits, IsTask, IsQuiet, IsCalm, Phase, idle, task, reading, responding, opening,
}

-- The connection does nothing of its own, but may have something posted.
abbrev pub At : Connection → List Posted → Type 0
At c ps = IsCalm c × IsQuiet c × (c.posted ≡ ps)

closed_idle : (c : Connection) → At c [] → Phase (do_close c)
unfolding do_close finish
closed_idle c (calm, quiet, p) = idle calm quiet p

read_started : (c : Connection) → At c [] → Phase (do_read c)
unfolding do_read finish
read_started c (calm, quiet, p) = reading calm (omega (arith, quiet.0)) quiet.1 p

stays : (c : Connection) → At c [] → Phase c
stays c (calm, quiet, p) = idle calm quiet p

send_posted : (c : Connection) → At c [] → Phase (post_task sends c)
unfolding post_task
send_posted c (calm, quiet, p) = task sends tt calm quiet (rw p)

send_reply-Phase : (r : Reply) (c : Connection) → At c [] → Phase (send_reply r c)
unfolding send_reply post_task
send_reply-Phase (html_response status body) c at = send_posted c at
send_reply-Phase (json_response status payload) c at = send_posted c at
send_reply-Phase (stream messages) c (calm, quiet, p) =
    opening [] calm.0 quiet (rw p) tt (subst (Fits true) (sym calm.1) tt)

response_sent-Phase :
    (error keep_alive : Bool) (c : Connection) → At c [] → Phase (response_sent error keep_alive c)
unfolding response_sent
response_sent-Phase true keep_alive c at = stays c at
response_sent-Phase false true c at = read_started c at
response_sent-Phase false false c at = closed_idle c at

module _ (parse : List ℕ → Option Json) (parse_error : List ℕ → List ℕ) (index_html : List ℕ) where
  abbrev answer : Request → Result (List Reply)
  answer = handle_request parse parse_error index_html

  send_all-Phase : (r : Request) (c : Connection) → At c [] → Phase (send_all (answer r) c)
  unfolding send_replies
  send_all-Phase r c at = elim (Result-cases (answer r)) [
    | inr (fault, e) ↦ rw e (stays c at)
    | inl (replies, e) ↦ elim (handle_request-once parse parse_error index_html r replies e) [
      | inl (reply, one) ↦ rw (e, one) (send_reply-Phase reply c at)
      | inr (nothing, unknown) ↦ rw (e, nothing) (stays c at)
    ]
  ]

  handle_read-Phase :
      (h : Heard) (c : Connection) → At c [] → Phase (handle_read parse parse_error index_html h c)
  unfolding handle_read
  handle_read-Phase end_of_stream c at = closed_idle c at
  handle_read-Phase read_error c at = stays c at
  handle_read-Phase (request r keep_alive) c at =
      send_all-Phase r (record c { keep_alive = keep_alive }) at

  pub run_task-Phase :
      (p : Posted) (c : Connection)
      → IsTask p
      → At c []
      → Phase (run_task parse parse_error index_html p c)
  unfolding run_task
  run_task-Phase starts_reading c k at = read_started c at
  run_task-Phase (has_read h) c k at = handle_read-Phase h c at
  run_task-Phase sends c k (calm, quiet, p) = responding calm quiet.0 (omega (arith, quiet.1)) p
  run_task-Phase (has_sent error) c k at = response_sent-Phase error c.keep_alive c at
  run_task-Phase begins_stream c k at = absurd k
  run_task-Phase flushes_queue c k at = absurd k
  run_task-Phase (has_written error) c k at = absurd k
