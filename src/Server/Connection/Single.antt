-- ===== src/Server/Connection/Single.antt =====
-- What a connection of tools/serve/server.cpp does at a time.
use zinfer_lm.Base.{
  ℕ, suc, ◌≤◌, ◌≡◌, refl, sym, subst, ◌⊎◌, Bool, true, false, List, [], ◌∷◌, ◌++◌, length, All,
  Option, none, some,
}
use zinfer_lm.Streaming.{new_session, Write, step, flush, written_on}
use zinfer_lm.Server.{Json}
use zinfer_lm.Server.Connection.{
  Posted, starts_reading, begins_stream, has_written, Connection, accept, outstanding, run_task,
  run_first, Event, runs, read_ends, response_ends, stream_write_ends, says, react, live,
}
use zinfer_lm.Server.Connection.Ends.{
  end_read-Phase, end_response-Phase, end_stream_write-Phase, say-Phase,
}
use zinfer_lm.Streaming.Clean.{IsPrinted, chunked_bytes-IsClean}
use zinfer_lm.Server.Connection.Phases.{
  Fits, IsFlush, IsQuiet, IsLanded, FitsBehind, IsCleanWrite, Phase, idle, task, reading,
  responding, opening, ready, dead, flying, ended, Phase-outstanding,
}
use zinfer_lm.Server.Connection.Writes.{flush-Phase, flush-writing, written_on-Phase}
use zinfer_lm.Server.Connection.Tasks.{run_task-Phase}

-- What is streamed is printed JSON.
abbrev pub IsPrintedEvent : Event → Type 0
IsPrintedEvent (says payload is_end) = IsPrinted payload
IsPrintedEvent _ = Unit

module _ (parse : List ℕ → Option Json) (parse_error : List ℕ → List ℕ) (index_html : List ℕ) where
  abbrev Runs : Connection → List Posted → Type 0
  Runs c ps = Phase (run_first parse parse_error index_html ps c)

  nothing_runs :
      (c : Connection)
      → Phase c
      → c.posted ≡ []
      → Phase (run_first parse parse_error index_html c.posted c)
  unfolding run_first
  nothing_runs c h p = subst (λ ps. Phase (run_first parse parse_error index_html ps c)) (sym p) h

  -- A flush does nothing while a write is on the way.
  idle_flush :
      (c : Connection)
      → c.session.is_writing ≡ true
      → (ps : List Posted) → Phase (record c { posted = ps })
      → Phase (record c { posted = ps; session = flush c.session })
  idle_flush c b ps h =
      subst (λ s. Phase (record c { posted = ps; session = s })) (sym (flush-writing c.session b)) h

  ready-Runs :
      (c : Connection) (ps : List Posted)
      → c.posted ≡ ps
      → IsLanded c
      → IsQuiet c
      → c.session.header_sent ≡ true
      → All IsFlush ps
      → Fits c.producing c.session.streaming_queue
      → Runs c ps
  unfolding run_first run_task
  ready-Runs c [] p landed quiet h f fits =
      ready landed quiet h (subst (All IsFlush) (sym p) f) fits
  ready-Runs c (q ∷ ps) p landed quiet h f fits =
      rw f.0 (flush-Phase (record c { posted = ps }) landed quiet f.1 fits)

  dead-Runs :
      (c : Connection) (ps : List Posted)
      → c.posted ≡ ps
      → IsQuiet c
      → c.session.is_writing ≡ true
      → c.session.in_flight ≡ none
      → length c.session.started ≡ c.written
      → All IsFlush ps
      → Runs c ps
  unfolding run_first run_task
  dead-Runs c [] p quiet b n l f = dead quiet b n l (subst (All IsFlush) (sym p) f)
  dead-Runs c (q ∷ ps) p quiet b n l f = rw f.0 (idle_flush c b ps (dead quiet b n l f.1))

  flying-Runs :
      (c : Connection) (ps : List Posted) (w : Write)
      → c.posted ≡ ps
      → IsQuiet c
      → c.session.is_writing ≡ true
      → c.session.in_flight ≡ some w
      → length c.session.started ≡ suc c.written
      → All IsFlush ps
      → FitsBehind c w
      → Runs c ps
  unfolding run_first run_task
  flying-Runs c [] w p quiet b n l f fits =
      flying w quiet b n l (subst (All IsFlush) (sym p) f) fits
  flying-Runs c (q ∷ ps) w p quiet b n l f fits =
      rw f.0 (idle_flush c b ps (flying w quiet b n l f.1 fits))

  ended-Runs :
      (c : Connection) (w : Write) (error : Bool) (fs gs : List Posted)
      → IsQuiet c
      → c.session.is_writing ≡ true
      → c.session.in_flight ≡ some w
      → length c.session.started ≡ c.written
      → All IsFlush fs
      → All IsFlush gs
      → IsCleanWrite w ⊎ (gs ≡ [])
      → FitsBehind c w
      → Runs c (fs ++ has_written error ∷ gs)
  unfolding run_first run_task
  ended-Runs c w error [] gs quiet b n l f g clean fits =
      subst
        (λ o. Phase (record c { posted = gs; session = written_on error c.keep_alive o c.session }))
        (sym n) (written_on-Phase (record c { posted = gs }) error w quiet b l g clean fits)
  ended-Runs c w error (q ∷ fs) gs quiet b n l f g clean fits = rw f.0 (
      idle_flush c b (fs ++ has_written error ∷ gs)
        (ended w error fs gs quiet b n l refl f.1 g clean fits))

  abbrev RunsFirst : Connection → Type 0
  RunsFirst c = Phase (run_first parse parse_error index_html c.posted c)

  from_posted : (c : Connection) (ps : List Posted) → c.posted ≡ ps → Runs c ps → RunsFirst c
  from_posted c ps p h = subst (Runs c) (sym p) h

  runs-Phase : (c : Connection) → Phase c → RunsFirst c
  unfolding run_first run_task step
  runs-Phase c (idle calm quiet p) = nothing_runs c (idle calm quiet p) p
  runs-Phase c (task t k calm quiet p) = from_posted c (t ∷ []) p (
      run_task-Phase parse parse_error index_html t (record c { posted = [] }) k
        (calm, quiet, refl))
  runs-Phase c (reading calm heard responded p) = nothing_runs c (reading calm heard responded p) p
  runs-Phase c (responding calm heard responds p) =
      nothing_runs c (responding calm heard responds p) p
  runs-Phase c (opening fs landed quiet p f fits) = from_posted c (begins_stream ∷ fs) p (
      flush-Phase (record c { posted = fs; session = record c.session { header_sent = false } })
        landed quiet f fits)
  runs-Phase c (ready landed quiet h f fits) = ready-Runs c c.posted refl landed quiet h f fits
  runs-Phase c (dead quiet b n l f) = dead-Runs c c.posted refl quiet b n l f
  runs-Phase c (flying w quiet b n l f fits) = flying-Runs c c.posted w refl quiet b n l f fits
  runs-Phase c (ended w error fs gs quiet b n l p f g clean fits) =
      from_posted c (fs ++ has_written error ∷ gs) p
        (ended-Runs c w error fs gs quiet b n l f g clean fits)

  react-Phase :
      (c : Connection) (e : Event)
      → IsPrintedEvent e
      → Phase c
      → Phase (react parse parse_error index_html c e)
  unfolding react
  react-Phase c runs h s = runs-Phase c s
  react-Phase c (read_ends heard) h s = end_read-Phase heard c s
  react-Phase c (response_ends error) h s = end_response-Phase error c s
  react-Phase c (stream_write_ends error) h s = end_stream_write-Phase error c s
  react-Phase c (says payload true) h s = say-Phase payload true tt c s
  react-Phase c (says payload false) h s =
      say-Phase payload false (chunked_bytes-IsClean payload h) c s

  live-Phase :
      (c : Connection) (es : List Event)
      → All IsPrintedEvent es
      → Phase c
      → Phase (live parse parse_error index_html c es)
  unfolding live
  live-Phase c [] h s = s
  live-Phase c (e ∷ es) h s =
      live-Phase (react parse parse_error index_html c e) es h.1 (react-Phase c e h.0 s)

  accept-Phase : Phase accept
  unfolding accept new_session
  accept-Phase = task starts_reading tt ((refl, refl, refl), refl, refl) (refl, refl) refl

  -- At each moment of a connection, whatever ends in whatever order and whatever is asked and streamed,
  -- at most one operation on the socket has not ended: one read, one write of a response, or one
  -- write of a stream. The messages that are streamed are printed JSON, which has no carriage return,
  -- and each is queued and its flush posted without a task of the strand between.
  pub live-Single :
      (es : List Event)
      → All IsPrintedEvent es
      → outstanding (live parse parse_error index_html accept es) ≤ 1
  live-Single es h =
      Phase-outstanding (live parse parse_error index_html accept es)
        (live-Phase accept es h accept-Phase)
