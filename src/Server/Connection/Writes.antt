-- ===== src/Server/Connection/Writes.antt =====
-- The flushes and the ends of writes of a stream, in tools/serve/server.cpp.
use zinfer_lm.Base.{
  ℕ, ◌≡◌, refl, sym, subst, ◌∙◌, ◌⊎◌, inl, inr, Bool, true, false, List, [], ◌∷◌, length,
  length-append, All, none, some, arith, if◌then◌else◌,
}
use zinfer_lm.Streaming.{
  Session, Write, header, chunk, last_chunk, occurs, flush_on, flush, finish, header_written,
  chunk_written, written_on,
}
use zinfer_lm.Server.Connection.{Connection}
use zinfer_lm.Server.Connection.Phases.{
  IsClean, Fits, IsFlush, IsQuiet, IsLanded, FitsBehind, IsCleanWrite, Phase, idle, reading, ready,
  dead, flying,
}

-- A flush while nothing is written.
flush_on-Phase :
    (c : Connection) (sent : Bool) (queue : List (List ℕ))
    → IsLanded c
    → IsQuiet c
    → c.session.header_sent ≡ sent
    → c.session.streaming_queue ≡ queue
    → All IsFlush c.posted
    → Fits c.producing queue
    → Phase (record c { session = flush_on false sent queue c.session })
unfolding flush_on
flush_on-Phase c false queue landed quiet h q f fits =
    flying header quiet refl refl
      (length-append c.session.started (header ∷ []) ∙ omega (arith, landed.2)) f
      (subst (Fits c.producing) (sym q) fits)
flush_on-Phase c true [] landed quiet h q f fits =
    ready landed quiet h f (subst (Fits c.producing) (sym q) fits)
flush_on-Phase c true (x ∷ xs) landed quiet h q f fits =
    flying (chunk x) quiet refl refl
      (length-append c.session.started (chunk x ∷ []) ∙ omega (arith, landed.2)) f (h, fits)

pub flush-Phase :
    (c : Connection)
    → IsLanded c
    → IsQuiet c
    → All IsFlush c.posted
    → Fits c.producing c.session.streaming_queue
    → Phase (record c { session = flush c.session })
unfolding flush
flush-Phase c landed quiet f fits =
    subst
      (λ b. Phase (record c {
        session = flush_on b c.session.header_sent c.session.streaming_queue c.session;
      }))
      (sym landed.0)
      (flush_on-Phase c c.session.header_sent c.session.streaming_queue landed quiet refl refl f
        fits)

pub flush-writing : (s : Session) → s.is_writing ≡ true → flush s ≡ s
unfolding flush flush_on
flush-writing s e = rw e

abbrev idle_session : Session → Session
idle_session s = record s { in_flight = none; is_writing = false }

abbrev IsOver : Connection → Type 0
IsOver c = (c.session.streaming_queue ≡ []) × (c.producing ≡ false)

is_over :
    (c : Connection) (x : List ℕ) → occurs last_chunk x ≡ true → IsClean x ⊎ IsOver c → IsOver c
is_over c x e (inl clean) = absurd (cc)
is_over c x e (inr over) = over

nothing_posted :
    (c : Connection) (x : List ℕ)
    → occurs last_chunk x ≡ true
    → IsClean x ⊎ (c.posted ≡ [])
    → c.posted ≡ []
nothing_posted c x e (inl clean) = absurd (cc)
nothing_posted c x e (inr none_posted) = none_posted

last_ended :
    (c : Connection) (keep_alive : Bool)
    → IsQuiet c
    → length c.session.started ≡ c.written
    → IsOver c
    → c.posted ≡ []
    → Phase (record c { session = finish keep_alive (idle_session c.session) })
unfolding finish
last_ended c true quiet l over p =
    reading ((refl, refl, l), over.0, over.1) (omega (arith, quiet.0)) quiet.1 p
last_ended c false quiet l over p = idle ((refl, refl, l), over.0, over.1) quiet p

chunk_ended :
    (c : Connection) (x : List ℕ) (last : Bool)
    → occurs last_chunk x ≡ last
    → IsQuiet c
    → length c.session.started ≡ c.written
    → All IsFlush c.posted
    → IsClean x ⊎ (c.posted ≡ [])
    → Fits c.producing (x ∷ c.session.streaming_queue)
    → Phase (record c {
      session =
          if last
          then finish c.keep_alive (idle_session c.session)
          else flush (idle_session c.session);
    })
chunk_ended c x true e quiet l f clean fits =
    last_ended c c.keep_alive quiet l (is_over c x e fits.0) (nothing_posted c x e clean)
chunk_ended c x false e quiet l f clean fits =
    flush-Phase (record c { session = idle_session c.session }) (refl, refl, l) quiet f fits.1

-- The end of a write of the stream.
pub written_on-Phase :
    (c : Connection) (error : Bool) (w : Write)
    → IsQuiet c
    → c.session.is_writing ≡ true
    → length c.session.started ≡ c.written
    → All IsFlush c.posted
    → IsCleanWrite w ⊎ (c.posted ≡ [])
    → FitsBehind c w
    → Phase (record c { session = written_on error c.keep_alive (some w) c.session })
unfolding written_on header_written chunk_written
written_on-Phase c true header quiet b l f clean fits = dead quiet b refl l f
written_on-Phase c false header quiet b l f clean fits =
    flush-Phase
      (record c {
        session = record c.session { in_flight = none; header_sent = true; is_writing = false };
      })
      (refl, refl, l) quiet f fits
written_on-Phase c true (chunk x) quiet b l f clean fits =
    ready (refl, refl, l) quiet fits.0 f fits.1.1
written_on-Phase c false (chunk x) quiet b l f clean fits =
    chunk_ended c x (occurs last_chunk x) refl quiet l f clean fits.1
