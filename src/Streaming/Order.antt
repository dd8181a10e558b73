-- ===== src/Streaming/Order.antt =====
-- What is written to the socket is what was queued, in order, one write at a time.
use zinfer_lm.Base.{
  ℕ, ◌≡◌, refl, sym, ap, ◌∙◌, Bool, true, false, Option, none, some, List, [], ◌∷◌, ◌++◌,
  append_assoc, append-nil, if◌then◌else◌,
}
use zinfer_lm.Streaming.{
  Write, header, chunk, Session, new_session, flush_on, flush, finish, header_written,
  chunk_written, written_on, chunked_bytes, Event, queues, initiates, flushes, writes_end, push,
  step, run,
}

-- The chunks of some writes, and the chunks that some events queue.
abbrev pub chunks : List Write → List (List ℕ)
chunks [] = []
chunks (header ∷ ws) = chunks ws
chunks (chunk c ∷ ws) = c ∷ chunks ws

abbrev pub queued : List Event → List (List ℕ)
queued [] = []
queued (queues payload is_end ∷ es) = chunked_bytes payload is_end ∷ queued es
queued (initiates ∷ es) = queued es
queued (flushes ∷ es) = queued es
queued (writes_end error keep_alive ∷ es) = queued es

chunks-append : (xs ys : List Write) → chunks (xs ++ ys) ≡ chunks xs ++ chunks ys
chunks-append [] ys = refl
chunks-append (header ∷ xs) ys = chunks-append xs ys
chunks-append (chunk c ∷ xs) ys = ap (◌∷◌ c) (chunks-append xs ys)

-- The chunks of the started writes, and the waiting ones.
abbrev history : Session → List (List ℕ)
history s = chunks s.started ++ s.streaming_queue

flush_on-history :
    (b h : Bool) (q : List (List ℕ)) (s : Session)
    → s.streaming_queue ≡ q
    → history (flush_on b h q s) ≡ history s
unfolding flush_on
flush_on-history true h q s e = refl
flush_on-history false false q s e =
    ap (λ xs. xs ++ s.streaming_queue)
      (chunks-append s.started (header ∷ []) ∙ append-nil (chunks s.started))
flush_on-history false true [] s e = refl
flush_on-history false true (c ∷ cs) s e =
    ap (λ xs. xs ++ cs) (chunks-append s.started (chunk c ∷ []))
    ∙ append_assoc (chunks s.started) (c ∷ []) cs
    ∙ ap (◌++◌ (chunks s.started)) (sym e)

flush-history : (s : Session) → history (flush s) ≡ history s
unfolding flush
flush-history s = flush_on-history s.is_writing s.header_sent s.streaming_queue s refl

ended-history :
    (last keep_alive : Bool) (s : Session)
    → history (if last then finish keep_alive s else flush s) ≡ history s
unfolding finish
ended-history true true s = refl
ended-history true false s = refl
ended-history false keep_alive s = flush-history s

written-history :
    (error keep_alive : Bool) (w : Option Write) (s : Session)
    → history (written_on error keep_alive w s) ≡ history s
unfolding written_on header_written chunk_written
written-history error keep_alive none s = refl
written-history true keep_alive (some header) s = refl
written-history false keep_alive (some header) s =
    flush-history (record s { in_flight = none; header_sent = true; is_writing = false })
written-history true keep_alive (some (chunk c)) s = refl
written-history false keep_alive (some (chunk c)) s =
    ended-history _ keep_alive (record s { in_flight = none; is_writing = false })

step-history : (s : Session) (e : Event) → history (step s e) ≡ history s ++ queued (e ∷ [])
unfolding step push
step-history s (queues payload is_end) =
    sym (append_assoc (chunks s.started) s.streaming_queue (chunked_bytes payload is_end ∷ []))
step-history s initiates =
    flush-history (record s { header_sent = false }) ∙ sym (append-nil (history s))
step-history s flushes = flush-history s ∙ sym (append-nil (history s))
step-history s (writes_end error keep_alive) =
    written-history error keep_alive s.in_flight s ∙ sym (append-nil (history s))

queued-cons : (e : Event) (es : List Event) → queued (e ∷ es) ≡ queued (e ∷ []) ++ queued es
queued-cons (queues payload is_end) es = refl
queued-cons initiates es = refl
queued-cons flushes es = refl
queued-cons (writes_end error keep_alive) es = refl

run-history : (s : Session) (es : List Event) → history (run s es) ≡ history s ++ queued es
unfolding run
run-history s [] = sym (append-nil (history s))
run-history s (e ∷ es) =
    run-history (step s e) es
    ∙ ap (λ h. h ++ queued es) (step-history s e)
    ∙ append_assoc (history s) (queued (e ∷ [])) (queued es)
    ∙ ap (◌++◌ (history s)) (sym (queued-cons e es))

-- The first write of some is the header's.
abbrev pub BeginsWithHeader : List Write → Type 0
BeginsWithHeader [] = Unit
BeginsWithHeader (header ∷ ws) = Unit
BeginsWithHeader (chunk c ∷ ws) = ⊥

abbrev IsStarted : List Write → Type 0
IsStarted [] = ⊥
IsStarted (w ∷ ws) = Unit

-- What every event keeps: the header goes first, and it counts as sent, or a write is on the way,
-- only where a write was started.
record IsOrderly (s : Session) : Type 0 where
  first : BeginsWithHeader s.started
  sent : s.header_sent ≡ true → IsStarted s.started
  flying : (w : Write) → s.in_flight ≡ some w → IsStarted s.started

begins-append :
    (xs : List Write) (w : Write)
    → BeginsWithHeader xs
    → IsStarted xs
    → BeginsWithHeader (xs ++ w ∷ [])
begins-append [] w h k = absurd k
begins-append (header ∷ xs) w h k = tt
begins-append (chunk c ∷ xs) w h k = absurd h

begins-header : (xs : List Write) → BeginsWithHeader xs → BeginsWithHeader (xs ++ header ∷ [])
begins-header [] h = tt
begins-header (header ∷ xs) h = tt
begins-header (chunk c ∷ xs) h = absurd h

IsStarted-append : (xs : List Write) (w : Write) → IsStarted (xs ++ w ∷ [])
IsStarted-append [] w = tt
IsStarted-append (x ∷ xs) w = tt

flush_on-IsOrderly :
    (b h : Bool) (q : List (List ℕ)) (s : Session)
    → s.header_sent ≡ h
    → IsOrderly s
    → IsOrderly (flush_on b h q s)
unfolding flush_on
flush_on-IsOrderly true h q s e o = o
flush_on-IsOrderly false false q s e o = record {
  first = begins-header s.started o.first;
  sent = λ p. IsStarted-append s.started header;
  flying = λ w p. IsStarted-append s.started header;
}
flush_on-IsOrderly false true [] s e o = o
flush_on-IsOrderly false true (c ∷ cs) s e o = record {
  first = begins-append s.started (chunk c) o.first (o.sent e);
  sent = λ p. IsStarted-append s.started (chunk c);
  flying = λ w p. IsStarted-append s.started (chunk c);
}

flush-IsOrderly : (s : Session) → IsOrderly s → IsOrderly (flush s)
unfolding flush
flush-IsOrderly s o = flush_on-IsOrderly s.is_writing s.header_sent s.streaming_queue s refl o

ended-IsOrderly :
    (last keep_alive : Bool) (s : Session)
    → IsOrderly s
    → IsOrderly (if last then finish keep_alive s else flush s)
unfolding finish
ended-IsOrderly true true s o = record { first = o.first; sent = o.sent; flying = o.flying }
ended-IsOrderly true false s o = record { first = o.first; sent = o.sent; flying = o.flying }
ended-IsOrderly false keep_alive s o = flush-IsOrderly s o

written-IsOrderly :
    (error keep_alive : Bool) (w : Option Write) (s : Session)
    → s.in_flight ≡ w
    → IsOrderly s
    → IsOrderly (written_on error keep_alive w s)
unfolding written_on header_written chunk_written
written-IsOrderly error keep_alive none s e o = o
written-IsOrderly true keep_alive (some header) s e o = record {
  first = o.first;
  sent = o.sent;
  flying = λ w p. absurd (cc);
}
written-IsOrderly false keep_alive (some header) s e o =
    flush-IsOrderly (record s { in_flight = none; header_sent = true; is_writing = false })
      (record { first = o.first; sent = λ p. o.flying header e; flying = λ w p. absurd (cc) })
written-IsOrderly true keep_alive (some (chunk c)) s e o = record {
  first = o.first;
  sent = o.sent;
  flying = λ w p. absurd (cc);
}
written-IsOrderly false keep_alive (some (chunk c)) s e o =
    ended-IsOrderly _ keep_alive (record s { in_flight = none; is_writing = false })
      (record { first = o.first; sent = o.sent; flying = λ w p. absurd (cc) })

step-IsOrderly : (s : Session) (e : Event) → IsOrderly s → IsOrderly (step s e)
unfolding step push
step-IsOrderly s (queues payload is_end) o = record {
  first = o.first;
  sent = o.sent;
  flying = o.flying;
}
step-IsOrderly s initiates o =
    flush-IsOrderly (record s { header_sent = false })
      (record { first = o.first; sent = λ p. absurd (cc); flying = o.flying })
step-IsOrderly s flushes o = flush-IsOrderly s o
step-IsOrderly s (writes_end error keep_alive) o =
    written-IsOrderly error keep_alive s.in_flight s refl o

run-IsOrderly : (s : Session) (es : List Event) → IsOrderly s → IsOrderly (run s es)
unfolding run
run-IsOrderly s [] o = o
run-IsOrderly s (e ∷ es) o = run-IsOrderly (step s e) es (step-IsOrderly s e o)

-- Whatever the order of queued messages, posted calls and ends of writes, with or without errors:
-- the chunks that `async_write` was called with and the chunks that wait are together exactly those
-- that were queued, in order, none dropped and none handed over twice; and the first write is the
-- header's. A chunk counts by what its buffer holds when the write is started.
pub stream-order :
    (es : List Event)
    → let s = run new_session es in
      (chunks s.started ++ s.streaming_queue ≡ queued es) × BeginsWithHeader s.started
stream-order es = (run-history new_session es ∙ nothing, (run-IsOrderly new_session es fresh).first)
  where
    nothing : history new_session ++ queued es ≡ queued es
    nothing = unfold new_session in refl

    fresh : IsOrderly new_session
    fresh = record {
      first = unfold new_session in tt;
      sent = unfold new_session in (λ p. absurd (cc));
      flying = unfold new_session in (λ w p. absurd (cc));
    }
