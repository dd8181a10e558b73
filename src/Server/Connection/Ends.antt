-- ===== src/Server/Connection/Ends.antt =====
-- The ends of the operations of a connection of tools/serve/server.cpp, and what a chat streams to it.
use zinfer_lm.Base.{
  ℕ, suc, ◌<◌, ◌≡◌, refl, ◌⊎◌, inl, inr, Bool, Bool-cases, true, false, List, [], ◌∷◌, ◌++◌,
  append_assoc, length, All, All-append, some, arith, if◌then◌else◌, ltb, ltb→lt,
}
use zinfer_lm.Streaming.{Write, header, chunk, chunked_bytes, push}
use zinfer_lm.Server.Connection.{
  Heard, Posted, has_read, has_sent, flushes_queue, has_written, Connection, end_read, end_response,
  end_stream_write, say, post_task,
}
use zinfer_lm.Server.Connection.Phases.{
  IsClean, Fits, FitsBetween, IsFlush, IsQuiet, IsCalm, FitsBehind, IsCleanWrite, Phase, idle, task,
  reading, responding, opening, ready, dead, flying, ended,
}

-- A connection whose reads have not all ended is reading.
IsReading :
    (c : Connection)
    → Phase c
    → c.heard < c.session.reads
    → IsCalm c × (c.session.reads ≡ suc c.heard) × (c.responding ≡ 0) × (c.posted ≡ [])
IsReading c (reading calm heard responded p) lt = (calm, heard, responded, p)
IsReading c (idle calm quiet p) lt = absurd (omega (arith, quiet.0))
IsReading c (task t k calm quiet p) lt = absurd (omega (arith, quiet.0))
IsReading c (responding calm heard responds p) lt = absurd (omega (arith, heard))
IsReading c (opening fs landed quiet p f fits) lt = absurd (omega (arith, quiet.0))
IsReading c (ready landed quiet h f fits) lt = absurd (omega (arith, quiet.0))
IsReading c (dead quiet b n l f) lt = absurd (omega (arith, quiet.0))
IsReading c (flying w quiet b n l f fits) lt = absurd (omega (arith, quiet.0))
IsReading c (ended w e fs gs quiet b n l p f g clean fits) lt = absurd (omega (arith, quiet.0))

IsResponding :
    (c : Connection)
    → Phase c
    → 0 < c.responding
    → IsCalm c × (c.session.reads ≡ c.heard) × (c.responding ≡ 1) × (c.posted ≡ [])
IsResponding c (responding calm heard responds p) lt = (calm, heard, responds, p)
IsResponding c (reading calm heard responded p) lt = absurd (omega (arith, responded))
IsResponding c (idle calm quiet p) lt = absurd (omega (arith, quiet.1))
IsResponding c (task t k calm quiet p) lt = absurd (omega (arith, quiet.1))
IsResponding c (opening fs landed quiet p f fits) lt = absurd (omega (arith, quiet.1))
IsResponding c (ready landed quiet h f fits) lt = absurd (omega (arith, quiet.1))
IsResponding c (dead quiet b n l f) lt = absurd (omega (arith, quiet.1))
IsResponding c (flying w quiet b n l f fits) lt = absurd (omega (arith, quiet.1))
IsResponding c (ended w e fs gs quiet b n l p f g clean fits) lt = absurd (omega (arith, quiet.1))

abbrev Flies : Connection → Type 0
Flies c =
    (w : Write) × IsQuiet c
    × (c.session.is_writing ≡ true)
    × (c.session.in_flight ≡ some w)
    × (length c.session.started ≡ suc c.written)
    × All IsFlush c.posted
    × FitsBehind c w

IsFlying : (c : Connection) → Phase c → c.written < length c.session.started → Flies c
IsFlying c (flying w quiet b n l f fits) lt = (w, quiet, b, n, l, f, fits)
IsFlying c (reading calm heard responded p) lt = absurd (omega (arith, calm.0.2))
IsFlying c (responding calm heard responds p) lt = absurd (omega (arith, calm.0.2))
IsFlying c (idle calm quiet p) lt = absurd (omega (arith, calm.0.2))
IsFlying c (task t k calm quiet p) lt = absurd (omega (arith, calm.0.2))
IsFlying c (opening fs landed quiet p f fits) lt = absurd (omega (arith, landed.2))
IsFlying c (ready landed quiet h f fits) lt = absurd (omega (arith, landed.2))
IsFlying c (dead quiet b n l f) lt = absurd (omega (arith, l))
IsFlying c (ended w e fs gs quiet b n l p f g clean fits) lt = absurd (omega (arith, l))

pub end_read-Phase : (h : Heard) (c : Connection) → Phase c → Phase (end_read h c)
unfolding end_read post_task
end_read-Phase h c s = elim (Bool-cases (ltb c.heard c.session.reads)) [
  | inr e ↦ rw e s
  | inl e ↦
      let (calm, heard, responded, p) = IsReading c s (ltb→lt c.heard c.session.reads e) in
      rw e (task (has_read h) tt calm (heard, responded) (rw p))
]

pub end_response-Phase : (error : Bool) (c : Connection) → Phase c → Phase (end_response error c)
unfolding end_response post_task
end_response-Phase error c s = elim (Bool-cases (ltb 0 c.responding)) [
  | inr e ↦ rw e s
  | inl e ↦
      let (calm, heard, responds, p) = IsResponding c s (ltb→lt 0 c.responding e) in
      rw e (task (has_sent error) tt calm (heard, omega (arith, responds)) (rw p))
]

pub end_stream_write-Phase :
    (error : Bool) (c : Connection) → Phase c → Phase (end_stream_write error c)
unfolding end_stream_write post_task
end_stream_write-Phase error c s = elim (Bool-cases (ltb c.written (length c.session.started))) [
  | inr e ↦ rw e s
  | inl e ↦
      let (w, quiet, b, n, l, f, fits) =
        IsFlying c s (ltb→lt c.written (length c.session.started) e) in
      rw e (ended w error c.posted [] quiet b n l refl f tt (inr refl) fits)
]

-- A message behind which the chat goes on does not look like the last one.
abbrev pub IsSaid : List ℕ → Bool → Type 0
IsSaid payload true = Unit
IsSaid payload false = IsClean (chunked_bytes payload false)

All-IsClean :
    (producing : Bool) (q : List (List ℕ)) → producing ≡ true → Fits producing q → All IsClean q
All-IsClean producing [] on fits = tt
All-IsClean producing (x ∷ q) on (inl clean, fits) = (clean, All-IsClean producing q on fits)
All-IsClean producing (x ∷ q) on (inr (e, off), fits) = absurd (cc)

abbrev goes_on : Bool → Bool
goes_on is_end = if is_end then false else true

said_fits :
    (payload : List ℕ) (is_end : Bool)
    → IsSaid payload is_end
    → IsClean (chunked_bytes payload is_end) ⊎ (goes_on is_end ≡ false)
said_fits payload true h = inr refl
said_fits payload false h = inl h

Fits-append :
    (q : List (List ℕ)) (x : List ℕ) (producing : Bool)
    → All IsClean q
    → IsClean x ⊎ (producing ≡ false)
    → Fits producing (q ++ x ∷ [])
Fits-append [] x producing h (inl clean) = (inl clean, tt)
Fits-append [] x producing h (inr off) = (inr (refl, off), tt)
Fits-append (y ∷ q) x producing h k = (inl h.0, Fits-append q x producing h.1 k)

module _ (payload : List ℕ) (is_end : Bool) (h : IsSaid payload is_end) where
  abbrev more : List ℕ
  more = chunked_bytes payload is_end

  Fits-more :
      (producing : Bool) (q : List (List ℕ))
      → producing ≡ true
      → Fits producing q
      → Fits (goes_on is_end) (q ++ more ∷ [])
  Fits-more producing q on fits =
      Fits-append q more (goes_on is_end) (All-IsClean producing q on fits)
        (said_fits payload is_end h)

  behind_more :
      (w : Write) (producing sent : Bool) (q : List (List ℕ))
      → producing ≡ true
      → FitsBetween producing sent q w
      → FitsBetween (goes_on is_end) sent (q ++ more ∷ []) w
  behind_more header producing sent q on fits = Fits-more producing q on fits
  behind_more (chunk x) producing sent q on fits = (fits.0, Fits-more producing (x ∷ q) on fits.1)

  clean_write :
      (w : Write) (producing sent : Bool) (q : List (List ℕ))
      → producing ≡ true
      → FitsBetween producing sent q w
      → IsCleanWrite w
  clean_write header producing sent q on fits = tt
  clean_write (chunk x) producing sent q on fits = (All-IsClean producing (x ∷ q) on fits.1).0

  IsFlush-behind : (ps : List Posted) → All IsFlush ps → All IsFlush (ps ++ flushes_queue ∷ [])
  IsFlush-behind ps f = All-append IsFlush ps (flushes_queue ∷ []) f (refl, tt)

  abbrev said : Connection → Connection
  said c = record (post_task flushes_queue c) {
    session = push more c.session;
    producing = goes_on is_end;
  }

  said-Phase : (c : Connection) → c.producing ≡ true → Phase c → Phase (said c)
  unfolding post_task push
  said-Phase c on (idle calm quiet p) = absurd (cc)
  said-Phase c on (task t k calm quiet p) = absurd (cc)
  said-Phase c on (reading calm heard responded p) = absurd (cc)
  said-Phase c on (responding calm heard responds p) = absurd (cc)
  said-Phase c on (opening fs landed quiet p f fits) =
      opening (fs ++ flushes_queue ∷ []) landed quiet (rw p) (IsFlush-behind fs f)
        (Fits-more c.producing c.session.streaming_queue on fits)
  said-Phase c on (ready landed quiet sent f fits) =
      ready landed quiet sent (IsFlush-behind c.posted f)
        (Fits-more c.producing c.session.streaming_queue on fits)
  said-Phase c on (dead quiet b n l f) = dead quiet b n l (IsFlush-behind c.posted f)
  said-Phase c on (flying w quiet b n l f fits) =
      flying w quiet b n l (IsFlush-behind c.posted f)
        (behind_more w c.producing c.session.header_sent c.session.streaming_queue on fits)
  said-Phase c on (ended w error fs gs quiet b n l p f g clean fits) =
      ended w error fs (gs ++ flushes_queue ∷ []) quiet b n l
        (rw p (append_assoc fs (has_written error ∷ gs) (flushes_queue ∷ []))) f
        (IsFlush-behind gs g)
        (inl (clean_write w c.producing c.session.header_sent c.session.streaming_queue on fits))
        (behind_more w c.producing c.session.header_sent c.session.streaming_queue on fits)

  say_on-Phase :
      (b : Bool) (c : Connection) → c.producing ≡ b → Phase c → Phase (if b then said c else c)
  say_on-Phase true c on s = said-Phase c on s
  say_on-Phase false c off s = s

  pub say-Phase : (c : Connection) → Phase c → Phase (say payload is_end c)
  unfolding say
  say-Phase c s = say_on-Phase c.producing c refl s
