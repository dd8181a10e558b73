-- ===== src/Server/Connection/Phases.antt =====
-- The phases that a connection of tools/serve/server.cpp goes through.
use zinfer_lm.Base.{
  ℕ, suc, ◌≤◌, ◌≡◌, ◌⊎◌, Bool, true, false, List, [], ◌∷◌, ◌++◌, length, All, none, some, arith,
}
use zinfer_lm.Streaming.{Write, header, chunk, last_chunk, occurs}
use zinfer_lm.Server.Connection.{
  Posted, starts_reading, has_read, sends, has_sent, begins_stream, flushes_queue, has_written,
  Connection, outstanding,
}

-- A chunk behind which the session goes on to stream.
abbrev pub IsClean : List ℕ → Type 0
IsClean c = occurs last_chunk c ≡ false

-- Each chunk that waits is followed by no other, and by no other to come, if it ends the stream.
abbrev pub Fits : Bool → List (List ℕ) → Type 0
Fits producing [] = Unit
Fits producing (c ∷ cs) = (IsClean c ⊎ ((cs ≡ []) × (producing ≡ false))) × Fits producing cs

abbrev pub IsFlush : Posted → Type 0
IsFlush p = p ≡ flushes_queue

-- What is posted outside of a stream.
abbrev pub IsTask : Posted → Type 0
IsTask starts_reading = Unit
IsTask (has_read h) = Unit
IsTask sends = Unit
IsTask (has_sent error) = Unit
IsTask begins_stream = ⊥
IsTask flushes_queue = ⊥
IsTask (has_written error) = ⊥

-- No read and no response is on the way.
abbrev pub IsQuiet : Connection → Type 0
IsQuiet c = (c.session.reads ≡ c.heard) × (c.responding ≡ 0)

-- No write of a stream is on the way.
abbrev pub IsLanded : Connection → Type 0
IsLanded c =
    (c.session.is_writing ≡ false)
    × (c.session.in_flight ≡ none)
    × (length c.session.started ≡ c.written)

-- There is no stream.
abbrev pub IsCalm : Connection → Type 0
IsCalm c = IsLanded c × (c.session.streaming_queue ≡ []) × (c.producing ≡ false)

abbrev pub FitsBetween : Bool → Bool → List (List ℕ) → Write → Type 0
FitsBetween producing sent queue header = Fits producing queue
FitsBetween producing sent queue (chunk x) = (sent ≡ true) × Fits producing (x ∷ queue)

-- What waits fits behind the write.
abbrev pub FitsBehind : Connection → Write → Type 0
FitsBehind c w = FitsBetween c.producing c.session.header_sent c.session.streaming_queue w

abbrev pub IsCleanWrite : Write → Type 0
IsCleanWrite header = Unit
IsCleanWrite (chunk x) = IsClean x

pub data Phase (c : Connection) : Type 0 where
  idle : IsCalm c → IsQuiet c → c.posted ≡ [] → Phase c
  task : (p : Posted) → IsTask p → IsCalm c → IsQuiet c → c.posted ≡ p ∷ [] → Phase c
  reading : IsCalm c → c.session.reads ≡ suc c.heard → c.responding ≡ 0 → c.posted ≡ [] → Phase c
  responding : IsCalm c → c.session.reads ≡ c.heard → c.responding ≡ 1 → c.posted ≡ [] → Phase c
  opening :
      (fs : List Posted)
      → IsLanded c
      → IsQuiet c
      → c.posted ≡ begins_stream ∷ fs
      → All IsFlush fs
      → Fits c.producing c.session.streaming_queue
      → Phase c
  ready :
      IsLanded c
      → IsQuiet c
      → c.session.header_sent ≡ true
      → All IsFlush c.posted
      → Fits c.producing c.session.streaming_queue
      → Phase c
  dead :
      IsQuiet c
      → c.session.is_writing ≡ true
      → c.session.in_flight ≡ none
      → length c.session.started ≡ c.written
      → All IsFlush c.posted
      → Phase c
  flying :
      (w : Write)
      → IsQuiet c
      → c.session.is_writing ≡ true
      → c.session.in_flight ≡ some w
      → length c.session.started ≡ suc c.written
      → All IsFlush c.posted
      → FitsBehind c w
      → Phase c
  ended :
      (w : Write) (error : Bool) (fs gs : List Posted)
      → IsQuiet c
      → c.session.is_writing ≡ true
      → c.session.in_flight ≡ some w
      → length c.session.started ≡ c.written
      → c.posted ≡ fs ++ has_written error ∷ gs
      → All IsFlush fs
      → All IsFlush gs
      → IsCleanWrite w ⊎ (gs ≡ [])
      → FitsBehind c w
      → Phase c

pub Phase-outstanding : (c : Connection) → Phase c → outstanding c ≤ 1
unfolding outstanding
Phase-outstanding c (idle calm quiet p) = omega (arith, quiet.0, quiet.1, calm.0.2)
Phase-outstanding c (task t k calm quiet p) = omega (arith, quiet.0, quiet.1, calm.0.2)
Phase-outstanding c (reading calm heard responded p) = omega (arith, heard, responded, calm.0.2)
Phase-outstanding c (responding calm heard responds p) = omega (arith, heard, responds, calm.0.2)
Phase-outstanding c (opening fs landed quiet p f fits) = omega (arith, quiet.0, quiet.1, landed.2)
Phase-outstanding c (ready landed quiet h f fits) = omega (arith, quiet.0, quiet.1, landed.2)
Phase-outstanding c (dead quiet w n l f) = omega (arith, quiet.0, quiet.1, l)
Phase-outstanding c (flying w quiet b n l f fits) = omega (arith, quiet.0, quiet.1, l)
Phase-outstanding c (ended w e fs gs quiet b n l p f g cl fits) = omega (arith, quiet.0, quiet.1, l)
