-- ===== src/Worker/Stop.antt =====
-- Stopping the worker: nothing is accepted afterwards, and every promise is settled.
use zinfer_lm.Base.{
  ℕ, ◌≡◌, refl, ◌∙◌, sym, Bool, true, false, Option, none, some, List, [], ◌∷◌, append-nil, arith,
}
use zinfer_lm.Worker.{
  Outcome, Worker, start, add_on, wake_on, execute_on, Event, adds, stops, wakes, ends, or_same,
  step, run, accepted,
}
use zinfer_lm.Worker.Order.{settled_tasks, history, step-history, run-history_start}

-- A thread that has left `run` left it because the worker was stopped, and left nothing behind.
pub record IsSound (w : Worker) : Type 0 where
  pub left : w.in_run ≡ false → (w.running ≡ false) × (w.tasks ≡ []) × (w.executing ≡ none)

start-IsSound : IsSound start
start-IsSound = record { left = unfold start in (λ e. absurd (cc)) }

wake-IsSound :
    (o : Option ℕ) (b r : Bool) (xs : List ℕ) (s : List (ℕ × Outcome))
    → let w : Worker = record { running = r; tasks = xs; executing = o; in_run = b; settled = s } in
      IsSound w → IsSound (or_same w (wake_on o b r xs s))
unfolding wake_on
wake-IsSound (some x) b r xs s h = h
wake-IsSound none false r xs s h = h
wake-IsSound none true false xs s h = record { left = λ e. (refl, refl, refl) }
wake-IsSound none true true [] s h = h
wake-IsSound none true true (x ∷ xs) s h = record { left = λ e. absurd (cc) }

add-IsSound : (x : ℕ) (r : Bool) (w : Worker) → w.running ≡ r → IsSound w → IsSound (add_on r x w).0
unfolding add_on
add-IsSound x true w e h = record { left = λ p. absurd (cc (h.left p).0) }
add-IsSound x false w e h = h

end-IsSound :
    (r : Bool) (o : Option ℕ) (w : Worker)
    → w.executing ≡ o
    → IsSound w
    → IsSound (or_same w (execute_on r o w))
unfolding execute_on
end-IsSound r none w e h = h
end-IsSound r (some x) w e h = record { left = λ p. absurd (cc (h.left p).2) }

step-IsSound : (w : Worker) (e : Event) → IsSound w → IsSound (step w e)
unfolding step
step-IsSound w (adds x) h = add-IsSound x w.running w refl h
step-IsSound w stops h = record { left = λ e. (refl, (h.left e).1, (h.left e).2) }
step-IsSound w wakes h = wake-IsSound w.executing w.in_run w.running w.tasks w.settled h
step-IsSound w (ends r) h = end-IsSound r w.executing w refl h

run-IsSound : (w : Worker) (es : List Event) → IsSound w → IsSound (run w es)
unfolding run
run-IsSound w [] h = h
run-IsSound w (e ∷ es) h = run-IsSound (step w e) es (step-IsSound w e h)

wake-stopped :
    (o : Option ℕ) (b r : Bool) (xs : List ℕ) (s : List (ℕ × Outcome))
    → r ≡ false
    → (or_same
        (record { running = r; tasks = xs; executing = o; in_run = b; settled = s })
        (wake_on o b r xs s)).running
      ≡ false
unfolding wake_on
wake-stopped (some x) b r xs s h = h
wake-stopped none false r xs s h = h
wake-stopped none true false xs s h = refl
wake-stopped none true true [] s h = h
wake-stopped none true true (x ∷ xs) s h = h

end-stopped :
    (r : Bool) (o : Option ℕ) (w : Worker)
    → w.running ≡ false
    → (or_same w (execute_on r o w)).running ≡ false
unfolding execute_on
end-stopped r none w h = h
end-stopped r (some x) w h = h

add-stopped : (x : ℕ) (r : Bool) (w : Worker) → w.running ≡ false → (add_on r x w).0.running ≡ false
unfolding add_on
add-stopped x true w h = h
add-stopped x false w h = h

step-stopped : (w : Worker) (e : Event) → w.running ≡ false → (step w e).running ≡ false
unfolding step
step-stopped w (adds x) h = add-stopped x w.running w h
step-stopped w stops h = refl
step-stopped w wakes h = wake-stopped w.executing w.in_run w.running w.tasks w.settled h
step-stopped w (ends r) h = end-stopped r w.executing w h

-- A stopped worker accepts nothing any more, whatever happens.
pub stopped-accepted : (w : Worker) (es : List Event) → w.running ≡ false → accepted w es ≡ []
unfolding accepted
stopped-accepted w [] h = refl
stopped-accepted w (adds x ∷ es) h =
    ground (arith, stopped-accepted (step w (adds x)) es (step-stopped w (adds x) h))
stopped-accepted w (stops ∷ es) h = stopped-accepted (step w stops) es (step-stopped w stops h)
stopped-accepted w (wakes ∷ es) h = stopped-accepted (step w wakes) es (step-stopped w wakes h)
stopped-accepted w (ends r ∷ es) h =
    stopped-accepted (step w (ends r)) es (step-stopped w (ends r) h)

abbrev IsDrained : Worker → Type 0
IsDrained w = (w.tasks ≡ []) × (w.executing ≡ none) × (w.in_run ≡ false)

drain-on :
    (o : Option ℕ) (b r : Bool) (xs : List ℕ) (s : List (ℕ × Outcome)) (returned : Bool)
    → let w : Worker = record { running = r; tasks = xs; executing = o; in_run = b; settled = s } in
      IsSound w → r ≡ false → IsDrained (step (step w (ends returned)) wakes)
unfolding step wake_on execute_on
drain-on o b true xs s returned h e = absurd (cc)
drain-on (some x) true false xs s returned h e = (refl, refl, refl)
drain-on (some x) false false xs s returned h e = absurd (cc (h.left refl).2)
drain-on none true false xs s returned h e = (refl, refl, refl)
drain-on none false false xs s returned h e = ((h.left refl).1, refl, refl)

only_settled : (w : Worker) → w.tasks ≡ [] → w.executing ≡ none → history w ≡ settled_tasks w
only_settled w e p = rw (e, p) (append-nil (settled_tasks w))

-- Stopping leaves no caller waiting: from every state that the worker can reach, once it is stopped,
-- the end of the task in hand, if there is one, and one more wake-up of the thread settle the
-- promises of all the tasks that were accepted, in their order, and end the thread.
pub stop_settles :
    (es : List Event) (returned : Bool)
    → (run start es).running ≡ false
    → let w = step (step (run start es) (ends returned)) wakes in
      (settled_tasks w ≡ accepted start es) × (w.in_run ≡ false)
stop_settles es returned stopped =
    let v = run start es in
    let w = step (step v (ends returned)) wakes in
    let (empty, idle, out) =
      drain-on v.executing v.in_run v.running v.tasks v.settled returned
        (run-IsSound start es start-IsSound) stopped in
    (
      sym (only_settled w empty idle)
          ∙ step-history (step v (ends returned)) wakes
          ∙ append-nil (history (step v (ends returned)))
          ∙ step-history v (ends returned)
          ∙ append-nil (history v)
          ∙ run-history_start es,
      out,
    )
