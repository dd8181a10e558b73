-- ===== src/Worker/Order.antt =====
-- Every accepted task is settled once, in the order of acceptance.
use mathlib.Core.List.{map-append}
use zinfer_lm.Base.{
  ℕ, ◌≡◌, refl, sym, ap, ◌∙◌, Bool, true, false, Option, none, some, List, [], ◌∷◌, ◌++◌, map,
  arith, append_assoc, append-nil, if◌then◌else◌,
}
use zinfer_lm.Worker.{
  Outcome, value, exception, Worker, start, add_on, cancel, wake_on, execute_on, Event, adds, stops,
  wakes, ends, or_same, step, run, accepted,
}

abbrev pub settled_tasks : Worker → List ℕ
settled_tasks w = map (λ (p : ℕ × Outcome). p.0) w.settled

abbrev pub in_hand : Option ℕ → List ℕ
in_hand none = []
in_hand (some x) = x ∷ []

-- The settled tasks, the one that is executed and the waiting ones.
abbrev pub history : Worker → List ℕ
history w = settled_tasks w ++ (in_hand w.executing ++ w.tasks)

abbrev names : List (ℕ × Outcome) → List ℕ
names = map (λ p. p.0)

names-cancel : (xs : List ℕ) → names (cancel xs) ≡ xs
names-cancel [] = refl
names-cancel (x ∷ xs) = ap (◌∷◌ x) (names-cancel xs)

-- What one event adds to the accepted tasks.
abbrev pub added : Worker → Event → List ℕ
added w (adds x) = if w.running then x ∷ [] else []
added w stops = []
added w wakes = []
added w (ends r) = []

names-append :
    (s : List (ℕ × Outcome)) (p : ℕ × Outcome) → names (s ++ p ∷ []) ≡ names s ++ p.0 ∷ []
names-append s p = map-append (λ (q : ℕ × Outcome). q.0) s (p ∷ [])

wake-history :
    (o : Option ℕ) (b r : Bool) (xs : List ℕ) (s : List (ℕ × Outcome))
    → let w : Worker = record { running = r; tasks = xs; executing = o; in_run = b; settled = s } in
      history (or_same w (wake_on o b r xs s)) ≡ history w
unfolding wake_on
wake-history (some x) b r xs s = refl
wake-history none false r xs s = refl
wake-history none true false xs s =
    append-nil (names (s ++ cancel xs))
    ∙ map-append (λ (q : ℕ × Outcome). q.0) s (cancel xs)
    ∙ ap (◌++◌ (names s)) (names-cancel xs)
wake-history none true true [] s = refl
wake-history none true true (x ∷ xs) s = refl

end-history :
    (returned : Bool) (o : Option ℕ) (b r : Bool) (xs : List ℕ) (s : List (ℕ × Outcome))
    → let w : Worker = record { running = r; tasks = xs; executing = o; in_run = b; settled = s } in
      history (or_same w (execute_on returned o w)) ≡ history w
unfolding execute_on
end-history returned none b r xs s = refl
end-history returned (some x) b r xs s =
    ap (λ n. n ++ xs) (names-append s (x, if returned then value else exception))
    ∙ append_assoc (names s) (x ∷ []) xs

add-history :
    (x : ℕ) (r : Bool) (w : Worker)
    → history (add_on r x w).0 ≡ history w ++ (if r then x ∷ [] else [])
unfolding add_on
add-history x true w = sym (
    append_assoc (settled_tasks w) (in_hand w.executing ++ w.tasks) (x ∷ [])
    ∙ ap (◌++◌ (settled_tasks w)) (append_assoc (in_hand w.executing) w.tasks (x ∷ [])))
add-history x false w = sym (append-nil (history w))

pub step-history : (w : Worker) (e : Event) → history (step w e) ≡ history w ++ added w e
unfolding step
step-history w (adds x) = add-history x w.running w
step-history w stops = sym (append-nil (history w))
step-history w wakes =
    wake-history w.executing w.in_run w.running w.tasks w.settled ∙ sym (append-nil (history w))
step-history w (ends r) =
    end-history r w.executing w.in_run w.running w.tasks w.settled ∙ sym (append-nil (history w))

accepted-cons :
    (w : Worker) (e : Event) (es : List Event)
    → accepted w (e ∷ es) ≡ added w e ++ accepted (step w e) es
unfolding accepted
accepted-cons w (adds x) es = ground arith
accepted-cons w stops es = refl
accepted-cons w wakes es = refl
accepted-cons w (ends r) es = refl

run-history : (w : Worker) (es : List Event) → history (run w es) ≡ history w ++ accepted w es
unfolding run
run-history w [] = unfold accepted in sym (append-nil (history w))
run-history w (e ∷ es) =
    run-history (step w e) es
    ∙ ap (λ h. h ++ accepted (step w e) es) (step-history w e)
    ∙ append_assoc (history w) (added w e) (accepted (step w e) es)
    ∙ ap (◌++◌ (history w)) (sym (accepted-cons w e es))

-- Under every interleaving of calls and of the worker's thread, the tasks that were accepted are, in
-- the order of acceptance, first those whose promise is settled, then the one that is executed, then
-- those that wait: none is lost, none is settled twice, and none overtakes another.
pub run-history_start :
    (es : List Event)
    → settled_tasks (run start es) ++ (in_hand (run start es).executing ++ (run start es).tasks)
      ≡ accepted start es
run-history_start es = run-history start es ∙ nothing
  where
    nothing : history start ++ accepted start es ≡ accepted start es
    nothing = unfold start in refl
