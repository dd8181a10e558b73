-- ===== src/Events/Laws.antt =====
-- What listening, unlistening and dispatching promise together.
use mathlib.Core.Path.{subst}
use zinfer_lm.Base.{
  ℕ, ◌+◌, ◌≡◌, refl, ◌∙◌, none, List, [], ◌∷◌, ◌++◌, arith, length, length-append, if◌then◌else◌,
  find, assign, erase, find-assign, bytes_eq, bytes_beq, bytes_beq_iff, ap, sym, true, false, ◌⊎◌,
  ◌≤◌, Option-cases, inl, inr,
}
use zinfer_lm.Events.{
  InferenceEvent, Listener, Listeners, EventDispatcher, add_listener, listen, group_of, unlisten,
  contains, matching, dispatch, InferenceEvent-discrete,
}

-- The calls of the dispatcher, and the dispatcher after one of them and after all.
pub data Call : Type 0 where
  listens : List ℕ → ℕ → List InferenceEvent → Call
  unlistens : List ℕ → Call
  dispatches : List ℕ → InferenceEvent → Call

abbrev pub after : EventDispatcher → Call → EventDispatcher
after d (listens g callback events) = listen g callback events d
after d (unlistens g) = unlisten g d
after d (dispatches g e) = (dispatch g e d).1

abbrev pub run : EventDispatcher → List Call → EventDispatcher
run d [] = d
run d (c ∷ cs) = run (after d c) cs

abbrev pub empty_dispatcher : EventDispatcher
empty_dispatcher = record { listeners = []; callbacks_count = 0 }

-- The listeners of a group, read off the calls: those that listened since the last `unlisten`.
abbrev pub since : List ℕ → List Listener → List Call → List Listener
since h now [] = now
since h now (listens g callback events ∷ cs) =
    since h
      (if bytes_beq g h then now ++ record { callback = callback; events = events } ∷ [] else now)
      cs
since h now (unlistens g ∷ cs) = since h (if bytes_beq g h then [] else now) cs
since h now (dispatches g e ∷ cs) = since h now cs

-- How many listeners all groups have together.
abbrev pub total : Listeners → ℕ
total [] = 0
total ((g, ls) ∷ m) = length ls + total m

-- No group has two entries.
abbrev pub IsMap : Listeners → Type 0
IsMap [] = Unit
IsMap ((g, ls) ∷ m) = (find g m ≡ none) × IsMap m

total-assign :
    (g : List ℕ) (ls : List Listener) (m : Listeners)
    → total (assign g ls m) + length (group_of g m) ≡ total m + length ls
unfolding assign group_of find
total-assign g ls [] = omega arith
total-assign g ls ((h, xs) ∷ m) = ground (arith, total-assign g ls m)

total-erase : (g : List ℕ) (m : Listeners) → total (erase g m) + length (group_of g m) ≡ total m
unfolding erase group_of find
total-erase g [] = omega arith
total-erase g ((h, xs) ∷ m) = ground (arith, total-erase g m)

find-erase :
    (g h : List ℕ) (m : Listeners)
    → IsMap m
    → find h (erase g m) ≡ (if bytes_beq g h then none else find h m)
unfolding erase find
find-erase g h [] u = ground arith
find-erase g h ((k, xs) ∷ m) (fresh, u) =
    ground
      (arith, fresh, bytes_beq_iff g h, bytes_beq_iff k g, bytes_beq_iff k h, find-erase g h m u)

pub assign-IsMap :
    (g : List ℕ) (ls : List Listener) (m : Listeners) → IsMap m → IsMap (assign g ls m)
unfolding assign find
assign-IsMap g ls [] u = (refl, tt)
assign-IsMap g ls ((k, xs) ∷ m) (fresh, u) = ground (
  arith,
  fresh,
  bytes_beq_iff k g,
  bytes_beq_iff g k,
  find-assign g k ls m,
  assign-IsMap g ls m u,
)

erase-IsMap : (g : List ℕ) (m : Listeners) → IsMap m → IsMap (erase g m)
unfolding erase find
erase-IsMap g [] u = tt
erase-IsMap g ((k, xs) ∷ m) (fresh, u) =
    ground
      (arith, fresh, bytes_beq_iff k g, bytes_beq_iff g k, find-erase g k m u, erase-IsMap g m u)

-- Both branches of `listen` put one listener behind those of its group.
add_listener_lem :
    (g : List ℕ) (l : Listener) (m : Listeners)
    → add_listener g l m ≡ assign g (group_of g m ++ l ∷ []) m
unfolding add_listener group_of
add_listener_lem g l m = elim (Option-cases (find g m)) [
  | inl e ↦ rw (e, add_listener, group_of)
  | inr (ls, e) ↦ rw (e, add_listener, group_of)
]

total-listen :
    (g : List ℕ) (l : Listener) (m : Listeners) → total (add_listener g l m) ≡ total m + 1
total-listen g l m = rw (add_listener_lem g l m) (
    omega (arith, total-assign g (group_of g m ++ l ∷ []) m, length-append (group_of g m) (l ∷ [])))

pub listen-IsMap :
    (g : List ℕ) (l : Listener) (m : Listeners) → IsMap m → IsMap (add_listener g l m)
listen-IsMap g l m u = rw (add_listener_lem g l m) (assign-IsMap g (group_of g m ++ l ∷ []) m u)

-- What each call keeps: one entry for a group, and the number of all listeners.
abbrev pub IsCounted : EventDispatcher → Type 0
IsCounted d = IsMap d.listeners × (d.callbacks_count ≡ total d.listeners)

after-IsCounted : (d : EventDispatcher) (c : Call) → IsCounted d → IsCounted (after d c)
unfolding listen unlisten dispatch
after-IsCounted d (listens g callback events) (u, e) =
    let l : Listener = record { callback = callback; events = events } in
    (listen-IsMap g l d.listeners u, omega (arith, e, total-listen g l d.listeners))
after-IsCounted d (unlistens g) (u, e) =
    (erase-IsMap g d.listeners u, omega (arith, e, total-erase g d.listeners))
after-IsCounted d (dispatches g ev) (u, e) = (
  assign-IsMap g (group_of g d.listeners) d.listeners u,
  omega (arith, e, total-assign g (group_of g d.listeners) d.listeners),
)

run-IsCounted : (d : EventDispatcher) (cs : List Call) → IsCounted d → IsCounted (run d cs)
run-IsCounted d [] s = s
run-IsCounted d (c ∷ cs) s = run-IsCounted (after d c) cs (after-IsCounted d c s)

-- `listen` adds one listener behind those of its group, and leaves the other groups.
pub group_of-listen :
    (g h : List ℕ) (l : Listener) (m : Listeners)
    → group_of h (add_listener g l m)
      ≡ (if bytes_beq g h then group_of h m ++ l ∷ [] else group_of h m)
unfolding group_of
group_of-listen g h l m =
    rw (add_listener_lem g l m)
      (ground (arith, bytes_beq_iff g h, find-assign g h (group_of g m ++ l ∷ []) m))

pub group_of-erase :
    (g h : List ℕ) (m : Listeners)
    → IsMap m
    → group_of h (erase g m) ≡ (if bytes_beq g h then [] else group_of h m)
unfolding group_of
group_of-erase g h m u = ground (arith, find-erase g h m u)

pub group_of-dispatch :
    (g h : List ℕ) (m : Listeners) → group_of h (assign g (group_of g m) m) ≡ group_of h m
unfolding group_of
group_of-dispatch g h m = elim (Option-cases (find g m)) [
  | inl e ↦ ground (arith, bytes_beq_iff g h, find-assign g h [] m)
  | inr (ls, e) ↦ ground (arith, bytes_beq_iff g h, find-assign g h ls m)
]

group_of-run :
    (h : List ℕ) (d : EventDispatcher) (cs : List Call)
    → IsCounted d
    → group_of h (run d cs).listeners ≡ since h (group_of h d.listeners) cs
unfolding listen unlisten dispatch
group_of-run h d [] s = refl
group_of-run h d (c ∷ cs) s = group_of-run h (after d c) cs (after-IsCounted d c s) ∙ one c
  where
    one :
        (c : Call)
        → since h (group_of h (after d c).listeners) cs ≡ since h (group_of h d.listeners) (c ∷ cs)
    one (listens g callback events) =
        ap (λ now. since h now cs)
          (group_of-listen g h (record { callback = callback; events = events }) d.listeners)
    one (unlistens g) = ap (λ now. since h now cs) (group_of-erase g h d.listeners s.0)
    one (dispatches g e) = ap (λ now. since h now cs) (group_of-dispatch g h d.listeners)

-- The event stands in a set of events.
abbrev pub AsksFor : InferenceEvent → List InferenceEvent → Type 0
AsksFor e [] = ⊥
AsksFor e (x ∷ xs) = (x ≡ e) ⊎ AsksFor e xs

-- Of some listeners, in order, the callbacks of exactly those among whose events `e` is.
pub data Called (e : InferenceEvent) : List Listener → List ℕ → Type 0 where
  no_listener : Called e [] []
  asked :
      (l : Listener) (ls : List Listener) (callbacks : List ℕ)
      → AsksFor e l.events
      → Called e ls callbacks
      → Called e (l ∷ ls) (l.callback ∷ callbacks)
  not_asked :
      (l : Listener) (ls : List Listener) (callbacks : List ℕ)
      → ¬ AsksFor e l.events
      → Called e ls callbacks
      → Called e (l ∷ ls) callbacks

contains-first :
    (e x : InferenceEvent) (xs : List InferenceEvent) → x ≡ e → contains e (x ∷ xs) ≡ true
unfolding contains
contains-first e x xs p = ground arith

contains-later :
    (e x : InferenceEvent) (xs : List InferenceEvent)
    → ¬ (x ≡ e)
    → contains e (x ∷ xs) ≡ contains e xs
unfolding contains
contains-later e x xs n = ground arith

contains-AsksFor :
    (e : InferenceEvent) (xs : List InferenceEvent)
    → ((contains e xs ≡ true) × AsksFor e xs) ⊎ ((contains e xs ≡ false) × (¬ AsksFor e xs))
contains-AsksFor e [] = inr (unfold contains in refl, λ m. m)
contains-AsksFor e (x ∷ xs) = elim (InferenceEvent-discrete x e) [
  | yes p ↦ inl (contains-first e x xs p, inl p)
  | no n ↦ elim (contains-AsksFor e xs) [
    | inl (c, m) ↦ inl (contains-later e x xs n ∙ c, inr m)
    | inr (c, others) ↦
        inr (contains-later e x xs n ∙ c, λ m. elim m [ inl p ↦ n p | inr m' ↦ others m' ])
  ]
]

matching-Called : (e : InferenceEvent) (ls : List Listener) → Called e ls (matching e ls)
unfolding matching
matching-Called e [] = no_listener
matching-Called e (l ∷ ls) = elim (contains-AsksFor e l.events) [
  | inl (c, m) ↦ rw c (asked l ls (matching e ls) m (matching-Called e ls))
  | inr (c, m) ↦ rw c (not_asked l ls (matching e ls) m (matching-Called e ls))
]

-- After any sequence of calls on a new dispatcher, a dispatch to a group calls exactly the callbacks
-- that listened to the group since it was last unlistened and that asked for the event, in the order
-- in which they listened, whatever was done to other groups.
pub dispatch-run :
    (cs : List Call) (g : List ℕ) (e : InferenceEvent)
    → Called e (since g [] cs) (dispatch g e (run empty_dispatcher cs)).0
unfolding dispatch find
dispatch-run cs g e =
    subst (λ ls. Called e (since g [] cs) (matching e ls))
      (sym (group_of-run g empty_dispatcher cs (tt, refl) ∙ nothing))
      (matching-Called e (since g [] cs))
  where
    nothing : since g (group_of g []) cs ≡ since g [] cs
    nothing = unfold group_of in refl

-- After any sequence of calls on a new dispatcher, the count of the callbacks is the number of the
-- listeners of all the groups, and never more listeners are taken off than are counted.
pub run-count :
    (cs : List Call) (g : List ℕ)
    → let d = run empty_dispatcher cs in
      (d.callbacks_count ≡ total d.listeners)
      × (length (group_of g d.listeners) ≤ d.callbacks_count)
run-count cs g =
    let s = run-IsCounted empty_dispatcher cs (tt, refl) in
    (s.1, omega (arith, s.1, total-erase g (run empty_dispatcher cs).listeners))
