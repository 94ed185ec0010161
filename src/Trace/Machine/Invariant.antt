-- ===== src/Trace/Machine/Invariant.antt =====
-- What holds of the trace machine between two events.
use meshtastic_proxy.Base.{
  ℕ, ◌<◌, List, [], ◌∷◌, Option, none, some, ◌≡◌, refl, arith, ◌==◌, if◌then◌else◌, ◌⊎◌, inl, inr,
  ==_refl, Bool-cases,
}
use meshtastic_proxy.Trace.Route.{TraceData}
use meshtastic_proxy.Trace.Machine.{
  Pending, Cooldown, Timeout, Interval, Button, Machine, Page, Event, start, result, timeout,
  interval, failed, answered, start_cooldown, begin_trace, start_traceroute, settle, handle_result,
  on_result, fire_timeout, tick, request_failed, reset_trace_button, find_timeout, find_interval,
  step, run, idle, clear_timeout, pending_start, timed_out, has_request, drop_request,
}

-- The timers that belong to a pending request and to a cooldown.
abbrev timeouts_of : Option Pending → List Timeout
timeouts_of none = []
timeouts_of (some p) = record { id = p.timer; node = p.target } ∷ []

abbrev intervals_of : Option Cooldown → List Interval
intervals_of none = []
intervals_of (some c) = record { id = c.interval; node = c.target; remaining = c.remaining } ∷ []

abbrev IsPositive : Option Cooldown → Type 0
IsPositive none = Unit
IsPositive (some c) = 0 < c.remaining

-- At most one of request and cooldown is there; the timers that are set are those of the request
-- and the cooldown, with their targets and counts; a cooldown has a second left.
pub record Inv (s : Machine) : Type 0 where
  pub exclusive : (s.pending ≡ none) ⊎ (s.cooldown ≡ none)
  pub timeouts_match : s.timeouts ≡ timeouts_of s.pending
  pub intervals_match : s.intervals ≡ intervals_of s.cooldown
  pub positive : IsPositive s.cooldown

idle-Inv : (bs : List Button) → Inv (idle bs)
idle-Inv bs = record {
  exclusive = inl refl;
  timeouts_match = refl;
  intervals_match = refl;
  positive = tt;
}

-- A state with nothing under way: no request, no cooldown, no timer.
abbrev IsFree : Machine → Type 0
IsFree s = (s.pending ≡ none) × (s.cooldown ≡ none) × (s.timeouts ≡ []) × (s.intervals ≡ [])

start_cooldown-Inv :
    (now n : ℕ) (t : Option ℕ) (s : Machine) → IsFree s → Inv (start_cooldown now n t s)
unfolding start_cooldown reset_trace_button
start_cooldown-Inv now n t s f = ground arith

start_traceroute-Inv : (now n : ℕ) (s : Machine) → Inv s → Inv (start_traceroute now n s)
unfolding start_traceroute begin_trace
start_traceroute-Inv now n s v = ground arith

-- With a request pending, clearing its timer leaves nothing under way.
cleared-IsFree :
    (s : Machine) (p : Pending)
    → Inv s
    → s.pending ≡ some p
    → IsFree (record s { timeouts = clear_timeout p.timer s.timeouts; pending = none })
cleared-IsFree s p v e = ground (arith, ==_refl p.timer)

settle-Inv :
    (page : Page) (now : ℕ) (t : TraceData) (p : Pending) (s : Machine)
    → Inv s
    → s.pending ≡ some p
    → Inv (settle page now t p s)
unfolding settle
settle-Inv page now t p s v e =
    let w = start_cooldown-Inv now p.target (some p.started_at) _ (cleared-IsFree s p v e) in
    record {
      exclusive = w.exclusive;
      timeouts_match = w.timeouts_match;
      intervals_match = w.intervals_match;
      positive = w.positive;
    }

handle_result-Inv :
    (page : Page) (now : ℕ) (t : TraceData) (s : Machine) → Inv s → Inv (handle_result page now t s)
unfolding handle_result
handle_result-Inv page now t s v = go s.pending refl
  where
    go :
        (o : Option Pending)
        → s.pending ≡ o
        → Inv
            (elim o [ none ↦ s | some p ↦ if p.target == t.from then settle page now t p s else s ])
    go none e = v
    go (some p) e = elim (Bool-cases (p.target == t.from)) [
      | inl mine ↦ rw mine (settle-Inv page now t p s v e)
      | inr other ↦ rw other v
    ]

on_result-Inv :
    (page : Page) (now : ℕ) (t : TraceData) (s : Machine) → Inv s → Inv (on_result page now t s)
unfolding on_result
on_result-Inv page now t s v =
    let w = handle_result-Inv page now t s v in
    record {
      exclusive = w.exclusive;
      timeouts_match = w.timeouts_match;
      intervals_match = w.intervals_match;
      positive = w.positive;
    }

-- A timer that fires is the timer of the pending request.
find_timeout-pending :
    (id : ℕ) (o : Option Pending) {t : Timeout}
    → find_timeout id (timeouts_of o) ≡ some t
    → (p : Pending) × (o ≡ some p) × (t ≡ record { id = p.timer; node = p.target })
unfolding find_timeout
find_timeout-pending id none h = cc
find_timeout-pending id (some p) h = (p, refl, ground arith)

find_interval-cooldown :
    (id : ℕ) (o : Option Cooldown) {t : Interval}
    → find_interval id (intervals_of o) ≡ some t
    → (c : Cooldown) × (o ≡ some c)
      × (t ≡ record { id = c.interval; node = c.target; remaining = c.remaining })
unfolding find_interval
find_interval-cooldown id none h = cc
find_interval-cooldown id (some c) h = (c, refl, ground arith)

fire_timeout-Inv :
    (now id : ℕ) (s : Machine) (t : Timeout)
    → Inv s
    → find_timeout id s.timeouts ≡ some t
    → Inv (fire_timeout now t s)
unfolding fire_timeout
fire_timeout-Inv now id s t v h =
    let (p, e, same) = find_timeout-pending id s.pending (rw v.timeouts_match at h) in
    start_cooldown-Inv now t.node (pending_start s.pending) (timed_out t s)
      (ground (arith, ==_refl p.timer))

tick-Inv :
    (id : ℕ) (s : Machine) (t : Interval)
    → Inv s
    → find_interval id s.intervals ≡ some t
    → Inv (tick t s)
unfolding tick reset_trace_button
tick-Inv id s t v h =
    let (c, e, same) = find_interval-cooldown id s.cooldown (rw v.intervals_match at h) in
    ground (arith, ==_refl c.interval)

request_failed-Inv : (n : ℕ) (s : Machine) → Inv s → Inv (request_failed n s)
unfolding request_failed reset_trace_button
request_failed-Inv n s v = go s.pending refl
  where
    go : (o : Option Pending) → s.pending ≡ o → Inv (request_failed n s)
    go none e = ground arith
    go (some p) e = ground (arith, ==_refl p.timer)

pub step-Inv : (page : Page) (now : ℕ) (e : Event) (s : Machine) → Inv s → Inv (step page now e s)
unfolding step
step-Inv page now (start n) s v = start_traceroute-Inv now n s v
step-Inv page now (result t) s v = on_result-Inv page now t s v
step-Inv page now (timeout id) s v = go (find_timeout id s.timeouts) refl
  where
    go :
        (o : Option Timeout)
        → find_timeout id s.timeouts ≡ o
        → Inv (elim o [ none ↦ s | some t ↦ fire_timeout now t s ])
    go none h = v
    go (some t) h = fire_timeout-Inv now id s t v h
step-Inv page now (interval id) s v = go (find_interval id s.intervals) refl
  where
    go :
        (o : Option Interval)
        → find_interval id s.intervals ≡ o
        → Inv (elim o [ none ↦ s | some t ↦ tick t s ])
    go none h = v
    go (some t) h = tick-Inv id s t v h
step-Inv page now (failed n) s v = elim (Bool-cases (has_request n s.requests)) [
  | inr gone ↦ rw gone v
  | inl sent ↦ rw sent (
      request_failed-Inv n (record s { requests = drop_request n s.requests })
        (record {
          exclusive = v.exclusive;
          timeouts_match = v.timeouts_match;
          intervals_match = v.intervals_match;
          positive = v.positive;
        }))
]
step-Inv page now (answered n) s v = record {
  exclusive = v.exclusive;
  timeouts_match = v.timeouts_match;
  intervals_match = v.intervals_match;
  positive = v.positive;
}

run_from-Inv : (page : Page) (es : List (ℕ × Event)) (s : Machine) → Inv s → Inv (run page es s)
unfolding run
run_from-Inv page [] s v = v
run_from-Inv page ((now, e) ∷ es) s v =
    run_from-Inv page es (step page now e s) (step-Inv page now e s v)

-- After any interleaving of starts, results, timeouts, ticks, failures and answers, from the
-- loaded page: a request and a cooldown are never there together, the timers that are set are
-- exactly that of the request and that of the cooldown, and a cooldown has at least a second left.
pub run-Inv : (page : Page) (es : List (ℕ × Event)) (bs : List Button) → Inv (run page es (idle bs))
run-Inv page es bs = run_from-Inv page es (idle bs) (idle-Inv bs)
