-- ===== src/Sse/Backoff.antt =====
-- The delay before a new connection: its bounds, how it grows, and what a pause lets through.
use meshtastic_proxy.Base.{
  ℕ, ◌≤◌, List, [], ◌∷◌, ◌++◌, Bool, true, not, ◌≡◌, arith, All, All-append, if◌then◌else◌, map,
  filter,
}
use mathlib.Core.List.{append-nil, append_assoc}
use meshtastic_proxy.Sse.{
  Kind, holds_back, Sse, connected, Event, opened, broken, arrives, pause_pressed, retry, step, run,
}

abbrev InRange : ℕ → Type 0
InRange d = (1000 ≤ d) × (d ≤ 30000)

-- Every delay, the next one and those that are being waited for, is from 1 to 30 seconds.
pub record Bounded (s : Sse) : Type 0 where
  pub next : InRange s.reconnect_delay
  pub waiting : All InRange s.retries

pub step-Bounded : (e : Event) (s : Sse) → Bounded s → Bounded (step e s)
unfolding step
step-Bounded opened s v = record { next = omega arith; waiting = v.waiting }
step-Bounded broken s v = record {
  next = omega (arith, v.next.0, v.next.1);
  waiting = All-append InRange s.retries (s.reconnect_delay ∷ []) v.waiting (v.next, tt);
}
step-Bounded (arrives k) s v = ground arith
step-Bounded pause_pressed s v = record { next = v.next; waiting = v.waiting }
step-Bounded retry s v = go s.retries v.waiting
  where
    go :
        (ds : List ℕ)
        → All InRange ds
        → Bounded (elim ds [ [] ↦ s | d ∷ ds ↦ record s { retries = ds; source_open = true } ])
    go [] a = v
    go (d ∷ ds) a = record { next = v.next; waiting = a.1 }

run_from-Bounded : (es : List Event) (s : Sse) → Bounded s → Bounded (run es s)
unfolding run
run_from-Bounded [] s v = v
run_from-Bounded (e ∷ es) s v = run_from-Bounded es (step e s) (step-Bounded e s v)

-- Through any events of the connection, every delay before a new try is from 1 to 30 seconds.
run-Bounded : (es : List Event) → Bounded (run es connected)
run-Bounded es = run_from-Bounded es connected (record { next = omega arith; waiting = tt })

abbrev pub passes : Kind → Bool
passes k = not (holds_back k)

-- While the page is paused, of the events that come exactly those that a pause does not hold back
-- are handled, in their order; while it is not, all are.
handled-arrives :
    (ks : List Kind) (s : Sse)
    → (run (map arrives ks) s).handled ≡ s.handled ++ (if s.paused then filter passes ks else ks)
unfolding run step
handled-arrives [] s = ground (arith, append-nil s.handled)
handled-arrives (k ∷ ks) s = ground (
  arith,
  handled-arrives ks (step (arrives k) s),
  append_assoc s.handled (k ∷ []) (filter passes ks),
  append_assoc s.handled (k ∷ []) ks,
)
