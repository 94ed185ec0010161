-- ===== src/Trace/Machine/Lock.antt =====
-- How long a trace keeps the page busy: the result starts a cooldown for the rest of thirty
-- seconds, the timeout ends the trace, and a cooldown ends after its seconds.
use meshtastic_proxy.Base.{
  ℕ, zero, suc, ◌+◌, ◌-◌, ◌/◌, ◌≤◌, ◌<◌, List, [], ◌∷◌, ◌++◌, map, true, false, none, some, ◌≡◌,
  refl, ap, ◌∙◌, arith, ◌==◌, ◌⊎◌, inl, inr, ==_refl, Bool-cases, length, length-append, All, not,
  ◌&&◌,
}
use meshtastic_proxy.Trace.Route.{TraceData}
use meshtastic_proxy.Trace.Machine.{
  Pending, Cooldown, Button, Machine, Page, Event, interval, timeout, start_cooldown, begin_trace,
  start_traceroute, settle, handle_result, on_result, fire_timeout, tick, on_buttons,
  reset_trace_button, step, run, remaining_seconds, is_trace_active, reset_button, loading_button,
  show_seconds,
}
use meshtastic_proxy.Trace.Machine.Invariant.{Inv, step-Inv}

-- Every button of a node can be pressed.
abbrev pub IsEnabled : ℕ → List Button → Type 0
IsEnabled n bs = All (λ b. (b.target == n && b.disabled) ≡ false) bs

abbrev IsDisabled : ℕ → List Button → Type 0
IsDisabled n bs = All (λ b. (b.target == n && not b.disabled) ≡ false) bs

pub IsEnabled-on_buttons : (n : ℕ) (bs : List Button) → IsEnabled n (on_buttons n reset_button bs)
unfolding on_buttons
IsEnabled-on_buttons n [] = tt
IsEnabled-on_buttons n (b ∷ bs) = (ground arith, IsEnabled-on_buttons n bs)

remaining_seconds_lem :
    (now t : ℕ)
    → 0 < t
    → t ≤ now
    → now < t + 30000
    → ((now - t) / 1000 + remaining_seconds now (some t) ≡ 30)
      × (0 < remaining_seconds now (some t))
unfolding remaining_seconds
remaining_seconds_lem now zero p h k = elim p [ ]
remaining_seconds_lem now (suc t) p h k = ground arith

-- A result of the pending node, less than thirty seconds after the request, ends the request and
-- starts a cooldown of that node that lasts for the whole seconds left of the thirty.
pub result_cooldown :
    (page : Page) (now : ℕ) (t : TraceData) (p : Pending) (s : Machine)
    → s.pending ≡ some p
    → p.target ≡ t.from
    → 0 < p.started_at
    → p.started_at ≤ now
    → now < p.started_at + 30000
    → let after = on_result page now t s in
      (c : Cooldown) × (after.cooldown ≡ some c)
      × (c.target ≡ p.target)
      × ((now - p.started_at) / 1000 + c.remaining ≡ 30)
      × (0 < c.remaining)
      × (after.pending ≡ none)
unfolding on_result handle_result settle start_cooldown
result_cooldown page now t p s e same pos early late =
    let (sum, left) = remaining_seconds_lem now p.started_at pos early late in
    (
      record {
        target = p.target;
        interval = s.next_id;
        remaining = remaining_seconds now (some p.started_at);
      },
      ground arith,
      refl,
      sum,
      left,
      ground arith,
    )

remaining_seconds-zero : (now t : ℕ) → 0 < t → t + 30000 ≤ now → remaining_seconds now (some t) ≡ 0
unfolding remaining_seconds
remaining_seconds-zero now zero p h = elim p [ ]
remaining_seconds-zero now (suc t) p h = ground arith

-- The timer of a pending request that fires after its thirty seconds ends the trace with no
-- cooldown: nothing is pending, no timer is set and the buttons of the node are enabled.
pub timeout_frees :
    (page : Page) (now : ℕ) (p : Pending) (s : Machine)
    → Inv s
    → s.pending ≡ some p
    → 0 < p.started_at
    → p.started_at + 30000 ≤ now
    → let after = step page now (timeout p.timer) s in
      (is_trace_active after ≡ false)
      × (after.timeouts ≡ [])
      × (after.intervals ≡ [])
      × IsEnabled p.target after.buttons
unfolding step fire_timeout start_cooldown is_trace_active reset_trace_button
timeout_frees page now p s v e pos late =
    let done = remaining_seconds-zero now p.started_at pos late in
    let self = ==_refl p.timer in
    let shown : (step page now (timeout p.timer) s).buttons
        ≡ on_buttons p.target reset_button s.buttons =
      ground arith in
    (ground arith, ground arith, ground arith, rw shown (IsEnabled-on_buttons p.target s.buttons))

-- One tick of the interval of a cooldown.
pub tick_lem :
    (page : Page) (now : ℕ) (c : Cooldown) (s : Machine)
    → Inv s
    → s.cooldown ≡ some c
    → 1 < c.remaining
    → (step page now (interval c.interval) s).cooldown
      ≡ some (record c { remaining = c.remaining - 1 })
unfolding step tick
tick_lem page now c s v e h = ground (arith, ==_refl c.interval)

tick_last :
    (page : Page) (now : ℕ) (c : Cooldown) (s : Machine)
    → Inv s
    → s.cooldown ≡ some c
    → c.remaining ≡ 1
    → let after = step page now (interval c.interval) s in
      (is_trace_active after ≡ false)
      × (after.timeouts ≡ [])
      × (after.intervals ≡ [])
      × IsEnabled c.target after.buttons
unfolding step tick is_trace_active reset_trace_button
tick_last page now c s v e h =
    let self = ==_refl c.interval in
    let shown : (step page now (interval c.interval) s).buttons
        ≡ on_buttons c.target reset_button (on_buttons c.target (show_seconds 0) s.buttons) =
      ground arith in
    (
      ground arith,
      ground arith,
      ground arith,
      rw shown (IsEnabled-on_buttons c.target (on_buttons c.target (show_seconds 0) s.buttons)),
    )

-- A tick at each of some times.
abbrev pub ticks : ℕ → List ℕ → List (ℕ × Event)
ticks id times = map (λ now. (now, interval id)) times

-- From a state that keeps the invariant, a cooldown is over after as many ticks as it has seconds
-- left, and no sooner event is needed: then nothing is pending or cooling, no timer is set, and the
-- buttons of its node are enabled.
pub cooldown_ends :
    (page : Page) (times : List ℕ) (c : Cooldown) (s : Machine)
    → Inv s
    → s.cooldown ≡ some c
    → length times ≡ c.remaining
    → let after = run page (ticks c.interval times) s in
      (is_trace_active after ≡ false)
      × (after.timeouts ≡ [])
      × (after.intervals ≡ [])
      × IsEnabled c.target after.buttons
unfolding run
cooldown_ends page [] c s v e h = absurd (ground (arith, v.positive))
cooldown_ends page (now ∷ []) c s v e h = tick_last page now c s v e (omega arith)
cooldown_ends page (now ∷ later ∷ times) c s v e h =
    cooldown_ends page (later ∷ times) (record c { remaining = c.remaining - 1 })
      (step page now (interval c.interval) s) (step-Inv page now (interval c.interval) s v)
      (tick_lem page now c s v e (omega arith)) (omega arith)

IsDisabled-on_buttons : (n : ℕ) (bs : List Button) → IsDisabled n (on_buttons n loading_button bs)
unfolding on_buttons
IsDisabled-on_buttons n [] = tt
IsDisabled-on_buttons n (b ∷ bs) = (ground arith, IsDisabled-on_buttons n bs)

-- A trace of node `n` is started at `now`.
pub record Started (now n : ℕ) (s after : Machine) : Type 0 where
  pub pending : after.pending ≡ some (record { target = n; timer = s.next_id; started_at = now })
  pub timeouts : length after.timeouts ≡ length s.timeouts + 1
  pub requests : after.requests ≡ s.requests ++ n ∷ []
  pub layer : after.layer ≡ none
  pub locked : IsDisabled n after.buttons

Started-free :
    (now n : ℕ) (s : Machine)
    → is_trace_active s ≡ false
    → Started now n s (start_traceroute now n s)
unfolding start_traceroute is_trace_active begin_trace
Started-free now n s free = rw free (record {
  pending = refl;
  timeouts = length-append s.timeouts (record { id = s.next_id; node = n } ∷ []);
  requests = refl;
  layer = refl;
  locked = IsDisabled-on_buttons n s.buttons;
})

started_busy : (now n : ℕ) (s : Machine) → is_trace_active s ≡ true → start_traceroute now n s ≡ s
unfolding start_traceroute is_trace_active
started_busy now n s busy = rw busy

active_pending : (s : Machine) (p : Pending) → s.pending ≡ some p → is_trace_active s ≡ true
unfolding is_trace_active
active_pending s p e = rw e

-- After a start a trace is active. If one was active before, the start changed nothing at all;
-- else the node is the pending one, with one more timer and one more request, the old route is taken
-- off the map, and the buttons of the node are disabled.
pub start_traceroute_lem :
    (now n : ℕ) (s : Machine)
    → let after = start_traceroute now n s in
      (is_trace_active after ≡ true)
      × (((is_trace_active s ≡ true) × (after ≡ s))
          ⊎ ((is_trace_active s ≡ false) × Started now n s after))
start_traceroute_lem now n s = elim (Bool-cases (is_trace_active s)) [
  | inl busy ↦
      (ap is_trace_active (started_busy now n s busy) ∙ busy, inl (busy, started_busy now n s busy))
  | inr free ↦
      let st = Started-free now n s free in
      (active_pending (start_traceroute now n s) _ st.pending, inr (free, st))
]
