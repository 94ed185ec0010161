-- ===== src/Dashboard/Traces.antt =====
-- The trace machine and the history panel on the dashboard: the invariant of the machine, what is
-- appended to the history, and a panel that is displayed exactly if it is expanded.
use meshtastic_proxy.Base.{
  ℕ, List, [], ◌∷◌, ◌++◌, ◌&&◌, Option, none, some, ◌≡◌, refl, arith, if_keeps,
}
use meshtastic_proxy.Directory.{Dir}
use meshtastic_proxy.Sse
use meshtastic_proxy.Sse.{holds_back}
use meshtastic_proxy.Trace.Route.{TraceData, Route}
use meshtastic_proxy.Trace.Machine
use meshtastic_proxy.Trace.Machine.{
  Machine, Timeout, Interval, start, result, timeout, interval, failed, answered, find_timeout,
  find_interval,
}
use meshtastic_proxy.Trace.Machine.Invariant.{Inv, step-Inv}
use meshtastic_proxy.Trace.History.{Panel, render, load, append, toggle}
use meshtastic_proxy.Dashboard.{
  Browser, Dashboard, Payload, metrics, traceroute_result, trace_history, kind, Event,
  pause_pressed, arrives, show_tab, request_ends, starts_trace, trace_times_out, trace_ticks,
  trace_fails, trace_answered, toggles_history, shows_trace, channels_end, types_in, presses_key,
  presses_send, send_ends,
}
use meshtastic_proxy.Dashboard.Steps.{
  trace_page, entry_left, record_entry, step, receive, handle, on_trace, on_chat, on_stream,
}
use meshtastic_proxy.Dashboard.Untouched.{IsApart, outside-keeps}

-- The panel of the history is displayed, with its button active, exactly if it is expanded.
pub record IsFolded (p : Panel) : Type 0 where
  pub shown : p.shown ≡ p.expanded
  pub active : p.button_active ≡ p.expanded

render-IsFolded : (dir : Dir) (p : Panel) → IsFolded p → IsFolded (render dir p)
unfolding render
render-IsFolded dir p v = ground arith

load-IsFolded :
    (dir : Dir) (ts : Option (List TraceData)) (p : Panel) → IsFolded p → IsFolded (load dir ts p)
unfolding load
load-IsFolded dir none p v = v
load-IsFolded dir (some ts) p v =
    render-IsFolded dir (record p { entries = ts }) (record { shown = v.shown; active = v.active })

append-IsFolded : (dir : Dir) (t : TraceData) (p : Panel) → IsFolded p → IsFolded (append dir t p)
unfolding append
append-IsFolded dir t p v =
    let w =
      render-IsFolded dir (record p { entries = p.entries ++ t ∷ [] })
        (record { shown = v.shown; active = v.active }) in
    ground (arith, w.shown, w.active)

record_entry-IsFolded :
    (dir : Dir) (o : Option TraceData) (p : Panel) → IsFolded p → IsFolded (record_entry dir o p)
unfolding record_entry
record_entry-IsFolded dir none p v = v
record_entry-IsFolded dir (some t) p v = append-IsFolded dir t p v

toggle-IsFolded : (p : Panel) → IsFolded (toggle p)
unfolding toggle
toggle-IsFolded p = record { shown = refl; active = refl }

abbrev pub Traced : Machine × Panel → Type 0
Traced x = Inv x.0 × IsFolded x.1

redrawn-Inv : (m : Machine) (l : Option Route) → Inv m → Inv (record m { layer = l })
redrawn-Inv m l v = record {
  exclusive = v.exclusive;
  timeouts_match = v.timeouts_match;
  intervals_match = v.intervals_match;
  positive = v.positive;
}

module _ {ℓ} {R : Type ℓ} (b : Browser R) where
  abbrev pub traces : Dashboard R → Machine × Panel
  traces s = (s.trace, s.history)

  apart : IsApart b traces
  apart = record {
    of_app = λ s a. refl;
    of_chat = λ s c. refl;
    of_requests = λ s rs. refl;
    of_channels = λ s n. refl;
    of_composer = λ s c rs. refl;
  }

  on_trace-Traced :
      (now : ℕ) (e : Machine.Event) (s : Dashboard R)
      → Traced (traces s)
      → Traced (traces (on_trace b now e s))
  unfolding on_trace
  on_trace-Traced now e s v = (
    step-Inv (trace_page b s) now e s.trace v.0,
    record_entry-IsFolded s.app.dir (entry_left (trace_page b s) e s.trace) s.history v.1,
  )

  handle-Traced :
      (now : ℕ) (p : Payload) (s : Dashboard R)
      → Traced (traces s)
      → Traced (traces (handle b now p s))
  unfolding handle on_chat
  handle-Traced now (traceroute_result t) s v = on_trace-Traced now (Machine.result t) s v
  handle-Traced now (trace_history ts) s v = (v.0, load-IsFolded s.app.dir ts s.history v.1)
  handle-Traced now (metrics snap) s v = v
  handle-Traced now _ s v = v

  -- One event keeps the invariant of the trace machine and the panel of the history.
  pub step-Traced :
      (now : ℕ) (e : Event) (s : Dashboard R) → Traced (traces s) → Traced (traces (step b now e s))
  unfolding step receive on_chat
  step-Traced now (arrives p) s v =
      let s1 : Dashboard R = on_stream b (Sse.arrives (kind p)) s in
      if_keeps traces Traced (s.app.paused && holds_back (kind p)) s1 (handle b now p s1) v
        (handle-Traced now p s1 v)
  step-Traced now (starts_trace n) s v = on_trace-Traced now (Machine.start n) s v
  step-Traced now (trace_times_out id) s v = on_trace-Traced now (Machine.timeout id) s v
  step-Traced now (trace_ticks id) s v = on_trace-Traced now (Machine.interval id) s v
  step-Traced now (trace_fails n) s v = on_trace-Traced now (Machine.failed n) s v
  step-Traced now (trace_answered n) s v = on_trace-Traced now (Machine.answered n) s v
  step-Traced now toggles_history s v = (v.0, toggle-IsFolded s.history)
  step-Traced now (shows_trace i) s v = (redrawn-Inv s.trace _ v.0, v.1)
  step-Traced now (show_tab t) s v = outside-keeps b traces Traced apart now (show_tab t) refl s v
  step-Traced now (request_ends i ok) s v =
      outside-keeps b traces Traced apart now (request_ends i ok) refl s v
  step-Traced now (channels_end o) s v =
      outside-keeps b traces Traced apart now (channels_end o) refl s v
  step-Traced now (types_in t) s v = outside-keeps b traces Traced apart now (types_in t) refl s v
  step-Traced now (presses_key enter shift) s v =
      outside-keeps b traces Traced apart now (presses_key enter shift) refl s v
  step-Traced now presses_send s v = outside-keeps b traces Traced apart now presses_send refl s v
  step-Traced now (send_ends o) s v = outside-keeps b traces Traced apart now (send_ends o) refl s v
  step-Traced now pause_pressed s v = v
  step-Traced now _ s v = v
