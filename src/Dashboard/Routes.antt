-- ===== src/Dashboard/Routes.antt =====
-- The route of a trace on the dashboard: before the map is made no event draws one.
use mathlib.Core.Path.{subst}
use meshtastic_proxy.Base.{
  ℕ, false, ◌&&◌, Option, none, some, ◌≡◌, refl, sym, ap, ◌∙◌, if_keeps, get_elem?,
}
use meshtastic_proxy.Directory.{Dir}
use meshtastic_proxy.Sse
use meshtastic_proxy.Sse.{holds_back}
use meshtastic_proxy.Trace.Route.{Route, TraceData, draw_traceroute}
use meshtastic_proxy.Trace.Machine
use meshtastic_proxy.Trace.Machine.{Machine}
use meshtastic_proxy.Trace.Machine.Layer.{step-layer, draw_traceroute-closed}
use meshtastic_proxy.Trace.History.{Panel, show_on_map}
use meshtastic_proxy.Dashboard.{
  Browser, Dashboard, Payload, metrics, traceroute_result, kind, Event, pause_pressed, arrives,
  show_tab, request_ends, starts_trace, trace_times_out, trace_ticks, trace_fails, trace_answered,
  shows_trace, channels_end, types_in, presses_key, presses_send, send_ends,
}
use meshtastic_proxy.Dashboard.Steps.{step, receive, handle, on_trace, on_chat, on_stream}
use meshtastic_proxy.Dashboard.Untouched.{IsApart, outside-keeps}

show_on_map-closed :
    (dir : Dir) (p : Panel) (i : ℕ) (l : Option Route) → show_on_map false dir p i l ≡ l
unfolding show_on_map
show_on_map-closed dir p i l = go (get_elem? p.entries i)
  where
    go :
        (o : Option TraceData)
        → (elim o as (λ x. Option Route) [ none ↦ l | some t ↦ draw_traceroute false dir t l ]) ≡ l
    go none = refl
    go (some t) = draw_traceroute-closed dir t l

abbrev IsNone : Option Route → Type 0
IsNone l = l ≡ none

module _ {ℓ} {R : Type ℓ} (b : Browser R) where
  abbrev route : Dashboard R → Option Route
  route s = s.trace.layer

  apart : IsApart b route
  apart = record {
    of_app = λ s a. refl;
    of_chat = λ s c. refl;
    of_requests = λ s rs. refl;
    of_channels = λ s n. refl;
    of_composer = λ s c rs. refl;
  }

  on_trace-route :
      (now : ℕ) (e : Machine.Event) (s : Dashboard R)
      → s.app.map.ready ≡ false
      → IsNone (route s)
      → IsNone (route (on_trace b now e s))
  unfolding on_trace
  on_trace-route now e s closed v =
      subst
        (λ r. IsNone (Machine.step (record { map_ready = r; dir = s.app.dir }) now e s.trace).layer)
        (sym closed) (step-layer s.app.dir now e s.trace v)

  handle-route :
      (now : ℕ) (p : Payload) (s : Dashboard R)
      → s.app.map.ready ≡ false
      → IsNone (route s)
      → IsNone (route (handle b now p s))
  unfolding handle on_chat
  handle-route now (traceroute_result t) s closed v =
      on_trace-route now (Machine.result t) s closed v
  handle-route now (metrics snap) s closed v = v
  handle-route now _ s closed v = v

  -- While there is no map and no route, no event draws one.
  pub step-route :
      (now : ℕ) (e : Event) (s : Dashboard R)
      → s.app.map.ready ≡ false
      → IsNone (route s)
      → IsNone (route (step b now e s))
  unfolding step receive on_chat
  step-route now (arrives p) s closed v =
      let s1 : Dashboard R = on_stream b (Sse.arrives (kind p)) s in
      if_keeps route IsNone (s.app.paused && holds_back (kind p)) s1 (handle b now p s1) v
        (handle-route now p s1 closed v)
  step-route now (starts_trace n) s closed v = on_trace-route now (Machine.start n) s closed v
  step-route now (trace_times_out id) s closed v =
      on_trace-route now (Machine.timeout id) s closed v
  step-route now (trace_ticks id) s closed v = on_trace-route now (Machine.interval id) s closed v
  step-route now (trace_fails n) s closed v = on_trace-route now (Machine.failed n) s closed v
  step-route now (trace_answered n) s closed v = on_trace-route now (Machine.answered n) s closed v
  step-route now (shows_trace i) s closed v =
      ap (λ r. show_on_map r s.app.dir s.history i s.trace.layer) closed
      ∙ show_on_map-closed s.app.dir s.history i s.trace.layer
      ∙ v
  step-route now (show_tab t) s closed v =
      outside-keeps b route IsNone apart now (show_tab t) refl s v
  step-route now (request_ends i ok) s closed v =
      outside-keeps b route IsNone apart now (request_ends i ok) refl s v
  step-route now (channels_end o) s closed v =
      outside-keeps b route IsNone apart now (channels_end o) refl s v
  step-route now (types_in t) s closed v =
      outside-keeps b route IsNone apart now (types_in t) refl s v
  step-route now (presses_key enter shift) s closed v =
      outside-keeps b route IsNone apart now (presses_key enter shift) refl s v
  step-route now presses_send s closed v =
      outside-keeps b route IsNone apart now presses_send refl s v
  step-route now (send_ends o) s closed v =
      outside-keeps b route IsNone apart now (send_ends o) refl s v
  step-route now pause_pressed s closed v = v
  step-route now _ s closed v = v
