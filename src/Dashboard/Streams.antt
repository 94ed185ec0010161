-- ===== src/Dashboard/Streams.antt =====
-- The connection, the pause and the refresh button on the dashboard: each moves as its own model.
use meshtastic_proxy.Base.{ℕ, ◌&&◌, Option, none, some, ◌≡◌, refl, if_both}
use meshtastic_proxy.Sse
use meshtastic_proxy.Sse.{Sse, holds_back}
use meshtastic_proxy.Clients
use meshtastic_proxy.Clients.{Refresh}
use meshtastic_proxy.Dashboard.{
  Browser, Dashboard, Payload, metrics, message, clients, node_directory, update, traceroute_result,
  trace_history, chat_history, chat_message, kind, Event, stream_opens, stream_breaks,
  stream_retries, pause_pressed, arrives, show_tab, request_ends, channels_end, types_in,
  presses_key, presses_send, send_ends, refresh_pressed, refresh_ended, refresh_fired,
}
use meshtastic_proxy.Dashboard.Untouched.{IsApart, same-outside}
use meshtastic_proxy.Dashboard.Steps.{step, receive, handle, on_trace, on_chat, on_stream}

-- The event of the connection that an event of the dashboard is.
unfoldable pub stream_event : Event → Option Sse.Event
stream_event stream_opens = some Sse.opened
stream_event stream_breaks = some Sse.broken
stream_event stream_retries = some Sse.retry
stream_event pause_pressed = some Sse.pause_pressed
stream_event (arrives p) = some (Sse.arrives (kind p))
stream_event _ = none

abbrev pub hear : Option Sse.Event → Sse → Sse
hear none s = s
hear (some e) s = Sse.step e s

unfoldable pub refresh_event : Event → Option Clients.Event
refresh_event refresh_pressed = some Clients.pressed
refresh_event refresh_ended = some Clients.ended
refresh_event refresh_fired = some Clients.fired
refresh_event _ = none

abbrev pub turn : Option Clients.Event → Refresh → Refresh
turn none s = s
turn (some e) s = Clients.step e s

-- The connection and the refresh button of a page.
abbrev Wires : Type 0
Wires = Sse × Refresh

module _ {ℓ} {R : Type ℓ} (b : Browser R) where
  abbrev wires : Dashboard R → Wires
  wires s = (s.stream, s.refresh)

  apart : IsApart b wires
  apart = record {
    of_app = λ s a. refl;
    of_chat = λ s c. refl;
    of_requests = λ s rs. refl;
    of_channels = λ s n. refl;
    of_composer = λ s c rs. refl;
  }

  handle-wires : (now : ℕ) (p : Payload) (s : Dashboard R) → wires (handle b now p s) ≡ wires s
  unfolding handle on_trace on_chat
  handle-wires now (metrics snap) s = refl
  handle-wires now (message m) s = refl
  handle-wires now (clients addrs) s = refl
  handle-wires now (node_directory d) s = refl
  handle-wires now (update u) s = refl
  handle-wires now (traceroute_result t) s = refl
  handle-wires now (trace_history ts) s = refl
  handle-wires now (chat_history ms) s = refl
  handle-wires now (chat_message m) s = refl

  -- The dashboard moves its connection and its refresh button as their models.
  pub step-wires :
      (now : ℕ) (e : Event) (s : Dashboard R)
      → wires (step b now e s) ≡ (hear (stream_event e) s.stream, turn (refresh_event e) s.refresh)
  unfolding step receive on_trace on_chat stream_event refresh_event
  step-wires now (arrives p) s =
      let s1 : Dashboard R = on_stream b (Sse.arrives (kind p)) s in
      if_both wires (s.app.paused && holds_back (kind p)) s1 (handle b now p s1) (wires s1) refl
        (handle-wires now p s1)
  step-wires now (show_tab t) s = same-outside b wires apart now (show_tab t) refl s
  step-wires now (request_ends i ok) s = same-outside b wires apart now (request_ends i ok) refl s
  step-wires now (channels_end o) s = same-outside b wires apart now (channels_end o) refl s
  step-wires now (types_in t) s = same-outside b wires apart now (types_in t) refl s
  step-wires now (presses_key enter shift) s =
      same-outside b wires apart now (presses_key enter shift) refl s
  step-wires now presses_send s = same-outside b wires apart now presses_send refl s
  step-wires now (send_ends o) s = same-outside b wires apart now (send_ends o) refl s
  step-wires now pause_pressed s = refl
  step-wires now _ s = refl
