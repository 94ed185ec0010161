-- ===== src/Dashboard/Tables.antt =====
-- The message table and the traffic chart on the dashboard.
use meshtastic_proxy.Base.{ℕ, List, [], ◌&&◌, refl, if_keeps}
use meshtastic_proxy.Sse
use meshtastic_proxy.Sse.{holds_back}
use meshtastic_proxy.Traffic.{Sample, Chart}
use meshtastic_proxy.Traffic.Window.{Shows, update_chart-Shows}
use meshtastic_proxy.Messages.{Engine, Table}
use meshtastic_proxy.Messages.Rows.{InStep, table_lem, on_filter_input-InStep}
use meshtastic_proxy.Dashboard.{
  Browser, Dashboard, Payload, metrics, message, clients, kind, Event, pause_pressed, arrives,
  show_tab, request_ends, filters, channels_end, types_in, presses_key, presses_send, send_ends,
}
use meshtastic_proxy.Dashboard.Steps.{step, receive, handle, on_trace, on_chat, on_stream}
use meshtastic_proxy.Dashboard.Untouched.{IsApart, outside-keeps}

-- The rows that the filter accepts are displayed and counted, and the chart shows a list of samples.
abbrev pub Tabled : Engine → Table × Chart → Type 0
Tabled engine x = InStep engine x.0 × ((ss : List Sample) × Shows x.1 ss)

module _ {ℓ} {R : Type ℓ} (b : Browser R) where
  abbrev pub tables : Dashboard R → Table × Chart
  tables s = (s.messages, s.chart)

  apart : IsApart b tables
  apart = record {
    of_app = λ s a. refl;
    of_chat = λ s c. refl;
    of_requests = λ s rs. refl;
    of_channels = λ s n. refl;
    of_composer = λ s c rs. refl;
  }

  abbrev Right : Table × Chart → Type 0
  Right = Tabled b.engine

  handle-Tabled :
      (now : ℕ) (p : Payload) (s : Dashboard R)
      → Right (tables s)
      → Right (tables (handle b now p s))
  unfolding handle on_chat on_trace
  handle-Tabled now (metrics snap) s v = (v.0, (_, update_chart-Shows snap s.chart v.1.0 v.1.1))
  handle-Tabled now (message m) s v = ((table_lem b.engine s.app.dir m [] s.messages).1, v.1)
  handle-Tabled now (clients addrs) s v = v
  handle-Tabled now _ s v = v

  -- One event of the dashboard keeps the message table and the chart right.
  pub step-Tabled :
      (now : ℕ) (e : Event) (s : Dashboard R) → Right (tables s) → Right (tables (step b now e s))
  unfolding step receive on_trace on_chat
  step-Tabled now (arrives p) s v =
      let s1 : Dashboard R = on_stream b (Sse.arrives (kind p)) s in
      if_keeps tables Right (s.app.paused && holds_back (kind p)) s1 (handle b now p s1) v
        (handle-Tabled now p s1 v)
  step-Tabled now (filters t) s v = (on_filter_input-InStep b.engine t s.messages, v.1)
  step-Tabled now (show_tab t) s v = outside-keeps b tables Right apart now (show_tab t) refl s v
  step-Tabled now (request_ends i ok) s v =
      outside-keeps b tables Right apart now (request_ends i ok) refl s v
  step-Tabled now (channels_end o) s v =
      outside-keeps b tables Right apart now (channels_end o) refl s v
  step-Tabled now (types_in t) s v = outside-keeps b tables Right apart now (types_in t) refl s v
  step-Tabled now (presses_key enter shift) s v =
      outside-keeps b tables Right apart now (presses_key enter shift) refl s v
  step-Tabled now presses_send s v = outside-keeps b tables Right apart now presses_send refl s v
  step-Tabled now (send_ends o) s v = outside-keeps b tables Right apart now (send_ends o) refl s v
  step-Tabled now pause_pressed s v = v
  step-Tabled now _ s v = v
