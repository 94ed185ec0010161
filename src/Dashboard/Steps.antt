-- ===== src/Dashboard/Steps.antt =====
-- The dashboard as one machine: the dispatch of the stream (app.js `connectSSE`), the listeners of
-- the user, the timers and the ends of requests. Times are milliseconds of `Date.now()`; the
-- directory counts seconds.
use meshtastic_proxy.Base.{
  ℕ, zero, suc, ◌+◌, ◌/◌, List, [], ◌∷◌, ◌++◌, Bool, ◌&&◌, Option, none, some, if◌then◌else◌,
}
use meshtastic_proxy.Directory.{Dir}
use meshtastic_proxy.Trace.Route.{TraceData}
use meshtastic_proxy.Trace.Machine
use meshtastic_proxy.Trace.Machine.{
  result_throws, Machine, Timeout, no_response, pending_target, find_timeout,
}
use meshtastic_proxy.Trace.History
use meshtastic_proxy.Trace.History.{Panel}
use meshtastic_proxy.Chat
use meshtastic_proxy.Chat.{Channel, scroll_to_bottom, init_chat}
use meshtastic_proxy.Chat.Send
use meshtastic_proxy.Chat.Send.{Composer, send_message, on_key, on_input}
use meshtastic_proxy.Sse
use meshtastic_proxy.Sse.{Sse, holds_back}
use meshtastic_proxy.Traffic.{update_chart, update_types, cards_of}
use meshtastic_proxy.Messages.{prepend_message, on_filter_input}
use meshtastic_proxy.Clients
use meshtastic_proxy.Clients.{update_clients, pressed, ended, fired}
use meshtastic_proxy.Nodes.Actions.{
  Actions, Request, ask_position, ask_nodeinfo, ask_store_forward, set_favorite,
  toggle_node_actions, close_node_actions, node_action, take_at,
}
use meshtastic_proxy.App
use meshtastic_proxy.App.{App, Tab, dashboard, map_tab, chat, nodes, favorite_set, on_update}
use meshtastic_proxy.App.Steps
use meshtastic_proxy.App.Steps.{on_snapshot, on_directory}
use meshtastic_proxy.Dashboard.{
  Browser, Dashboard, Payload, metrics, message, clients, node_directory, update, traceroute_result,
  trace_history, chat_history, chat_message, kind, Event, stream_opens, stream_breaks,
  stream_retries, pause_pressed, refresh_timer, arrives, show_tab, acts, acts_on_map, opens_menu,
  click_outside, chooses, request_ends, starts_trace, trace_times_out, trace_ticks, trace_fails,
  trace_answered, toggles_history, shows_trace, filters, channels_end, selects, scrolls, types_in,
  presses_key, presses_send, send_ends, refresh_pressed, refresh_ended, refresh_fired,
}

-- What a call of the trace machine gives to `appendTraceHistory`.
unfoldable pub entry_left : Machine.Page → Machine.Event → Machine → Option TraceData
unfolding find_timeout result_throws
entry_left page (Machine.result t) m = if result_throws page t m then none else some t
entry_left page (Machine.timeout id) m = elim (find_timeout id m.timeouts) [
  | none ↦ none
  | some t ↦ some (no_response (pending_target t.node m.pending))
]
entry_left page (Machine.start n) m = none
entry_left page (Machine.interval id) m = none
entry_left page (Machine.failed n) m = none
entry_left page (Machine.answered n) m = none

unfoldable pub record_entry : Dir → Option TraceData → Panel → Panel
unfolding History.append
record_entry dir none p = p
record_entry dir (some t) p = History.append dir t p

-- The composer behind a press, with the request that it sends.
abbrev pub post {ℓ} : {R : Type ℓ} → Composer × Option Send.Request → Dashboard R → Dashboard R
post (c, none) s = record s { composer = c }
post (c, some r) s = record s { composer = c; outbox = s.outbox ++ r ∷ [] }

abbrev pub seconds : ℕ → ℕ
seconds now = now / 1000

module _ {ℓ} {R : Type ℓ} (b : Browser R) where
  abbrev pub trace_page : Dashboard R → Machine.Page
  trace_page s = record { map_ready = s.app.map.ready; dir = s.app.dir }

  -- A call of the trace machine, and what it appends to the history.
  unfoldable pub on_trace : ℕ → Machine.Event → Dashboard R → Dashboard R
  unfolding entry_left record_entry Machine.step
  on_trace now e s = record s {
    trace = Machine.step (trace_page s) now e s.trace;
    history = record_entry s.app.dir (entry_left (trace_page s) e s.trace) s.history;
  }

  unfoldable pub on_chat : Chat.Event → Dashboard R → Dashboard R
  unfolding Chat.step
  on_chat e s = record s { chat = Chat.step s.app.dir e s.chat }

  -- The listeners of the stream, behind their test of `paused`.
  unfoldable pub handle : ℕ → Payload → Dashboard R → Dashboard R
  unfolding on_trace on_chat on_snapshot on_update prepend_message update_clients update_chart
      update_types cards_of History.load
  handle now (metrics snap) s = record s {
    cards = cards_of b.floats snap;
    chart = update_chart snap s.chart;
    types = update_types snap s.types;
    app = on_snapshot b.locale b.curve (seconds now) snap.node_dir s.app;
  }
  handle now (message m) s = record s { messages = prepend_message b.engine s.app.dir m s.messages }
  handle now (clients addrs) s = record s { clients = update_clients addrs s.clients }
  handle now (node_directory d) s = record s {
    app = on_directory b.locale b.curve (seconds now) d s.app;
  }
  handle now (update u) s = record s { app = on_update b.locale b.curve (seconds now) u s.app }
  handle now (traceroute_result t) s = on_trace now (Machine.result t) s
  handle now (trace_history ts) s = record s { history = History.load s.app.dir ts s.history }
  handle now (chat_history ms) s = on_chat (Chat.history ms) s
  handle now (chat_message m) s = on_chat (Chat.message m) s

  abbrev pub on_stream : Sse.Event → Dashboard R → Dashboard R
  on_stream e s = record s { stream = Sse.step e s.stream }

  -- An event of the stream: while the page is paused, some listeners return at once.
  unfoldable pub receive : ℕ → Payload → Dashboard R → Dashboard R
  unfolding handle holds_back Sse.step
  receive now p s =
      let s1 = on_stream (Sse.arrives (kind p)) s in
      if s.app.paused && holds_back (kind p) then s1 else handle now p s1

  abbrev pub on_app : ℕ → App.Event → Dashboard R → Dashboard R
  on_app now e s = record s { app = Steps.step b.locale b.curve (seconds now) e s.app }

  -- `switchTab`; the chat asks for its channels when it is shown for the first time.
  unfoldable pub open_chat : Dashboard R → Dashboard R
  unfolding init_chat
  open_chat s =
      let (opened, asks) = init_chat s.chat in
      record s {
        chat = scroll_to_bottom opened;
        channel_requests = if asks then s.channel_requests + 1 else s.channel_requests;
      }

  unfoldable pub switch_tab : ℕ → Tab → Dashboard R → Dashboard R
  unfolding open_chat Steps.step
  switch_tab now chat s = open_chat (on_app now (App.show_tab chat) s)
  switch_tab now dashboard s = on_app now (App.show_tab dashboard) s
  switch_tab now map_tab s = on_app now (App.show_tab map_tab) s
  switch_tab now nodes s = on_app now (App.show_tab nodes) s

  -- The drop-down as its own model sees it.
  abbrev pub actions : Dashboard R → Actions
  actions s = record { dropdown = s.dropdown; pending = s.requests; dir = s.app.dir }

  abbrev with_actions : Actions → Dashboard R → Dashboard R
  with_actions a s = record s { dropdown = a.dropdown; requests = a.pending }

  -- The answer of a favourite that is ok writes the mark and draws the table.
  abbrev pub settle_request : ℕ → Bool → Request → Dashboard R → Dashboard R
  settle_request now ok r s =
      if ok
      then elim r.command [
        | ask_position ↦ s
        | ask_nodeinfo ↦ s
        | ask_store_forward ↦ s
        | set_favorite mark ↦ on_app now (favorite_set r.target mark) s
      ]
      else s

  abbrev pub end_request : ℕ → Bool → Option (Request × List Request) → Dashboard R → Dashboard R
  end_request now ok none s = s
  end_request now ok (some (r, rest)) s = settle_request now ok r (record s { requests = rest })

  -- The answer to `/api/chat/channels`, or its failure.
  abbrev pub end_channels : ℕ → Option (List Channel) → Dashboard R → Dashboard R
  end_channels zero o s = s
  end_channels (suc n) none s = record s { channel_requests = n }
  end_channels (suc n) (some cs) s = on_chat (Chat.channels cs) (record s { channel_requests = n })

  abbrev pub end_send : Send.Outcome → List Send.Request → Dashboard R → Dashboard R
  end_send o [] s = s
  end_send o (r ∷ rs) s = record s { outbox = rs; composer = Send.settle o s.composer }

  -- One call of the event loop. An element that is disabled calls no listener.
  unfoldable pub step : ℕ → Event → Dashboard R → Dashboard R
  unfolding receive switch_tab on_trace on_chat Steps.step Sse.step Clients.step take_at
      toggle_node_actions node_action on_filter_input on_input on_key send_message Send.settle
      History.toggle History.show_on_map
  step now stream_opens s = on_stream Sse.opened s
  step now stream_breaks s = on_stream Sse.broken s
  step now stream_retries s = on_stream Sse.retry s
  step now pause_pressed s = on_stream Sse.pause_pressed (on_app now App.pause_pressed s)
  step now refresh_timer s = on_app now App.refresh_timer s
  step now (arrives p) s = receive now p s
  step now (show_tab t) s = switch_tab now t s
  step now (acts a) s = on_app now (App.acts a) s
  step now (acts_on_map a) s = on_app now (App.acts_on_map a) s
  step now (opens_menu n) s = with_actions (toggle_node_actions n (actions s)) s
  step now click_outside s = with_actions (close_node_actions (actions s)) s
  step now (chooses c n) s = with_actions (node_action c n (actions s)) s
  step now (request_ends i ok) s = end_request now ok (take_at i s.requests) s
  step now (starts_trace n) s = on_trace now (Machine.start n) s
  step now (trace_times_out id) s = on_trace now (Machine.timeout id) s
  step now (trace_ticks id) s = on_trace now (Machine.interval id) s
  step now (trace_fails n) s = on_trace now (Machine.failed n) s
  step now (trace_answered n) s = on_trace now (Machine.answered n) s
  step now toggles_history s = record s { history = History.toggle s.history }
  step now (shows_trace i) s = record s {
    trace = record s.trace {
      layer = History.show_on_map s.app.map.ready s.app.dir s.history i s.trace.layer;
    };
  }
  step now (filters t) s = record s { messages = on_filter_input b.engine t s.messages }
  step now (channels_end o) s = end_channels s.channel_requests o s
  step now (selects i) s = on_chat (Chat.select i) s
  step now (scrolls x y z) s = on_chat (Chat.scroll x y z) s
  step now (types_in t) s =
      if s.composer.input_disabled then s else record s { composer = on_input t s.composer }
  step now (presses_key enter shift) s =
      if s.composer.input_disabled then s else post (on_key s.chat.active enter shift s.composer) s
  step now presses_send s =
      if s.composer.send_disabled then s else post (send_message s.chat.active s.composer) s
  step now (send_ends o) s = end_send o s.outbox s
  step now refresh_pressed s = record s { refresh = Clients.step pressed s.refresh }
  step now refresh_ended s = record s { refresh = Clients.step ended s.refresh }
  step now refresh_fired s = record s { refresh = Clients.step fired s.refresh }

  unfoldable pub run : List (ℕ × Event) → Dashboard R → Dashboard R
  unfolding step
  run [] s = s
  run ((now, e) ∷ es) s = run es (step now e s)
