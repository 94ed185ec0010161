-- ===== src/Dashboard/Apps.antt =====
-- What the dashboard does with the directory, the map and the table is what the model of these parts
-- does with one of its events, or nothing.
use meshtastic_proxy.Base.{
  ℕ, List, Bool, true, false, ◌&&◌, Option, none, some, if◌then◌else◌, ◌≡◌, refl, if_both, if_apart,
}
use meshtastic_proxy.Sse
use meshtastic_proxy.Sse.{Kind, holds_back}
use meshtastic_proxy.Nodes.Actions.{
  Command, Request, ask_position, ask_nodeinfo, ask_store_forward, set_favorite, take_at,
}
use meshtastic_proxy.App
use meshtastic_proxy.App.{App, Tab, dashboard, map_tab, chat, nodes, kind_of, on_update}
use meshtastic_proxy.App.Steps
use meshtastic_proxy.App.Steps.{on_snapshot, on_directory}
use meshtastic_proxy.Dashboard.{
  Browser, Dashboard, Payload, metrics, message, clients, node_directory, update, traceroute_result,
  trace_history, chat_history, chat_message, kind, Event, pause_pressed, refresh_timer, arrives,
  show_tab, acts, acts_on_map, request_ends, channels_end, types_in, presses_key, presses_send,
  send_ends,
}
use meshtastic_proxy.Dashboard.Untouched.{same-end_channels, same-composed}
use meshtastic_proxy.Dashboard.Steps.{
  step, receive, handle, on_trace, on_chat, on_stream, on_app, switch_tab, open_chat, end_request,
  seconds,
}

abbrev pub event_of_payload : Payload → Option App.Event
event_of_payload (metrics snap) = some (App.snapshot snap.node_dir)
event_of_payload (node_directory d) = some (App.directory d)
event_of_payload (update u) = some (App.server u)
event_of_payload (message m) = none
event_of_payload (clients addrs) = none
event_of_payload (traceroute_result t) = none
event_of_payload (trace_history ts) = none
event_of_payload (chat_history ms) = none
event_of_payload (chat_message m) = none

-- An answer that is ok to the request of a favourite.
abbrev pub event_of_answer : Bool → Option (Request × List Request) → Option App.Event
event_of_answer ok none = none
event_of_answer ok (some (r, rest)) =
    if ok
    then elim r.command [
      | ask_position ↦ none
      | ask_nodeinfo ↦ none
      | ask_store_forward ↦ none
      | set_favorite mark ↦ some (App.favorite_set r.target mark)
    ]
    else none

-- The event of `App` that an event of the dashboard is.
unfoldable pub app_event {ℓ} : {R : Type ℓ} → Event → Dashboard R → Option App.Event
unfolding take_at
app_event (arrives p) s = event_of_payload p
app_event pause_pressed s = some App.pause_pressed
app_event refresh_timer s = some App.refresh_timer
app_event (show_tab t) s = some (App.show_tab t)
app_event (acts a) s = some (App.acts a)
app_event (acts_on_map a) s = some (App.acts_on_map a)
app_event (request_ends i ok) s = event_of_answer ok (take_at i s.requests)
app_event _ s = none

module _ {ℓ} {R : Type ℓ} (b : Browser R) where
  abbrev pub move : ℕ → Option App.Event → App R → App R
  move now none a = a
  move now (some e) a = Steps.step b.locale b.curve (seconds now) e a

  never :
      (paused : Bool) (s t : Dashboard R) (x : App R)
      → t.app ≡ x
      → (if paused && false then s else t).app ≡ x
  never true s t x h = h
  never false s t x h = h

  abbrev pub heard : Payload → Dashboard R → Dashboard R
  heard p s = on_stream b (Sse.arrives (kind p)) s

  receive-app :
      (now : ℕ) (p : Payload) (s : Dashboard R)
      → (receive b now p s).app ≡ move now (event_of_payload p) s.app
  unfolding receive handle Steps.step on_trace on_chat
  receive-app now (metrics snap) s =
      if_apart (λ x. x.app) (s.app.paused && holds_back Kind.metrics) (heard (metrics snap) s)
        (handle b now (metrics snap) (heard (metrics snap) s)) s.app
        (on_snapshot b.locale b.curve (seconds now) snap.node_dir s.app) refl refl
  receive-app now (update u) s =
      if_apart (λ x. x.app) (s.app.paused && holds_back (kind_of u)) (heard (update u) s)
        (handle b now (update u) (heard (update u) s)) s.app
        (on_update b.locale b.curve (seconds now) u s.app) refl refl
  receive-app now (node_directory d) s =
      never s.app.paused (heard (node_directory d) s)
        (handle b now (node_directory d) (heard (node_directory d) s))
        (on_directory b.locale b.curve (seconds now) d s.app) refl
  receive-app now (message m) s =
      if_both (λ x. x.app) (s.app.paused && holds_back (kind (message m))) (heard (message m) s)
        (handle b now (message m) (heard (message m) s)) s.app refl refl
  receive-app now (chat_message m) s =
      if_both (λ x. x.app) (s.app.paused && holds_back (kind (chat_message m)))
        (heard (chat_message m) s) (handle b now (chat_message m) (heard (chat_message m) s)) s.app
        refl refl
  receive-app now (clients addrs) s =
      if_both (λ x. x.app) (s.app.paused && holds_back (kind (clients addrs)))
        (heard (clients addrs) s) (handle b now (clients addrs) (heard (clients addrs) s)) s.app
        refl refl
  receive-app now (traceroute_result t) s =
      if_both (λ x. x.app) (s.app.paused && holds_back (kind (traceroute_result t)))
        (heard (traceroute_result t) s)
        (handle b now (traceroute_result t) (heard (traceroute_result t) s)) s.app refl refl
  receive-app now (trace_history ts) s =
      if_both (λ x. x.app) (s.app.paused && holds_back (kind (trace_history ts)))
        (heard (trace_history ts) s) (handle b now (trace_history ts) (heard (trace_history ts) s))
        s.app refl refl
  receive-app now (chat_history ms) s =
      if_both (λ x. x.app) (s.app.paused && holds_back (kind (chat_history ms)))
        (heard (chat_history ms) s) (handle b now (chat_history ms) (heard (chat_history ms) s))
        s.app refl refl

  settled-app :
      (now : ℕ) (ok : Bool) (o : Option (Request × List Request)) (s : Dashboard R)
      → (end_request b now ok o s).app ≡ move now (event_of_answer ok o) s.app
  settled-app now ok none s = refl
  settled-app now ok (some (r, rest)) s = go ok r.command
    where
      s1 : Dashboard R
      s1 = record s { requests = rest }

      go :
          (ok : Bool) (c : Command)
          → (if ok
              then elim c [
                | ask_position ↦ s1
                | ask_nodeinfo ↦ s1
                | ask_store_forward ↦ s1
                | set_favorite mark ↦ on_app b now (App.favorite_set r.target mark) s1
              ]
              else s1).app
            ≡ move now
                (if ok
                  then elim c [
                    | ask_position ↦ none
                    | ask_nodeinfo ↦ none
                    | ask_store_forward ↦ none
                    | set_favorite mark ↦ some (App.favorite_set r.target mark)
                  ]
                  else none)
                s.app
      go false c = refl
      go true ask_position = refl
      go true ask_nodeinfo = refl
      go true ask_store_forward = refl
      go true (set_favorite mark) = refl

  tab-app :
      (now : ℕ) (t : Tab) (s : Dashboard R)
      → (switch_tab b now t s).app ≡ move now (some (App.show_tab t)) s.app
  unfolding switch_tab open_chat
  tab-app now dashboard s = refl
  tab-app now map_tab s = refl
  tab-app now chat s = refl
  tab-app now nodes s = refl

  -- One event of the dashboard is for the directory, the map and the table one event of theirs, or
  -- none.
  pub step-app :
      (now : ℕ) (e : Event) (s : Dashboard R)
      → (step b now e s).app ≡ move now (app_event e s) s.app
  unfolding step app_event on_trace on_chat
  step-app now (arrives p) s = receive-app now p s
  step-app now (show_tab t) s = tab-app now t s
  step-app now (request_ends i ok) s = settled-app now ok (take_at i s.requests) s
  step-app now (channels_end o) s =
      same-end_channels b (λ x. x.app) (λ s n. refl) (λ e n s. refl) s.channel_requests o s
  step-app now (types_in t) s =
      same-composed b (λ x. x.app) (λ s c rs. refl) now (types_in t) refl s
  step-app now (presses_key enter shift) s =
      same-composed b (λ x. x.app) (λ s c rs. refl) now (presses_key enter shift) refl s
  step-app now presses_send s =
      same-composed b (λ x. x.app) (λ s c rs. refl) now presses_send refl s
  step-app now (send_ends o) s =
      same-composed b (λ x. x.app) (λ s c rs. refl) now (send_ends o) refl s
  step-app now pause_pressed s = refl
  step-app now _ s = refl
