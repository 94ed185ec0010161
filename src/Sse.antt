-- ===== src/Sse.antt =====
-- app.js `connectSSE`: the connection to the event stream, its indicator, the delay before the next
-- try, and which events the pause button holds back.
pub mod Backoff
use meshtastic_proxy.Base.{
  ℕ, zero, suc, ◌+◌, ◌*◌, min, List, [], ◌∷◌, ◌++◌, Bool, true, false, not, Option, none, some,
  if◌then◌else◌,
}

pub data Light : Type 0 where
  connecting live reconnecting : Light

-- The events that the server sends.
pub data Kind : Type 0 where
  metrics message clients node_directory node_position_update node_telemetry_update
        node_signal_update node_update traceroute_result trace_history node_favorite chat_history
        chat_message :
      Kind

-- Whether the listener of an event returns at once while the page is paused.
unfoldable pub holds_back : Kind → Bool
holds_back metrics = true
holds_back message = true
holds_back clients = false
holds_back node_directory = false
holds_back node_position_update = true
holds_back node_telemetry_update = true
holds_back node_signal_update = true
holds_back node_update = true
holds_back traceroute_result = false
holds_back trace_history = false
holds_back node_favorite = false
holds_back chat_history = false
holds_back chat_message = true

pub record Sse : Type 0 where
  pub light : Light
  pub reconnect_delay : ℕ
  pub paused : Bool
  pub source_open : Bool
  pub retries : List ℕ
  pub handled : List Kind

-- `connectSSE()` runs once when the script loads.
abbrev pub connected : Sse
connected = record {
  light = connecting;
  reconnect_delay = 1000;
  paused = false;
  source_open = true;
  retries = [];
  handled = [];
}

-- What the page reacts to: the stream opens or fails, an event comes, the button is pressed, or the
-- oldest of the timers that wait fires and connects again.
pub data Event : Type 0 where
  opened : Event
  broken : Event
  arrives : Kind → Event
  pause_pressed : Event
  retry : Event

unfoldable pub step : Event → Sse → Sse
unfolding holds_back
step opened s = record s { light = live; reconnect_delay = 1000 }
step broken s = record s {
  light = reconnecting;
  source_open = false;
  retries = s.retries ++ s.reconnect_delay ∷ [];
  reconnect_delay = min (s.reconnect_delay * 2) 30000;
}
step (arrives k) s =
    if s.paused
    then (if holds_back k then s else record s { handled = s.handled ++ k ∷ [] })
    else record s { handled = s.handled ++ k ∷ [] }
step pause_pressed s = record s { paused = not s.paused }
step retry s = elim s.retries [ [] ↦ s | d ∷ ds ↦ record s { retries = ds; source_open = true } ]

unfoldable pub run : List Event → Sse → Sse
unfolding step
run [] s = s
run (e ∷ es) s = run es (step e s)
