-- ===== src/Dashboard.antt =====
-- The whole dashboard: the state of every panel of the page, the events of the server with what they
-- carry, and what the user, the timers and the answers to requests may do (app.js, chat.js, nodes.js,
-- templates/dashboard.html).
pub mod Steps
pub mod Untouched
pub mod Apps
pub mod Streams
pub mod Traces
pub mod Chats
pub mod Sends
pub mod Tables
pub mod Pause
pub mod Routes
pub mod Session
pub mod Menus
pub mod Resync
pub mod Reach
pub mod Invariant
use meshtastic_proxy.Base.{
  ℤ, ℕ, List, [], ◌∷◌, map, Text, Bool, true, false, Option, none, some, Locale, length,
}
use meshtastic_proxy.Base.NumMap.{NumMap}
use meshtastic_proxy.Directory.{Entry, Dir, Update}
use meshtastic_proxy.Trace.Route.{TraceData}
use meshtastic_proxy.Trace.Machine.{Machine, idle}
use meshtastic_proxy.Trace.History.{Panel}
use meshtastic_proxy.Chat
use meshtastic_proxy.Chat.{Channel, fresh_chat}
use meshtastic_proxy.Chat.Send
use meshtastic_proxy.Chat.Send.{Composer, Outcome}
use meshtastic_proxy.Sse.{Kind, Sse, connected}
use meshtastic_proxy.Traffic.{
  Sample, Chart, Snapshot, Floats, Types, Cards, first_chart, generate_colours, legend_from,
}
use meshtastic_proxy.Messages.{Record, Cells, Row, Table, Engine}
use meshtastic_proxy.Clients.{Clients, Refresh, ready}
use meshtastic_proxy.Nodes.{first_view, any}
use meshtastic_proxy.Nodes.Table.{Action}
use meshtastic_proxy.Nodes.Actions.{Menu, Choice, Request}
use meshtastic_proxy.Map.{any_status, any_battery}
use meshtastic_proxy.Map.Heat.{off}
use meshtastic_proxy.App.{App, Tab, MapAction, dashboard, kind_of}

-- What the engine of the browser does.
pub record Browser {ℓ} (R : Type ℓ) : Type ℓ where
  pub locale : Locale
  pub curve : ℕ → ℕ → R
  pub engine : Engine
  pub floats : Floats

-- The panels; the requests of the drop-down, of the composer and for the channels that are not
-- answered yet.
pub record Dashboard {ℓ} (R : Type ℓ) : Type ℓ where
  pub stream : Sse
  pub app : App R
  pub chart : Chart
  pub types : Types
  pub cards : Cards
  pub messages : Table
  pub clients : Clients
  pub refresh : Refresh
  pub trace : Machine
  pub history : Panel
  pub chat : Chat.Chat
  pub channel_requests : ℕ
  pub composer : Composer
  pub outbox : List Send.Request
  pub dropdown : Option Menu
  pub requests : List Request

-- An event of the server with its data. A Go slice that is nil arrives as `null`.
pub data Payload : Type 0 where
  metrics : Snapshot → Payload
  message : Record → Payload
  clients : Option (List Text) → Payload
  node_directory : NumMap Entry → Payload
  update : Update → Payload
  traceroute_result : TraceData → Payload
  trace_history : Option (List TraceData) → Payload
  chat_history : List Chat.Message → Payload
  chat_message : Chat.Message → Payload

-- The name of the event.
abbrev pub kind : Payload → Kind
kind (metrics snap) = Kind.metrics
kind (message m) = Kind.message
kind (clients addrs) = Kind.clients
kind (node_directory d) = Kind.node_directory
kind (update u) = kind_of u
kind (traceroute_result t) = Kind.traceroute_result
kind (trace_history ts) = Kind.trace_history
kind (chat_history ms) = Kind.chat_history
kind (chat_message m) = Kind.chat_message

-- What the event loop may call: the stream, the user, the timers, and the ends of requests.
pub data Event : Type 0 where
  stream_opens stream_breaks stream_retries pause_pressed refresh_timer : Event
  arrives : Payload → Event
  show_tab : Tab → Event
  acts : Action → Event
  acts_on_map : MapAction → Event
  opens_menu : ℕ → Event
  click_outside : Event
  chooses : Choice → ℕ → Event
  request_ends : ℕ → Bool → Event
  starts_trace : ℕ → Event
  trace_times_out : ℕ → Event
  trace_ticks : ℕ → Event
  trace_fails : ℕ → Event
  trace_answered : ℕ → Event
  toggles_history : Event
  shows_trace : ℕ → Event
  filters : Text → Event
  channels_end : Option (List Channel) → Event
  selects : ℕ → Event
  scrolls : ℕ → ℕ → ℕ → Event
  types_in : Text → Event
  presses_key : Bool → Bool → Event
  presses_send : Event
  send_ends : Outcome → Event
  refresh_pressed refresh_ended refresh_fired : Event

-- The chart of the types that the script makes when it loads.
unfoldable first_types : List (Text × ℕ) → Types
unfolding generate_colours legend_from
first_types counts =
    let labels = map (λ p. p.0) counts in
    let colours = generate_colours (length labels) in
    record {
      labels = labels;
      values = map (λ p. p.1) counts;
      colours = colours;
      legend = legend_from colours 0 labels;
    }

-- The part of the page that the directory feeds, when the scripts have loaded.
abbrev first_app {ℓ} : {R : Type ℓ} → Dir → App R
first_app dir = record {
  paused = false;
  dir = dir;
  map = record {
    ready = false;
    markers = [];
    counter = (0, 0);
    flown_to = none;
    no_nodes_note = true;
  };
  panel = record {
    search = [];
    roles = record { checked = none; boxes = 0 };
    hardware = record { checked = none; boxes = 0 };
    status = any_status;
    battery = any_battery;
    mqtt = any;
  };
  options = record { roles = []; hardware = []; checked_roles = none; checked_hw = none };
  heat = record { mode = off; layer = none; legend = none };
  tab = dashboard;
  nodes_ready = false;
  view = first_view;
  table = record {
    rows = [];
    shown_count = 0;
    total = none;
    realtime_suffix = false;
    empty_note = true;
  };
  boxes = [];
}

-- The row of a message that the server put into the page.
abbrev pub server_row : Cells → Row
server_row c = record { cells = c; shown = true }

-- The page when its scripts have loaded, with what the server put into it.
unfoldable pub loaded {ℓ} :
    {R : Type ℓ} → Dir → List Sample → List (Text × ℕ) → Cards → List Cells → Clients → Dashboard R
unfolding first_types first_chart
loaded dir series counts cards cells section = record {
  stream = connected;
  app = first_app dir;
  chart = first_chart series;
  types = first_types counts;
  cards = cards;
  messages = record {
    rows = map server_row cells;
    filter_term = [];
    visible = length cells;
    filtered_note = false;
  };
  clients = section;
  refresh = ready;
  trace = idle [];
  history = record {
    expanded = false;
    entries = [];
    rows = [];
    empty_shown = true;
    count = none;
    shown = false;
    button_active = false;
    scroll_top = 0;
  };
  chat = fresh_chat;
  channel_requests = 0;
  composer = record {
    value = [];
    send_disabled = true;
    input_disabled = false;
    remaining = ℤ.pos 237;
    tone = Send.Tone.grey;
  };
  outbox = [];
  dropdown = none;
  requests = [];
}
