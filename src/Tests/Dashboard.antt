-- ===== src/Tests/Dashboard.antt =====
-- Runs of the whole dashboard: the map is opened, events come, a pause, a new connection.
use meshtastic_proxy.Base.{
  ℕ, pos, List, [], ◌∷◌, ◌++◌, map, text, true, false, none, some, ◌≡◌, refl, arith, length,
}
use meshtastic_proxy.Base.NumMap.{NumMap}
use meshtastic_proxy.Directory.{
  Entry, blank, PositionUpdate, FavoriteUpdate, Update, position, favorite, apply_updates,
}
use meshtastic_proxy.Trace.Route.{TraceData}
use meshtastic_proxy.Trace.History.{rows_down}
use meshtastic_proxy.Chat.{Message, incoming, show_for, create_element}
use meshtastic_proxy.Traffic.{Cards}
use meshtastic_proxy.Map.Heat.{rssi}
use meshtastic_proxy.App.Listed.{IsListed}
use meshtastic_proxy.Trace.Route.{draws}
use meshtastic_proxy.App.{map_tab, set_heat}
use meshtastic_proxy.Dashboard.{
  Browser, Dashboard, Payload, update, chat_message, node_directory, arrives, show_tab, acts_on_map,
  starts_trace, pause_pressed, loaded,
}
use meshtastic_proxy.Dashboard.Steps.{step, run}
use meshtastic_proxy.Dashboard.Reach.{here, later}
use meshtastic_proxy.Dashboard.Invariant.{Inv, Reach-Inv}
use meshtastic_proxy.Dashboard.Pause.{arrivals, pause_lem}
use meshtastic_proxy.Dashboard.Session.{session, timed, session-dir}
use meshtastic_proxy.Dashboard.Resync.{connection, connection_lem}

abbrev browser : Browser ℕ
browser = record {
  locale = record { lower = λ t. t; upper = λ t. t; compare = λ s t. pos 0 };
  curve = λ n d. n;
  engine = record { lower = λ t. t; text_content = λ c. c.payload_html };
  floats = record { floor_log = λ n k. 0; fixed_ratio = λ n k. [] };
}

abbrev gateway : Entry
gateway = record blank {
  short_name = some (text "GATE");
  latitude = some (pos 557500000);
  longitude = some (pos 376100000);
}

abbrev mesh : NumMap Entry
mesh = (3, gateway) ∷ (8, blank) ∷ []

abbrev idle_cards : Cards
idle_cards = record {
  badge = text "Connected";
  node = text "10.0.0.2:4403";
  status = text "Connected";
  clients = 0;
  uptime = text "1s";
  reconnects = text "0 reconnects";
  cache_frames = text "0 frames";
  cache_age = text "not cached";
  frames_in = 0;
  bytes_in = text "0 B";
  frames_out = 0;
  bytes_out = text "0 B";
}

abbrev opening : Dashboard ℕ
opening =
    loaded (some mesh) (record { ts = 1; fi = 2; fo = 3 } ∷ []) [] idle_cards []
      (record { hidden = true; rows = [] })

abbrev walked : PositionUpdate
walked = record {
  node_num = 8;
  short_name = some (text "WALK");
  long_name = none;
  latitude = some (pos 558000000);
  longitude = some (pos 375000000);
  altitude = none;
  ground_speed = none;
  ground_track = none;
  sats_in_view = none;
  position_time = none;
}

abbrev at_map : Dashboard ℕ
at_map = step browser 1000 (show_tab map_tab) opening

at_map_lem : at_map.app.tab ≡ map_tab
unfolding step loaded
at_map_lem = refl

abbrev tour : Dashboard ℕ
tour = step browser 5000 (starts_trace 8) (
    step browser 4000 (arrives (node_directory mesh)) (
      step browser 3000 (arrives (update (position walked)))
        (step browser 2000 (acts_on_map (set_heat rssi)) at_map)))

mesh-IsListed : IsListed mesh
mesh-IsListed = record { sorted = ((omega arith, tt), (tt, tt)); drawn = unfold draws in refl }

Reach-Inv_example : Inv browser tour
Reach-Inv_example =
    Reach-Inv browser (some mesh) (record { ts = 1; fi = 2; fo = 3 } ∷ []) [] idle_cards []
      (record { hidden = true; rows = [] }) mesh-IsListed
      (later
        (later
          (later
            (later (later here 1000 (show_tab map_tab) tt) 2000 (acts_on_map (set_heat rssi))
              at_map_lem)
            3000 (arrives (update (position walked))) refl)
          4000 (arrives (node_directory mesh)) mesh-IsListed)
        5000 (starts_trace 8) tt)

abbrev greeting : Message
greeting = record {
  from = 8;
  to = 0xffff_ffff;
  channel = 0;
  body = text "hello";
  from_name = none;
  to_name = none;
  direction = incoming;
  via_mqtt = false;
  rx_rssi = pos 0;
  rx_snr = pos 0;
}

abbrev missed : List (ℕ × Payload)
missed = (1500, chat_message greeting) ∷ (1600, update (position walked)) ∷ []

opening-live : (opening.stream.paused ≡ false) × (opening.app.paused ≡ false)
unfolding loaded
opening-live = (refl, refl)

pause_example :
    run browser ((1000, pause_pressed) ∷ (arrivals missed ++ (2000, pause_pressed) ∷ [])) opening
    ≡ opening
pause_example =
    pause_lem browser 1000 2000 missed opening opening-live.0 opening-live.1 (tt, (tt, tt))

abbrev starred : FavoriteUpdate
starred = record { node_num = 3; is_favorite = some true }

abbrev updates : List (ℕ × Update)
updates = (1000, position walked) ∷ (2000, favorite starred) ∷ []

session-dir_example :
    (run browser (session updates) opening).app.dir ≡ apply_updates (timed updates) opening.app.dir
session-dir_example = session-dir browser updates opening opening-live.1

abbrev traced : TraceData
traced = record {
  from = 8;
  to = 3;
  route = none;
  route_back = none;
  snr_towards = none;
  snr_back = none;
  timeout = false;
}

connection_example :
    let after = run browser (connection 9000 mesh (greeting ∷ []) (traced ∷ [])) opening in
    (after.app.dir ≡ some mesh)
    × (after.chat.messages ≡ greeting ∷ [])
    × (after.chat.elements
        ≡ map (show_for opening.chat.active) (map (create_element (some mesh)) (greeting ∷ [])))
    × (after.history.entries ≡ traced ∷ [])
    × (after.history.rows ≡ rows_down (some mesh) (traced ∷ []) (length (traced ∷ [])))
connection_example = connection_lem browser 9000 mesh greeting [] (traced ∷ []) opening
