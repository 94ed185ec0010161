-- ===== src/Tests/App.antt =====
-- Runs of the page: the map is opened, the table of nodes is shown, and events come.
use meshtastic_proxy.Base.{
  ℕ, pos, List, [], ◌∷◌, text, true, false, none, some, ◌≡◌, refl, arith, Locale, ◌≤◌, int_truthy,
  option_truthy,
}
use meshtastic_proxy.Base.NumMap.{NumMap, lookup}
use meshtastic_proxy.Directory.{Entry, blank, PositionUpdate, position, put_position}
use meshtastic_proxy.Nodes.{first_view, any}
use meshtastic_proxy.Nodes.Table.{render}
use meshtastic_proxy.Map.{any_status, any_battery}
use meshtastic_proxy.Map.Heat.{rssi, off}
use meshtastic_proxy.App.Listed.{IsListed}
use meshtastic_proxy.Trace.Route.{draws}
use meshtastic_proxy.App.{
  App, Event, dashboard, nodes, directory, server, show_tab, map_tab, acts_on_map, set_heat,
  refresh_timer,
}
use meshtastic_proxy.App.Steps.{step, run}
use meshtastic_proxy.App.Sync.{Synced}
use meshtastic_proxy.App.Sync.Runs.{opened_run-Synced}
use meshtastic_proxy.App.Sync.Faults.{drawing_throws, closed_map_stale}
use meshtastic_proxy.App.Pins.Listeners.{Pinned}
use meshtastic_proxy.App.Pins.Runs.{opened_run-Pinned}

abbrev locale : Locale
locale = record { lower = λ t. t; upper = λ t. t; compare = λ s t. pos 0 }

abbrev curve : ℕ → ℕ → ℕ
curve n d = n

abbrev router : Entry
router = record blank {
  role = some (text "ROUTER");
  latitude = some (pos 557500000);
  longitude = some (pos 376100000);
}

abbrev known : NumMap Entry
known = (7, router) ∷ (9, blank) ∷ []

abbrev loaded : App ℕ
loaded = record {
  paused = false;
  dir = some known;
  map = record {
    ready = false;
    markers = [];
    counter = (0, 0);
    flown_to = none;
    no_nodes_note = true;
  };
  panel = record {
    search = [];
    roles = record { checked = none; boxes = 0 };
    hardware = record { checked = none; boxes = 0 };
    status = any_status;
    battery = any_battery;
    mqtt = any;
  };
  options = record { roles = []; hardware = []; checked_roles = none; checked_hw = none };
  heat = record { mode = off; layer = none; legend = none };
  tab = dashboard;
  nodes_ready = false;
  view = first_view;
  table = record {
    rows = [];
    shown_count = 0;
    total = none;
    realtime_suffix = false;
    empty_note = true;
  };
  boxes = [];
}

abbrev moved : PositionUpdate
moved = record {
  node_num = 9;
  short_name = none;
  long_name = none;
  latitude = some (pos 559000000);
  longitude = some (pos 374000000);
  altitude = none;
  ground_speed = none;
  ground_track = none;
  sats_in_view = none;
  position_time = none;
}

abbrev session : List (ℕ × Event)
session =
    (101, acts_on_map (set_heat rssi))
    ∷ (102, show_tab nodes)
    ∷ (103, server (position moved))
    ∷ (104, directory known)
    ∷ []

known-IsListed : IsListed known
known-IsListed = record { sorted = ((omega arith, tt), (tt, tt)); drawn = unfold draws in refl }

opened_run-Synced_example :
    Synced locale curve (run locale curve ((100, show_tab map_tab) ∷ session) loaded)
opened_run-Synced_example =
    opened_run-Synced locale curve 100 session loaded known refl known-IsListed refl
      (tt, (tt, (refl, (known-IsListed, tt))))

opened_run-Pinned_example :
    Pinned locale curve (run locale curve ((100, show_tab map_tab) ∷ session) loaded)
opened_run-Pinned_example =
    opened_run-Pinned locale curve 100 session loaded known refl known-IsListed refl
      (tt, (tt, (refl, (known-IsListed, tt))))

abbrev at_nodes : App ℕ
at_nodes = record loaded { tab = nodes; nodes_ready = true }

closed_map_stale_example :
    let after = step locale curve 100 (directory []) at_nodes in
    let seen = step locale curve 100 (server (position moved)) at_nodes in
    (after.dir ≡ some [])
    × (after.table ≡ at_nodes.table)
    × (seen.dir ≡ put_position 100 moved (some known))
    × (seen.table ≡ at_nodes.table)
    × ((step locale curve 130 refresh_timer after).table
        ≡ render locale first_view (some []) at_nodes.table)
closed_map_stale_example = closed_map_stale locale curve 100 130 [] moved at_nodes refl refl refl

-- A node on the zero meridian, whose longitude the server leaves out.
abbrev on_meridian : Entry
on_meridian = record blank { latitude = some (pos 514800000) }

abbrev with_map : App ℕ
with_map = record loaded { map = record loaded.map { ready = true } }

drawing_throws_example :
    let after = step locale curve 100 (directory ((7, on_meridian) ∷ [])) with_map in
    (after.dir ≡ some ((7, on_meridian) ∷ []))
    × (after.table ≡ with_map.table)
    × (after.heat ≡ with_map.heat)
    × (after.options ≡ with_map.options)
    × ((j : ℕ) → 7 ≤ j → lookup j after.map.markers ≡ lookup j with_map.map.markers)
drawing_throws_example =
    drawing_throws locale curve 100 ((7, on_meridian) ∷ []) 7 on_meridian with_map (tt, tt)
      (unfold lookup in refl) refl refl
