-- ===== src/Tests/Places.antt =====
-- Runs of the map: a router with a position, a node without one, and a stale marker.
use meshtastic_proxy.Trace.Route.{draws}
use meshtastic_proxy.Base.{ℕ, pos, [], ◌∷◌, text, true, none, some, ◌≡◌, refl, arith, count, Locale}
use meshtastic_proxy.Base.NumMap.{NumMap, lookup, insert}
use meshtastic_proxy.Directory.{
  Entry, blank, TelemetryUpdate, telemetry, apply_update, put_telemetry, merge_telemetry,
}
use meshtastic_proxy.Directory.Updates.{entry_at}
use meshtastic_proxy.Map.Bound.{Popups, is_open, on_update, open_popup}
use meshtastic_proxy.Map.Bound.Fresh.{told}
use meshtastic_proxy.Map.Bound.Opened.{opened_popup_lem, closed_popup_stale}
use meshtastic_proxy.Trace.Route.{has_position}
use meshtastic_proxy.Nodes.{any}
use meshtastic_proxy.Map.{
  Panel, Map, Marker, online, any_battery, node_passes_filters, update_map_markers, is_placed,
}
use meshtastic_proxy.Map.Markers.{marker_for, matches, update_map_markers_lem}

abbrev locale : Locale
locale = record { lower = λ t. t; upper = λ t. t; compare = λ s t. pos 0 }

abbrev panel : Panel
panel = record {
  search = [];
  roles = record { checked = some (text "ROUTER" ∷ []); boxes = 2 };
  hardware = record { checked = none; boxes = 1 };
  status = online;
  battery = any_battery;
  mqtt = any;
}

abbrev router : Entry
router = record blank {
  role = some (text "ROUTER");
  latitude = some (pos 557500000);
  longitude = some (pos 376100000);
  last_heard = some 9500;
}

abbrev directory : NumMap Entry
directory = (7, router) ∷ (9, blank) ∷ []

abbrev stale : Marker
stale = record { at = (some (pos 1), some (pos 1)); icon = none; on_map = true }

abbrev before : Map
before = record {
  ready = true;
  markers = (8, stale) ∷ [];
  counter = (0, 0);
  flown_to = none;
  no_nodes_note = true;
}

update_map_markers_example :
    let test = node_passes_filters locale 10000 panel in
    let after = update_map_markers locale 10000 panel (some directory) before in
    (lookup 7 after.markers ≡ marker_for test 7 (lookup 7 directory))
    × (after.counter ≡ (count (matches test) directory, count (λ ne. has_position ne.1) directory))
update_map_markers_example =
    update_map_markers_lem locale 10000 panel directory before 7 ((omega arith, tt), (tt, tt))
      (unfold draws in refl) refl

-- The map with one marker, whose popup was made from the entry of the router.
abbrev shown : Map
shown = record before {
  markers =
      (7, record { at = (router.latitude, router.longitude); icon = none; on_map = true }) ∷ [];
}

abbrev bound : ℕ → Popups
bound n = record { contents = (7, record { entry = router; made_at = 9000 }) ∷ []; opened = some n }

abbrev measured : TelemetryUpdate
measured = record {
  node_num = 7;
  short_name = none;
  long_name = none;
  battery_level = some 75;
  voltage = none;
  channel_utilization = none;
  air_util_tx = none;
  uptime_seconds = none;
  temperature = none;
  relative_humidity = none;
  barometric_pressure = none;
}

opened_popup_example :
    told 7 (on_update 10000 (telemetry measured) shown (some directory) (bound 7))
    ≡ entry_at 7 (apply_update 10000 (telemetry measured) (some directory))
opened_popup_example =
    opened_popup_lem 10000 (telemetry measured) shown directory (bound 7) 7
      (record { ready = refl; marker = unfold lookup in refl; opened = unfold is_open in refl })
      (record { sorted = ((omega arith, tt), (tt, tt)); drawn = unfold draws in refl }) tt
      (unfold lookup in refl)
      (unfold is_placed apply_update put_telemetry insert merge_telemetry lookup in refl)

closed_popup_stale_example :
    let after =
      open_popup 7 (on_update 10000 (telemetry measured) shown (some directory) (bound 8)) in
    (is_open 7 after ≡ true)
    × (told 7 after ≡ some router)
    × (entry_at 7 (apply_update 10000 (telemetry measured) (some directory))
        ≡ some (merge_telemetry 10000 measured (some router)))
closed_popup_stale_example =
    closed_popup_stale 10000 measured shown directory (bound 8) router (unfold lookup in refl)
      (unfold lookup in refl) (unfold is_open in refl)
