-- ===== src/Tests/Panels.antt =====
-- Runs of the event stream, the charts, the table of messages and the table of nodes.
use meshtastic_proxy.Trace.Route.{draws}
use meshtastic_proxy.Base.{
  ◌∷◌, [], ◌⊎◌, ℕ, ◌+◌, ℤ, pos, negsuc, List, [], ◌∷◌, map, filter, Text, text, true, false, none,
  some, ◌≡◌, refl, arith, if◌then◌else◌, ltb, length, take, Locale,
}
use mathlib.Core.List.{Perm}
use meshtastic_proxy.Base.NumMap.{NumMap}
use meshtastic_proxy.Directory.{Entry, blank}
use meshtastic_proxy.Traffic.{Sample, Chart, Snapshot, first_chart, update_chart}
use meshtastic_proxy.Traffic.Window.{Shows, samples_after, update_chart-Shows}
use meshtastic_proxy.Messages.{Record, Engine, Table, cells_of, prepend_message, on_filter_input}
use meshtastic_proxy.Messages.Rows.{InStep, table_lem}
use meshtastic_proxy.Nodes.{View, first_view, gps, realtime, rx_snr, has_role, compare_nodes}
use meshtastic_proxy.Nodes.Table.{Shown, render}
use meshtastic_proxy.Nodes.Sort.{FavoritesFirst, InOrder, IsAntisymmetric, render_lem}

abbrev sample : ℕ → Sample
sample n = record { ts = n; fi = n + 1; fo = n + 2 }

abbrev samples : List Sample
samples = sample 1 ∷ sample 2 ∷ sample 3 ∷ []

abbrev counts : List (Text × ℕ)
counts = (text "TEXT", 4) ∷ (text "POSITION", 9) ∷ []

abbrev delta : Snapshot
delta = record {
  node_connected = true;
  node_address = text "10.0.0.2:4403";
  active_clients = 1;
  uptime_str = text "1h";
  node_reconnects = 0;
  config_cache_frames = 12;
  config_cache_age = text "5s";
  frames_from_node = 10;
  bytes_from_node = 2048;
  frames_to_node = 3;
  bytes_to_node = 100;
  traffic_series = none;
  max_traffic_samples = none;
  latest_sample = some (sample 4);
  message_type_counts = some counts;
  node_dir = none;
}

abbrev chart : Chart
chart = first_chart samples

chart-Shows : Shows chart samples
unfolding first_chart
chart-Shows = record { labels = refl; frames_in = refl; frames_out = refl }

update_chart-Shows_example :
    Shows (update_chart delta chart) (samples_after delta chart.max_points samples)
update_chart-Shows_example = update_chart-Shows delta chart samples chart-Shows

abbrev engine : Engine
engine = record { lower = λ t. t; text_content = λ c. c.payload_html }

abbrev proxied : Record
proxied = record {
  from_node = true;
  type_name = text "packet";
  size = 40;
  port_num = text "TEXT";
  from = 7;
  to = 9;
  hop_limit = 2;
  hop_start = 3;
  rx_rssi = negsuc 89;
  rx_snr = pos 5;
  via_mqtt = false;
  relay_node = 0;
  payload = text "hello";
}

abbrev filtered : Table
filtered = record { rows = []; filter_term = text "ell"; visible = 0; filtered_note = true }

table_example :
    let after = prepend_message engine none proxied filtered in
    let refiltered = on_filter_input engine (text "x") filtered in
    (map (λ r. r.cells) after.rows ≡ take 200 (cells_of none proxied ∷ []))
    × InStep engine after
    × (after.filter_term ≡ text "ell")
    × (map (λ r. r.cells) refiltered.rows ≡ [])
    × InStep engine refiltered
    × (refiltered.filter_term ≡ text "x")
table_example = table_lem engine none proxied (text "x") filtered

-- Texts are compared by their lengths.
abbrev by_length : Text → Text → ℤ
by_length s t =
    if ltb (length s) (length t)
    then negsuc 0
    else if ltb (length t) (length s)
    then pos 1
    else pos 0

abbrev locale : Locale
locale = record { lower = λ t. t; upper = λ t. t; compare = by_length }

locale-IsAntisymmetric : IsAntisymmetric locale
locale-IsAntisymmetric s t = (λ h. ground arith, λ h. ground arith)

abbrev known : NumMap Entry
known =
    (7, record blank { short_name = some (text "BASE"); rx_snr = some (pos 20) })
    ∷ (9, record blank { short_name = some (text "B"); is_favorite = some true })
    ∷ []

abbrev by_snr : View
by_snr = record first_view { sort_key = rx_snr }

abbrev blank_table : Shown
blank_table = record {
  rows = [];
  shown_count = 0;
  total = none;
  realtime_suffix = false;
  empty_note = true;
}

render_example :
    let after = render locale by_snr (some known) blank_table in
    let shown = filter (meshtastic_proxy.Nodes.passes locale by_snr) known in
    ((draws shown ≡ true)
      × Perm after.rows shown
      × FavoritesFirst after.rows
      × InOrder (compare_nodes locale by_snr.sort_key by_snr.sort_dir) after.rows
      × (after.shown_count ≡ length after.rows))
    ⊎ ((draws shown ≡ false) × (after ≡ blank_table))
render_example = render_lem locale locale-IsAntisymmetric by_snr known blank_table
