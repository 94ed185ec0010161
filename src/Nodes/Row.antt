-- ===== src/Nodes/Row.antt =====
-- nodes.js `buildNodeRow`: the cells of a row. A cell keeps the texts that the code puts into the
-- markup; the markup and the classes are left out, a colour is kept by its rank. A call of a method
-- on a missing value throws, which is `none`.
pub mod Laws
use meshtastic_proxy.Base.{
  ℕ, ◌+◌, ◌-◌, ℤ, pos, negsuc, List, [], ◌∷◌, Text, Bool, true, false, not, ◌&&◌, ◌||◌, Option,
  none, some, ◌==◌, ltb, leb, leb_ℤ, min, if◌then◌else◌, truthy, nat_truthy, int_truthy,
  bool_truthy, text_truthy, option_truthy, or_else, value_or, text_or, eq_text, Locale,
}
use meshtastic_proxy.Mesh.Hex.{sliced_hex}
use meshtastic_proxy.Mesh.Escape.{esc}
use meshtastic_proxy.Mesh.Names.{format_unix_age}
use meshtastic_proxy.Mesh.Labels.{format_hw_model, format_role}
use meshtastic_proxy.Directory.{Entry}
use meshtastic_proxy.Trace.Route.{has_position}
use meshtastic_proxy.Trace.Machine.{
  Machine, Button, TraceState, get_trace_state, icon, spinner, seconds,
}
use meshtastic_proxy.Nodes.{Node}

-- `toFixed` on a coordinate, on an SNR and on another reading, with the number of decimals.
pub record Printer : Type 0 where
  pub degrees : ℕ → ℤ → Text
  pub decibels : ℕ → ℤ → Text
  pub reading : ℕ → ℤ → Text

-- The colour of a value: emerald, amber or grey, red or dark grey.
pub data Rank : Type 0 where
  good fair poor : Rank

pub record NameCell : Type 0 where
  pub title : Option Text
  pub shown : Text
  pub long : Option Text

pub record BatteryCell : Type 0 where
  pub percent : ℕ
  pub rank : Rank
  pub voltage : Option Text

pub record CoordCell : Type 0 where
  pub latitude : Text
  pub longitude : Text
  pub altitude : Option ℤ

-- The cells of a row; a dash is `none`.
pub record Row : Type 0 where
  pub node : ℕ
  pub dot : Bool
  pub name : NameCell
  pub ham : Bool
  pub mqtt : Bool
  pub fav : Bool
  pub id_html : Text
  pub hardware : Option Text
  pub role : Option Text
  pub heard : Option (Rank × Text)
  pub hops : Option ℕ
  pub rssi : Option (Rank × ℤ)
  pub snr : Option (Rank × Text)
  pub battery : Option BatteryCell
  pub coords : Option CoordCell
  pub button : Button

-- `x > bound` on integers.
abbrev pub over : ℤ → ℤ → Bool
over x bound = not (leb_ℤ x bound)

unfoldable pub name_cell : Node → NameCell
unfolding esc sliced_hex
name_cell (n, e) =
    if truthy e.short_name
    then record {
      title = some (esc (text_or e.long_name));
      shown = esc (text_or e.short_name);
      long =
          if truthy e.long_name && not (eq_text (text_or e.long_name) (text_or e.short_name))
          then some (esc (text_or e.long_name))
          else none;
    }
    else record { title = none; shown = esc (sliced_hex n); long = none }

unfoldable heard_cell : ℕ → Entry → Option (Rank × Text)
unfolding format_unix_age
heard_cell now e =
    let t = value_or e.last_heard 0 in
    if truthy e.last_heard
    then some (
      (if ltb now (t + 900) then good else if ltb now (t + 3600) then fair else poor),
      format_unix_age now t,
    )
    else none

unfoldable rssi_cell : Entry → Option (Rank × ℤ)
rssi_cell e =
    let v = value_or e.rx_rssi (pos 0) in
    if truthy e.rx_rssi
    then some ((if over v (negsuc 89) then good else if over v (negsuc 109) then fair else poor), v)
    else none

-- `entry.rx_snr || entry.snr`, in quarters of a dB.
unfoldable snr_cell : Printer → Entry → Option (Rank × Text)
snr_cell pr e =
    let v = value_or (or_else e.rx_snr e.snr) (pos 0) in
    if truthy (or_else e.rx_snr e.snr)
    then some
        ((if over v (pos 20) then good else if over v (pos 0) then fair else poor), pr.decibels 1 v)
    else none

-- `Math.min(battery_level, 100)` and its colour.
unfoldable pub battery_percent : Entry → ℕ
battery_percent e = min (value_or e.battery_level 0) 100

unfoldable pub percent_rank : ℕ → Rank
percent_rank pct = if ltb 50 pct then good else if ltb 20 pct then fair else poor

unfoldable battery_cell : Printer → Entry → Option BatteryCell
unfolding battery_percent percent_rank
battery_cell pr e =
    if truthy e.battery_level
    then some (record {
      percent = battery_percent e;
      rank = percent_rank (battery_percent e);
      voltage = if truthy e.voltage then some (pr.reading 1 (value_or e.voltage (pos 0))) else none;
    })
    else none

-- `latitude.toFixed(5)` and `longitude.toFixed(5)`, with the altitude behind them: `none` where
-- `toFixed` is called on a missing coordinate.
unfoldable pub fixed_coords : Printer → Option ℤ → Option ℤ → Option ℤ → Option (Option CoordCell)
fixed_coords pr none lo alt = none
fixed_coords pr (some la) none alt = none
fixed_coords pr (some la) (some lo) alt = some (
    some (record {
      latitude = pr.degrees 5 la;
      longitude = pr.degrees 5 lo;
      altitude = if truthy alt then alt else none;
    }))

unfoldable pub coord_cell : Printer → Entry → Option (Option CoordCell)
unfolding fixed_coords
coord_cell pr e =
    if has_position e then fixed_coords pr e.latitude e.longitude e.altitude else some none

-- The trace button that a row is drawn with.
unfoldable pub row_button : ℕ → Machine → Button
unfolding get_trace_state
row_button n s =
    let ts = get_trace_state n s in
    record {
      target = n;
      compact = true;
      disabled = ts.active;
      grey = false;
      face =
          if ts.cooling_this
          then seconds ts.remaining
          else if ts.tracing_this
          then spinner
          else icon;
    }

unfoldable pub label_cell : (Text → Text) → Option Text → Option Text
unfolding esc
label_cell format o = if truthy o then some (esc (format (text_or o))) else none

-- The row, once the cell of the coordinates is made.
unfoldable pub row_with : Locale → Printer → ℕ → Machine → Node → Option CoordCell → Row
unfolding name_cell label_cell format_hw_model format_role heard_cell rssi_cell snr_cell
    battery_cell row_button esc sliced_hex
row_with loc pr now s (n, e) c = record {
  node = n;
  dot = truthy e.seen_realtime;
  name = name_cell (n, e);
  ham = truthy e.is_licensed;
  mqtt = truthy e.via_mqtt;
  fav = truthy e.is_favorite;
  id_html = esc (if truthy e.user_id then text_or e.user_id else sliced_hex n);
  hardware = label_cell (format_hw_model loc) e.hw_model;
  role = label_cell (format_role loc) e.role;
  heard = heard_cell now e;
  hops = if truthy e.hops_away then e.hops_away else none;
  rssi = rssi_cell e;
  snr = snr_cell pr e;
  battery = battery_cell pr e;
  coords = c;
  button = row_button n s;
}

unfoldable pub build_node_row : Locale → Printer → ℕ → Machine → Node → Option Row
unfolding row_with coord_cell
build_node_row loc pr now s (n, e) = elim (coord_cell pr e) [
  | none ↦ none
  | some c ↦ some (row_with loc pr now s (n, e) c)
]

-- The loop of `renderNodesTable` that builds the rows: it ends at the first row that throws.
unfoldable pub build_rows : Locale → Printer → ℕ → Machine → List Node → Option (List Row)
unfolding build_node_row
build_rows loc pr now s [] = some []
build_rows loc pr now s (node ∷ nodes) =
    let rest = build_rows loc pr now s nodes in
    elim (build_node_row loc pr now s node) [
      | none ↦ none
      | some r ↦ elim rest [ none ↦ none | some rs ↦ some (r ∷ rs) ]
    ]
