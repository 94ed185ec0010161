-- ===== src/Map/Popup.antt =====
-- app.js `nodePopupHTML`: the popup of a marker. A row keeps its label and the text that stands in
-- the markup for its value; the markup is left out. `none` is a call of `toFixed` on a missing
-- coordinate, which throws.
pub mod Sections
use Prim.Native.String.{String}
use meshtastic_proxy.Base.{
  ℕ, ℤ, pos, List, [], ◌∷◌, ◌++◌, Text, text, Bool, true, false, ◌||◌, ◌&&◌, not, Option, none,
  some, ◌==◌, ltb, min, if◌then◌else◌, truthy, nat_truthy, int_truthy, bool_truthy, text_truthy,
  option_truthy, value_or, text_or, Locale,
}
use meshtastic_proxy.Mesh.Hex.{to_string, plain_hex}
use meshtastic_proxy.Mesh.Escape.{esc}
use meshtastic_proxy.Mesh.Names.{format_unix_age}
use meshtastic_proxy.Mesh.Labels.{format_hw_model, format_role, format_uptime}
use meshtastic_proxy.Directory.{Entry}
use meshtastic_proxy.Trace.Route.{has_position}
use meshtastic_proxy.Trace.Machine.{Machine, TraceState, get_trace_state}
use meshtastic_proxy.Nodes.{as_text, number}
use meshtastic_proxy.Nodes.Row.{
  Printer, CoordCell, Rank, battery_percent, percent_rank, fixed_coords,
}

-- `npRow`: the value goes into the markup as it is. The row of the battery has a coloured bar.
pub record Line : Type 0 where
  pub label : Text
  pub value : Text
  pub bar : Option Rank

abbrev pub line : String → Text → List Line
line label value = record { label = text label; value = value; bar = none } ∷ []

-- A line that is there under a condition.
abbrev pub line_if : Bool → String → Text → List Line
line_if true label value = line label value
line_if false label value = []

pub data TraceLabel : Type 0 where
  countdown : ℕ → TraceLabel
  tracing busy ready : TraceLabel

-- A section is `none` where it is left out.
pub record Popup : Type 0 where
  pub name : Option Text
  pub hex : Text
  pub ham : Bool
  pub mqtt : Bool
  pub fav : Bool
  pub long : Option Text
  pub identity : Option (List Line)
  pub radio : Option (List Line)
  pub place : Option (List Line)
  pub device : Option (List Line)
  pub environment : Option (List Line)
  pub disabled : Bool
  pub button : TraceLabel

abbrev pub section : Bool → List Line → Option (List Line)
section true lines = some lines
section false lines = none

unfoldable pub identity_section : Locale → Entry → Option (List Line)
unfolding format_hw_model format_role
identity_section loc e = section (truthy e.hw_model || (truthy e.role || truthy e.user_id)) (
    line_if (truthy e.user_id) "ID" (text_or e.user_id)
    ++ (line_if (truthy e.hw_model) "Hardware" (format_hw_model loc (text_or e.hw_model))
        ++ line_if (truthy e.role) "Role" (format_role loc (text_or e.role))))

abbrev int_text : Option ℤ → Text
int_text o = as_text (number (value_or o (pos 0)))

abbrev nat_text : Option ℕ → Text
nat_text o = to_string 10 (value_or o 0)

unfoldable pub radio_section : Printer → ℕ → Entry → Option (List Line)
unfolding as_text to_string format_unix_age
radio_section pr now e =
    section
      (truthy e.snr
        || (truthy e.rx_rssi
            || (truthy e.rx_snr
                || (truthy e.last_heard || (truthy e.hops_away || truthy e.channel)))))
      (line_if (truthy e.rx_rssi) "RSSI" (int_text e.rx_rssi ++ text " dBm")
        ++ (line_if (truthy e.rx_snr) "SNR (live)"
              (pr.decibels 1 (value_or e.rx_snr (pos 0)) ++ text " dB")
            ++ (line_if (truthy e.snr && not (truthy e.rx_snr)) "SNR"
                  (pr.decibels 1 (value_or e.snr (pos 0)) ++ text " dB")
                ++ (line_if (truthy e.hops_away) "Hops" (nat_text e.hops_away)
                    ++ (line_if (truthy e.channel) "Channel" (nat_text e.channel)
                        ++ line_if (truthy e.last_heard) "Last heard"
                            (format_unix_age now (value_or e.last_heard 0)))))))

-- The lines under the coordinates.
unfoldable pub place_lines : ℕ → Entry → List Line
unfolding as_text to_string format_unix_age
place_lines now e =
    line_if (truthy e.altitude) "Altitude" (int_text e.altitude ++ text " m")
    ++ (line_if (truthy e.ground_speed) "Speed" (nat_text e.ground_speed ++ text " m/s")
        ++ (line_if (truthy e.ground_track) "Heading" (nat_text e.ground_track ++ text "&deg;")
            ++ (line_if (truthy e.sats_in_view) "Satellites" (nat_text e.sats_in_view)
                ++ line_if (truthy e.position_time) "Fix age"
                    (format_unix_age now (value_or e.position_time 0)))))

unfoldable pub coords_line : Printer → Option ℤ → Option ℤ → Option (List Line)
coords_line pr none lo = none
coords_line pr (some la) none = none
coords_line pr (some la) (some lo) =
    some (line "Coords" (pr.degrees 6 la ++ (text ", " ++ pr.degrees 6 lo)))

-- The outer option is `none` where the section throws.
unfoldable pub place_section : Printer → ℕ → Entry → Option (Option (List Line))
unfolding coords_line place_lines
place_section pr now e =
    if has_position e
    then elim (coords_line pr e.latitude e.longitude) [
      | none ↦ none
      | some first ↦ some (some (first ++ place_lines now e))
    ]
    else some none

unfoldable pub battery_line : Entry → List Line
unfolding battery_percent percent_rank to_string
battery_line e =
    if truthy e.battery_level
    then record {
      label = text "Battery";
      value = to_string 10 (battery_percent e) ++ text "%";
      bar = some (percent_rank (battery_percent e));
    }
      ∷ []
    else []

unfoldable pub device_section : Printer → Entry → Option (List Line)
unfolding battery_line format_uptime
device_section pr e =
    section
      (truthy e.battery_level
        || (truthy e.voltage
            || (truthy e.uptime_seconds || (truthy e.channel_utilization || truthy e.air_util_tx))))
      (battery_line e
        ++ (line_if (truthy e.voltage) "Voltage"
              (pr.reading 2 (value_or e.voltage (pos 0)) ++ text " V")
            ++ (line_if (truthy e.uptime_seconds) "Uptime"
                  (format_uptime (value_or e.uptime_seconds 0))
                ++ (line_if (truthy e.channel_utilization) "Ch. util"
                      (pr.reading 1 (value_or e.channel_utilization (pos 0)) ++ text "%")
                    ++ line_if (truthy e.air_util_tx) "Air TX"
                        (pr.reading 1 (value_or e.air_util_tx (pos 0)) ++ text "%")))))

unfoldable pub environment_section : Printer → Entry → Option (List Line)
environment_section pr e =
    section (truthy e.temperature || (truthy e.relative_humidity || truthy e.barometric_pressure)) (
      line_if (truthy e.temperature) "Temp"
        (pr.reading 1 (value_or e.temperature (pos 0)) ++ text " &deg;C")
      ++ (line_if (truthy e.relative_humidity) "Humidity"
            (pr.reading 1 (value_or e.relative_humidity (pos 0)) ++ text "%")
          ++ line_if (truthy e.barometric_pressure) "Pressure"
              (pr.reading 1 (value_or e.barometric_pressure (pos 0)) ++ text " hPa")))

unfoldable trace_label : TraceState → TraceLabel
trace_label ts =
    if ts.cooling_this
    then countdown ts.remaining
    else if ts.tracing_this
    then tracing
    else if ts.active
    then busy
    else ready

-- The popup, once the section of the position is made.
unfoldable pub popup_with : Locale → Printer → ℕ → Machine → ℕ → Entry → Option (List Line) → Popup
unfolding identity_section radio_section device_section environment_section trace_label
    get_trace_state esc plain_hex
popup_with loc pr now s n e place =
    let ts = get_trace_state n s in
    record {
      name = if truthy e.short_name then some (esc (text_or e.short_name)) else none;
      hex = esc (plain_hex n);
      ham = truthy e.is_licensed;
      mqtt = truthy e.via_mqtt;
      fav = truthy e.is_favorite;
      long = if truthy e.long_name then some (esc (text_or e.long_name)) else none;
      identity = identity_section loc e;
      radio = radio_section pr now e;
      place = place;
      device = device_section pr e;
      environment = environment_section pr e;
      disabled = ts.active;
      button = trace_label ts;
    }

-- `nodePopupHTML`.
unfoldable pub node_popup : Locale → Printer → ℕ → Machine → ℕ → Entry → Option Popup
unfolding place_section popup_with
node_popup loc pr now s n e = elim (place_section pr now e) [
  | none ↦ none
  | some place ↦ some (popup_with loc pr now s n e place)
]
