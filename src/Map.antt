-- ===== src/Map.antt =====
-- app.js: the markers of the map and the filters of its panel. Leaflet is kept as the markers that
-- the code gives to it; the moves of the view are left out, but for the flight to a single match.
pub mod Markers
pub mod Filters
pub mod Heat
pub mod Options
pub mod Popup
pub mod Bound
pub mod Abort
use meshtastic_proxy.Base.{
  ℕ, ◌+◌, ◌-◌, List, [], ◌∷◌, ◌++◌, Text, text, Bool, true, false, not, ◌&&◌, ◌||◌, Option, none,
  some, ◌==◌, ltb, leb, if◌then◌else◌, truthy, nat_truthy, int_truthy, bool_truthy, text_truthy,
  option_truthy, text_or, value_or, length, includes, trim, eq_text, Locale,
}
use meshtastic_proxy.Base.NumMap.{NumMap, lookup, insert}
use meshtastic_proxy.Mesh.Hex.{plain_hex}
use meshtastic_proxy.Directory.{Entry, Dir, PositionUpdate, put_position, merge_position}
use meshtastic_proxy.Trace.Route.{Coords, has_position, is_some, is_full, is_drawable, draws}
use meshtastic_proxy.Nodes.{MqttFilter, passes_mqtt, has_role}

pub data StatusFilter : Type 0 where
  any_status online offline : StatusFilter

pub data BatteryFilter : Type 0 where
  any_battery low has : BatteryFilter

-- The checked values of a group of check boxes (`none` is `null`), and how many boxes there are.
pub record Group : Type 0 where
  pub checked : Option (List Text)
  pub boxes : ℕ

-- What the panel holds.
pub record Panel : Type 0 where
  pub search : Text
  pub roles : Group
  pub hardware : Group
  pub status : StatusFilter
  pub battery : BatteryFilter
  pub mqtt : MqttFilter

unfoldable pub passes_search : Locale → Text → ℕ → Entry → Bool
unfolding plain_hex trim
passes_search loc search n e =
    let q = trim (loc.lower search) in
    let haystack = loc.lower (
      text_or e.short_name
      ++ (text " "
          ++ (text_or e.long_name
              ++ (text " " ++ (plain_hex n ++ (text " " ++ text_or e.user_id)))))) in
    not (truthy q) || includes haystack q

-- The role and the hardware filter. A set with nothing in it does not filter; a node without a
-- value passes if every box is checked.
unfoldable pub passes_group : Group → Option Text → Bool
unfolding has_role
passes_group g value = elim g.checked [
  | none ↦ true
  | some [] ↦ true
  | some (c ∷ cs) ↦
      if truthy value
      then has_role (c ∷ cs) (text_or value)
      else not (ltb (length (c ∷ cs)) g.boxes)
]

-- A node is online if it was heard in the last 15 minutes; the time of the clock is in seconds.
unfoldable pub is_online : ℕ → Entry → Bool
is_online now e = ltb now (value_or e.last_heard 0 + 900)

unfoldable pub passes_status : ℕ → StatusFilter → Entry → Bool
unfolding is_online
passes_status now any_status e = true
passes_status now online e = truthy e.last_heard && is_online now e
passes_status now offline e = not (truthy e.last_heard && is_online now e)

unfoldable pub passes_battery : BatteryFilter → Entry → Bool
passes_battery any_battery e = true
passes_battery low e = truthy e.battery_level && ltb (value_or e.battery_level 0) 20
passes_battery has e = truthy e.battery_level

-- `nodePassesFilters`.
unfoldable pub node_passes_filters : Locale → ℕ → Panel → ℕ → Entry → Bool
unfolding passes_search passes_group passes_status passes_battery passes_mqtt
node_passes_filters loc now p n e =
    passes_search loc p.search n e
    && (passes_group p.roles e.role
        && (passes_group p.hardware e.hw_model
            && (passes_status now p.status e
                && (passes_battery p.battery e && passes_mqtt p.mqtt e))))

-- A marker: where it is, the name on its icon, and whether the map shows it.
pub record Marker : Type 0 where
  pub at : Coords
  pub icon : Option Text
  pub on_map : Bool

-- The loop of `updateMapMarkers` over the directory: a known marker is moved, a new one is added. It
-- throws, and so ends, at a node that has a position and lacks a coordinate.
abbrev pub moved_or_new : Entry → Option Marker → Marker
moved_or_new e none = record { at = (e.latitude, e.longitude); icon = e.short_name; on_map = true }
moved_or_new e (some m) = record m { at = (e.latitude, e.longitude); icon = e.short_name }

unfoldable pub place_markers : NumMap Entry → NumMap Marker → NumMap Marker
unfolding lookup insert
place_markers [] ms = ms
place_markers ((k, e) ∷ d) ms =
    let rest =
      place_markers d (if has_position e then insert k (moved_or_new e (lookup k ms)) ms else ms) in
    if is_drawable e then rest else ms

-- The loop that removes the markers of nodes that are gone or have no position.
unfoldable pub is_placed : NumMap Entry → ℕ → Bool
unfolding lookup
is_placed d k = elim (lookup k d) [ none ↦ false | some e ↦ has_position e ]

unfoldable pub sweep_markers : NumMap Entry → NumMap Marker → NumMap Marker
sweep_markers d [] = []
sweep_markers d ((k, m) ∷ ms) =
    let rest = sweep_markers d ms in if is_placed d k then (k, m) ∷ rest else rest

-- The loop of `applyMapFilters`: what it counts, its last match, and the markers.
pub record Scan : Type 0 where
  pub visible : ℕ
  pub total : ℕ
  pub single : Option ℕ
  pub markers : NumMap Marker

abbrev pub show_marker : ℕ → Bool → NumMap Marker → NumMap Marker
show_marker k b ms = elim (lookup k ms) [
  | none ↦ ms
  | some m ↦ insert k (record m { on_map = b }) ms
]

unfoldable pub scan_entry : (ℕ → Entry → Bool) → ℕ → Entry → Scan → Scan
unfolding lookup insert
scan_entry test k e s =
    if has_position e
    then record {
      visible = if test k e then s.visible + 1 else s.visible;
      total = s.total + 1;
      single = if test k e then some k else s.single;
      markers = show_marker k (test k e) s.markers;
    }
    else s

unfoldable pub scan : (ℕ → Entry → Bool) → NumMap Entry → Scan → Scan
unfolding scan_entry
scan test [] s = s
scan test ((k, e) ∷ d) s = scan test d (scan_entry test k e s)

-- The state of the map: whether it is made, its markers, the counter of the panel, and the node to
-- which the view has flown last.
pub record Map : Type 0 where
  pub ready : Bool
  pub markers : NumMap Marker
  pub counter : ℕ × ℕ
  pub flown_to : Option ℕ
  pub no_nodes_note : Bool

-- The match of a search that the view flies to.
abbrev pub flight : Panel → Scan → Option ℕ → Option ℕ
flight p r old = elim r.single [
  | none ↦ old
  | some k ↦
      if truthy (trim p.search) && r.visible == 1 && is_some (lookup k r.markers)
      then some k
      else old
]

-- `applyMapFilters`.
unfoldable pub apply_map_filters : Locale → ℕ → Panel → Dir → Map → Map
unfolding scan node_passes_filters lookup trim
apply_map_filters loc now p none s = s
apply_map_filters loc now p (some d) s =
    let r =
      scan (node_passes_filters loc now p) d
        (record { visible = 0; total = 0; single = none; markers = s.markers }) in
    if s.ready
    then record s {
      markers = r.markers;
      counter = (r.visible, r.total);
      flown_to = flight p r s.flown_to;
    }
    else s

abbrev any_placed : NumMap Entry → Bool
any_placed [] = false
any_placed ((k, e) ∷ d) = has_position e || any_placed d

-- `updateMapMarkers` on the markers, up to the filters, which come last. Where the first loop throws
-- the rest is not reached.
unfoldable pub update_map_markers : Locale → ℕ → Panel → Dir → Map → Map
unfolding place_markers sweep_markers is_placed apply_map_filters draws
update_map_markers loc now p none s = s
update_map_markers loc now p (some d) s =
    if s.ready
    then (if draws d
        then apply_map_filters loc now p (some d) (record s {
          markers = sweep_markers d (place_markers d s.markers);
          no_nodes_note = not (any_placed d);
        })
        else record s { markers = place_markers d s.markers })
    else s

-- `updateMapNode` behind its write to the directory: the marker of the node, then the filters. It
-- throws before both if a coordinate is missing.
unfoldable pub update_map_node : Locale → ℕ → Panel → PositionUpdate → Dir → Map → Map
unfolding put_position merge_position lookup insert apply_map_filters
update_map_node loc now p u none s = s
update_map_node loc now p u (some d) s =
    let e = merge_position now u (lookup u.node_num d) in
    let old = lookup u.node_num s.markers in
    if s.ready && is_full (u.latitude, u.longitude)
    then apply_map_filters loc now p (put_position now u (some d)) (record s {
      markers = insert u.node_num (moved_or_new e old) s.markers;
      no_nodes_note = s.no_nodes_note && is_some old;
    })
    else s
