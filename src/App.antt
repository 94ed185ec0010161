-- ===== src/App.antt =====
-- The page as a whole: what app.js and nodes.js do with one event when they share the node
-- directory. Each handler calls those of the components in the order of the source; the events of
-- `Mesh.bus` are the calls `nodes_changed` and `node_info_changed`.
pub mod Steps
pub mod Listed
pub mod Dirs
pub mod Closed
pub mod Whole
pub mod Points
pub mod Sync
pub mod Boxes
pub mod Pins
use meshtastic_proxy.Base.{
  ℕ, List, [], ◌∷◌, map, Text, Bool, true, false, not, ◌&&◌, Option, none, some, if◌then◌else◌,
  truthy, text_truthy, option_truthy, nat_truthy, eq_text, Locale,
}
use meshtastic_proxy.Base.NumMap.{NumMap, lookup, insert}
use meshtastic_proxy.Directory.{
  Entry, Dir, Update, PositionUpdate, InfoUpdate, FavoriteUpdate, position, telemetry, signal, info,
  favorite, put_position, put_telemetry, put_signal, put_info, put_favorite, dir_or_empty,
}
use meshtastic_proxy.Trace.Route.{is_some, is_full, draws}
use meshtastic_proxy.Sse.{
  Kind, holds_back, node_position_update, node_telemetry_update, node_signal_update, node_update,
  node_favorite,
}
use meshtastic_proxy.Nodes.{View, MqttFilter}
use meshtastic_proxy.Nodes.Table.{
  table_rows, Shown, Action, act, render, toggle_filters, check_role, set_mode, set_mqtt,
  set_position, sort_click, type_search, reset,
}
use meshtastic_proxy.Nodes.Actions.{mark_favorite}
use meshtastic_proxy.Nodes.Boxes.{RoleBox, build_role_checkboxes}
use meshtastic_proxy.Map.{
  Map, Marker, Panel, StatusFilter, BatteryFilter, apply_map_filters, update_map_markers,
  update_map_node,
}
use meshtastic_proxy.Map.Heat.{Heat, HeatMode, off, update_heatmap}
use meshtastic_proxy.Map.Options.{
  Options, Box, rebuild_filter_options, sync_checked_state, with_options, reset_options,
  reset_panel,
}

pub data Tab : Type 0 where
  dashboard map_tab chat nodes : Tab

abbrev is_nodes : Tab → Bool
is_nodes nodes = true
is_nodes dashboard = false
is_nodes map_tab = false
is_nodes chat = false

-- The variables of the scripts that the directory feeds, and what the page shows of it.
pub record App {ℓ} (R : Type ℓ) : Type ℓ where
  pub paused : Bool
  pub dir : Dir
  pub map : Map
  pub panel : Panel
  pub options : Options
  pub heat : Heat R
  pub tab : Tab
  pub nodes_ready : Bool
  pub view : View
  pub table : Shown
  pub boxes : List RoleBox

abbrev pub is_table_shown {ℓ} : {R : Type ℓ} → App R → Bool
is_table_shown s = s.nodes_ready && is_nodes s.tab

-- The handlers of the panel of the map.
pub data MapAction : Type 0 where
  type_map_search : Text → MapAction
  set_status : StatusFilter → MapAction
  set_battery : BatteryFilter → MapAction
  set_map_mqtt : MqttFilter → MapAction
  check_role_box : Text → Bool → MapAction
  check_hardware_box : Text → Bool → MapAction
  set_heat : HeatMode → MapAction
  reset_map : MapAction

-- The node directory comes whole with `node_directory` and with some snapshots of the metrics.
pub data Event : Type 0 where
  directory : NumMap Entry → Event
  snapshot : Option (NumMap Entry) → Event
  server : Update → Event
  pause_pressed : Event
  show_tab : Tab → Event
  acts : Action → Event
  acts_on_map : MapAction → Event
  favorite_set : ℕ → Bool → Event
  refresh_timer : Event

abbrev pub kind_of : Update → Kind
kind_of (position u) = node_position_update
kind_of (telemetry u) = node_telemetry_update
kind_of (signal u) = node_signal_update
kind_of (info u) = node_update
kind_of (favorite u) = node_favorite

abbrev pub set_box : Text → Bool → List Box → List Box
set_box v b boxes = map (λ box. if eq_text box.0 v then (box.0, b) else box) boxes

-- The icon that `updateNodeInfo` gives to a marker that is there.
abbrev pub set_icon : ℕ → Option Entry → Option Marker → NumMap Marker → NumMap Marker
set_icon n none m ms = ms
set_icon n (some e) none ms = ms
set_icon n (some e) (some m) ms = insert n (record m { icon = e.short_name }) ms

abbrev pub rename_marker : ℕ → Dir → Map → Map
rename_marker n dir m = record m {
  markers =
      if m.ready
      then set_icon n (lookup n (dir_or_empty dir)) (lookup n m.markers) m.markers
      else m.markers;
}

-- What the panel of the nodes tab does with its role boxes besides: the browser ticks a box, and the
-- reset unticks all.
abbrev pub tick_boxes : Action → List RoleBox → List RoleBox
tick_boxes (check_role r b) boxes =
    map (λ (box : RoleBox). if eq_text r box.value then record box { checked = b } else box) boxes
tick_boxes reset boxes = map (λ (box : RoleBox). record box { checked = false }) boxes
tick_boxes toggle_filters boxes = boxes
tick_boxes (set_mode m) boxes = boxes
tick_boxes (set_mqtt f) boxes = boxes
tick_boxes (set_position f) boxes = boxes
tick_boxes (sort_click k) boxes = boxes
tick_boxes (type_search t) boxes = boxes

module _ {ℓ} {R : Type ℓ} (loc : Locale) (curve : ℕ → ℕ → R) where
  abbrev pub redraw : App R → App R
  redraw s = record s { table = render loc s.view s.dir s.table }

  abbrev pub rebuild_boxes : App R → App R
  rebuild_boxes s = record s { boxes = build_role_checkboxes loc s.view.roles s.dir s.boxes }

  -- The listeners of the bus.
  unfoldable pub nodes_changed : App R → App R
  nodes_changed s =
      if is_table_shown s then redraw (if s.view.filters_open then rebuild_boxes s else s) else s

  unfoldable pub node_info_changed : InfoUpdate → App R → App R
  node_info_changed u s =
      if is_table_shown s
      then redraw (if s.view.filters_open && truthy u.role then rebuild_boxes s else s)
      else s

  abbrev pub with_heat : App R → App R
  with_heat s = record s { heat = update_heatmap curve s.map.ready s.dir s.heat }

  abbrev pub filter_map : ℕ → App R → App R
  filter_map now s = record s { map = apply_map_filters loc now s.panel s.dir s.map }

  -- `updateMapMarkers`. Where a marker throws, nothing behind its loop is reached: neither the options
  -- of the filters nor the heat map nor the bus.
  abbrev pub rebuild_options : App R → App R
  rebuild_options s =
      let o = rebuild_filter_options s.dir s.options in
      record s { options = o; panel = with_options o s.panel }

  unfoldable pub refresh_map : ℕ → App R → App R
  unfolding nodes_changed draws
  refresh_map now s =
      let s1 = rebuild_options s in
      if s.map.ready && is_some s.dir
      then (if draws (dir_or_empty s.dir)
          then nodes_changed
              (with_heat (record s1 { map = update_map_markers loc now s1.panel s.dir s.map }))
          else record s { map = update_map_markers loc now s.panel s.dir s.map })
      else s

  -- `updateMapNode`, which returns before the bus is told when the map was never opened, and throws
  -- before when a coordinate is missing.
  unfoldable pub on_position : ℕ → PositionUpdate → App R → App R
  unfolding nodes_changed
  on_position now u s =
      let s1 = record s { dir = put_position now u s.dir } in
      if is_some s.dir && (s.map.ready && is_full (u.latitude, u.longitude))
      then nodes_changed
          (with_heat (record s1 { map = update_map_node loc now s.panel u s.dir s.map }))
      else s1

  -- No row of the table throws.
  unfoldable pub is_drawn : App R → Bool
  unfolding table_rows draws
  is_drawn s = draws (table_rows loc s.view (dir_or_empty s.dir))

  -- The listener of `node_favorite`: where a row of the table throws, the map is not reached.
  unfoldable pub on_favorite : ℕ → FavoriteUpdate → App R → App R
  unfolding refresh_map is_drawn
  on_favorite now u s =
      let s1 = redraw (record s { dir = put_favorite u s.dir }) in
      if truthy u.node_num && is_some (lookup u.node_num (dir_or_empty s.dir))
      then (if is_drawn s1 then refresh_map now s1 else s1)
      else s

  unfoldable pub on_update : ℕ → Update → App R → App R
  unfolding on_position on_favorite nodes_changed node_info_changed
  on_update now (position u) s = on_position now u s
  on_update now (telemetry u) s =
      if is_some s.dir
      then nodes_changed (filter_map now (record s { dir = put_telemetry now u s.dir }))
      else s
  on_update now (signal u) s =
      if is_some s.dir
      then nodes_changed (with_heat (record s { dir = put_signal now u s.dir }))
      else s
  on_update now (info u) s =
      let dir = put_info now u s.dir in
      node_info_changed u (record s { dir = dir; map = rename_marker u.node_num dir s.map })
  on_update now (favorite u) s = on_favorite now u s
