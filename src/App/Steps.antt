-- ===== src/App/Steps.antt =====
-- The page as a machine: what the user does on the two tabs, the answers to requests and the timers,
-- beside the events of the server.
use meshtastic_proxy.Base.{
  ℕ, List, [], ◌∷◌, true, not, ◌&&◌, Option, none, some, if◌then◌else◌, Locale,
}
use meshtastic_proxy.Base.NumMap.{NumMap, lookup}
use meshtastic_proxy.Directory.{Entry, dir_or_empty}
use meshtastic_proxy.Trace.Route.{is_some}
use meshtastic_proxy.Sse.{metrics, holds_back}
use meshtastic_proxy.Nodes.Table.{
  Action, act, toggle_filters, check_role, set_mode, set_mqtt, set_position, sort_click,
  type_search, reset,
}
use meshtastic_proxy.Nodes.Actions.{mark_favorite}
use meshtastic_proxy.Map.{apply_map_filters}
use meshtastic_proxy.Map.Heat.{off, update_heatmap}
use meshtastic_proxy.Map.Options.{
  Options, sync_checked_state, with_options, reset_options, reset_panel,
}
use meshtastic_proxy.App.{
  App, Tab, dashboard, map_tab, chat, nodes, MapAction, type_map_search, set_status, set_battery,
  set_map_mqtt, check_role_box, check_hardware_box, set_heat, reset_map, Event, directory, snapshot,
  server, pause_pressed, show_tab, acts, acts_on_map, favorite_set, refresh_timer, is_table_shown,
  kind_of, set_box, tick_boxes, redraw, rebuild_boxes, with_heat, filter_map, refresh_map,
  on_update,
}

module _ {ℓ} {R : Type ℓ} (loc : Locale) (curve : ℕ → ℕ → R) where
  -- A handler of the nodes tab that ends with `renderNodesTable`.
  abbrev pub redrawn_by : Action → App R → App R
  redrawn_by a s = redraw loc curve (record s { view = act a s.view; boxes = tick_boxes a s.boxes })

  -- `toggleNodesFilters`, which only shows or hides its panel.
  abbrev pub toggled_panel : App R → App R
  toggled_panel s = if s.view.filters_open then rebuild_boxes loc curve s else s

  unfoldable pub on_action : Action → App R → App R
  unfolding act
  on_action toggle_filters s = toggled_panel (record s { view = act toggle_filters s.view })
  on_action (set_mode m) s = redrawn_by (set_mode m) s
  on_action (set_mqtt f) s = redrawn_by (set_mqtt f) s
  on_action (set_position f) s = redrawn_by (set_position f) s
  on_action (check_role r b) s = redrawn_by (check_role r b) s
  on_action reset s = redrawn_by reset s
  on_action (sort_click k) s = redrawn_by (sort_click k) s
  on_action (type_search t) s = redrawn_by (type_search t) s

  -- `syncCheckedState(); applyMapFilters()` behind a box that was ticked.
  abbrev pub synced : ℕ → Options → App R → App R
  synced now o s =
      let o1 = sync_checked_state o in
      filter_map loc curve now (record s { options = o1; panel = with_options o1 s.panel })

  unfoldable pub on_map_action : ℕ → MapAction → App R → App R
  unfolding sync_checked_state with_options reset_options reset_panel apply_map_filters
      update_heatmap
  on_map_action now (type_map_search t) s =
      filter_map loc curve now (record s { panel = record s.panel { search = t } })
  on_map_action now (set_status f) s =
      filter_map loc curve now (record s { panel = record s.panel { status = f } })
  on_map_action now (set_battery f) s =
      filter_map loc curve now (record s { panel = record s.panel { battery = f } })
  on_map_action now (set_map_mqtt f) s =
      filter_map loc curve now (record s { panel = record s.panel { mqtt = f } })
  on_map_action now (check_role_box v b) s =
      synced now (record s.options { roles = set_box v b s.options.roles }) s
  on_map_action now (check_hardware_box v b) s =
      synced now (record s.options { hardware = set_box v b s.options.hardware }) s
  on_map_action now (set_heat m) s =
      with_heat loc curve (record s { heat = record s.heat { mode = m } })
  on_map_action now reset_map s = with_heat loc curve (
      filter_map loc curve now (record s {
        panel = reset_panel s.options s.panel;
        options = reset_options s.options;
        heat = record s.heat { mode = off };
      }))

  -- `initMap`: the map is made and filled when its tab is shown for the first time.
  unfoldable pub init_map : ℕ → App R → App R
  unfolding refresh_map
  init_map now s =
      if s.map.ready
      then s
      else refresh_map loc curve now (record s { map = record s.map { ready = true } })

  -- `initNodesTab`.
  unfoldable pub init_nodes_tab : App R → App R
  init_nodes_tab s =
      if s.nodes_ready
      then redraw loc curve s
      else redraw loc curve (toggled_panel (record s { nodes_ready = true }))

  -- `switchTab`; what it does to the chat is that panel's.
  unfoldable pub switch_tab : ℕ → Tab → App R → App R
  unfolding init_map init_nodes_tab
  switch_tab now dashboard s = record s { tab = dashboard }
  switch_tab now chat s = record s { tab = chat }
  switch_tab now map_tab s = init_map now (record s { tab = map_tab })
  switch_tab now nodes s = init_nodes_tab (record s { tab = nodes })

  -- A directory that comes whole.
  abbrev pub on_directory : ℕ → NumMap Entry → App R → App R
  on_directory now d s = refresh_map loc curve now (record s { dir = some d })

  unfoldable pub on_snapshot : ℕ → Option (NumMap Entry) → App R → App R
  unfolding refresh_map
  on_snapshot now none s = s
  on_snapshot now (some d) s = on_directory now d s

  unfoldable pub step : ℕ → Event → App R → App R
  unfolding on_action on_map_action switch_tab on_snapshot refresh_map on_update mark_favorite
      lookup
  step now (directory d) s = on_directory now d s
  step now (snapshot o) s = if s.paused && holds_back metrics then s else on_snapshot now o s
  step now (server u) s =
      if s.paused && holds_back (kind_of u) then s else on_update loc curve now u s
  step now pause_pressed s = record s { paused = not s.paused }
  step now (show_tab t) s = switch_tab now t s
  step now (acts a) s = on_action a s
  step now (acts_on_map a) s = on_map_action now a s
  step now (favorite_set n b) s =
      if is_some (lookup n (dir_or_empty s.dir))
      then redraw loc curve (record s { dir = mark_favorite n b s.dir })
      else s
  step now refresh_timer s = if is_table_shown s then redraw loc curve s else s

  unfoldable pub run : List (ℕ × Event) → App R → App R
  unfolding step
  run [] s = s
  run ((now, e) ∷ es) s = run es (step now e s)
