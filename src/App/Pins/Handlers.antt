-- ===== src/App/Pins/Handlers.antt =====
-- The handlers of the user leave the markers where the directory has the nodes.
use meshtastic_proxy.App.Listed.{IsListed}
use meshtastic_proxy.Base.{
  ℕ, Bool, true, Option, none, some, ◌≡◌, refl, Locale, text_truthy, option_truthy, nat_truthy,
}
use meshtastic_proxy.Base.NumMap.{NumMap}
use meshtastic_proxy.Directory.{Entry, Dir, dir_or_empty}
use meshtastic_proxy.Map.Options.{Options, reset_panel, reset_options}
use meshtastic_proxy.Nodes.Table.{
  Action, act, toggle_filters, check_role, set_mode, set_mqtt, set_position, sort_click,
  type_search, reset,
}
use meshtastic_proxy.Nodes.Actions.{mark_favorite}
use meshtastic_proxy.Map.{Marker, Panel}
use meshtastic_proxy.App.{
  App, Tab, dashboard, map_tab, chat, nodes, MapAction, type_map_search, set_status, set_battery,
  set_map_mqtt, check_role_box, check_hardware_box, set_heat, reset_map, snapshot, redraw,
  rebuild_boxes, filter_map,
}
use meshtastic_proxy.App.Steps.{
  on_action, on_map_action, init_map, init_nodes_tab, switch_tab, on_snapshot,
}
use meshtastic_proxy.App.Sync.Runs.{IsOrdered}
use meshtastic_proxy.App.Pins.{Pins}
use meshtastic_proxy.App.Pins.Entries.{mark-Pins}
use meshtastic_proxy.App.Pins.Listeners.{Pinned, choose, panel_open, refresh_map-Pinned, filtered}

module _ {ℓ} {R : Type ℓ} (loc : Locale) (curve : ℕ → ℕ → R) where
  -- Handlers that touch neither the directory nor the map.
  pub same :
      {s : App R}
      → s.map.ready ≡ true
      → IsListed (dir_or_empty s.dir)
      → Pins (dir_or_empty s.dir) s.map.markers
      → Pinned loc curve s
  same ready sorted pins = record { ready = ready; sorted = sorted; pins = pins }

  pub action-Pinned :
      (a : Action) (s : App R) → Pinned loc curve s → Pinned loc curve (on_action loc curve a s)
  unfolding on_action
  action-Pinned toggle_filters s v =
      let s1 : App R = record s { view = act toggle_filters s.view } in
      choose loc curve s1.view.filters_open (rebuild_boxes loc curve s1) s1
        (same v.ready v.sorted v.pins) (same v.ready v.sorted v.pins)
  action-Pinned (set_mode m) s v = same v.ready v.sorted v.pins
  action-Pinned (set_mqtt f) s v = same v.ready v.sorted v.pins
  action-Pinned (set_position f) s v = same v.ready v.sorted v.pins
  action-Pinned (check_role r b) s v = same v.ready v.sorted v.pins
  action-Pinned reset s v = same v.ready v.sorted v.pins
  action-Pinned (sort_click k) s v = same v.ready v.sorted v.pins
  action-Pinned (type_search t) s v = same v.ready v.sorted v.pins

  panel-Pinned :
      (now : ℕ) (p : Panel) (o : Options) (s : App R)
      → Pinned loc curve s
      → Pinned loc curve (filter_map loc curve now (record s { panel = p; options = o }))
  panel-Pinned now p o s v =
      filtered loc curve now (record s { panel = p; options = o }) (same v.ready v.sorted v.pins)

  pub map_action-Pinned :
      (now : ℕ) (a : MapAction) (s : App R)
      → Pinned loc curve s
      → Pinned loc curve (on_map_action loc curve now a s)
  unfolding on_map_action
  map_action-Pinned now (type_map_search t) s v = panel-Pinned now _ s.options s v
  map_action-Pinned now (set_status f) s v = panel-Pinned now _ s.options s v
  map_action-Pinned now (set_battery f) s v = panel-Pinned now _ s.options s v
  map_action-Pinned now (set_map_mqtt f) s v = panel-Pinned now _ s.options s v
  map_action-Pinned now (check_role_box w b) s v = panel-Pinned now _ _ s v
  map_action-Pinned now (check_hardware_box w b) s v = panel-Pinned now _ _ s v
  map_action-Pinned now (set_heat m) s v = same v.ready v.sorted v.pins
  map_action-Pinned now reset_map s v =
      let f = panel-Pinned now (reset_panel s.options s.panel) (reset_options s.options) s v in
      same f.ready f.sorted f.pins

  pub tab-Pinned :
      (now : ℕ) (t : Tab) (s : App R)
      → Pinned loc curve s
      → Pinned loc curve (switch_tab loc curve now t s)
  unfolding switch_tab init_map init_nodes_tab
  tab-Pinned now dashboard s v = same v.ready v.sorted v.pins
  tab-Pinned now chat s v = same v.ready v.sorted v.pins
  tab-Pinned now map_tab s v = simp v.ready (same v.ready v.sorted v.pins)
  tab-Pinned now nodes s v =
      choose loc curve s.nodes_ready (redraw loc curve (record s { tab = nodes })) _
        (same v.ready v.sorted v.pins)
        (panel_open loc curve s.view.filters_open (record s { tab = nodes; nodes_ready = true })
          (same v.ready v.sorted v.pins))

  pub snapshot-Pinned :
      (now : ℕ) (o : Option (NumMap Entry)) (s : App R)
      → Pinned loc curve s
      → IsOrdered (snapshot o)
      → Pinned loc curve (on_snapshot loc curve now o s)
  unfolding on_snapshot
  snapshot-Pinned now none s v h = v
  snapshot-Pinned now (some d) s v h =
      refresh_map-Pinned loc curve now (record s { dir = some d }) v.ready refl h

  pub marked :
      (n : ℕ) (b : Bool) (dir : Dir) (ms : NumMap Marker)
      → Pins (dir_or_empty dir) ms
      → Pins (dir_or_empty (mark_favorite n b dir)) ms
  marked n b none ms pins = unfold mark_favorite in pins
  marked n b (some d) ms pins = mark-Pins n b d ms pins
