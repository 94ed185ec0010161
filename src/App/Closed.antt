-- ===== src/App/Closed.antt =====
-- The page before the map has been opened: no event but the first visit of its tab makes the map, and
-- the heat map stays as it was.
use meshtastic_proxy.Base.{
  ℕ, Bool, true, false, ◌&&◌, Option, none, some, if◌then◌else◌, ◌≡◌, ◌≢◌, refl, ◌∙◌, Locale,
  truthy, nat_truthy, text_truthy, option_truthy,
}
use meshtastic_proxy.Base.NumMap.{NumMap, lookup}
use meshtastic_proxy.Directory.{
  Entry, Update, InfoUpdate, position, telemetry, signal, info, favorite, dir_or_empty,
  put_position, put_telemetry, put_signal, put_info, put_favorite,
}
use meshtastic_proxy.Trace.Route.{is_some, is_full}
use meshtastic_proxy.Sse.{metrics, holds_back}
use meshtastic_proxy.Nodes.Table.{
  act, Action, toggle_filters, check_role, set_mode, set_mqtt, set_position, sort_click,
  type_search, reset,
}
use meshtastic_proxy.Nodes.Actions.{mark_favorite}
use meshtastic_proxy.Map.Heat.{update_heatmap}
use meshtastic_proxy.App.{
  App, Tab, dashboard, map_tab, chat, nodes, Event, directory, snapshot, server, pause_pressed,
  show_tab, acts, acts_on_map, favorite_set, refresh_timer, is_table_shown, kind_of, rename_marker,
  redraw, rebuild_boxes, with_heat, filter_map, is_drawn, nodes_changed, node_info_changed,
  refresh_map, on_update, on_position, on_favorite,
}
use meshtastic_proxy.App.Steps.{
  toggled_panel, on_action, init_nodes_tab, switch_tab, on_snapshot, on_directory, step,
}
use meshtastic_proxy.App.Sync.{apply_map_filters-ready}

-- What is left alone while the map is not there: all but a visit of a tab and the panel of the map.
abbrev pub IsElsewhere : Event → Type 0
IsElsewhere (show_tab t) = ⊥
IsElsewhere (acts_on_map a) = ⊥
IsElsewhere (directory d) = Unit
IsElsewhere (snapshot o) = Unit
IsElsewhere (server u) = Unit
IsElsewhere pause_pressed = Unit
IsElsewhere (acts a) = Unit
IsElsewhere (favorite_set n b) = Unit
IsElsewhere refresh_timer = Unit

and_false : (a b : Bool) → b ≡ false → (a && b) ≡ false
and_false true b h = h
and_false false b h = refl

module _ {ℓ} {R : Type ℓ} (loc : Locale) (curve : ℕ → ℕ → R) where
  -- The second page has the map, the heat map and the tab of the first.
  pub record Kept (s t : App R) : Type ℓ where
    pub ready : t.map.ready ≡ s.map.ready
    pub heat : t.heat ≡ s.heat
    pub tab : t.tab ≡ s.tab

  same : (s : App R) → Kept s s
  same s = record { ready = refl; heat = refl; tab = refl }

  chain : (s t u : App R) → Kept s t → Kept t u → Kept s u
  chain s t u v w = record {
    ready = w.ready ∙ v.ready;
    heat = w.heat ∙ v.heat;
    tab = w.tab ∙ v.tab;
  }

  either : (b : Bool) (r s t : App R) → Kept r s → Kept r t → Kept r (if b then s else t)
  either true r s t v w = v
  either false r s t v w = w

  panel_open :
      (b : Bool) (s : App R)
      → Kept s (redraw loc curve (if b then rebuild_boxes loc curve s else s))
  panel_open true s = record { ready = refl; heat = refl; tab = refl }
  panel_open false s = record { ready = refl; heat = refl; tab = refl }

  nodes_changed-Kept : (s : App R) → Kept s (nodes_changed loc curve s)
  unfolding nodes_changed
  nodes_changed-Kept s =
      either (is_table_shown s) s
        (redraw loc curve (if s.view.filters_open then rebuild_boxes loc curve s else s)) s
        (panel_open s.view.filters_open s) (same s)

  node_info_changed-Kept : (u : InfoUpdate) (s : App R) → Kept s (node_info_changed loc curve u s)
  unfolding node_info_changed
  node_info_changed-Kept u s =
      let rebuilt = s.view.filters_open && truthy u.role in
      either (is_table_shown s) s
        (redraw loc curve (if rebuilt then rebuild_boxes loc curve s else s)) s
        (panel_open rebuilt s) (same s)

  with_heat-Kept : (s : App R) → s.map.ready ≡ false → Kept s (with_heat loc curve s)
  with_heat-Kept s closed = record {
    ready = refl;
    heat = unfold update_heatmap in rw closed;
    tab = refl;
  }

  filter_map-Kept : (now : ℕ) (s : App R) → Kept s (filter_map loc curve now s)
  filter_map-Kept now s = record {
    ready = apply_map_filters-ready loc now s.panel s.dir s.map;
    heat = refl;
    tab = refl;
  }

  refresh_map-Kept :
      (now : ℕ) (s : App R) → s.map.ready ≡ false → Kept s (refresh_map loc curve now s)
  unfolding refresh_map
  refresh_map-Kept now s closed = simp closed (same s)

  on_update-Kept :
      (now : ℕ) (u : Update) (s : App R)
      → s.map.ready ≡ false
      → Kept s (on_update loc curve now u s)
  unfolding on_update on_position on_favorite
  on_update-Kept now (position u) s closed =
      let s1 : App R = record s { dir = put_position now u s.dir } in
      simp
        (and_false (is_some s.dir) (s.map.ready && is_full (u.latitude, u.longitude)) (rw closed))
        (chain s s1 s1 (record { ready = refl; heat = refl; tab = refl }) (same s1))
  on_update-Kept now (telemetry u) s closed =
      let s1 : App R = record s { dir = put_telemetry now u s.dir } in
      let s2 : App R = filter_map loc curve now s1 in
      either (is_some s.dir) s (nodes_changed loc curve s2) s
        (chain s s2 (nodes_changed loc curve s2)
          (record { ready = (filter_map-Kept now s1).ready; heat = refl; tab = refl })
          (nodes_changed-Kept s2))
        (same s)
  on_update-Kept now (signal u) s closed =
      let s1 : App R = record s { dir = put_signal now u s.dir } in
      let s2 : App R = with_heat loc curve s1 in
      either (is_some s.dir) s (nodes_changed loc curve s2) s
        (chain s s2 (nodes_changed loc curve s2)
          (record { ready = refl; heat = (with_heat-Kept s1 closed).heat; tab = refl })
          (nodes_changed-Kept s2))
        (same s)
  on_update-Kept now (info u) s closed =
      let dir = put_info now u s.dir in
      let s1 : App R = record s { dir = dir; map = rename_marker u.node_num dir s.map } in
      chain s s1 (node_info_changed loc curve u s1)
        (record { ready = refl; heat = refl; tab = refl }) (node_info_changed-Kept u s1)
  on_update-Kept now (favorite u) s closed =
      let s1 : App R = redraw loc curve (record s { dir = put_favorite u s.dir }) in
      either (truthy u.node_num && is_some (lookup u.node_num (dir_or_empty s.dir))) s
        (if is_drawn loc curve s1 then refresh_map loc curve now s1 else s1) s
        (chain s s1 (if is_drawn loc curve s1 then refresh_map loc curve now s1 else s1)
          (record { ready = refl; heat = refl; tab = refl })
          (either (is_drawn loc curve s1) s1 (refresh_map loc curve now s1) s1
            (refresh_map-Kept now s1 closed) (same s1)))
        (same s)

  on_action-Kept : (a : Action) (s : App R) → Kept s (on_action loc curve a s)
  unfolding on_action
  on_action-Kept toggle_filters s =
      let s1 : App R = record s { view = act toggle_filters s.view } in
      either s1.view.filters_open s (rebuild_boxes loc curve s1) s1
        (record { ready = refl; heat = refl; tab = refl })
        (record { ready = refl; heat = refl; tab = refl })
  on_action-Kept (set_mode m) s = record { ready = refl; heat = refl; tab = refl }
  on_action-Kept (set_mqtt f) s = record { ready = refl; heat = refl; tab = refl }
  on_action-Kept (set_position f) s = record { ready = refl; heat = refl; tab = refl }
  on_action-Kept (check_role r b) s = record { ready = refl; heat = refl; tab = refl }
  on_action-Kept reset s = record { ready = refl; heat = refl; tab = refl }
  on_action-Kept (sort_click k) s = record { ready = refl; heat = refl; tab = refl }
  on_action-Kept (type_search t) s = record { ready = refl; heat = refl; tab = refl }

  on_directory-Kept :
      (now : ℕ) (d : NumMap Entry) (s : App R)
      → s.map.ready ≡ false
      → Kept s (on_directory loc curve now d s)
  on_directory-Kept now d s closed =
      let s1 : App R = record s { dir = some d } in
      chain s s1 (refresh_map loc curve now s1) (record { ready = refl; heat = refl; tab = refl })
        (refresh_map-Kept now s1 closed)

  on_snapshot-Kept :
      (now : ℕ) (o : Option (NumMap Entry)) (s : App R)
      → s.map.ready ≡ false
      → Kept s (on_snapshot loc curve now o s)
  unfolding on_snapshot
  on_snapshot-Kept now none s closed = same s
  on_snapshot-Kept now (some d) s closed = on_directory-Kept now d s closed

  init_nodes_tab-Kept : (s : App R) → Kept s (init_nodes_tab loc curve s)
  unfolding init_nodes_tab
  init_nodes_tab-Kept s =
      let s1 : App R = record s { nodes_ready = true } in
      let s2 : App R = toggled_panel loc curve s1 in
      let panel : Kept s s2 =
        either s.view.filters_open s (rebuild_boxes loc curve s1) s1
          (record { ready = refl; heat = refl; tab = refl })
          (record { ready = refl; heat = refl; tab = refl }) in
      either s.nodes_ready s (redraw loc curve s) (redraw loc curve s2)
        (record { ready = refl; heat = refl; tab = refl })
        (chain s s2 (redraw loc curve s2) panel (record { ready = refl; heat = refl; tab = refl }))

  -- A visit of another tab than the map's.
  pub switch_tab-Kept :
      (now : ℕ) (t : Tab) (s : App R)
      → t ≢ map_tab
      → Kept (record s { tab = t }) (switch_tab loc curve now t s)
  unfolding switch_tab
  switch_tab-Kept now dashboard s other = same (record s { tab = dashboard })
  switch_tab-Kept now chat s other = same (record s { tab = chat })
  switch_tab-Kept now map_tab s other = absurd (other refl)
  switch_tab-Kept now nodes s other = init_nodes_tab-Kept (record s { tab = nodes })

  pub step-Kept :
      (now : ℕ) (e : Event) (s : App R)
      → s.map.ready ≡ false
      → IsElsewhere e
      → Kept s (step loc curve now e s)
  unfolding step
  step-Kept now (show_tab t) s closed h = absurd h
  step-Kept now (acts_on_map a) s closed h = absurd h
  step-Kept now (directory d) s closed h = on_directory-Kept now d s closed
  step-Kept now (snapshot o) s closed h =
      either (s.paused && holds_back metrics) s s (on_snapshot loc curve now o s) (same s)
        (on_snapshot-Kept now o s closed)
  step-Kept now (server u) s closed h =
      either (s.paused && holds_back (kind_of u)) s s (on_update loc curve now u s) (same s)
        (on_update-Kept now u s closed)
  step-Kept now pause_pressed s closed h = record { ready = refl; heat = refl; tab = refl }
  step-Kept now (acts a) s closed h = on_action-Kept a s
  step-Kept now (favorite_set n b) s closed h =
      either (is_some (lookup n (dir_or_empty s.dir))) s
        (redraw loc curve (record s { dir = mark_favorite n b s.dir })) s
        (record { ready = refl; heat = refl; tab = refl }) (same s)
  step-Kept now refresh_timer s closed h =
      either (is_table_shown s) s (redraw loc curve s) s
        (record { ready = refl; heat = refl; tab = refl }) (same s)
