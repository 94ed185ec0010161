-- ===== src/App/Dirs/Runs.antt =====
-- The directory of the page: whatever the listeners draw besides, it moves as the model of the
-- directory alone.
use mathlib.Core.Path.{subst}
use meshtastic_proxy.App.Listed.{IsListed}
use meshtastic_proxy.Base.{
  ℕ, Bool, true, false, ◌&&◌, Option, none, some, if◌then◌else◌, ◌≡◌, refl, sym, Bool-cases, inl,
  inr, Locale, truthy, nat_truthy, text_truthy, option_truthy,
}
use meshtastic_proxy.Base.NumMap.{NumMap, lookup}
use meshtastic_proxy.Directory.{
  Entry, Dir, Update, InfoUpdate, position, telemetry, signal, info, favorite, dir_or_empty,
  put_position, put_telemetry, put_signal, put_info, put_favorite, apply_update,
}
use meshtastic_proxy.Trace.Route.{is_some, is_full, draws}
use meshtastic_proxy.Sse.{metrics, holds_back}
use meshtastic_proxy.Nodes.Table.{act}
use meshtastic_proxy.Nodes.Table.{
  Action, toggle_filters, check_role, set_mode, set_mqtt, set_position, sort_click, type_search,
  reset,
}
use meshtastic_proxy.Map.{update_map_markers, update_map_node}
use meshtastic_proxy.App.{
  App, Tab, dashboard, map_tab, chat, nodes, MapAction, type_map_search, set_status, set_battery,
  set_map_mqtt, check_role_box, check_hardware_box, set_heat, reset_map, Event, directory, snapshot,
  server, pause_pressed, show_tab, acts, acts_on_map, favorite_set, refresh_timer, is_table_shown,
  kind_of, rename_marker, redraw, rebuild_boxes, rebuild_options, with_heat, filter_map, is_drawn,
  nodes_changed, node_info_changed, refresh_map, on_position, on_favorite, on_update,
}
use meshtastic_proxy.App.Steps.{
  toggled_panel, on_action, on_map_action, init_map, init_nodes_tab, switch_tab, on_snapshot,
  on_directory, step,
}
use meshtastic_proxy.App.Sync.Runs.{IsOrdered}
use meshtastic_proxy.App.Dirs.{
  dir_after, paused_after, absent-favorite, absent-mark, missing-reading, missing-signal,
  dir_after-IsListed,
}

module _ {ℓ} {R : Type ℓ} (loc : Locale) (curve : ℕ → ℕ → R) where
  -- A page with this directory, paused or not.
  pub record At (dir : Dir) (paused : Bool) (s : App R) : Type 0 where
    pub dir_at : s.dir ≡ dir
    pub paused_at : s.paused ≡ paused

  here : {s : App R} → At s.dir s.paused s
  here = record { dir_at = refl; paused_at = refl }

  at : {s : App R} {dir : Dir} → s.dir ≡ dir → At dir s.paused s
  at h = record { dir_at = h; paused_at = refl }

  either :
      (b : Bool) (s t : App R) (dir : Dir) (p : Bool)
      → At dir p s
      → At dir p t
      → At dir p (if b then s else t)
  either true s t dir p h k = h
  either false s t dir p h k = k

  drawn : {s : App R} {dir : Dir} {p : Bool} → At dir p s → At dir p (redraw loc curve s)
  drawn v = record { dir_at = v.dir_at; paused_at = v.paused_at }

  nodes_changed-At : (s : App R) → At s.dir s.paused (nodes_changed loc curve s)
  unfolding nodes_changed
  nodes_changed-At s =
      either (is_table_shown s)
        (redraw loc curve (if s.view.filters_open then rebuild_boxes loc curve s else s)) s s.dir
        s.paused
        (drawn (either s.view.filters_open (rebuild_boxes loc curve s) s s.dir s.paused here here))
        here

  node_info_changed-At :
      (u : InfoUpdate) (s : App R) → At s.dir s.paused (node_info_changed loc curve u s)
  unfolding node_info_changed
  node_info_changed-At u s =
      let rebuilt = s.view.filters_open && truthy u.role in
      either (is_table_shown s)
        (redraw loc curve (if rebuilt then rebuild_boxes loc curve s else s)) s s.dir s.paused
        (drawn (either rebuilt (rebuild_boxes loc curve s) s s.dir s.paused here here)) here

  refresh_map-At : (now : ℕ) (s : App R) → At s.dir s.paused (refresh_map loc curve now s)
  unfolding refresh_map
  refresh_map-At now s =
      let s1 = rebuild_options loc curve s in
      let s2 : App R = record s1 { map = update_map_markers loc now s1.panel s.dir s.map } in
      let s3 : App R = record s { map = update_map_markers loc now s.panel s.dir s.map } in
      let drawn = nodes_changed loc curve (with_heat loc curve s2) in
      let d = draws (dir_or_empty s.dir) in
      either (s.map.ready && is_some s.dir) (if d then drawn else s3) s s.dir s.paused
        (either d drawn s3 s.dir s.paused (nodes_changed-At (with_heat loc curve s2)) here) here

  -- A listener writes to the directory what the model of the directory says.
  on_update-At :
      (now : ℕ) (u : Update) (s : App R)
      → At (apply_update now u s.dir) s.paused (on_update loc curve now u s)
  unfolding on_update on_position on_favorite apply_update
  on_update-At now (position u) s =
      let s1 : App R = record s { dir = put_position now u s.dir } in
      let s2 : App R = record s1 { map = update_map_node loc now s.panel u s.dir s.map } in
      either (is_some s.dir && (s.map.ready && is_full (u.latitude, u.longitude)))
        (nodes_changed loc curve (with_heat loc curve s2)) s1 (put_position now u s.dir) s.paused
        (nodes_changed-At (with_heat loc curve s2)) here
  on_update-At now (telemetry u) s =
      let s1 : App R = record s { dir = put_telemetry now u s.dir } in
      elim (Bool-cases (is_some s.dir)) [
        | inl there ↦ simp there (nodes_changed-At (filter_map loc curve now s1))
        | inr missing ↦ simp missing (at (missing-reading now u s.dir missing))
      ]
  on_update-At now (signal u) s =
      let s1 : App R = record s { dir = put_signal now u s.dir } in
      elim (Bool-cases (is_some s.dir)) [
        | inl there ↦ simp there (nodes_changed-At (with_heat loc curve s1))
        | inr missing ↦ simp missing (at (missing-signal now u s.dir missing))
      ]
  on_update-At now (info u) s =
      let dir = put_info now u s.dir in
      node_info_changed-At u (record s { dir = dir; map = rename_marker u.node_num dir s.map })
  on_update-At now (favorite u) s =
      let s1 : App R = redraw loc curve (record s { dir = put_favorite u s.dir }) in
      elim (Bool-cases (truthy u.node_num && is_some (lookup u.node_num (dir_or_empty s.dir)))) [
        | inl found ↦ simp found (
            either (is_drawn loc curve s1) (refresh_map loc curve now s1) s1 (put_favorite u s.dir)
              s.paused (refresh_map-At now s1) here)
        | inr missing ↦ simp missing (at (sym (absent-favorite u s.dir missing)))
      ]

  fork :
      (paused : Bool) (s t : App R) (x y : Dir) (p : Bool)
      → At x p s
      → At y p t
      → At (if paused then x else y) p (if paused && true then s else t)
  fork true s t x y p h k = h
  fork false s t x y p h k = k

  snapshot-At :
      (now : ℕ) (o : Option (NumMap Entry)) (s : App R)
      → At
          (dir_after now s.paused (snapshot o) s.dir)
          s.paused
          (if s.paused && holds_back metrics then s else on_snapshot loc curve now o s)
  unfolding on_snapshot holds_back
  snapshot-At now none s = either (s.paused && true) s s s.dir s.paused here here
  snapshot-At now (some d) s =
      fork s.paused s (on_directory loc curve now d s) s.dir (some d) s.paused here
        (refresh_map-At now (record s { dir = some d }))

  on_action-At : (a : Action) (s : App R) → At s.dir s.paused (on_action loc curve a s)
  unfolding on_action
  on_action-At toggle_filters s =
      let s1 : App R = record s { view = act toggle_filters s.view } in
      either s1.view.filters_open (rebuild_boxes loc curve s1) s1 s.dir s.paused here here
  on_action-At (set_mode m) s = here
  on_action-At (set_mqtt f) s = here
  on_action-At (set_position f) s = here
  on_action-At (check_role r b) s = here
  on_action-At reset s = here
  on_action-At (sort_click k) s = here
  on_action-At (type_search t) s = here

  on_map_action-At :
      (now : ℕ) (a : MapAction) (s : App R) → At s.dir s.paused (on_map_action loc curve now a s)
  unfolding on_map_action
  on_map_action-At now (type_map_search t) s = here
  on_map_action-At now (set_status f) s = here
  on_map_action-At now (set_battery f) s = here
  on_map_action-At now (set_map_mqtt f) s = here
  on_map_action-At now (check_role_box w b) s = here
  on_map_action-At now (check_hardware_box w b) s = here
  on_map_action-At now (set_heat m) s = here
  on_map_action-At now reset_map s = here

  switch_tab-At : (now : ℕ) (t : Tab) (s : App R) → At s.dir s.paused (switch_tab loc curve now t s)
  unfolding switch_tab init_map init_nodes_tab
  switch_tab-At now dashboard s = here
  switch_tab-At now chat s = here
  switch_tab-At now map_tab s =
      let s1 : App R = record s { tab = map_tab } in
      let s2 : App R = record s1 { map = record s.map { ready = true } } in
      either s.map.ready s1 (refresh_map loc curve now s2) s.dir s.paused here
        (refresh_map-At now s2)
  switch_tab-At now nodes s =
      let s1 : App R = record s { tab = nodes } in
      let s2 : App R = record s1 { nodes_ready = true } in
      either s.nodes_ready (redraw loc curve s1) (redraw loc curve (toggled_panel loc curve s2))
        s.dir s.paused here
        (drawn
          (either s.view.filters_open (rebuild_boxes loc curve s2) s2 s.dir s.paused here here))

  -- One event of the page moves the directory as the table above says, with the map open or not.
  pub step-At :
      (now : ℕ) (e : Event) (s : App R)
      → At (dir_after now s.paused e s.dir) (paused_after e s.paused) (step loc curve now e s)
  unfolding step
  step-At now (directory d) s = refresh_map-At now (record s { dir = some d })
  step-At now (snapshot o) s = snapshot-At now o s
  step-At now (server u) s = elim (Bool-cases (s.paused && holds_back (kind_of u))) [
    | inl held ↦ simp held here
    | inr free ↦ simp free (on_update-At now u s)
  ]
  step-At now pause_pressed s = here
  step-At now (show_tab t) s = switch_tab-At now t s
  step-At now (acts a) s = on_action-At a s
  step-At now (acts_on_map a) s = on_map_action-At now a s
  step-At now (favorite_set n b) s = elim (Bool-cases (is_some (lookup n (dir_or_empty s.dir)))) [
    | inl known ↦ simp known here
    | inr missing ↦ simp missing (at (sym (absent-mark n b s.dir missing)))
  ]
  step-At now refresh_timer s =
      either (is_table_shown s) (redraw loc curve s) s s.dir s.paused here here

  -- Directories that come whole in order leave a directory in order.
  pub step-IsListed :
      (now : ℕ) (e : Event) (s : App R)
      → IsListed (dir_or_empty s.dir)
      → IsOrdered e
      → IsListed (dir_or_empty (step loc curve now e s).dir)
  step-IsListed now e s sorted h =
      subst (λ d. IsListed (dir_or_empty d)) (sym (step-At now e s).dir_at)
        (dir_after-IsListed now s.paused e s.dir sorted h)
