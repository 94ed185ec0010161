-- ===== src/App/Boxes.antt =====
-- The role boxes of the nodes tab show the roles that the table is filtered by.
use meshtastic_proxy.Base.{
  ℕ, List, [], ◌∷◌, map, Text, Bool, true, false, ◌&&◌, Option, none, some, if◌then◌else◌, ◌≡◌,
  refl, sym, ◌∙◌, Bool-cases, inl, inr, All, Locale, truthy, text_truthy, option_truthy, nat_truthy,
  eq_text,
}
use meshtastic_proxy.Base.NumMap.{NumMap, lookup}
use meshtastic_proxy.Directory.{
  Entry, Dir, Update, InfoUpdate, position, telemetry, signal, info, favorite, put_position,
  put_telemetry, put_signal, put_info, put_favorite, dir_or_empty,
}
use meshtastic_proxy.Trace.Route.{is_some, is_full, draws}
use meshtastic_proxy.Sse.{metrics, holds_back}
use meshtastic_proxy.Nodes.{View, has_role}
use meshtastic_proxy.Nodes.Table.{
  Action, act, toggle_filters, check_role, set_mode, set_mqtt, set_position, sort_click,
  type_search, reset,
}
use meshtastic_proxy.Nodes.Filters.{check_role_lem}
use meshtastic_proxy.Nodes.Boxes.{RoleBox, role_box, build_role_checkboxes}
use meshtastic_proxy.Map.{update_map_markers, update_map_node}
use meshtastic_proxy.App.{
  App, Tab, dashboard, map_tab, chat, nodes, MapAction, type_map_search, set_status, set_battery,
  set_map_mqtt, check_role_box, check_hardware_box, set_heat, reset_map, Event, directory, snapshot,
  server, pause_pressed, show_tab, acts, acts_on_map, favorite_set, refresh_timer, is_table_shown,
  kind_of, rename_marker, tick_boxes, redraw, rebuild_boxes, rebuild_options, nodes_changed,
  node_info_changed, with_heat, filter_map, is_drawn, refresh_map, on_position, on_favorite,
  on_update,
}
use meshtastic_proxy.App.Steps.{
  on_action, on_map_action, init_map, init_nodes_tab, switch_tab, on_snapshot, step, run,
}

-- A box is checked exactly if its role is chosen.
abbrev IsRight : List Text → RoleBox → Type 0
IsRight roles box = box.checked ≡ has_role roles box.value

AllRight-map :
    (roles : List Text) (loc : Locale) (xs : List (Text × ℕ))
    → All (IsRight roles) (map (role_box loc roles) xs)
AllRight-map roles loc [] = tt
AllRight-map roles loc (x ∷ xs) = (refl, AllRight-map roles loc xs)

built :
    (loc : Locale) (roles : List Text) (dir : Dir) (before : List RoleBox)
    → All (IsRight roles) before
    → All (IsRight roles) (build_role_checkboxes loc roles dir before)
unfolding build_role_checkboxes
built loc roles none before h = h
built loc roles (some d) before h = AllRight-map roles loc _

unticked :
    (boxes : List RoleBox)
    → All (IsRight []) (map (λ (box : RoleBox). record box { checked = false }) boxes)
unfolding has_role
unticked [] = tt
unticked (box ∷ boxes) = (refl, unticked boxes)

ticked :
    (r : Text) (b : Bool) (v : View) (boxes : List RoleBox)
    → All (IsRight v.roles) boxes
    → All (IsRight (act (check_role r b) v).roles) (tick_boxes (check_role r b) boxes)
ticked r b v [] h = tt
ticked r b v (box ∷ boxes) h = (head, ticked r b v boxes h.1)
  where
    head :
        IsRight
          (act (check_role r b) v).roles
          (if eq_text r box.value then record box { checked = b } else box)
    head =
        let law = (check_role_lem r box.value b v).0 in
        elim (Bool-cases (eq_text r box.value)) [
          | inl same ↦ rw same (sym (law ∙ rw same))
          | inr other ↦ rw other (h.0 ∙ sym (law ∙ rw other))
        ]

module _ {ℓ} {R : Type ℓ} (loc : Locale) (curve : ℕ → ℕ → R) where
  -- Every role box is checked exactly if the filter of the table holds its role.
  pub record Ticked (s : App R) : Type 0 where
    pub boxes : All (IsRight s.view.roles) s.boxes

  right : {s : App R} → All (IsRight s.view.roles) s.boxes → Ticked s
  right h = record { boxes = h }

  choose : (b : Bool) (s t : App R) → Ticked s → Ticked t → Ticked (if b then s else t)
  choose true s t v w = v
  choose false s t v w = w

  rebuilt : (s : App R) → Ticked s → Ticked (rebuild_boxes loc curve s)
  rebuilt s v = right (built loc s.view.roles s.dir s.boxes v.boxes)

  panel_open :
      (b : Bool) (s : App R)
      → Ticked s
      → Ticked (redraw loc curve (if b then rebuild_boxes loc curve s else s))
  panel_open true s v = right (rebuilt s v).boxes
  panel_open false s v = right v.boxes

  nodes_changed-Ticked : (s : App R) → Ticked s → Ticked (nodes_changed loc curve s)
  unfolding nodes_changed
  nodes_changed-Ticked s v = choose (is_table_shown s) _ s (panel_open s.view.filters_open s v) v

  changed :
      (b : Bool) (t s : App R)
      → All (IsRight t.view.roles) t.boxes
      → Ticked s
      → Ticked (if b then nodes_changed loc curve t else s)
  changed b t s h v =
      choose b (nodes_changed loc curve t) s (nodes_changed-Ticked t (record { boxes = h })) v

  node_info_changed-Ticked :
      (u : InfoUpdate) (s : App R) → Ticked s → Ticked (node_info_changed loc curve u s)
  unfolding node_info_changed
  node_info_changed-Ticked u s v =
      choose (is_table_shown s) _ s (panel_open (s.view.filters_open && truthy u.role) s v) v

  refresh_map-Ticked : (now : ℕ) (s : App R) → Ticked s → Ticked (refresh_map loc curve now s)
  unfolding refresh_map
  refresh_map-Ticked now s v =
      let s1 = rebuild_options loc curve s in
      let s2 : App R = record s1 { map = update_map_markers loc now s1.panel s.dir s.map } in
      let s3 : App R = record s { map = update_map_markers loc now s.panel s.dir s.map } in
      choose (s.map.ready && is_some s.dir) _ s
        (changed (draws (dir_or_empty s.dir)) (with_heat loc curve s2) s3 v.boxes (right v.boxes)) v

  on_update-Ticked :
      (now : ℕ) (u : Update) (s : App R) → Ticked s → Ticked (on_update loc curve now u s)
  unfolding on_update on_position on_favorite
  on_update-Ticked now (position u) s v =
      let s1 : App R = record s { dir = put_position now u s.dir } in
      let s2 : App R = record s1 { map = update_map_node loc now s.panel u s.dir s.map } in
      changed (is_some s.dir && (s.map.ready && is_full (u.latitude, u.longitude)))
        (with_heat loc curve s2) s1 v.boxes (right v.boxes)
  on_update-Ticked now (telemetry u) s v =
      changed (is_some s.dir)
        (filter_map loc curve now (record s { dir = put_telemetry now u s.dir })) s v.boxes v
  on_update-Ticked now (signal u) s v =
      changed (is_some s.dir) (with_heat loc curve (record s { dir = put_signal now u s.dir })) s
        v.boxes v
  on_update-Ticked now (info u) s v =
      let dir = put_info now u s.dir in
      node_info_changed-Ticked u (record s { dir = dir; map = rename_marker u.node_num dir s.map })
        (right v.boxes)
  on_update-Ticked now (favorite u) s v =
      let s1 : App R = redraw loc curve (record s { dir = put_favorite u s.dir }) in
      choose (truthy u.node_num && is_some (lookup u.node_num (dir_or_empty s.dir))) _ s
        (choose (is_drawn loc curve s1) _ s1 (refresh_map-Ticked now s1 (right v.boxes))
          (right v.boxes))
        v

  on_action-Ticked : (a : Action) (s : App R) → Ticked s → Ticked (on_action loc curve a s)
  unfolding on_action act
  on_action-Ticked toggle_filters s v =
      let s1 : App R = record s { view = act toggle_filters s.view } in
      choose s1.view.filters_open (rebuild_boxes loc curve s1) s1 (rebuilt s1 (right v.boxes))
        (right v.boxes)
  on_action-Ticked (set_mode m) s v = right v.boxes
  on_action-Ticked (set_mqtt f) s v = right v.boxes
  on_action-Ticked (set_position f) s v = right v.boxes
  on_action-Ticked (check_role r b) s v = right (ticked r b s.view s.boxes v.boxes)
  on_action-Ticked reset s v = right (unticked s.boxes)
  on_action-Ticked (sort_click k) s v = right v.boxes
  on_action-Ticked (type_search t) s v = right v.boxes

  on_map_action-Ticked :
      (now : ℕ) (a : MapAction) (s : App R) → Ticked s → Ticked (on_map_action loc curve now a s)
  unfolding on_map_action
  on_map_action-Ticked now (type_map_search t) s v = right v.boxes
  on_map_action-Ticked now (set_status f) s v = right v.boxes
  on_map_action-Ticked now (set_battery f) s v = right v.boxes
  on_map_action-Ticked now (set_map_mqtt f) s v = right v.boxes
  on_map_action-Ticked now (check_role_box w b) s v = right v.boxes
  on_map_action-Ticked now (check_hardware_box w b) s v = right v.boxes
  on_map_action-Ticked now (set_heat m) s v = right v.boxes
  on_map_action-Ticked now reset_map s v = right v.boxes

  switch_tab-Ticked :
      (now : ℕ) (t : Tab) (s : App R) → Ticked s → Ticked (switch_tab loc curve now t s)
  unfolding switch_tab init_map init_nodes_tab
  switch_tab-Ticked now dashboard s v = right v.boxes
  switch_tab-Ticked now chat s v = right v.boxes
  switch_tab-Ticked now map_tab s v =
      choose s.map.ready (record s { tab = map_tab }) _ (right v.boxes)
        (refresh_map-Ticked now (record s { tab = map_tab; map = record s.map { ready = true } })
          (right v.boxes))
  switch_tab-Ticked now nodes s v =
      choose s.nodes_ready (redraw loc curve (record s { tab = nodes })) _ (right v.boxes) (
        panel_open s.view.filters_open (record s { tab = nodes; nodes_ready = true })
          (right v.boxes))

  on_snapshot-Ticked :
      (now : ℕ) (o : Option (NumMap Entry)) (s : App R)
      → Ticked s
      → Ticked (on_snapshot loc curve now o s)
  unfolding on_snapshot
  on_snapshot-Ticked now none s v = v
  on_snapshot-Ticked now (some d) s v =
      refresh_map-Ticked now (record s { dir = some d }) (right v.boxes)

  pub step-Ticked : (now : ℕ) (e : Event) (s : App R) → Ticked s → Ticked (step loc curve now e s)
  unfolding step
  step-Ticked now (directory d) s v =
      refresh_map-Ticked now (record s { dir = some d }) (right v.boxes)
  step-Ticked now (snapshot o) s v =
      choose (s.paused && holds_back metrics) s _ v (on_snapshot-Ticked now o s v)
  step-Ticked now (server u) s v =
      choose (s.paused && holds_back (kind_of u)) s _ v (on_update-Ticked now u s v)
  step-Ticked now pause_pressed s v = right v.boxes
  step-Ticked now (show_tab t) s v = switch_tab-Ticked now t s v
  step-Ticked now (acts a) s v = on_action-Ticked a s v
  step-Ticked now (acts_on_map a) s v = on_map_action-Ticked now a s v
  step-Ticked now (favorite_set n b) s v =
      choose (is_some (lookup n (dir_or_empty s.dir))) _ s (right v.boxes) v
  step-Ticked now refresh_timer s v = choose (is_table_shown s) _ s (right v.boxes) v

  -- Through any events of the server and the user, from a page without role boxes or with right
  -- ones: every role box is checked exactly if the table is filtered by its role.
  run-Ticked : (es : List (ℕ × Event)) (s : App R) → Ticked s → Ticked (run loc curve es s)
  unfolding run
  run-Ticked [] s v = v
  run-Ticked ((now, e) ∷ es) s v = run-Ticked es (step loc curve now e s) (step-Ticked now e s v)
