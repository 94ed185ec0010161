-- ===== src/App/Sync/Handlers.antt =====
-- The handlers of the user keep the page in step with the directory.
use meshtastic_proxy.Base.{
  ℕ, Bool, true, false, none, some, if◌then◌else◌, ◌≡◌, refl, ◌∙◌, arith, Locale,
}
use meshtastic_proxy.Directory.{Dir}
use meshtastic_proxy.Nodes.{View, passes, search_term}
use meshtastic_proxy.Nodes.Table.{
  Shown, Action, act, render, table_rows, has_filters, toggle_filters, check_role, set_mode,
  set_mqtt, set_position, sort_click, type_search, reset,
}
use meshtastic_proxy.Map.{Panel}
use meshtastic_proxy.Map.Heat.{Heat, off}
use meshtastic_proxy.Map.Options.{Options, reset_panel, reset_options}
use meshtastic_proxy.App.{
  App, Tab, dashboard, map_tab, chat, nodes, MapAction, type_map_search, set_status, set_battery,
  set_map_mqtt, check_role_box, check_hardware_box, set_heat, reset_map, is_table_shown, tick_boxes,
  redraw, rebuild_boxes, with_heat, filter_map,
}
use meshtastic_proxy.App.Steps.{
  redrawn_by, toggled_panel, on_action, on_map_action, init_map, init_nodes_tab, switch_tab,
}
use meshtastic_proxy.App.Sync.{
  Synced, Drawn, apply_map_filters-ready, redraw-Synced, rebuilt_if, with_heat-Drawn,
}

render-toggle_filters :
    (loc : Locale) (v : View) (dir : Dir) (t : Shown)
    → render loc (act toggle_filters v) dir t ≡ render loc v dir t
unfolding act render table_rows passes has_filters search_term
render-toggle_filters loc v none t = refl
render-toggle_filters loc v (some d) t = refl

module _ {ℓ} {R : Type ℓ} (loc : Locale) (curve : ℕ → ℕ → R) where
  redrawn_by-Synced :
      (a : Action) (s : App R) → Synced loc curve s → Synced loc curve (redrawn_by loc curve a s)
  redrawn_by-Synced a s v =
      redraw-Synced loc curve (record s { view = act a s.view; boxes = tick_boxes a s.boxes })
        (record { ready = v.ready; sorted = v.sorted; heat = v.heat })

  toggled-Synced :
      (s : App R) → Synced loc curve s → Synced loc curve (on_action loc curve toggle_filters s)
  unfolding on_action
  toggled-Synced s v = go (act toggle_filters s.view).filters_open
    where
      s1 : App R
      s1 = record s { view = act toggle_filters s.view }

      table : is_table_shown s ≡ true → render loc s1.view s.dir s.table ≡ s.table
      table shown = render-toggle_filters loc s.view s.dir s.table ∙ v.table shown

      go : (b : Bool) → Synced loc curve (if b then rebuild_boxes loc curve s1 else s1)
      go true = record { ready = v.ready; sorted = v.sorted; heat = v.heat; table = table }
      go false = record { ready = v.ready; sorted = v.sorted; heat = v.heat; table = table }

  pub on_action-Synced :
      (a : Action) (s : App R) → Synced loc curve s → Synced loc curve (on_action loc curve a s)
  unfolding on_action
  on_action-Synced toggle_filters s v = toggled-Synced s v
  on_action-Synced (set_mode m) s v = redrawn_by-Synced (set_mode m) s v
  on_action-Synced (set_mqtt f) s v = redrawn_by-Synced (set_mqtt f) s v
  on_action-Synced (set_position f) s v = redrawn_by-Synced (set_position f) s v
  on_action-Synced (check_role r b) s v = redrawn_by-Synced (check_role r b) s v
  on_action-Synced reset s v = redrawn_by-Synced reset s v
  on_action-Synced (sort_click k) s v = redrawn_by-Synced (sort_click k) s v
  on_action-Synced (type_search t) s v = redrawn_by-Synced (type_search t) s v

  filtered-Synced :
      (now : ℕ) (p : Panel) (o : Options) (s : App R)
      → Synced loc curve s
      → Synced loc curve (filter_map loc curve now (record s { panel = p; options = o }))
  filtered-Synced now p o s v = record {
    ready = apply_map_filters-ready loc now p s.dir s.map ∙ v.ready;
    sorted = v.sorted;
    heat = v.heat;
    table = v.table;
  }

  -- A change of the heat map's mode, drawn at once.
  heated-Synced :
      (h : Heat R) (s : App R)
      → Synced loc curve s
      → Synced loc curve (with_heat loc curve (record s { heat = h }))
  heated-Synced h s v =
      let d = with_heat-Drawn loc curve (record s { heat = h }) v.ready v.sorted in
      record { ready = d.ready; sorted = d.sorted; heat = d.heat; table = v.table }

  pub on_map_action-Synced :
      (now : ℕ) (a : MapAction) (s : App R)
      → Synced loc curve s
      → Synced loc curve (on_map_action loc curve now a s)
  unfolding on_map_action
  on_map_action-Synced now (type_map_search t) s v = filtered-Synced now _ s.options s v
  on_map_action-Synced now (set_status f) s v = filtered-Synced now _ s.options s v
  on_map_action-Synced now (set_battery f) s v = filtered-Synced now _ s.options s v
  on_map_action-Synced now (set_map_mqtt f) s v = filtered-Synced now _ s.options s v
  on_map_action-Synced now (check_role_box w b) s v = filtered-Synced now _ _ s v
  on_map_action-Synced now (check_hardware_box w b) s v = filtered-Synced now _ _ s v
  on_map_action-Synced now (set_heat m) s v = heated-Synced (record s.heat { mode = m }) s v
  on_map_action-Synced now reset_map s v =
      heated-Synced (record s.heat { mode = off }) _
        (filtered-Synced now (reset_panel s.options s.panel) (reset_options s.options) s v)

  hidden_tab :
      (t : Tab) (s : App R)
      → Synced loc curve s
      → ((shown : is_table_shown (record s { tab = t }) ≡ true)
          → render loc s.view s.dir s.table ≡ s.table)
      → Synced loc curve (record s { tab = t })
  hidden_tab t s v table = record {
    ready = v.ready;
    sorted = v.sorted;
    heat = v.heat;
    table = table;
  }

  init_nodes_tab-Synced :
      (s : App R) → Drawn loc curve s → Synced loc curve (init_nodes_tab loc curve s)
  unfolding init_nodes_tab
  init_nodes_tab-Synced s v = go s.nodes_ready
    where
      opened : App R
      opened = record s { nodes_ready = true }

      go :
          (b : Bool)
          → Synced loc curve
              (if b then redraw loc curve s else redraw loc curve (toggled_panel loc curve opened))
      go true = redraw-Synced loc curve s v
      go false = redraw-Synced loc curve (toggled_panel loc curve opened) (
          rebuilt_if loc curve s.view.filters_open opened
            (record { ready = v.ready; sorted = v.sorted; heat = v.heat }))

  pub switch_tab-Synced :
      (now : ℕ) (t : Tab) (s : App R)
      → Synced loc curve s
      → Synced loc curve (switch_tab loc curve now t s)
  unfolding switch_tab
  switch_tab-Synced now dashboard s v = hidden_tab dashboard s v (λ shown. ground arith)
  switch_tab-Synced now chat s v = hidden_tab chat s v (λ shown. ground arith)
  switch_tab-Synced now map_tab s v =
      unfold init_map in simp v.ready (hidden_tab map_tab s v (λ shown. ground arith))
  switch_tab-Synced now nodes s v =
      init_nodes_tab-Synced (record s { tab = nodes })
        (record { ready = v.ready; sorted = v.sorted; heat = v.heat })
