-- ===== src/App/Pins/Listeners.antt =====
-- The listeners keep the markers where the directory has the nodes.
use mathlib.Core.Path.{subst}
use meshtastic_proxy.App.Listed.{IsListed, IsPlaced, apply_update-IsListed}
use meshtastic_proxy.Base.{
  ℕ, Bool, true, false, ◌&&◌, none, some, if◌then◌else◌, ◌≡◌, sym, ◌∙◌, arith, Bool-cases, inl, inr,
  Locale, truthy, text_truthy, option_truthy, nat_truthy,
}
use meshtastic_proxy.Base.NumMap.{NumMap, lookup}
use meshtastic_proxy.Directory.{
  Dir, PositionUpdate, TelemetryUpdate, SignalUpdate, InfoUpdate, FavoriteUpdate, position,
  favorite, dir_or_empty, put_position, put_telemetry, put_signal, put_favorite, apply_update,
}
use meshtastic_proxy.Trace.Route.{is_some}
use meshtastic_proxy.Map.{Map, Marker, Panel, update_map_markers, update_map_node}
use meshtastic_proxy.App.{
  App, is_table_shown, redraw, rebuild_boxes, rebuild_options, with_heat, filter_map, nodes_changed,
  node_info_changed, refresh_map, on_position, on_favorite,
}
use meshtastic_proxy.App.Sync.{
  IsListed-drawn, apply_map_filters-ready, update_map_markers-ready, update_map_node-ready,
}
use meshtastic_proxy.App.Pins.{
  Pins, pin-apply_map_filters, update_map_markers-Pins, update_map_node-Pins,
}
use meshtastic_proxy.App.Pins.Entries.{telemetry-Pins, signal-Pins}
use meshtastic_proxy.App.Sync.Listeners.{put_position-none, put_favorite-there}

module _ {ℓ} {R : Type ℓ} (loc : Locale) (curve : ℕ → ℕ → R) where
  -- A page on which the map has been opened, and every node with a position has its marker.
  pub record Pinned (s : App R) : Type 0 where
    pub ready : s.map.ready ≡ true
    pub sorted : IsListed (dir_or_empty s.dir)
    pub pins : Pins (dir_or_empty s.dir) s.map.markers

  pub choose : (b : Bool) (s t : App R) → Pinned s → Pinned t → Pinned (if b then s else t)
  choose true s t v w = v
  choose false s t v w = w

  pub panel_open :
      (b : Bool) (s : App R)
      → Pinned s
      → Pinned (redraw loc curve (if b then rebuild_boxes loc curve s else s))
  panel_open true s v = record { ready = v.ready; sorted = v.sorted; pins = v.pins }
  panel_open false s v = record { ready = v.ready; sorted = v.sorted; pins = v.pins }

  pub nodes_changed-Pinned : (s : App R) → Pinned s → Pinned (nodes_changed loc curve s)
  unfolding nodes_changed
  nodes_changed-Pinned s v = choose (is_table_shown s) _ s (panel_open s.view.filters_open s v) v

  pub node_info_changed-Pinned :
      (u : InfoUpdate) (s : App R) → Pinned s → Pinned (node_info_changed loc curve u s)
  unfolding node_info_changed
  node_info_changed-Pinned u s v =
      choose (is_table_shown s) _ s (panel_open (s.view.filters_open && truthy u.role) s v) v

  refreshed :
      (now : ℕ) (p : Panel) (dir : Dir) (m : Map)
      → m.ready ≡ true
      → is_some dir ≡ true
      → IsListed (dir_or_empty dir)
      → Pins (dir_or_empty dir) (update_map_markers loc now p dir m).markers
  refreshed now p none m ready there sorted = absurd (cc there)
  refreshed now p (some d) m ready there sorted =
      update_map_markers-Pins loc now p d m sorted.sorted sorted.drawn ready

  pub refresh_map-Pinned :
      (now : ℕ) (s : App R)
      → s.map.ready ≡ true
      → is_some s.dir ≡ true
      → IsListed (dir_or_empty s.dir)
      → Pinned (refresh_map loc curve now s)
  unfolding refresh_map
  refresh_map-Pinned now s ready there sorted =
      let s1 = rebuild_options loc curve s in
      let s2 : App R = record s1 { map = update_map_markers loc now s1.panel s.dir s.map } in
      simp (ready, there, sorted.drawn)
        (nodes_changed-Pinned (with_heat loc curve s2) (record {
          ready = update_map_markers-ready loc now s1.panel s.dir s.map ∙ ready;
          sorted = sorted;
          pins = refreshed now s1.panel s.dir s.map ready there sorted;
        }))

  moved :
      (now : ℕ) (p : Panel) (u : PositionUpdate) (dir : Dir) (m : Map)
      → m.ready ≡ true
      → IsPlaced (position u)
      → Pins (dir_or_empty dir) m.markers
      → Pins (dir_or_empty (put_position now u dir)) (update_map_node loc now p u dir m).markers
  unfolding put_position
  moved now p u none m ready placed pins = unfold update_map_node in pins
  moved now p u (some d) m ready placed pins =
      update_map_node-Pins loc now p u d m ready placed pins

  pub position-Pinned :
      (now : ℕ) (u : PositionUpdate) (s : App R)
      → IsPlaced (position u)
      → Pinned s
      → Pinned (on_position loc curve now u s)
  unfolding on_position
  position-Pinned now u s placed v = elim (Bool-cases (is_some s.dir)) [
    | inl there ↦
        let after : App R = record s {
          dir = put_position now u s.dir;
          map = update_map_node loc now s.panel u s.dir s.map;
        } in
        simp (there, v.ready, placed)
          (nodes_changed-Pinned (with_heat loc curve after) (record {
            ready = update_map_node-ready loc now s.panel u s.dir s.map ∙ v.ready;
            sorted =
                unfold apply_update in apply_update-IsListed now (position u) s.dir placed v.sorted;
            pins = moved now s.panel u s.dir s.map v.ready placed v.pins;
          }))
    | inr missing ↦ simp missing (
        subst (λ dir. Pinned (record s { dir = dir })) (sym (put_position-none now u s.dir missing))
          v)
  ]

  pub favorite-Pinned :
      (now : ℕ) (u : FavoriteUpdate) (s : App R) → Pinned s → Pinned (on_favorite loc curve now u s)
  unfolding on_favorite
  favorite-Pinned now u s v =
      elim (Bool-cases (truthy u.node_num && is_some (lookup u.node_num (dir_or_empty s.dir)))) [
        | inr missing ↦ simp missing v
        | inl found ↦
            let s1 : App R = redraw loc curve (record s { dir = put_favorite u s.dir }) in
            let listed : IsListed (dir_or_empty (put_favorite u s.dir)) =
              unfold apply_update in apply_update-IsListed now (favorite u) s.dir tt v.sorted in
            simp (found, IsListed-drawn loc curve s1 listed)
              (refresh_map-Pinned now s1 v.ready
                (put_favorite-there u s.dir (ground (arith, found))) listed)
      ]

  pub telemetry_pins :
      (now : ℕ) (u : TelemetryUpdate) (dir : Dir) (ms : NumMap Marker)
      → Pins (dir_or_empty dir) ms
      → Pins (dir_or_empty (put_telemetry now u dir)) ms
  unfolding put_telemetry
  telemetry_pins now u none ms pins = pins
  telemetry_pins now u (some d) ms pins = telemetry-Pins now u d ms pins

  pub signal_pins :
      (now : ℕ) (u : SignalUpdate) (dir : Dir) (ms : NumMap Marker)
      → Pins (dir_or_empty dir) ms
      → Pins (dir_or_empty (put_signal now u dir)) ms
  unfolding put_signal
  signal_pins now u none ms pins = pins
  signal_pins now u (some d) ms pins = signal-Pins now u d ms pins

  pub filtered : (now : ℕ) (s : App R) → Pinned s → Pinned (filter_map loc curve now s)
  filtered now s v = record {
    ready = apply_map_filters-ready loc now s.panel s.dir s.map ∙ v.ready;
    sorted = v.sorted;
    pins = λ j e known placed.
        pin-apply_map_filters loc now s.panel s.dir s.map j ∙ v.pins j e known placed;
  }
