-- ===== src/App/Sync/Listeners.antt =====
-- The listeners of the event stream keep the page in step with the directory.
use meshtastic_proxy.App.Listed.{IsListed, IsPlaced, apply_update-IsListed}
use meshtastic_proxy.Base.{
  ℕ, true, false, ◌&&◌, none, some, ◌≡◌, refl, sym, ◌∙◌, arith, Bool-cases, inl, inr, Locale,
  truthy, nat_truthy,
}
use mathlib.Core.Path.{subst}
use meshtastic_proxy.Base.NumMap.{lookup}
use meshtastic_proxy.Directory.{
  Dir, Update, PositionUpdate, TelemetryUpdate, InfoUpdate, FavoriteUpdate, position, telemetry,
  signal, info, favorite, dir_or_empty, put_position, put_telemetry, put_signal, put_info,
  put_favorite, apply_update,
}
use meshtastic_proxy.Trace.Route.{is_some}
use meshtastic_proxy.Map.{update_map_markers, update_map_node}
use meshtastic_proxy.Map.Heat.Stable.{update_heatmap_same}
use meshtastic_proxy.App.{
  App, redraw, rebuild_options, with_heat, filter_map, refresh_map, rename_marker, on_position,
  on_favorite, on_update,
}
use meshtastic_proxy.App.Points.{points-put_telemetry, points-put_info}
use meshtastic_proxy.App.Sync.{
  Synced, Drawn, IsListed-drawn, apply_map_filters-ready, update_map_markers-ready,
  update_map_node-ready, nodes_changed-Synced, node_info_changed-Synced, with_heat-Drawn,
}

pub put_position-none :
    (now : ℕ) (u : PositionUpdate) (dir : Dir) → is_some dir ≡ false → put_position now u dir ≡ dir
unfolding put_position
put_position-none now u none h = refl
put_position-none now u (some d) h = absurd (cc h)

pub put_favorite-there :
    (u : FavoriteUpdate) (dir : Dir)
    → is_some (lookup u.node_num (dir_or_empty dir)) ≡ true
    → is_some (put_favorite u dir) ≡ true
unfolding put_favorite
put_favorite-there u none h = h
put_favorite-there u (some d) h = ground arith

module _ {ℓ} {R : Type ℓ} (loc : Locale) (curve : ℕ → ℕ → R) where
  -- With the map open and a directory, `updateMapMarkers` brings the page in step, whatever it showed.
  pub refresh_map-Synced :
      (now : ℕ) (s : App R)
      → s.map.ready ≡ true
      → is_some s.dir ≡ true
      → IsListed (dir_or_empty s.dir)
      → Synced loc curve (refresh_map loc curve now s)
  unfolding refresh_map
  refresh_map-Synced now s ready there sorted =
      let s1 = rebuild_options loc curve s in
      let s2 : App R = record s1 { map = update_map_markers loc now s1.panel s.dir s.map } in
      simp (ready, there, sorted.drawn)
        (nodes_changed-Synced loc curve (with_heat loc curve s2) (
          with_heat-Drawn loc curve s2
            (update_map_markers-ready loc now s1.panel s.dir s.map ∙ ready) sorted))

  position-Synced :
      (now : ℕ) (u : PositionUpdate) (s : App R)
      → IsPlaced (position u)
      → Synced loc curve s
      → Synced loc curve (on_position loc curve now u s)
  unfolding on_position
  position-Synced now u s placed v = elim (Bool-cases (is_some s.dir)) [
    | inl there ↦
        let after : App R = record s {
          dir = put_position now u s.dir;
          map = update_map_node loc now s.panel u s.dir s.map;
        } in
        simp (there, v.ready, placed)
          (nodes_changed-Synced loc curve (with_heat loc curve after) (
            with_heat-Drawn loc curve after
              (update_map_node-ready loc now s.panel u s.dir s.map ∙ v.ready)
              (unfold apply_update in
                apply_update-IsListed now (position u) s.dir placed v.sorted)))
    | inr missing ↦ simp missing (
        subst (λ dir. Synced loc curve (record s { dir = dir }))
          (sym (put_position-none now u s.dir missing)) v)
  ]

  telemetry-Drawn :
      (now : ℕ) (u : TelemetryUpdate) (s : App R)
      → Synced loc curve s
      → Drawn loc curve (filter_map loc curve now (record s { dir = put_telemetry now u s.dir }))
  telemetry-Drawn now u s v = record {
    ready = apply_map_filters-ready loc now s.panel (put_telemetry now u s.dir) s.map ∙ v.ready;
    sorted = unfold apply_update in apply_update-IsListed now (telemetry u) s.dir tt v.sorted;
    heat =
        update_heatmap_same curve s.dir (put_telemetry now u s.dir) s.heat
          (λ mode. points-put_telemetry curve mode now u s.dir v.sorted.sorted)
        ∙ v.heat;
  }

  info-Drawn :
      (now : ℕ) (u : InfoUpdate) (s : App R)
      → Synced loc curve s
      → Drawn loc curve (record s {
        dir = put_info now u s.dir;
        map = rename_marker u.node_num (put_info now u s.dir) s.map;
      })
  info-Drawn now u s v = record {
    ready = v.ready;
    sorted = unfold apply_update in apply_update-IsListed now (info u) s.dir tt v.sorted;
    heat =
        update_heatmap_same curve s.dir (put_info now u s.dir) s.heat
          (λ mode. points-put_info curve mode now u s.dir v.sorted.sorted)
        ∙ v.heat;
  }

  favorite-Synced :
      (now : ℕ) (u : FavoriteUpdate) (s : App R)
      → Synced loc curve s
      → Synced loc curve (on_favorite loc curve now u s)
  unfolding on_favorite
  favorite-Synced now u s v =
      elim (Bool-cases (truthy u.node_num && is_some (lookup u.node_num (dir_or_empty s.dir)))) [
        | inr missing ↦ simp missing v
        | inl found ↦
            let s1 : App R = redraw loc curve (record s { dir = put_favorite u s.dir }) in
            let listed : IsListed (dir_or_empty (put_favorite u s.dir)) =
              unfold apply_update in apply_update-IsListed now (favorite u) s.dir tt v.sorted in
            simp (found, IsListed-drawn loc curve s1 listed)
              (refresh_map-Synced now s1 v.ready
                (put_favorite-there u s.dir (ground (arith, found))) listed)
      ]

  -- An event of the server on a page that is in step leaves it in step.
  pub on_update-Synced :
      (now : ℕ) (u : Update) (s : App R)
      → IsPlaced u
      → Synced loc curve s
      → Synced loc curve (on_update loc curve now u s)
  unfolding on_update
  on_update-Synced now (position u) s placed v = position-Synced now u s placed v
  on_update-Synced now (telemetry u) s placed v = elim (Bool-cases (is_some s.dir)) [
    | inl there ↦ simp there (nodes_changed-Synced loc curve _ (telemetry-Drawn now u s v))
    | inr missing ↦ simp missing v
  ]
  on_update-Synced now (signal u) s placed v = elim (Bool-cases (is_some s.dir)) [
    | inl there ↦ simp there (
        nodes_changed-Synced loc curve _ (
          with_heat-Drawn loc curve (record s { dir = put_signal now u s.dir }) v.ready
            (unfold apply_update in apply_update-IsListed now (signal u) s.dir tt v.sorted)))
    | inr missing ↦ simp missing v
  ]
  on_update-Synced now (info u) s placed v =
      node_info_changed-Synced loc curve u _ (info-Drawn now u s v)
  on_update-Synced now (favorite u) s placed v = favorite-Synced now u s v
