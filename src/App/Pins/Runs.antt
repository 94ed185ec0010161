-- ===== src/App/Pins/Runs.antt =====
-- Through every interleaving of events the markers stay where the directory has the nodes.
use mathlib.Core.Path.{subst}
use meshtastic_proxy.App.Listed.{IsListed, IsPlaced, apply_update-IsListed, mark_favorite-IsListed}
use meshtastic_proxy.Base.{
  ℕ, List, [], ◌∷◌, true, false, ◌&&◌, some, ◌≡◌, refl, sym, ap, Bool-cases, inl, inr, All, Locale,
  text_truthy, option_truthy, nat_truthy,
}
use meshtastic_proxy.Base.NumMap.{NumMap, lookup}
use meshtastic_proxy.Directory.{
  Entry, Dir, Update, InfoUpdate, position, telemetry, signal, info, favorite, dir_or_empty,
  merge_info, put_telemetry, put_signal, put_info, apply_update,
}
use meshtastic_proxy.Directory.Updates.{lookup-insert_self}
use meshtastic_proxy.Trace.Route.{is_some}
use meshtastic_proxy.Sse.{metrics, holds_back}
use meshtastic_proxy.Nodes.Actions.{mark_favorite}
use meshtastic_proxy.Map.{Map}
use meshtastic_proxy.App.{
  App, map_tab, Event, directory, snapshot, server, pause_pressed, show_tab, acts, acts_on_map,
  favorite_set, refresh_timer, is_table_shown, kind_of, rename_marker, redraw, with_heat,
  filter_map, on_update,
}
use meshtastic_proxy.App.Steps.{init_map, switch_tab, step, run}
use meshtastic_proxy.App.Sync.Runs.{IsOrdered}
use meshtastic_proxy.App.Pins.{Pins}
use meshtastic_proxy.App.Pins.Entries.{info-Pins}
use meshtastic_proxy.App.Pins.Listeners.{
  Pinned, choose, nodes_changed-Pinned, node_info_changed-Pinned, refresh_map-Pinned,
  position-Pinned, favorite-Pinned, telemetry_pins, signal_pins, filtered,
}
use meshtastic_proxy.App.Pins.Handlers.{
  same, action-Pinned, map_action-Pinned, tab-Pinned, snapshot-Pinned, marked,
}

module _ {ℓ} {R : Type ℓ} (loc : Locale) (curve : ℕ → ℕ → R) where
  renamed :
      (now : ℕ) (u : InfoUpdate) (dir : Dir) (m : Map)
      → m.ready ≡ true
      → Pins (dir_or_empty dir) m.markers
      → Pins
          (dir_or_empty (put_info now u dir))
          (rename_marker u.node_num (put_info now u dir) m).markers
  unfolding put_info
  renamed now u dir m ready pins =
      let d = dir_or_empty dir in
      let e = merge_info now u (lookup u.node_num d) in
      simp (ready, lookup-insert_self u.node_num e d) (info-Pins now u d m.markers pins)

  update-Pinned :
      (now : ℕ) (u : Update) (s : App R)
      → IsPlaced u
      → Pinned loc curve s
      → Pinned loc curve (on_update loc curve now u s)
  unfolding on_update
  update-Pinned now (position u) s placed v = position-Pinned loc curve now u s placed v
  update-Pinned now (telemetry u) s placed v = elim (Bool-cases (is_some s.dir)) [
    | inl there ↦
        let s1 : App R = record s { dir = put_telemetry now u s.dir } in
        simp there (
          nodes_changed-Pinned loc curve (filter_map loc curve now s1) (
            filtered loc curve now s1 (record {
              ready = v.ready;
              sorted =
                  unfold apply_update in apply_update-IsListed now (telemetry u) s.dir tt v.sorted;
              pins = telemetry_pins loc curve now u s.dir s.map.markers v.pins;
            })))
    | inr missing ↦ simp missing v
  ]
  update-Pinned now (signal u) s placed v = elim (Bool-cases (is_some s.dir)) [
    | inl there ↦
        let s1 : App R = record s { dir = put_signal now u s.dir } in
        simp there (
          nodes_changed-Pinned loc curve (with_heat loc curve s1) (record {
            ready = v.ready;
            sorted = unfold apply_update in apply_update-IsListed now (signal u) s.dir tt v.sorted;
            pins = signal_pins loc curve now u s.dir s.map.markers v.pins;
          }))
    | inr missing ↦ simp missing v
  ]
  update-Pinned now (info u) s placed v =
      let dir = put_info now u s.dir in
      node_info_changed-Pinned loc curve u
        (record s { dir = dir; map = rename_marker u.node_num dir s.map })
        (record {
          ready = v.ready;
          sorted = unfold apply_update in apply_update-IsListed now (info u) s.dir tt v.sorted;
          pins = renamed now u s.dir s.map v.ready v.pins;
        })
  update-Pinned now (favorite u) s placed v = favorite-Pinned loc curve now u s v

  pub step-Pinned :
      (now : ℕ) (e : Event) (s : App R)
      → Pinned loc curve s
      → IsOrdered e
      → Pinned loc curve (step loc curve now e s)
  unfolding step
  step-Pinned now (directory d) s v h =
      refresh_map-Pinned loc curve now (record s { dir = some d }) v.ready refl h
  step-Pinned now (snapshot o) s v h =
      choose loc curve (s.paused && holds_back metrics) s _ v
        (snapshot-Pinned loc curve now o s v h)
  step-Pinned now (server u) s v h =
      choose loc curve (s.paused && holds_back (kind_of u)) s _ v (update-Pinned now u s h v)
  step-Pinned now pause_pressed s v h = same loc curve v.ready v.sorted v.pins
  step-Pinned now (show_tab t) s v h = tab-Pinned loc curve now t s v
  step-Pinned now (acts a) s v h = action-Pinned loc curve a s v
  step-Pinned now (acts_on_map a) s v h = map_action-Pinned loc curve now a s v
  step-Pinned now (favorite_set n b) s v h =
      let s1 : App R = redraw loc curve (record s { dir = mark_favorite n b s.dir }) in
      choose loc curve (is_some (lookup n (dir_or_empty s.dir))) s1 s
        (same loc curve v.ready (mark_favorite-IsListed n b s.dir v.sorted)
          (marked loc curve n b s.dir s.map.markers v.pins))
        v
  step-Pinned now refresh_timer s v h =
      choose loc curve (is_table_shown s) (redraw loc curve s) s
        (same loc curve v.ready v.sorted v.pins) v

  run-Pinned :
      (es : List (ℕ × Event)) (s : App R)
      → Pinned loc curve s
      → All (λ e. IsOrdered e.1) es
      → Pinned loc curve (run loc curve es s)
  unfolding run
  run-Pinned [] s v h = v
  run-Pinned ((now, e) ∷ es) s v h =
      run-Pinned es (step loc curve now e s) (step-Pinned now e s v h.0) h.1

  opened-Pinned :
      (now : ℕ) (s : App R) (d : NumMap Entry)
      → s.dir ≡ some d
      → IsListed d
      → s.map.ready ≡ false
      → Pinned loc curve (step loc curve now (show_tab map_tab) s)
  unfolding step switch_tab init_map
  opened-Pinned now s d known sorted closed = simp closed (
      refresh_map-Pinned loc curve now
        (record s { tab = map_tab; map = record s.map { ready = true } }) refl (ap is_some known)
        (subst IsListed (sym (ap dir_or_empty known)) sorted))

  -- The map is opened for the first time on a page that knows the nodes. The directory lists each node
  -- once, in order, and a node that has a position has both coordinates; so does every directory that
  -- comes whole later, and a position that comes has both coordinates (elsewhere a drawing throws).
  -- From then on, through any events of the server and the user, every node with a position has a
  -- marker at its coordinates, with its short name.
  pub opened_run-Pinned :
      (now : ℕ) (es : List (ℕ × Event)) (s : App R) (d : NumMap Entry)
      → s.dir ≡ some d
      → IsListed d
      → s.map.ready ≡ false
      → All (λ e. IsOrdered e.1) es
      → Pinned loc curve (run loc curve ((now, show_tab map_tab) ∷ es) s)
  unfolding run
  opened_run-Pinned now es s d known sorted closed ordered =
      run-Pinned es (step loc curve now (show_tab map_tab) s)
        (opened-Pinned now s d known sorted closed) ordered
