-- ===== src/App/Sync/Faults.antt =====
-- What the page shows before its map has been opened, and after a drawing has thrown.
use meshtastic_proxy.App.Listed.{draws-missing}
use meshtastic_proxy.Map.{update_map_markers}
use meshtastic_proxy.Map.Abort.{lookup-place_behind}
use meshtastic_proxy.Base.{
  ◌≤◌, refl, ℕ, Bool, true, false, ◌&&◌, some, if◌then◌else◌, ◌≡◌, ap, ◌∙◌, Locale, Bool-cases, inl,
  inr,
}
use meshtastic_proxy.Base.NumMap.{NumMap, lookup, IsSorted}
use meshtastic_proxy.Directory.{Entry, dir_or_empty, PositionUpdate, position, put_position}
use meshtastic_proxy.Trace.Route.{is_some, is_drawable, draws}
use meshtastic_proxy.Nodes.Table.{render}
use meshtastic_proxy.App.{
  App, directory, server, refresh_timer, is_table_shown, refresh_map, on_position, on_update,
}
use meshtastic_proxy.App.Steps.{step}

heard {ℓ} : {A : Type ℓ} (p h : Bool) (x y : A) → p ≡ false → (if p && h then x else y) ≡ y
heard p h x y live = rw live

module _ {ℓ} {R : Type ℓ} (loc : Locale) (curve : ℕ → ℕ → R) where
  refresh_map-closed : (now : ℕ) (s : App R) → s.map.ready ≡ false → refresh_map loc curve now s ≡ s
  unfolding refresh_map
  refresh_map-closed now s closed = simp closed

  on_position-closed :
      (now : ℕ) (u : PositionUpdate) (s : App R)
      → s.map.ready ≡ false
      → on_position loc curve now u s ≡ record s { dir = put_position now u s.dir }
  unfolding on_position
  on_position-closed now u s closed = elim (Bool-cases (is_some s.dir)) [
    | inl there ↦ simp (there, closed)
    | inr missing ↦ simp missing
  ]

  -- While the map has never been opened, the table of nodes is shown and the page is not paused: a
  -- new directory and a position event change the directory, but the table stays as it was. The
  -- timer then draws the table of the new directory.
  pub closed_map_stale :
      (now later : ℕ) (d : NumMap Entry) (u : PositionUpdate) (s : App R)
      → s.map.ready ≡ false
      → s.paused ≡ false
      → is_table_shown s ≡ true
      → let after = step loc curve now (directory d) s in
        let moved = step loc curve now (server (position u)) s in
        (after.dir ≡ some d)
        × (after.table ≡ s.table)
        × (moved.dir ≡ put_position now u s.dir)
        × (moved.table ≡ s.table)
        × ((step loc curve later refresh_timer after).table ≡ render loc s.view (some d) s.table)
  unfolding step on_update
  closed_map_stale now later d u s closed live shown =
      let after : App R = record s { dir = some d } in
      let kept = refresh_map-closed now after closed in
      let moved : step loc curve now (server (position u)) s
          ≡ record s { dir = put_position now u s.dir } =
        heard s.paused _ s (on_position loc curve now u s) live
        ∙ on_position-closed now u s closed in
      (
        ap (λ x. x.dir) kept,
        ap (λ x. x.table) kept,
        ap (λ x. x.dir) moved,
        ap (λ x. x.table) moved,
        ap (λ x. (step loc curve later refresh_timer x).table) kept ∙ simp shown,
      )

  refresh_map-throws :
      (now : ℕ) (s : App R) (d : NumMap Entry)
      → s.dir ≡ some d
      → draws d ≡ false
      → s.map.ready ≡ true
      → refresh_map loc curve now s
        ≡ record s { map = update_map_markers loc now s.panel s.dir s.map }
  unfolding refresh_map
  refresh_map-throws now s d known bad ready =
      let there : is_some s.dir ≡ true = ap is_some known in
      let thrown : draws (dir_or_empty s.dir) ≡ false =
        ap (λ o. draws (dir_or_empty o)) known ∙ bad in
      simp (ready, there, thrown)

  -- With the map open, a directory comes that lists each node once, in order, and in which a node has
  -- a position and lacks a coordinate, as the server sends a node on the equator or on the zero
  -- meridian. The page takes the directory, but its table, its heat map and the options of its filters
  -- stay as they were, and so do the markers of that node and of all nodes with a greater number, also
  -- of those that are gone.
  pub drawing_throws :
      (now : ℕ) (d : NumMap Entry) (k : ℕ) (e : Entry) (s : App R)
      → IsSorted d
      → lookup k d ≡ some e
      → is_drawable e ≡ false
      → s.map.ready ≡ true
      → let after = step loc curve now (directory d) s in
        (after.dir ≡ some d)
        × (after.table ≡ s.table)
        × (after.heat ≡ s.heat)
        × (after.options ≡ s.options)
        × ((j : ℕ) → k ≤ j → lookup j after.map.markers ≡ lookup j s.map.markers)
  unfolding step
  drawing_throws now d k e s sorted known bad ready =
      let bad_dir = draws-missing k d e known bad in
      let s1 : App R = record s { dir = some d } in
      let thrown = refresh_map-throws now s1 d refl bad_dir ready in
      (
        ap (λ x. x.dir) thrown,
        ap (λ x. x.table) thrown,
        ap (λ x. x.heat) thrown,
        ap (λ x. x.options) thrown,
        λ j behind.
            ap (λ x. lookup j x.map.markers) thrown
            ∙ unfold update_map_markers in
              simp (ready, bad_dir)
                (lookup-place_behind d s.map.markers k j e sorted known bad behind),
      )
