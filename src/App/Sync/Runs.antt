-- ===== src/App/Sync/Runs.antt =====
-- The page stays in step with the directory through every interleaving of events once the map has
-- been opened, and what goes wrong before.
use mathlib.Core.Path.{subst}
use meshtastic_proxy.App.Listed.{IsListed, IsPlaced, mark_favorite-IsListed}
use meshtastic_proxy.Base.{
  ℕ, List, [], ◌∷◌, Bool, true, false, ◌&&◌, Option, none, some, if◌then◌else◌, ◌≡◌, refl, sym, ap,
  ◌∙◌, Bool-cases, inl, inr, All, Locale,
}
use meshtastic_proxy.Base.NumMap.{NumMap, lookup}
use meshtastic_proxy.Directory.{Entry, dir_or_empty}
use meshtastic_proxy.Trace.Route.{is_some}
use meshtastic_proxy.Sse.{metrics, holds_back}
use meshtastic_proxy.Nodes.Actions.{mark_favorite}
use meshtastic_proxy.Map.Heat.Stable.{update_heatmap_same}
use meshtastic_proxy.App.{
  App, map_tab, Event, directory, snapshot, server, pause_pressed, show_tab, acts, acts_on_map,
  favorite_set, refresh_timer, is_table_shown, kind_of,
}
use meshtastic_proxy.App.Steps.{init_map, switch_tab, on_snapshot, step, run}
use meshtastic_proxy.App.Points.{points-mark_favorite}
use meshtastic_proxy.App.Sync.{Synced, Drawn, redraw-Synced}
use meshtastic_proxy.App.Sync.Handlers.{on_action-Synced, on_map_action-Synced, switch_tab-Synced}
use meshtastic_proxy.App.Sync.Listeners.{refresh_map-Synced, on_update-Synced}

-- A directory that comes whole lists each node once, in the order of its number. The coordinates of
-- a node come together: both are there, also one that is 0, or the node has no position.
abbrev pub IsOrdered : Event → Type 0
IsOrdered (directory d) = IsListed d
IsOrdered (snapshot (some d)) = IsListed d
IsOrdered (snapshot none) = Unit
IsOrdered (server u) = IsPlaced u
IsOrdered pause_pressed = Unit
IsOrdered (show_tab t) = Unit
IsOrdered (acts a) = Unit
IsOrdered (acts_on_map a) = Unit
IsOrdered (favorite_set n b) = Unit
IsOrdered refresh_timer = Unit

module _ {ℓ} {R : Type ℓ} (loc : Locale) (curve : ℕ → ℕ → R) where
  drawn : (s : App R) → Synced loc curve s → Drawn loc curve s
  drawn s v = record { ready = v.ready; sorted = v.sorted; heat = v.heat }

  favorite_set-Synced :
      (now n : ℕ) (b : Bool) (s : App R)
      → Synced loc curve s
      → Synced loc curve (step loc curve now (favorite_set n b) s)
  unfolding step
  favorite_set-Synced now n b s v = elim (Bool-cases (is_some (lookup n (dir_or_empty s.dir)))) [
    | inl found ↦ simp found (
        redraw-Synced loc curve (record s { dir = mark_favorite n b s.dir })
          (record {
            ready = v.ready;
            sorted = mark_favorite-IsListed n b s.dir v.sorted;
            heat =
                update_heatmap_same curve s.dir (mark_favorite n b s.dir) s.heat
                  (λ mode. points-mark_favorite curve mode n b s.dir v.sorted.sorted)
                ∙ v.heat;
          }))
    | inr missing ↦ simp missing v
  ]

  unless :
      (b : Bool) (s t : App R)
      → Synced loc curve s
      → Synced loc curve t
      → Synced loc curve (if b then s else t)
  unless true s t v w = v
  unless false s t v w = w

  snapshot-Synced :
      (now : ℕ) (o : Option (NumMap Entry)) (s : App R)
      → Synced loc curve s
      → IsOrdered (snapshot o)
      → Synced loc curve (on_snapshot loc curve now o s)
  unfolding on_snapshot
  snapshot-Synced now none s v h = v
  snapshot-Synced now (some d) s v h =
      refresh_map-Synced loc curve now (record s { dir = some d }) v.ready refl h

  -- One event on a page that is in step.
  pub step-Synced :
      (now : ℕ) (e : Event) (s : App R)
      → Synced loc curve s
      → IsOrdered e
      → Synced loc curve (step loc curve now e s)
  unfolding step
  step-Synced now (directory d) s v h =
      refresh_map-Synced loc curve now (record s { dir = some d }) v.ready refl h
  step-Synced now (snapshot o) s v h =
      unless (s.paused && holds_back metrics) s _ v (snapshot-Synced now o s v h)
  step-Synced now (server u) s v h =
      unless (s.paused && holds_back (kind_of u)) s _ v (on_update-Synced loc curve now u s h v)
  step-Synced now pause_pressed s v h = record {
    ready = v.ready;
    sorted = v.sorted;
    heat = v.heat;
    table = v.table;
  }
  step-Synced now (show_tab t) s v h = switch_tab-Synced loc curve now t s v
  step-Synced now (acts a) s v h = on_action-Synced loc curve a s v
  step-Synced now (acts_on_map a) s v h = on_map_action-Synced loc curve now a s v
  step-Synced now (favorite_set n b) s v h = favorite_set-Synced now n b s v
  step-Synced now refresh_timer s v h =
      unless (is_table_shown s) _ s (redraw-Synced loc curve s (drawn s v)) v

  run-Synced :
      (es : List (ℕ × Event)) (s : App R)
      → Synced loc curve s
      → All (λ e. IsOrdered e.1) es
      → Synced loc curve (run loc curve es s)
  unfolding run
  run-Synced [] s v h = v
  run-Synced ((now, e) ∷ es) s v h =
      run-Synced es (step loc curve now e s) (step-Synced now e s v h.0) h.1

  opened-Synced :
      (now : ℕ) (s : App R) (d : NumMap Entry)
      → s.dir ≡ some d
      → IsListed d
      → s.map.ready ≡ false
      → Synced loc curve (step loc curve now (show_tab map_tab) s)
  unfolding step switch_tab init_map
  opened-Synced now s d known sorted closed = simp closed (
      refresh_map-Synced loc curve now
        (record s { tab = map_tab; map = record s.map { ready = true } }) refl (ap is_some known)
        (subst IsListed (sym (ap dir_or_empty known)) sorted))

  -- The map is opened for the first time on a page that knows the nodes, in whatever state its panels
  -- are. The directory lists each node once, in order, and a node that has a position has both
  -- coordinates; so does every directory that comes whole later, and a position that comes has both
  -- coordinates (elsewhere a drawing throws). From then on, through any events of the server and the
  -- user, a table that is shown holds the rows and the counter that drawing it again would give, and so
  -- do the layer and the legend of the heat map.
  pub opened_run-Synced :
      (now : ℕ) (es : List (ℕ × Event)) (s : App R) (d : NumMap Entry)
      → s.dir ≡ some d
      → IsListed d
      → s.map.ready ≡ false
      → All (λ e. IsOrdered e.1) es
      → Synced loc curve (run loc curve ((now, show_tab map_tab) ∷ es) s)
  unfolding run
  opened_run-Synced now es s d known sorted closed ordered =
      run-Synced es (step loc curve now (show_tab map_tab) s)
        (opened-Synced now s d known sorted closed) ordered
